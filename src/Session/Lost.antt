-- ===== src/Session/Lost.antt =====
-- `RTPIncomingSession::RTPLostSession`: the table of the last 256 sequence numbers, and the count of
-- those that are missing.
pub mod Count
pub mod Window
pub mod Reachable
use spadia.Common.{
  ℕ, zero, suc, ◌+◌, ◌-◌, ◌%◌, ◌^◌, ℤ, pos, negsuc, is_minus_one, Bool, not, ◌&&◌, List, ltb, leb,
  ◌==◌, if◌then◌else◌, u16, u32, u64, max, length, get_or, set, replicate, Run, done, fault,
  assertion, ◌>>=◌,
}
use spadia.Rtp.Packet.{RtpPacket, ext_seq_num}

-- `Size`
abbrev pub table_size : ℕ
table_size = 256

pub record PacketInfo : Type 0 where
  pub loss_at_time : ℕ
  pub created_at_time : ℕ
  pub sent_at_time : ℕ
  pub retry : ℕ
  pub ext_seq : ℤ

-- `PacketInfo()`
abbrev pub no_info : PacketInfo
no_info = record {
  loss_at_time = 0;
  created_at_time = 0;
  sent_at_time = 0;
  retry = 0;
  ext_seq = negsuc 0;
}

-- `PacketInfo(extSeq, create_time)`
abbrev pub new_info : ℕ → ℕ → PacketInfo
new_info ext_seq create_time = record no_info {
  created_at_time = create_time;
  ext_seq = pos ext_seq;
}

pub record LostSession : Type 0 where
  pub packets : List PacketInfo
  pub total_lost : ℕ
  pub next_seq : ℕ

unfoldable pub is_count_in_total_lost : PacketInfo → Bool
is_count_in_total_lost i = i.created_at_time == 0 && not (is_minus_one i.ext_seq)

-- The differences are `uint64_t`; the comparison with `fmax`, in `double`, is exact for what `fmax`
-- can return here, a number below 2 ^ 32.
unfoldable pub is_lost : PacketInfo → ℕ → ℕ → Bool
is_lost i now rtt =
    i.created_at_time == 0
    && ltb 5 (u64 (now + 2 ^ 64 - i.loss_at_time))
    && ltb (max 20 rtt) (u64 (now + 2 ^ 64 - i.sent_at_time))
    && ltb i.retry 20
    && not (is_minus_one i.ext_seq)

-- `Reset`, and the state that the constructor leaves.
unfoldable pub reset : LostSession
reset = record { packets = replicate table_size no_info; total_lost = 0; next_seq = 0 }

-- `packets[i]`, for an index below the table's size.
abbrev pub slot : LostSession → ℕ → PacketInfo
slot s i = get_or s.packets i no_info

-- `if (isCountInTotalLost(packets[i])) totalLost --`, as the new `totalLost`.
unfoldable pub uncounted : LostSession → ℕ → ℕ
unfolding is_count_in_total_lost
uncounted s i =
    if is_count_in_total_lost (slot s i) then u16 (s.total_lost + 2 ^ 16 - 1) else s.total_lost

-- The body of the loop over the numbers that a future packet skips.
unfoldable pub skip_one : LostSession → ℕ → LostSession
unfolding uncounted
skip_one s now =
    let nx = s.next_seq % table_size in
    record {
      packets = set s.packets nx (record (new_info s.next_seq 0) { loss_at_time = now });
      total_lost = u16 (uncounted s nx + 1);
      next_seq = u32 (s.next_seq + 1);
    }

-- `while(nextSeq < extSeq)`
unfoldable pub skip_loop : ℕ → LostSession → ℕ → ℕ → LostSession
skip_loop zero s ext_seq now = s
skip_loop (suc fuel) s ext_seq now =
    let rest = skip_loop fuel (skip_one s now) ext_seq now in
    if ltb s.next_seq ext_seq then rest else s

-- The packet takes its slot.
unfoldable pub take_slot : LostSession → ℕ → ℕ → LostSession
unfolding uncounted
take_slot s ext_seq now =
    let i = ext_seq % table_size in
    record s { packets = set s.packets i (new_info ext_seq now); total_lost = uncounted s i }

-- The first packet: its slot is written and no count is kept.
unfoldable pub start : LostSession → ℕ → ℕ → LostSession
start s ext_seq now = record s {
  packets = set s.packets (ext_seq % table_size) (new_info ext_seq now);
  next_seq = u32 (ext_seq + 1);
}

-- `assert(totalLost <= Size); return totalLost;`
unfoldable pub answer : LostSession → Run (ℕ × LostSession)
answer s = if leb s.total_lost table_size then done (s.total_lost, s) else fault assertion

-- A future packet. The loop makes `extSeq - nextSeq` rounds.
unfoldable pub add_future : LostSession → ℕ → ℕ → Run (ℕ × LostSession)
unfolding skip_loop take_slot answer
add_future s ext_seq now =
    let s1 = skip_loop (ext_seq - s.next_seq) s ext_seq now in
    if s1.next_seq == ext_seq
    then (let s2 = take_slot s1 ext_seq now in
        answer (record s2 { next_seq = u32 (s2.next_seq + 1) }))
    else fault assertion

-- A number too far ahead starts the session afresh.
unfoldable pub refreshed : LostSession → ℕ → LostSession
unfolding reset
refreshed s ext_seq =
    if ltb s.next_seq ext_seq && leb (table_size - 1) (ext_seq - s.next_seq) then reset else s

-- From the test of `nextSeq` on.
unfoldable pub add_refreshed : LostSession → ℕ → ℕ → Run (ℕ × LostSession)
unfolding start add_future take_slot answer
add_refreshed s ext_seq now =
    if s.next_seq == 0
    then done (s.total_lost, start s ext_seq now)
    else (if leb s.next_seq ext_seq
        then add_future s ext_seq now
        else answer (take_slot s ext_seq now))

unfoldable pub add_seq : LostSession → ℕ → ℕ → Run (ℕ × LostSession)
unfolding refreshed add_refreshed
add_seq s ext_seq now = add_refreshed (refreshed s ext_seq) ext_seq now

-- `AddPacket`
unfoldable pub add_packet : LostSession → RtpPacket → Run (ℕ × LostSession)
unfolding add_seq
add_packet s packet = add_seq s (ext_seq_num packet) packet.recv_time_ms
