-- ===== src/Session/Lost/Count.antt =====
-- `RTPLostSession::AddPacket`, rtp_session_manager.cpp: `totalLost` and the entries of the table.
use spadia.Common.{
  ℕ, zero, suc, ◌+◌, ◌-◌, ◌%◌, ◌^◌, ◌≤◌, ◌<◌, ◌≡◌, ◌≢◌, refl, ◌&&◌, Yields-done, inl, inr, List, [],
  ◌∷◌, ltb, leb, ◌==◌, if◌then◌else◌, length, get_or, set, replicate, length-set, length-replicate,
  arith, done, Yields, Bool-cases, leb→le, ==→eq, ==_refl, le→leb, lt→ltb, ◌∙◌, sym,
}
use spadia.Rtp.Packet.{RtpPacket, ext_seq_num}
use spadia.Session.Lost.{
  table_size, PacketInfo, no_info, new_info, LostSession, is_count_in_total_lost, reset, slot,
  uncounted, skip_one, skip_loop, take_slot, start, answer, add_future, refreshed, add_refreshed,
  add_packet,
}

pub weight : PacketInfo → ℕ
weight i = if is_count_in_total_lost i then 1 else 0

pub count_lost : List PacketInfo → ℕ
count_lost [] = 0
count_lost (i ∷ is) = weight i + count_lost is

count_lost-le : (is : List PacketInfo) → count_lost is ≤ length is
unfolding count_lost weight
count_lost-le [] = omega arith
count_lost-le (i ∷ is) = ground (arith, count_lost-le is)

count_lost-set :
    (is : List PacketInfo) (k : ℕ) (v : PacketInfo)
    → k < length is
    → count_lost (set is k v) + weight (get_or is k no_info) ≡ count_lost is + weight v
unfolding count_lost
count_lost-set [] k v h = absurd (omega arith)
count_lost-set (i ∷ is) zero v h = omega arith
count_lost-set (i ∷ is) (suc k) v h = omega (arith, count_lost-set is k v (omega arith))

count_lost-replicate : (n : ℕ) → count_lost (replicate n no_info) ≡ 0
unfolding count_lost weight is_count_in_total_lost
count_lost-replicate zero = refl
count_lost-replicate (suc n) = omega (arith, count_lost-replicate n)

-- A session between two calls of `AddPacket`.
pub record IsValid (s : LostSession) : Type 0 where
  pub full : length s.packets ≡ table_size
  pub counted : s.total_lost ≡ count_lost s.packets
  pub not_started : s.next_seq ≡ 0 → s.total_lost ≡ 0
  pub in_range : s.next_seq < 2 ^ 32

weight-le : (i : PacketInfo) → weight i ≤ 1
unfolding weight
weight-le i = ground arith

-- Counting a slot out does not wrap.
uncounted-weight :
    (s : LostSession) (i : ℕ)
    → s.total_lost ≡ count_lost s.packets
    → length s.packets ≡ table_size
    → i < table_size
    → uncounted s i + weight (slot s i) ≡ s.total_lost
unfolding uncounted weight
uncounted-weight s i c f h =
    ground (arith, count_lost-set s.packets i no_info, count_lost-le s.packets)

weight-missing : (q now : ℕ) → weight (record (new_info q 0) { loss_at_time = now }) ≡ 1
unfolding weight is_count_in_total_lost
weight-missing q now = refl

weight-arrived : (q t : ℕ) → t ≢ 0 → weight (new_info q t) ≡ 0
unfolding weight is_count_in_total_lost
weight-arrived q t h = ground arith

-- One number skipped.
pub skip_one-IsValid :
    (s : LostSession) (now : ℕ)
    → IsValid s
    → s.next_seq + 1 < 2 ^ 32
    → IsValid (skip_one s now) × ((skip_one s now).next_seq ≡ s.next_seq + 1)
unfolding skip_one
skip_one-IsValid s now v h =
    let i = s.next_seq % table_size in
    let info = record (new_info s.next_seq 0) { loss_at_time = now } in
    let c = count_lost-set s.packets i info (omega (arith, v.full)) in
    let u = uncounted-weight s i v.counted v.full (omega arith) in
    let n = count_lost-le (set s.packets i info) in
    let l = length-set s.packets i info in
    (
      record {
        full = l ∙ v.full;
        counted = omega (arith, c, u, n, l, v.full, v.counted, weight-missing s.next_seq now);
        not_started = λ e. absurd (omega arith);
        in_range = omega arith;
      },
      omega arith,
    )

-- The loop ends at `extSeq`, which is what the assertion behind it asks.
pub skip_loop-IsValid :
    (fuel : ℕ) (s : LostSession) (ext_seq now : ℕ)
    → IsValid s
    → ext_seq < 2 ^ 32
    → s.next_seq + fuel ≡ ext_seq
    → IsValid (skip_loop fuel s ext_seq now) × ((skip_loop fuel s ext_seq now).next_seq ≡ ext_seq)
unfolding skip_loop
skip_loop-IsValid zero s ext_seq now v h e = (v, omega arith)
skip_loop-IsValid (suc fuel) s ext_seq now v h e =
    let (v1, n1) = skip_one-IsValid s now v (omega arith) in
    rw (lt→ltb s.next_seq ext_seq (omega arith))
      (skip_loop-IsValid fuel (skip_one s now) ext_seq now v1 h (omega (arith, n1)))

-- The packet in its slot: nothing else of the table changes.
pub take_slot-IsValid :
    (s : LostSession) (ext_seq now : ℕ) → IsValid s → now ≢ 0 → IsValid (take_slot s ext_seq now)
unfolding take_slot
take_slot-IsValid s ext_seq now v h =
    let i = ext_seq % table_size in
    let info = new_info ext_seq now in
    let c = count_lost-set s.packets i info (omega (arith, v.full)) in
    let u = uncounted-weight s i v.counted v.full (omega arith) in
    let w = weight-arrived ext_seq now h in
    record {
      full = length-set s.packets i info ∙ v.full;
      counted = omega (arith, c, u, w, v.counted);
      not_started = λ e. omega (arith, v.not_started e, u);
      in_range = v.in_range;
    }

-- What a call of `AddPacket` returns: the count of the session that it leaves.
abbrev pub Counted : ℕ × LostSession → Type 0
Counted r = IsValid r.1 × (r.0 ≡ r.1.total_lost)

answer-Counted : (s : LostSession) → IsValid s → Yields Counted (answer s)
unfolding answer
answer-Counted s v =
    let n = count_lost-le s.packets in
    rw (le→leb s.total_lost table_size (omega (arith, v.counted, v.full))) (v, refl)

add_future-Counted :
    (s : LostSession) (ext_seq now : ℕ)
    → IsValid s
    → now ≢ 0
    → ext_seq + 1 < 2 ^ 32
    → s.next_seq ≤ ext_seq
    → Yields Counted (add_future s ext_seq now)
unfolding add_future
add_future-Counted s ext_seq now v h fits ahead =
    let s1 = skip_loop (ext_seq - s.next_seq) s ext_seq now in
    let (v1, n1) =
      skip_loop-IsValid (ext_seq - s.next_seq) s ext_seq now v (omega arith) (omega arith) in
    let v2 = take_slot-IsValid s1 ext_seq now v1 h in
    rw (n1, ==_refl ext_seq)
      (answer-Counted _ (record {
        full = v2.full;
        counted = v2.counted;
        not_started = λ e. absurd (omega arith);
        in_range = omega arith;
      }))

pub start-IsValid :
    (s : LostSession) (ext_seq now : ℕ)
    → IsValid s
    → now ≢ 0
    → s.next_seq ≡ 0
    → ext_seq + 1 < 2 ^ 32
    → IsValid (start s ext_seq now)
unfolding start
start-IsValid s ext_seq now v h e fits =
    let i = ext_seq % table_size in
    let info = new_info ext_seq now in
    let c = count_lost-set s.packets i info (omega (arith, v.full)) in
    let w = weight-arrived ext_seq now h in
    record {
      full = length-set s.packets i info ∙ v.full;
      counted = omega (arith, c, w, v.counted, v.not_started e);
      not_started = λ e. absurd (omega arith);
      in_range = omega arith;
    }

pub reset-IsValid : IsValid reset
unfolding reset
reset-IsValid = record {
  full = length-replicate table_size no_info;
  counted = sym (count_lost-replicate table_size);
  not_started = λ _. refl;
  in_range = omega arith;
}

add_refreshed-Counted :
    (s : LostSession) (ext_seq now : ℕ)
    → IsValid s
    → now ≢ 0
    → ext_seq + 1 < 2 ^ 32
    → Yields Counted (add_refreshed s ext_seq now)
unfolding add_refreshed
add_refreshed-Counted s ext_seq now v h fits = elim (Bool-cases (s.next_seq == 0)) [
  | inl first ↦ rw first (start-IsValid s ext_seq now v h (==→eq _ _ first) fits, start-total_lost)
  | inr later ↦ rw later (elim (Bool-cases (leb s.next_seq ext_seq)) [
    | inl ahead ↦ rw ahead (add_future-Counted s ext_seq now v h fits (leb→le _ _ ahead))
    | inr behind ↦ rw behind (answer-Counted _ (take_slot-IsValid s ext_seq now v h))
  ])
]
  where
    start-total_lost : s.total_lost ≡ (start s ext_seq now).total_lost
    start-total_lost = unfold start in refl

refreshed-IsValid : (s : LostSession) (ext_seq : ℕ) → IsValid s → IsValid (refreshed s ext_seq)
unfolding refreshed
refreshed-IsValid s ext_seq v =
    elim (Bool-cases (ltb s.next_seq ext_seq && leb (table_size - 1) (ext_seq - s.next_seq))) [
      | inl far ↦ rw far reset-IsValid
      | inr near ↦ rw near v
    ]

-- Any packet with a receive time and a number below 2 ^ 32 - 1 is taken: no assertion fails,
-- what is returned is the new `totalLost`, and that is the number of missing packets in the table.
pub add_packet-IsValid :
    (s : LostSession) (packet : RtpPacket)
    → IsValid s
    → packet.recv_time_ms ≢ 0
    → ext_seq_num packet + 1 < 2 ^ 32
    → (r : ℕ × LostSession) × (add_packet s packet ≡ done r) × Counted r
unfolding add_packet
add_packet-IsValid s packet v h fits =
    Yields-done Counted _
      (add_refreshed-Counted (refreshed s n) n packet.recv_time_ms (refreshed-IsValid s n v) h fits)
  where
    n : ℕ
    n = ext_seq_num packet

pub total_lost-le : (s : LostSession) → IsValid s → s.total_lost ≤ table_size
total_lost-le s v = omega (arith, count_lost-le s.packets, v.counted, v.full)
