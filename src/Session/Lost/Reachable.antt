-- ===== src/Session/Lost/Reachable.antt =====
-- The states that a session comes to: from the constructor's, by `AddPacket` and `Reset`.
use spadia.Common.{ℕ, ◌+◌, ◌^◌, ◌≤◌, ◌<◌, ◌≡◌, ◌≢◌, sym, ◌∙◌, ap, subst, Run, done}
use spadia.Rtp.Packet.{RtpPacket, ext_seq_num}
use spadia.Session.Lost.{table_size, LostSession, reset, add_packet}
use spadia.Session.Lost.Count.{
  IsValid, count_lost, total_lost-le, reset-IsValid, add_packet-IsValid,
}

pub data Reachable : LostSession → Type 0 where
  constructed : Reachable reset
  again : {s : LostSession} → Reachable s → Reachable reset
  added :
      {s s' : LostSession} {n : ℕ} (packet : RtpPacket)
      → Reachable s
      → packet.recv_time_ms ≢ 0
      → ext_seq_num packet + 1 < 2 ^ 32
      → add_packet s packet ≡ done (n, s')
      → Reachable s'

abbrev value_of : Run (ℕ × LostSession) → LostSession
value_of (done r) = r.1
value_of m = reset

Reachable-IsValid : {s : LostSession} → Reachable s → IsValid s
Reachable-IsValid constructed = reset-IsValid
Reachable-IsValid (again r) = reset-IsValid
Reachable-IsValid (added {s} {s'} {n} packet r received fits e) =
    let (a, ran, counted) = add_packet-IsValid s packet (Reachable-IsValid r) received fits in
    subst IsValid (ap value_of (sym ran ∙ e)) counted.0

-- However packets come in, lost, late, twice or far ahead, in every state that a session reaches
-- `totalLost` is the number of table entries held for missing, and at most 256; and `AddPacket`
-- takes the next packet that has a receive time and a number below 2 ^ 32 - 1.
pub Reachable-total_lost :
    {s : LostSession}
    → Reachable s
    → (packet : RtpPacket) → packet.recv_time_ms ≢ 0
    → ext_seq_num packet + 1 < 2 ^ 32
    → (s.total_lost ≡ count_lost s.packets)
      × (s.total_lost ≤ table_size)
      × ((r : ℕ × LostSession) × (add_packet s packet ≡ done r) × (r.0 ≡ count_lost r.1.packets))
Reachable-total_lost {s} reached packet received fits =
    let v = Reachable-IsValid reached in
    let (r, ran, counted) = add_packet-IsValid s packet v received fits in
    (v.counted, total_lost-le s v, (r, ran, counted.1 ∙ counted.0.counted))
