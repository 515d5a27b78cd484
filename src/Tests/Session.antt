-- ===== src/Tests/Session.antt =====
-- A session that has seen packet 10, and then packet 14.
use spadia.Common.{ℕ, ◌+◌, ◌≤◌, ◌≡◌, refl, max, arith, done}
use spadia.Rtp.Packet.{RtpPacket, ext_seq_num}
use spadia.Session.Lost.{
  table_size, LostSession, reset, start, add_packet, add_seq, refreshed, add_refreshed,
}
use spadia.Session.Lost.Count.{IsValid, count_lost, reset-IsValid, start-IsValid}
use spadia.Session.Lost.Window.{missing, missing_after, add_packet-missing}
use spadia.Session.Lost.Reachable.{constructed, added, Reachable-total_lost}
use spadia.Tests.Rtp.{taken}

-- The packet of number 10, received at time 40.
abbrev tenth : RtpPacket
tenth = record taken { seq_num = 10 }

tenth_num : ext_seq_num tenth ≡ 10
unfolding ext_seq_num
tenth_num = refl

-- The packet of number 14.
abbrev fourteenth : RtpPacket
fourteenth = record taken { seq_num = 14 }

fourteenth_num : ext_seq_num fourteenth ≡ 14
unfolding ext_seq_num
fourteenth_num = refl

abbrev started : LostSession
started = start reset 10 40

started-IsValid : IsValid started
started-IsValid =
    start-IsValid reset 10 40 reset-IsValid (omega arith) (unfold reset in refl) (omega arith)

started_next : started.next_seq ≡ 11
unfolding start
started_next = refl

-- `AddPacket` from the state of the constructor.
first_added : add_packet reset tenth ≡ done (0, started)
unfolding add_packet add_seq refreshed add_refreshed reset start ext_seq_num
first_added = refl

Reachable-total_lost_example :
    (started.total_lost ≡ count_lost started.packets)
    × (started.total_lost ≤ table_size)
    × ((r : ℕ × LostSession) × (add_packet started fourteenth ≡ done r)
        × (r.0 ≡ count_lost r.1.packets))
Reachable-total_lost_example =
    Reachable-total_lost
      (added tenth constructed (omega arith) (omega (arith, tenth_num)) first_added) fourteenth
      (omega arith) (omega (arith, fourteenth_num))

-- Number 12 is missing once 14 has come.
add_packet-missing_example :
    (r : ℕ × LostSession) × (add_packet started fourteenth ≡ done r)
    × (r.1.next_seq ≡ max started.next_seq (ext_seq_num fourteenth + 1))
    × (missing r.1 12 ≡ missing_after started (ext_seq_num fourteenth) 12)
add_packet-missing_example =
    add_packet-missing started fourteenth 12 started-IsValid (omega arith)
      (omega (arith, fourteenth_num)) (omega (arith, started_next))
      (omega (arith, fourteenth_num, started_next)) (omega (arith, fourteenth_num, started_next))
      (omega (arith, fourteenth_num, started_next)) (omega (arith, fourteenth_num, started_next))
