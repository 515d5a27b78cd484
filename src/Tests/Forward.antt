-- ===== src/Tests/Forward.antt =====
-- A connection that sends to two others: its packet, and three bytes of anyone.
use mathlib.Core.List.{Mem}
use spadia.Common.{
  fault, out_of_bounds, length-replicate, ℕ, ◌+◌, ◌≡◌, refl, true, false, List, [], ◌∷◌, map,
  length, Option, none, some, done, ◌>>=◌, arith,
}
use spadia.Memory.{Buffer, load, read16, read32}
use spadia.Rtcp.Compound.{is_rtcp}
use spadia.Stun.Packet.{is_stun}
use spadia.Session.Manager.Sent.{agreed, get_extension_id-agreed}
use spadia.Stream.{as_it_stands, on_rtp, told}
use spadia.Common.Dict.{lookup}
use spadia.Rtp.Packet.{new_packet, get_transport_cc_num, read_number}
use spadia.Rtp.Parse as RtpParse
use spadia.Session.Manager
use spadia.Session.Manager.{get_extension_id, find_type, answer_extension, answer_number}
use spadia.Connection.{on_socket_data, handle, handle_rtp, receive_rtp}
use spadia.Forward.{
  Dispatch, System, arrive, deliver, send_feedback, send_data, run_moves, take_task, send_u, step,
  run_function, complete,
}
use spadia.Forward.Tasks.{functions}
use spadia.Forward.Delivery.{IsDelivered, seen, arrive-IsDelivered}
use spadia.Forward.Redirect.{arrive_redirects}
use spadia.Forward.Reached.{arrive_reaches}
use spadia.Tests.{big_endian, big_endian-IsBigEndian, block_of, block_of-IsBytes}
use spadia.Tests.Rtp.{wire, taken, wire_parsed, wire-HasHeader}
use spadia.Tests.Connection.{world}
use spadia.Tests.Stun.{toy_hmac, request, username_read}
use spadia.Tests.Feedback.{entry, entry_found, some_time}
use spadia.Tests.Media.{ready, wire_not_rtcp}

-- Connections 1 and 2 have heard from addresses 101 and 102.
abbrev start : System
start = record {
  peers = λ n. record {
    connection = ready;
    remote_stream = record {
      iteration = as_it_stands;
      sinks = (b'a' ∷ [], 1) ∷ (b'b' ∷ [], 2) ∷ [];
    };
    last_remote = some (100 + n);
  };
  alive = λ n. true;
  tasks = [];
  next_packet = 0;
  freed = [];
  sent = [];
  requests = [];
}

arrive-IsDelivered_example :
    (block : Buffer) × (s1 : System) × (arrive big_endian toy_hmac world 0 77
        (block_of wire)
        23
        start
      ≡ done s1)
    × ((ks : List ℕ)
        → (t : System) × (run_moves (functions ks s1) s1 ≡ done t)
          × IsDelivered 0 77 (seen 40 ready) start (block_of wire) 23 (some (24, block)) t)
    × (read32 big_endian block 8 ≡ done 7)
    × (read16 big_endian block 12 ≡ done 0xAA00)
arrive-IsDelivered_example =
    arrive-IsDelivered big_endian toy_hmac world 0 77 start (block_of wire) 23 (omega arith)
      wire-HasHeader wire_not_rtcp big_endian-IsBigEndian (block_of-IsBytes wire refl) (agreed 1) 1
      (get_extension_id-agreed 1) taken entry wire_parsed entry_found some_time refl refl
      (omega arith) refl (tt, refl)

both_told : on_rtp start.alive (start.peers 0).remote_stream ≡ 1 ∷ 2 ∷ []
unfolding on_rtp told
both_told = refl

arrive_reaches_example :
    (s1 : System) × (s2 : System) × (arrive big_endian toy_hmac world 1 55
        (block_of request)
        29
        start
      ≡ done s1)
    × (arrive big_endian toy_hmac world 0 77 (block_of wire) 23 s1 ≡ done s2)
    × ((ks : List ℕ)
        → (t : System) × (run_moves (functions ks s2) s2 ≡ done t)
          × Mem (record { from = 1; to = some 55; size = 23; data_block = block_of wire }) t.sent)
arrive_reaches_example =
    arrive_reaches big_endian big_endian-IsBigEndian toy_hmac
      (λ key message. length-replicate 20 (length message)) start 1 55 world (block_of request) 29
      (refl, refl) (omega arith) (omega arith)
      (record { username = 97 ∷ 98 ∷ 58 ∷ []; method = 1; kind = 0; trans_id = _ }) username_read 0
      77 (λ same. absurd (omega (arith, same))) [] (2 ∷ []) both_told world (block_of wire) 23
      (omega arith) wire-HasHeader wire_not_rtcp (block_of-IsBytes wire refl) (agreed 1) 1
      (get_extension_id-agreed 1) taken entry wire_parsed entry_found some_time refl refl
      (omega arith) refl (tt, refl)

abbrev junk_bytes : Buffer
junk_bytes = block_of (9 ∷ 9 ∷ 9 ∷ [])

junk_not_stun : is_stun junk_bytes ≡ done false
unfolding is_stun load
junk_not_stun = refl

junk_not_rtcp : is_rtcp junk_bytes 3 ≡ done false
unfolding is_rtcp load
junk_not_rtcp = refl

arrive_redirects_example :
    (s1 : System) × (arrive big_endian toy_hmac world 1 77 junk_bytes 3 start ≡ done s1)
    × ((s1.peers 1).last_remote ≡ some 77)
    × ((ks : List ℕ)
        → (t : System) × (run_moves (functions ks s1) s1 ≡ done t)
          × IsDelivered 1 77 (seen 40 ready) start junk_bytes 3 none t)
arrive_redirects_example =
    arrive_redirects big_endian toy_hmac world junk_bytes 3 (omega arith) junk_not_stun
      junk_not_rtcp (λ (h : _). absurd (omega (arith, h.0))) 1 77 start (agreed 1) refl refl
      (tt, refl)

-- The three bytes that reach connection 0 go on to both sinks, the second first, where neither request
-- has completed; where the first has, its data is read after it was freed.
abbrev whom : Dispatch → ℕ × Option ℕ
whom d = (d.from, d.to)

junk_run :
    (arrive big_endian toy_hmac world 0 77 junk_bytes 3 start >>= λ s1.
    run_moves (run_function 1 ∷ run_function 0 ∷ complete 1 ∷ []) s1 >>= λ s2.
    done (map whom s2.sent))
    ≡ done ((1, some 101) ∷ (2, some 102) ∷ [])
unfolding arrive on_socket_data is_stun load handle handle_rtp receive_rtp is_rtcp RtpParse.parse
    new_packet Manager.add_packet get_extension_id find_type answer_extension get_transport_cc_num
    read_number answer_number lookup deliver send_feedback send_data on_rtp told run_moves step
    take_task send_u Manager.set_extension
junk_run = refl

freed_run :
    (arrive big_endian toy_hmac world 0 77 junk_bytes 3 start
      >>= run_moves (run_function 1 ∷ complete 0 ∷ run_function 0 ∷ []))
    ≡ fault out_of_bounds
unfolding arrive on_socket_data is_stun load handle handle_rtp receive_rtp is_rtcp RtpParse.parse
    new_packet Manager.add_packet get_extension_id find_type answer_extension get_transport_cc_num
    read_number answer_number lookup deliver send_feedback send_data on_rtp told run_moves step
    take_task send_u Manager.set_extension
freed_run = refl
