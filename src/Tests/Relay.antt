-- ===== src/Tests/Relay.antt =====
-- A connection that relays the RTP packet of the examples, to one sink and to two.
use spadia.Common.{
  ◌*◌, ℕ, ◌≡◌, refl, pos, ◌≤◌, true, false, List, [], ◌∷◌, ◌++◌, ◌+◌, All, length, count, none,
  done, fault, bad_free, arith,
}
use spadia.Stream.{as_it_stands, MediaStream, told, on_rtp}
use spadia.Connection.{took_rtp, took_rtcp}
use spadia.Relay.{
  Arrival, Relay, new_relay, Move, arrive, run_task, close_handle, complete, run_moves, step, alloc,
  release, async, send_data, async_cb, send_u, on_media_data, send_new, on_outcome, read_u,
  take_task, take_handle, take_request,
}
use spadia.Relay.Sound.{owned, pending}
use spadia.Relay.Kept.{IsNarrow, kept}
use spadia.Relay.Safe.{run_moves_frees_once}
use spadia.Relay.Ends.{finish}
use spadia.Relay.Twice.{run_moves_frees_twice}
use spadia.Tests.Rtp.{taken}

abbrev packet_read : Arrival
packet_read = record {
  nread = pos 23;
  has_addr = true;
  has_data = true;
  outcome = took_rtp none taken;
  accepted = true;
}

abbrev nothing_read : Arrival
nothing_read = record {
  nread = pos 0;
  has_addr = false;
  has_data = true;
  outcome = took_rtcp [];
  accepted = true;
}

abbrev reports_read : Arrival
reports_read = record {
  nread = pos 28;
  has_addr = true;
  has_data = true;
  outcome = took_rtcp [];
  accepted = true;
}

abbrev one_sink : MediaStream
one_sink = record { iteration = as_it_stands; sinks = (b'a' ∷ [], 1) ∷ [] }

abbrev two_sinks : MediaStream
two_sinks = record { iteration = as_it_stands; sinks = (b'a' ∷ [], 1) ∷ (b'b' ∷ [], 2) ∷ [] }

abbrev quiet_moves : List Move
quiet_moves =
    arrive packet_read (λ _. true) one_sink
    ∷ run_task true 0
    ∷ arrive nothing_read (λ _. true) one_sink
    ∷ arrive reports_read (λ _. true) one_sink
    ∷ complete 0
    ∷ close_handle 0
    ∷ []

quiet_moves-IsNarrow : All IsNarrow quiet_moves
unfolding on_rtp told
quiet_moves-IsNarrow = (omega arith, (tt, (omega arith, (omega arith, (tt, (tt, tt))))))

-- The buffer of the reports stays.
quiet_run :
    run_moves quiet_moves new_relay
    ≡ done (record { next = 7; live = 6 ∷ []; tasks = []; closing = []; requests = [] })
unfolding run_moves step alloc read_u on_outcome on_media_data async on_rtp told take_task async_cb
    send_data release take_handle take_request send_u send_new
quiet_run = refl

run_moves_frees_once_example :
    (s : Relay) × (run_moves quiet_moves new_relay ≡ done s)
    × ((a : ℕ) → owned a s ≤ count a s.live)
    × ((a : ℕ) → count a s.live ≤ 1)
    × ((lost : ℕ) × (lost ≤ 0) × (length s.live ≡ pending s + kept quiet_moves 0 + 2 * lost))
run_moves_frees_once_example = run_moves_frees_once quiet_moves quiet_moves-IsNarrow

-- A send that is refused leaves the packet and the request.
abbrev refused_moves : List Move
refused_moves = arrive packet_read (λ _. true) one_sink ∷ run_task false 0 ∷ close_handle 0 ∷ []

refused_run :
    run_moves refused_moves new_relay
    ≡ done (record { next = 5; live = 4 ∷ 1 ∷ []; tasks = []; closing = []; requests = [] })
unfolding run_moves step alloc read_u on_outcome on_media_data async on_rtp told take_task async_cb
    send_data release take_handle
refused_run = refl

two_told : 2 ≤ length (on_rtp (λ _. true) two_sinks)
unfolding on_rtp told
two_told = omega arith

run_moves_frees_twice_example :
    (n : ℕ) × (run_moves
        (quiet_moves ++ arrive packet_read (λ _. true) two_sinks ∷ run_task true 1 ∷ [] ++ finish n)
        new_relay
      ≡ fault bad_free)
run_moves_frees_twice_example =
    run_moves_frees_twice packet_read (λ _. true) two_sinks none taken refl refl two_told
      quiet_moves (run_task true 1 ∷ []) (refl, tt)
