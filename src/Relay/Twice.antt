-- ===== src/Relay/Twice.antt =====
-- A run of the loops where a packet goes to two sinks or more.
use spadia.Common.{
  All, ℕ, ◌≤◌, ◌<◌, ◌≡◌, ◌∙◌, refl, ap, Bool, true, false, ◌&&◌, List, [], ◌∷◌, ◌++◌, length, none,
  some, count, arith, Run, done, fault, stuck, bad_free, ◌>>=◌,
}
use spadia.Rtp.Packet.{RtpPacket}
use spadia.Session.Manager.{Sent}
use spadia.Stream.{MediaStream, on_rtp}
use spadia.Connection.{took_rtp}
use spadia.Relay.{
  send_data, Relay, new_relay, Arrival, is_positive, alloc, async, send_new, on_media_data,
  on_outcome, read_u, Move, arrive, step, run_moves,
}
use spadia.Relay.Kept.{IsAccepted}
use spadia.Relay.Safe.{positive_nonzero}
use spadia.Relay.Sound.{is_at, total, task_owns, request_owns}
use spadia.Relay.Ends.{
  Ends, Ends-bind, Ends-map, Ends-never, Ends-both, run_moves-append, work, finish, finish-Ends,
  finish-IsAccepted,
}
use spadia.Relay.Watched.{Watched, on_media_data-Watched, run_moves-Watched}

-- Two tasks for the only allocation of a block.
async_twice :
    (base : ℕ) (s : Relay)
    → base < s.next
    → count base s.live ≤ 1
    → ((b : ℕ) → s.next ≤ b → count b s.live ≡ 0)
    → Watched true base [] (async base (async base s))
unfolding async alloc
async_twice base s old once fresh = record {
  fresh = λ b above. ground (arith, fresh b);
  old = λ e. omega (arith, old);
  over = λ e. ground (arith, old, once);
}

on_media_data_twice :
    (base : ℕ) (sinks : List ℕ) (s : Relay)
    → 2 ≤ length sinks
    → base < s.next
    → count base s.live ≤ 1
    → ((b : ℕ) → s.next ≤ b → count b s.live ≡ 0)
    → Watched true base [] (on_media_data base sinks s)
unfolding on_media_data
on_media_data_twice base [] s two old once fresh = absurd (omega (arith, two))
on_media_data_twice base (x ∷ []) s two old once fresh = absurd (omega (arith, two))
on_media_data_twice base (x ∷ y ∷ zs) s two old once fresh =
    on_media_data-Watched base zs _ (async_twice base s old once fresh)

on_outcome_twice :
    (sinks : List ℕ) (accepted : Bool) (sent : Sent) (packet : RtpPacket) (s : Relay)
    → 2 ≤ length sinks
    → ((b : ℕ) → s.next ≤ b → count b s.live ≡ 0)
    → Watched true s.next [] (on_outcome s.next sinks accepted (took_rtp sent packet) (alloc s))
unfolding on_outcome send_new send_data alloc
on_outcome_twice sinks accepted none packet s two fresh =
    on_media_data_twice s.next sinks (alloc s) two (omega arith) (ground (arith, fresh s.next))
      (λ b above. ground (arith, fresh b))
on_outcome_twice sinks true (some x) packet s two fresh =
    on_media_data_twice s.next sinks (send_new true (alloc s)) two (omega arith)
      (ground (arith, fresh s.next)) (λ b above. ground (arith, fresh b))
on_outcome_twice sinks false (some x) packet s two fresh =
    on_media_data_twice s.next sinks (send_new false (alloc s)) two (omega arith)
      (ground (arith, fresh s.next)) (λ b above. ground (arith, fresh b))

total-nothing {ℓ} : {A : Type ℓ} (w : A → ℕ) (xs : List A) → length xs ≡ 0 → total w xs ≡ 0
total-nothing w [] h = refl
total-nothing w (x ∷ xs) h = absurd (omega (arith, h))

-- Where nothing waits, nothing owns a block.
Watched-work : (a : ℕ) (s : Relay) → Watched true a [] s → work s ≡ 0 → ⊥
Watched-work a s h none_waits =
    let no_tasks = total-nothing (task_owns a) s.tasks (omega (arith, none_waits)) in
    let no_handles = total-nothing (is_at a) s.closing (omega (arith, none_waits)) in
    let no_requests = total-nothing (request_owns a) s.requests (omega (arith, none_waits)) in
    omega (arith, h.over refl, no_tasks, no_handles, no_requests)

abbrev IsWatched : Relay → Type 0
IsWatched s = (a : ℕ) × Watched true a [] s

-- What follows on a block with too many owners.
never_comes_to_rest :
    (m : Run Relay) → Ends IsWatched m → (n : ℕ) × ((m >>= run_moves (finish n)) ≡ fault bad_free)
never_comes_to_rest (done s) (a, h) = (
  work s,
  Ends-never _ (run_moves (finish (work s)) s)
      (Ends-both (Watched true a []) (λ t. work t ≡ 0) (run_moves (finish (work s)) s)
        (run_moves-Watched (finish (work s)) s (λ _. finish-IsAccepted (work s)) h)
        (finish-Ends (work s) s (omega arith)))
      (λ t (watched, rest). Watched-work a t watched rest),
)
never_comes_to_rest (fault e) h = (0, ap fault h)
never_comes_to_rest stuck h = absurd h

module _ (r : Arrival) (alive : ℕ → Bool) (m : MediaStream) (sent : Sent) (packet : RtpPacket)
    (read : (is_positive r.nread && r.has_data) ≡ true) (rtp : r.outcome ≡ took_rtp sent packet)
    (two : 2 ≤ length (on_rtp alive m)) where
  arrive_twice :
      (s : Relay) → Watched false 0 [] s → Ends (Watched true s.next []) (step (arrive r alive m) s)
  unfolding step read_u
  arrive_twice s h =
      rw (read, positive_nonzero r.nread r.has_data read, rtp)
        (on_outcome_twice (on_rtp alive m) r.accepted sent packet s two h.fresh)

  twice-IsWatched :
      (before after : List Move)
      → All IsAccepted after
      → Ends IsWatched (run_moves (before ++ arrive r alive m ∷ after) new_relay)
  unfolding run_moves
  twice-IsWatched before after accepted =
      rw (run_moves-append before (arrive r alive m ∷ after) new_relay) (
        Ends-bind (Watched false 0 []) IsWatched (run_moves before new_relay)
          (run_moves (arrive r alive m ∷ after))
          (run_moves-Watched before new_relay (λ e. absurd (ground arith))
            (record {
              fresh = λ b above. refl;
              old = λ e. absurd (ground arith);
              over = λ e. absurd (ground arith);
            }))
          (λ s h.
            Ends-bind (Watched true s.next []) IsWatched (step (arrive r alive m) s)
              (run_moves after) (arrive_twice s h)
              (λ t watched.
                Ends-map (Watched true s.next []) IsWatched (run_moves after t)
                  (run_moves-Watched after t (λ _. accepted) watched) (λ u over. (s.next, over)))))

  -- Where two living sinks or more are told of an RTP packet, and libuv accepts the sends of the tasks that
  -- run from then on, a block is freed that is not allocated:
  -- from a start, in whatever order the loops take what waits for them before and after the
  -- packet's arrival, once they have come to rest, after some number of rounds.
  pub run_moves_frees_twice :
      (before after : List Move)
      → All IsAccepted after
      → (n : ℕ) × (run_moves (before ++ arrive r alive m ∷ after ++ finish n) new_relay
          ≡ fault bad_free)
  run_moves_frees_twice before after accepted =
      let (n, e) =
        never_comes_to_rest (run_moves (before ++ arrive r alive m ∷ after) new_relay)
          (twice-IsWatched before after accepted) in
      (n, run_moves-append (before ++ arrive r alive m ∷ after) (finish n) new_relay ∙ e)
