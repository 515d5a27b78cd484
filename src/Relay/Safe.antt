-- ===== src/Relay/Safe.antt =====
-- A run of the loops where a packet goes to one sink at most.
use spadia.Common.{
  ◌*◌, Yields-map, ℕ, ◌+◌, ◌≤◌, ◌≡◌, refl, ℤ, pos, negsuc, Bool, true, false, not, ◌&&◌, List, [],
  ◌∷◌, length, All, Option, none, some, if◌then◌else◌, arith, done, Yields, Yields-bind,
  Yields-done, count, Bool-cases, inl, inr,
}
use spadia.Stream.{on_rtp}
use spadia.Connection.{Outcome, responded, took_rtcp, took_rtp}
use spadia.Relay.{
  Relay, new_relay, alloc, Task, Request, Arrival, is_positive, is_zero, pick, release, send_data,
  async_cb, send_u, send_new, on_media_data, on_outcome, read_u, Move, arrive, run_task,
  close_handle, complete, take_task, take_handle, take_request, step, run_moves,
}
use spadia.Relay.Sound.{
  pending, owned, is_at, task_owns, request_owns, Sound, IsPick, pick-IsPick, alloc-Sound,
  release-Sound, async-Sound, leak-Sound, Sound-same, Lossy, Sound-Lossy, send_data-Lossy,
  send_new-Lossy,
}
use spadia.Relay.Kept.{
  is_passed_on, is_kept, keep, kept_by, kept, IsNarrow, refused_by, refusals, kept-add,
}

pub positive_nonzero : (z : ℤ) (b : Bool) → (is_positive z && b) ≡ true → is_zero z ≡ false
positive_nonzero (pos k) true e = ground arith
positive_nonzero (pos k) false e = ground arith
positive_nonzero (negsuc k) b e = refl

module _ {n : ℕ} where
  on_media_data-Sound :
      (base : ℕ) (sink : ℕ) (sinks : List ℕ) (s : Relay)
      → length (sink ∷ sinks) ≤ 1
      → Sound n (base ∷ []) s
      → Sound n [] (on_media_data base (sink ∷ sinks) s)
  unfolding on_media_data
  on_media_data-Sound base sink [] s one h = async-Sound base s h
  on_media_data-Sound base sink (x ∷ sinks) s one h = absurd (omega (arith, one))

module _ {n : ℕ} where
  on_outcome-Lossy :
      (base : ℕ) (sinks : List ℕ) (accepted : Bool) (o : Outcome) (s : Relay)
      → length sinks ≤ 1
      → Sound n (base ∷ []) s
      → Lossy
          (if accepted then 0 else 1)
          n
          (if is_passed_on sinks o then [] else base ∷ [])
          (on_outcome base sinks accepted o s)
  unfolding on_outcome on_media_data
  on_outcome-Lossy base [] accepted (responded size block) s one h = send_new-Lossy accepted s h
  on_outcome-Lossy base [] accepted (took_rtcp items) s one h = Sound-Lossy _ s h
  on_outcome-Lossy base [] accepted (took_rtp none packet) s one h = Sound-Lossy _ s h
  on_outcome-Lossy base [] accepted (took_rtp (some sent) packet) s one h =
      send_new-Lossy accepted s h
  on_outcome-Lossy base (x ∷ xs) accepted (responded size block) s one h =
      send_new-Lossy accepted s h
  on_outcome-Lossy base (x ∷ xs) accepted (took_rtcp items) s one h = Sound-Lossy _ s h
  on_outcome-Lossy base (x ∷ xs) accepted (took_rtp none packet) s one h =
      Sound-Lossy _ _ (on_media_data-Sound base x xs s one h)
  on_outcome-Lossy base (x ∷ xs) accepted (took_rtp (some sent) packet) s one h =
      let answered = send_new-Lossy accepted s h in
      record {
        lost = answered.lost;
        few = answered.few;
        sound = on_media_data-Sound base x xs (send_new accepted s) one answered.sound;
      }

  close-Lossy :
      (limit base : ℕ) (passed : Bool) (s : Relay)
      → Lossy limit n (if passed then [] else base ∷ []) s
      → Lossy limit (keep (not passed) n) [] s
  close-Lossy limit base true s h = h
  close-Lossy limit base false s h = record {
    lost = h.lost;
    few = h.few;
    sound = Sound-same (omega arith) (leak-Sound base s h.sound);
  }

  -- No datagram for the connection: the buffer is freed or kept.
  idle-Sound :
      (base : ℕ) (nothing : Bool) (s : Relay)
      → Sound n (base ∷ []) s
      → Yields (Sound (keep (not nothing) n) []) (if nothing then release base s else done s)
  idle-Sound base true s h = release-Sound base s h
  idle-Sound base false s h = leak-Sound base s h

  read_u-Lossy :
      (base : ℕ) (a : Arrival) (sinks : List ℕ) (s : Relay)
      → length sinks ≤ 1
      → Sound n (base ∷ []) s
      → Yields
          (Lossy (if a.accepted then 0 else 1) (keep (is_kept a sinks) n) [])
          (read_u base a sinks s)
  unfolding read_u
  read_u-Lossy base a sinks s one h = elim (Bool-cases (is_positive a.nread && a.has_data)) [
    | inl read ↦
        rw (read, positive_nonzero a.nread a.has_data read)
          (close-Lossy _ base (is_passed_on sinks a.outcome) _
            (on_outcome-Lossy base sinks a.accepted a.outcome s one h))
    | inr other ↦ rw other (
        Yields-map (Sound (keep (not (is_zero a.nread && not a.has_addr)) n) []) _ _
          (idle-Sound base (is_zero a.nread && not a.has_addr) s h) (Sound-Lossy _))
  ]

  take_task-Lossy :
      (accepted : Bool) (s : Relay) (o : Option (Task × List Task))
      → IsPick s.tasks o
      → Sound n [] s
      → Yields (Lossy (if accepted then 0 else 1) n []) (take_task accepted o s)
  unfolding take_task async_cb
  take_task-Lossy accepted s none p h = Sound-Lossy _ s h
  take_task-Lossy accepted s (some (t, rest)) (longer, same) h =
      let sent = send_data accepted t.packet (record s { tasks = rest }) in
      let after : Lossy (if accepted then 0 else 1) n (t.func ∷ t.handle ∷ []) sent =
        send_data-Lossy accepted t.packet (record s { tasks = rest })
          (record {
            live_owned = λ a. ground (arith, h.live_owned a, same (task_owns a));
            live_once = h.live_once;
            fresh = h.fresh;
            balance = omega (arith, h.balance, longer);
          }) in
      Yields-map (Sound (2 * after.lost + n) []) _ _
        (release-Sound t.func (record sent { closing = t.handle ∷ sent.closing })
          (record {
            live_owned = λ a. ground (arith, after.sound.live_owned a);
            live_once = after.sound.live_once;
            fresh = after.sound.fresh;
            balance = omega (arith, after.sound.balance);
          }))
        (λ u sound. record { lost = after.lost; few = after.few; sound = sound })

  take_handle-Sound :
      (s : Relay) (o : Option (ℕ × List ℕ))
      → IsPick s.closing o
      → Sound n [] s
      → Yields (Sound n []) (take_handle o s)
  unfolding take_handle
  take_handle-Sound s none p h = h
  take_handle-Sound s (some (x, rest)) (longer, same) h =
      release-Sound x (record s { closing = rest })
        (record {
          live_owned = λ a. ground (arith, h.live_owned a, same (is_at a));
          live_once = h.live_once;
          fresh = h.fresh;
          balance = omega (arith, h.balance, longer);
        })

  take_request-Sound :
      (s : Relay) (o : Option (Request × List Request))
      → IsPick s.requests o
      → Sound n [] s
      → Yields (Sound n []) (take_request o s)
  unfolding take_request send_u
  take_request-Sound s none p h = h
  take_request-Sound s (some (r, rest)) (longer, same) h =
      Yields-bind (Sound n (r.req ∷ [])) (Sound n [])
        (release r.block (record s { requests = rest })) (release r.req)
        (release-Sound r.block (record s { requests = rest })
          (record {
            live_owned = λ a. ground (arith, h.live_owned a, same (request_owns a));
            live_once = h.live_once;
            fresh = h.fresh;
            balance = omega (arith, h.balance, longer);
          }))
        (release-Sound r.req)

  step-Lossy :
      (m : Move) (s : Relay)
      → IsNarrow m
      → Sound n [] s
      → Yields (Lossy (refused_by m) (kept_by m n) []) (step m s)
  unfolding step
  step-Lossy (arrive a alive m) s one h =
      read_u-Lossy s.next a (on_rtp alive m) (alloc s) one (alloc-Sound s h)
  step-Lossy (run_task accepted k) s one h =
      take_task-Lossy accepted s (pick k s.tasks) (pick-IsPick k s.tasks) h
  step-Lossy (close_handle k) s one h =
      Yields-map (Sound n []) _ _
        (take_handle-Sound s (pick k s.closing) (pick-IsPick k s.closing) h) (Sound-Lossy 0)
  step-Lossy (complete k) s one h =
      Yields-map (Sound n []) _ _
        (take_request-Sound s (pick k s.requests) (pick-IsPick k s.requests) h) (Sound-Lossy 0)

run_moves-Lossy :
    (ms : List Move) (n : ℕ) (s : Relay)
    → All IsNarrow ms
    → Sound n [] s
    → Yields (Lossy (refusals ms) (kept ms n) []) (run_moves ms s)
unfolding run_moves
run_moves-Lossy [] n s one h = Sound-Lossy 0 s h
run_moves-Lossy (m ∷ ms) n s (one, ones) h =
    Yields-bind (Lossy (refused_by m) (kept_by m n) [])
      (Lossy (refusals (m ∷ ms)) (kept ms (kept_by m n)) []) (step m s) (run_moves ms)
      (step-Lossy m s one h)
      (λ t first.
        Yields-map (Lossy (refusals ms) (kept ms (2 * first.lost + kept_by m n)) []) _ _
          (run_moves-Lossy ms (2 * first.lost + kept_by m n) t ones first.sound)
          (λ u later. record {
            lost = first.lost + later.lost;
            few = omega (arith, first.few, later.few);
            sound =
                Sound-same (omega (arith, kept-add ms (2 * first.lost) (kept_by m n))) later.sound;
          }))

-- From a start, in whatever order the loops take what waits for them, as long as at most one sink is
-- told of a packet, no block is freed that is not allocated; and what is allocated in the end is what
-- the tasks, handles and requests that wait will free, the receive buffers of all datagrams but
-- those that were passed on, and two blocks, the request and its data, for each of some of the sends
-- that libuv refused (a move may name a send that does not take place).
pub run_moves_frees_once :
    (ms : List Move)
    → All IsNarrow ms
    → (s : Relay) × (run_moves ms new_relay ≡ done s)
      × ((a : ℕ) → owned a s ≤ count a s.live)
      × ((a : ℕ) → count a s.live ≤ 1)
      × ((lost : ℕ) × (lost ≤ refusals ms) × (length s.live ≡ pending s + kept ms 0 + 2 * lost))
run_moves_frees_once ms one =
    let (s, e, h) = Yields-done (Lossy (refusals ms) (kept ms 0) []) (run_moves ms new_relay) (
      run_moves-Lossy ms 0 new_relay one (record {
        live_owned = λ a. omega arith;
        live_once = λ a. omega arith;
        fresh = λ a above. refl;
        balance = refl;
      })) in
    (
      s,
      e,
      (λ a. omega (arith, h.sound.live_owned a)),
      h.sound.live_once,
      (h.lost, h.few, omega (arith, h.sound.balance)),
    )
