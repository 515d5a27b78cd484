-- ===== src/Relay/Watched.antt =====
-- What each operation does to a block that has more owners than it should.
use spadia.Common.{
  ◌⊎◌, All, ℕ, ◌+◌, ◌≤◌, ◌<◌, ◌≡◌, ◌≢◌, inl, inr, Bool, Bool-cases, true, false, not, ◌&&◌, List,
  [], ◌∷◌, Option, none, some, if◌then◌else◌, count, arith, done,
}
use spadia.Stream.{on_rtp}
use spadia.Connection.{Outcome, responded, took_rtcp, took_rtp}
use spadia.Relay.{
  Relay, Task, Request, Arrival, is_positive, is_zero, pick, alloc, release, async, send_data,
  async_cb, send_u, send_new, on_media_data, on_outcome, read_u, Move, arrive, run_task,
  close_handle, complete, take_task, take_handle, take_request, step, run_moves,
}
use spadia.Relay.Sound.{owned, is_at, task_owns, request_owns, IsPick, pick-IsPick, count-remove}
use spadia.Relay.Kept.{IsAccepted}
use spadia.Relay.Ends.{Ends, Ends-bind, release-Ends}

-- Where `w` says so, block `a` has more owners than it stands in the list of live blocks.
pub record Watched (w : Bool) (a : ℕ) (hand : List ℕ) (s : Relay) : Type 0 where
  pub fresh : (b : ℕ) → s.next ≤ b → count b s.live ≡ 0
  pub old : w ≡ true → a < s.next
  pub over : w ≡ true → count a s.live < owned a s + count a hand

module _ {w : Bool} {a : ℕ} {hand : List ℕ} where
  pub hold-Watched : (b : ℕ) (s : Relay) → Watched w a hand s → Watched w a (b ∷ hand) s
  hold-Watched b s h = record { fresh = h.fresh; old = h.old; over = λ e. ground (arith, h.over e) }

  pub drop-Watched :
      (b : ℕ) (s : Relay) → (w ≡ true → a ≢ b) → Watched w a (b ∷ hand) s → Watched w a hand s
  drop-Watched b s apart h = record {
    fresh = h.fresh;
    old = h.old;
    over = λ e. ground (arith, h.over e, apart e);
  }

  pub alloc-Watched : (s : Relay) → Watched w a hand s → Watched w a hand (alloc s)
  unfolding alloc
  alloc-Watched s h = record {
    fresh = λ b above. ground (arith, h.fresh b);
    old = λ e. omega (arith, h.old e);
    over = λ e. ground (arith, h.over e, h.old e);
  }

  release-Watched :
      (b : ℕ) (s : Relay) → Watched w a (b ∷ hand) s → Ends (Watched w a hand) (release b s)
  release-Watched b s h = release-Ends (Watched w a hand) b s (λ found. record {
    fresh = λ c above. omega (arith, h.fresh c above, count-remove c b s.live found);
    old = h.old;
    over = λ e. ground (arith, h.over e, count-remove a b s.live found);
  })

  -- A refused send leaves the block to nobody.
  send_data-Watched :
      (accepted : Bool) (b : ℕ) (s : Relay)
      → (w ≡ true → (accepted ≡ true) ⊎ (a ≢ b))
      → Watched w a (b ∷ hand) s
      → Watched w a hand (send_data accepted b s)
  unfolding send_data alloc
  send_data-Watched true b s k h = record {
    fresh = λ c above. ground (arith, h.fresh c);
    old = λ e. omega (arith, h.old e);
    over = λ e. ground (arith, h.over e, h.old e);
  }
  send_data-Watched false b s k h = record {
    fresh = λ c above. ground (arith, h.fresh c);
    old = λ e. omega (arith, h.old e);
    over = λ e. ground (arith, h.over e, h.old e, k e);
  }

  pub async-Watched : (b : ℕ) (s : Relay) → Watched w a hand s → Watched w a hand (async b s)
  unfolding async alloc
  async-Watched b s h = record {
    fresh = λ c above. ground (arith, h.fresh c);
    old = λ e. omega (arith, h.old e);
    over = λ e. ground (arith, h.over e, h.old e);
  }

  pub send_new-Watched :
      (accepted : Bool) (s : Relay) → Watched w a hand s → Watched w a hand (send_new accepted s)
  unfolding send_new
  send_new-Watched accepted s h =
      send_data-Watched accepted s.next (alloc s) (λ e. inr (omega (arith, h.old e)))
        (hold-Watched s.next (alloc s) (alloc-Watched s h))

  pub on_media_data-Watched :
      (b : ℕ) (sinks : List ℕ) (s : Relay)
      → Watched w a hand s
      → Watched w a hand (on_media_data b sinks s)
  unfolding on_media_data
  on_media_data-Watched b [] s h = h
  on_media_data-Watched b (x ∷ xs) s h =
      on_media_data-Watched b xs (async b s) (async-Watched b s h)

  on_outcome-Watched :
      (b : ℕ) (sinks : List ℕ) (accepted : Bool) (o : Outcome) (s : Relay)
      → Watched w a hand s
      → Watched w a hand (on_outcome b sinks accepted o s)
  unfolding on_outcome
  on_outcome-Watched b sinks accepted (responded size block) s h = send_new-Watched accepted s h
  on_outcome-Watched b sinks accepted (took_rtcp items) s h = h
  on_outcome-Watched b sinks accepted (took_rtp none packet) s h = on_media_data-Watched b sinks s h
  on_outcome-Watched b sinks accepted (took_rtp (some sent) packet) s h =
      on_media_data-Watched b sinks (send_new accepted s) (send_new-Watched accepted s h)

module _ {w : Bool} {a : ℕ} where
  pub finish-Watched :
      (base : ℕ) (nothing : Bool) (s : Relay)
      → (w ≡ true → a ≢ base)
      → Watched w a (base ∷ []) s
      → Ends (Watched w a []) (if nothing then release base s else done s)
  finish-Watched base true s apart h = release-Watched base s h
  finish-Watched base false s apart h = drop-Watched base s apart h

  read_u-Watched :
      (base : ℕ) (r : Arrival) (sinks : List ℕ) (s : Relay)
      → (w ≡ true → a ≢ base)
      → Watched w a (base ∷ []) s
      → Ends (Watched w a []) (read_u base r sinks s)
  unfolding read_u
  read_u-Watched base r sinks s apart h = elim (Bool-cases (is_positive r.nread && r.has_data)) [
    | inl read ↦ rw read (
        finish-Watched base (is_zero r.nread && not r.has_addr) _ apart
          (on_outcome-Watched base sinks r.accepted r.outcome s h))
    | inr other ↦ rw other (finish-Watched base (is_zero r.nread && not r.has_addr) s apart h)
  ]

  take_task-Watched :
      (accepted : Bool) (s : Relay) (o : Option (Task × List Task))
      → (w ≡ true → accepted ≡ true)
      → IsPick s.tasks o
      → Watched w a [] s
      → Ends (Watched w a []) (take_task accepted o s)
  unfolding take_task async_cb
  take_task-Watched accepted s none k p h = h
  take_task-Watched accepted s (some (t, rest)) k (_, same) h =
      let sent = send_data accepted t.packet (record s { tasks = rest }) in
      let after : Watched w a (t.func ∷ t.handle ∷ []) sent =
        send_data-Watched accepted t.packet (record s { tasks = rest }) (λ e. inl (k e))
          (record {
            fresh = h.fresh;
            old = h.old;
            over = λ e. ground (arith, h.over e, same (task_owns a));
          }) in
      release-Watched t.func (record sent { closing = t.handle ∷ sent.closing })
        (record { fresh = after.fresh; old = after.old; over = λ e. ground (arith, after.over e) })

  take_handle-Watched :
      (s : Relay) (o : Option (ℕ × List ℕ))
      → IsPick s.closing o
      → Watched w a [] s
      → Ends (Watched w a []) (take_handle o s)
  unfolding take_handle
  take_handle-Watched s none p h = h
  take_handle-Watched s (some (x, rest)) (_, same) h =
      release-Watched x (record s { closing = rest })
        (record {
          fresh = h.fresh;
          old = h.old;
          over = λ e. ground (arith, h.over e, same (is_at a));
        })

  take_request-Watched :
      (s : Relay) (o : Option (Request × List Request))
      → IsPick s.requests o
      → Watched w a [] s
      → Ends (Watched w a []) (take_request o s)
  unfolding take_request send_u
  take_request-Watched s none p h = h
  take_request-Watched s (some (r, rest)) (_, same) h =
      Ends-bind (Watched w a (r.req ∷ [])) (Watched w a [])
        (release r.block (record s { requests = rest })) (release r.req)
        (release-Watched r.block (record s { requests = rest })
          (record {
            fresh = h.fresh;
            old = h.old;
            over = λ e. ground (arith, h.over e, same (request_owns a));
          }))
        (release-Watched r.req)

  step-Watched :
      (m : Move) (s : Relay)
      → (w ≡ true → IsAccepted m)
      → Watched w a [] s
      → Ends (Watched w a []) (step m s)
  unfolding step alloc
  step-Watched (arrive r alive m) s k h =
      read_u-Watched s.next r (on_rtp alive m) (alloc s) (λ e. omega (arith, h.old e))
        (hold-Watched s.next (alloc s) (alloc-Watched s h))
  step-Watched (run_task accepted n) s k h =
      take_task-Watched accepted s (pick n s.tasks) k (pick-IsPick n s.tasks) h
  step-Watched (close_handle n) s k h =
      take_handle-Watched s (pick n s.closing) (pick-IsPick n s.closing) h
  step-Watched (complete n) s k h =
      take_request-Watched s (pick n s.requests) (pick-IsPick n s.requests) h

  pub run_moves-Watched :
      (ms : List Move) (s : Relay)
      → (w ≡ true → All IsAccepted ms)
      → Watched w a [] s
      → Ends (Watched w a []) (run_moves ms s)
  unfolding run_moves
  run_moves-Watched [] s k h = h
  run_moves-Watched (m ∷ ms) s k h =
      Ends-bind (Watched w a []) (Watched w a []) (step m s) (run_moves ms)
        (step-Watched m s (λ e. (k e).0) h) (λ t. run_moves-Watched ms t (λ e. (k e).1))
