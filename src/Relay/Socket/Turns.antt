-- ===== src/Relay/Socket/Turns.antt =====
-- What one turn of the loop does on the shared socket.
use spadia.Common.{
  ℕ, suc, ◌+◌, ◌<◌, ◌≡◌, refl, ap, Bool, true, false, not, ◌&&◌, ◌||◌, List, [], ◌∷◌, length, count,
  Option, none, some, if◌then◌else◌, arith, Bool-cases, inl, inr, Run, done, fault, stuck,
  out_of_bounds, Yields, Yields-bind,
}
use spadia.Relay.{is_in, alloc, is_positive, is_zero, pick}
use spadia.Relay.Kept.{keep}
use spadia.Relay.Sound.{total, is_at, IsPick, pick-IsPick, alloc-Sound, leak-Sound}
use spadia.Relay.Socket.{
  Send, Serving, Datagram, free, on_answer, read_s, read_late, complete_send, Turn, receive,
  finish_send, turn,
}
use spadia.Relay.Socket.Left.{is_response, is_answered, is_refused, is_queued, late_by, left_by}
use spadia.Relay.Socket.Held.{
  Held, Waits, late_count, late_at, reqs, Sound-same, free-Held, on_answer-Held,
}

-- The run ends in a state that meets `P`, or, where a response was kept, reads freed memory.
abbrev pub Ends : (Serving → Type 0) → Bool → Run Serving → Type 0
Ends P late (done s) = P s
Ends P late (fault e) = (e ≡ out_of_bounds) × (late ≡ true)
Ends P late stuck = ⊥

Ends-Yields : (P : Serving → Type 0) (late : Bool) (m : Run Serving) → Yields P m → Ends P late m
Ends-Yields P late (done s) h = h
Ends-Yields P late (fault e) h = absurd h
Ends-Yields P late stuck h = absurd h

module _ {late : Bool} {n : ℕ} where
  alloc-Held :
      (s : Serving)
      → Held late n [] s
      → Held late n (s.heap.next ∷ []) (record s { heap = alloc s.heap })
  unfolding alloc
  alloc-Held s h = record {
    waits = h.waits;
    idle = h.idle;
    sound = alloc-Sound s.heap h.sound;
    gone = λ a l. ground (arith, h.gone a l, h.old a l);
    old = λ a l. omega (arith, h.old a l);
  }

  leak-Held : (b : ℕ) (s : Serving) → Held late n (b ∷ []) s → Held late (suc n) [] s
  leak-Held b s h = record {
    waits = h.waits;
    idle = h.idle;
    sound = leak-Sound b s.heap h.sound;
    gone = h.gone;
    old = h.old;
  }

  -- The buffer is freed or kept.
  close-Held :
      (base : ℕ) (nothing : Bool) (s : Serving)
      → Held late n (base ∷ []) s
      → Yields (Held late (keep (not nothing) n) []) (if nothing then free base s else done s)
  close-Held base true s h = free-Held base s h
  close-Held base false s h = leak-Held base s h

  on_data-Held :
      (base : ℕ) (called : Bool) (d : Datagram) (s : Serving)
      → Held late n (base ∷ []) s
      → Yields
          (Held
            (called && is_response d.answer && is_queued d.sending || late)
            (keep (called && is_response d.answer && is_refused d.sending) n)
            (base ∷ []))
          (if called then on_answer d.answer d.sending s else done s)
  on_data-Held base true d s h = on_answer-Held d.answer d.sending s h
  on_data-Held base false d s h = h

read_s-Held :
    (late : Bool) (n base : ℕ) (d : Datagram) (s : Serving)
    → Held late n (base ∷ []) s
    → Yields (Held (late_by (receive d) late) (left_by (receive d) n) []) (read_s base d s)
unfolding read_s
read_s-Held late n base d s h =
    let called = d.has_addr && (is_positive d.nread && d.has_data) in
    let kept = keep (is_answered d && is_refused d.sending) n in
    Yields-bind (Held (late_by (receive d) late) kept (base ∷ []))
      (Held (late_by (receive d) late) (left_by (receive d) n) [])
      (if called then on_answer d.answer d.sending s else done s)
      (λ t. if is_zero d.nread && not d.has_addr then free base t else done t)
      (on_data-Held base called d s h)
      (λ t after. close-Held base (is_zero d.nread && not d.has_addr) t after)

is_in-none : (a : ℕ) (xs : List ℕ) → count a xs ≡ 0 → is_in a xs ≡ false
is_in-none a [] h = refl
is_in-none a (x ∷ xs) h = ground (arith, is_in-none a xs)

count-reqs : (a : ℕ) (ws : List Send) → count a (reqs ws) ≡ total (λ w. is_at a w.req) ws
count-reqs a [] = refl
count-reqs a (w ∷ ws) = ground (arith, count-reqs a ws)

length-reqs : (ws : List Send) → length (reqs ws) ≡ length ws
length-reqs [] = refl
length-reqs (w ∷ ws) = ap suc (length-reqs ws)

Waits-late : (late : Bool) (ws : List Send) → Waits late ws → 0 < total late_count ws → late ≡ true
Waits-late true ws h late_waits = refl
Waits-late false ws h late_waits = absurd (omega (arith, h))

Waits-same :
    (late : Bool) (ws vs : List Send)
    → total late_count ws ≡ total late_count vs
    → Waits late ws
    → Waits late vs
Waits-same true ws vs e h = omega (arith, h)
Waits-same false ws vs e h = omega (arith, h)

module _ (late : Bool) (n : ℕ) (s : Serving) (w : Send) (rest : List Send)
    (longer : length s.sends ≡ suc (length rest))
    (same : (f : Send → ℕ) → total f s.sends ≡ f w + total f rest) (h : Held late n [] s) where
  -- The code owns the request that it takes out.
  taken : w.is_late ≡ false → Held late n (w.req ∷ []) (record s { sends = rest })
  taken e = record {
    waits = Waits-same late s.sends rest (ground (arith, same late_count, e)) h.waits;
    idle = h.idle;
    sound =
        Sound-same n (reqs s.sends) (w.req ∷ reqs rest) s.heap
          (λ a. ground (arith, count-reqs a s.sends, count-reqs a rest, same (λ v. is_at a v.req)))
          (omega (arith, length-reqs s.sends, length-reqs rest, longer)) h.sound;
    gone = λ a l. h.gone a (omega (arith, l, same (late_at a)));
    old = λ a l. h.old a (omega (arith, l, same (late_at a)));
  }

  is_in-late : w.is_late ≡ true → is_in w.block s.heap.live ≡ false
  is_in-late e =
      is_in-none w.block s.heap.live (h.gone w.block (ground (arith, same (late_at w.block), e)))

  complete-Ends : Ends (Held late n []) late (complete_send (some (w, rest)) s)
  unfolding complete_send read_late
  complete-Ends = elim (Bool-cases w.is_late) [
    | inl e ↦
        rw (e, is_in-late e)
          (refl, Waits-late late s.sends h.waits (ground (arith, same late_count, e)))
    | inr e ↦ rw e (
        Ends-Yields (Held late n []) late _ (free-Held w.req (record s { sends = rest }) (taken e)))
  ]

pub complete_send-Ends :
    (late : Bool) (n : ℕ) (s : Serving) (o : Option (Send × List Send))
    → IsPick s.sends o
    → Held late n [] s
    → Ends (Held late n []) late (complete_send o s)
unfolding complete_send
complete_send-Ends late n s none p h = h
complete_send-Ends late n s (some (w, rest)) (longer, same) h =
    complete-Ends late n s w rest longer same h

pub turn-Ends :
    (late : Bool) (n : ℕ) (t : Turn) (s : Serving)
    → Held late n [] s
    → Ends (Held (late_by t late) (left_by t n) []) (late_by t late) (turn t s)
unfolding turn
turn-Ends late n (receive d) s h =
    let t = record s { heap = alloc s.heap } in
    Ends-Yields (Held (late_by (receive d) late) (left_by (receive d) n) [])
      (late_by (receive d) late) (read_s s.heap.next d t)
      (read_s-Held late n s.heap.next d t (alloc-Held s h))
turn-Ends late n (finish_send k) s h =
    complete_send-Ends late n s (pick k s.sends) (pick-IsPick k s.sends) h
