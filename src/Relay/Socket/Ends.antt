-- ===== src/Relay/Socket/Ends.antt =====
-- How a run on the shared socket ends, once nothing waits.
use spadia.Common.{
  ℕ, zero, suc, ◌-◌, ◌≡◌, refl, ap, ◌∙◌, Bool, true, false, ◌&&◌, ◌||◌, List, [], ◌∷◌, ◌++◌, length,
  some, arith, Fault, Run, done, fault, stuck, out_of_bounds, ◌>>=◌, bind_assoc,
}
use mathlib.Core.Path.{fun_ext}
use spadia.Relay.{Relay, release, pick}
use spadia.Relay.Sound.{pick-IsPick}
use spadia.Relay.Socket.{
  Send, Serving, new_serving, free, read_late, complete_send, Turn, receive, finish_send, turn,
  run_turns,
}
use spadia.Relay.Socket.Left.{late_by, is_late_run, is_answered, is_queued, left_by, left}
use spadia.Relay.Socket.Held.{Held, reqs}
use spadia.Relay.Socket.Turns.{Ends, turn-Ends, complete_send-Ends}

or_true : (b : Bool) → (b || true) ≡ true
or_true true = refl
or_true false = refl

is_late_run-true : (ts : List Turn) → is_late_run ts true ≡ true
is_late_run-true [] = refl
is_late_run-true (receive d ∷ ts) =
    rw (or_true (is_answered d && is_queued d.sending)) (is_late_run-true ts)
is_late_run-true (finish_send k ∷ ts) = is_late_run-true ts

-- Where a response that was kept by then is kept in the end.
Ends-bind :
    (late later : Bool) (P Q : Serving → Type 0) (m : Run Serving) (f : Serving → Run Serving)
    → (late ≡ true → later ≡ true)
    → Ends P late m
    → ((s : Serving) → P s → Ends Q later (f s))
    → Ends Q later (m >>= f)
Ends-bind late later P Q (done s) f up h k = k s h
Ends-bind late later P Q (fault e) f up (out, is_late) k = (out, up is_late)
Ends-bind late later P Q stuck f up h k = absurd h

run_turns-Ends :
    (ts : List Turn) (late : Bool) (n : ℕ) (s : Serving)
    → Held late n [] s
    → Ends (Held (is_late_run ts late) (left ts n) []) (is_late_run ts late) (run_turns ts s)
unfolding run_turns
run_turns-Ends [] late n s h = h
run_turns-Ends (t ∷ ts) late n s h =
    let late_t = late_by t late in
    Ends-bind late_t (is_late_run ts late_t) (Held late_t (left_by t n) [])
      (Held (is_late_run ts late_t) (left ts (left_by t n)) []) (turn t s) (run_turns ts)
      (λ e. ap (is_late_run ts) e ∙ is_late_run-true ts) (turn-Ends late n t s h)
      (λ u after. run_turns-Ends ts late_t (left_by t n) u after)

-- The first of what waits, `n` times.
abbrev pub finish_all : ℕ → List Turn
finish_all zero = []
finish_all (suc n) = finish_send 0 ∷ finish_all n

-- Where a response was kept, freed memory is read; else nothing waits, and `n` blocks stay.
abbrev pub Settles : Bool → ℕ → Run Serving → Type 0
Settles true n m = m ≡ fault out_of_bounds
Settles false n m = (s : Serving) × (m ≡ done s) × (s.sends ≡ []) × (length s.heap.live ≡ n)

Settles-fault :
    (late : Bool) (n : ℕ) (e : Fault) → e ≡ out_of_bounds → late ≡ true → Settles late n (fault e)
Settles-fault late n e out is_late = rw is_late (ap fault out)

abbrev IfDone : (Serving → Type 0) → Run Serving → Type 0
IfDone P (done s) = P s
IfDone P (fault e) = Unit
IfDone P stuck = Unit

Ends-also :
    (P Q : Serving → Type 0) (late : Bool) (m : Run Serving)
    → Ends P late m
    → IfDone Q m
    → Ends (λ t. P t × Q t) late m
Ends-also P Q late (done s) h q = (h, q)
Ends-also P Q late (fault e) h q = h
Ends-also P Q late stuck h q = absurd h

rest_waits :
    (m : Run Relay) (f : Relay → Run Relay) (rest : List Send)
    → IfDone
        (λ t. t.sends ≡ rest)
        (m >>= λ a. f a >>= λ b. done (record { heap = b; sends = rest }))
rest_waits (done a) f rest = rest_of (f a) rest
  where
    rest_of :
        (m : Run Relay) (rest : List Send)
        → IfDone (λ t. t.sends ≡ rest) (m >>= λ b. done (record { heap = b; sends = rest }))
    rest_of (done b) rest = refl
    rest_of (fault e) rest = tt
    rest_of stuck rest = tt
rest_waits (fault e) f rest = tt
rest_waits stuck f rest = tt

IfDone-map :
    (P Q : Serving → Type 0) (m : Run Serving)
    → IfDone P m
    → ((s : Serving) → P s → Q s)
    → IfDone Q m
IfDone-map P Q (done s) h f = f s h
IfDone-map P Q (fault e) h f = tt
IfDone-map P Q stuck h f = tt

-- A completed request is one less that waits.
shorter :
    (s : Serving) (ws : List Send)
    → s.sends ≡ ws
    → IfDone (λ t. length t.sends ≡ length s.sends - 1) (complete_send (pick 0 ws) s)
unfolding complete_send read_late free
shorter s [] e = omega (arith, ap length e)
shorter s (w ∷ ws) e =
    IfDone-map (λ t. t.sends ≡ ws) (λ t. length t.sends ≡ length s.sends - 1)
      (complete_send (some (w, ws)) s) (rest_waits (read_late w s.heap) (release w.req) ws)
      (λ t same. omega (arith, ap length e, ap length same))

nothing_waits :
    (late : Bool) (n : ℕ) (s : Serving) → Held late n [] s → s.sends ≡ [] → Settles late n (done s)
nothing_waits true n s h e = absurd (ground (arith, h.waits, e))
nothing_waits false n s h e =
    (s, refl, e, omega (arith, h.sound.balance, h.idle, ap (λ ws. length (reqs ws)) e))

length-zero : (ws : List Send) → length ws ≡ 0 → ws ≡ []
length-zero [] e = refl
length-zero (w ∷ ws) e = absurd (omega (arith, e))

Settles-bind :
    (late : Bool) (n : ℕ) (P : Serving → Type 0) (m : Run Serving) (f : Serving → Run Serving)
    → Ends P late m
    → ((s : Serving) → P s → Settles late n (f s))
    → Settles late n (m >>= f)
Settles-bind late n P (done s) f h k = k s h
Settles-bind late n P (fault e) f (out, is_late) k = Settles-fault late n e out is_late
Settles-bind late n P stuck f h k = absurd h

finish_all-Settles :
    (k : ℕ) (late : Bool) (n : ℕ) (s : Serving)
    → Held late n [] s
    → length s.sends ≡ k
    → Settles late n (run_turns (finish_all k) s)
unfolding run_turns turn
finish_all-Settles zero late n s h e = nothing_waits late n s h (length-zero s.sends e)
finish_all-Settles (suc k) late n s h e =
    Settles-bind late n (λ t. Held late n [] t × (length t.sends ≡ length s.sends - 1))
      (complete_send (pick 0 s.sends) s) (run_turns (finish_all k))
      (Ends-also (Held late n []) (λ t. length t.sends ≡ length s.sends - 1) late
        (complete_send (pick 0 s.sends) s)
        (complete_send-Ends late n s (pick 0 s.sends) (pick-IsPick 0 s.sends) h)
        (shorter s s.sends refl))
      (λ t (after, less). finish_all-Settles k late n t after (omega (arith, e, less)))

start-Held : Held false 0 [] new_serving
start-Held = record {
  waits = refl;
  idle = refl;
  sound = record {
    live_owned = λ a. omega arith;
    live_once = λ a. omega arith;
    fresh = λ a h. refl;
    balance = refl;
  };
  gone = λ a h. refl;
  old = λ a h. absurd (omega (arith, h));
}

run_turns-append :
    (ts us : List Turn) (s : Serving) → run_turns (ts ++ us) s ≡ (run_turns ts s >>= run_turns us)
unfolding run_turns
run_turns-append [] us s = refl
run_turns-append (t ∷ ts) us s =
    ap (λ f. turn t s >>= f) (fun_ext (λ u. run_turns-append ts us u))
    ∙ bind_assoc (turn t s) (run_turns ts) (run_turns us)

settle :
    (late : Bool) (n : ℕ) (m : Run Serving)
    → Ends (Held late n []) late m
    → (k : ℕ) × Settles late n (m >>= run_turns (finish_all k))
settle late n (done s) h = (length s.sends, finish_all-Settles (length s.sends) late n s h refl)
settle late n (fault e) (out, is_late) = (0, Settles-fault late n e out is_late)
settle late n stuck h = absurd h

-- However the shared socket is read and its requests are completed, from a start, once the rest
-- of them has been completed too: where libuv kept a response in between, the run has read memory
-- that `OnData` had freed; else nothing was freed twice, nothing waits, and what stays allocated is
-- every receive buffer, but those of a read of nothing without an address, and every request
-- that libuv refused.
pub run_turns-Settles :
    (ts : List Turn)
    → (k : ℕ) × Settles
        (is_late_run ts false)
        (left ts 0)
        (run_turns (ts ++ finish_all k) new_serving)
run_turns-Settles ts =
    let (k, h) =
      settle (is_late_run ts false) (left ts 0) (run_turns ts new_serving)
        (run_turns-Ends ts false 0 new_serving start-Held) in
    (k, rw (run_turns-append ts (finish_all k) new_serving) h)
