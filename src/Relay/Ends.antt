-- ===== src/Relay/Ends.antt =====
-- How a run of the loops ends, whatever was handed to it: in a state, or with a block freed twice.
-- What waits can be brought to an end.
use spadia.Common.{
  All, ℕ, zero, suc, ◌+◌, ◌-◌, ◌*◌, ◌≤◌, ◌≡◌, refl, ◌∙◌, ap, ◌⊎◌, inl, inr, Bool-cases, true, List,
  [], ◌∷◌, ◌++◌, length, arith, Run, done, fault, stuck, bad_free, ◌>>=◌, bind_assoc,
}
use mathlib.Core.Path.{fun_ext}
use spadia.Relay.Kept.{IsAccepted}
use spadia.Relay.{
  alloc, Relay, Task, Request, is_in, remove, pick, send_data, release, async_cb, send_u, Move,
  run_task, close_handle, complete, take_task, take_handle, take_request, step, run_moves,
}

-- The run ends in a state that meets `P`, or frees what is not allocated.
abbrev pub Ends : (Relay → Type 0) → Run Relay → Type 0
Ends P (done s) = P s
Ends P (fault e) = e ≡ bad_free
Ends P stuck = ⊥

pub Ends-bind :
    (P Q : Relay → Type 0) (m : Run Relay) (f : Relay → Run Relay)
    → Ends P m
    → ((s : Relay) → P s → Ends Q (f s))
    → Ends Q (m >>= f)
Ends-bind P Q (done s) f p k = k s p
Ends-bind P Q (fault e) f p k = p
Ends-bind P Q stuck f p k = p

pub Ends-map :
    (P Q : Relay → Type 0) (m : Run Relay) → Ends P m → ((s : Relay) → P s → Q s) → Ends Q m
Ends-map P Q (done s) p f = f s p
Ends-map P Q (fault e) p f = p
Ends-map P Q stuck p f = p

pub Ends-both :
    (P Q : Relay → Type 0) (m : Run Relay) → Ends P m → Ends Q m → Ends (λ s. P s × Q s) m
Ends-both P Q (done s) p q = (p, q)
Ends-both P Q (fault e) p q = p
Ends-both P Q stuck p q = p

-- A run that cannot end in a state frees what is not allocated.
pub Ends-never :
    (P : Relay → Type 0) (m : Run Relay) → Ends P m → ((s : Relay) → P s → ⊥) → m ≡ fault bad_free
Ends-never P (done s) p f = absurd (f s p)
Ends-never P (fault e) p f = ap fault p
Ends-never P stuck p f = absurd p

pub release-Ends :
    (P : Relay → Type 0) (b : ℕ) (s : Relay)
    → (is_in b s.live ≡ true → P (record s { live = remove b s.live }))
    → Ends P (release b s)
unfolding release
release-Ends P b s h = elim (Bool-cases (is_in b s.live)) [
  | inl found ↦ rw found (h found)
  | inr lost ↦ rw lost refl
]

pub run_moves-append :
    (ms ns : List Move) (s : Relay) → run_moves (ms ++ ns) s ≡ (run_moves ms s >>= run_moves ns)
unfolding run_moves
run_moves-append [] ns s = refl
run_moves-append (m ∷ ms) ns s =
    ap (λ f. step m s >>= f) (fun_ext (λ t. run_moves-append ms ns t))
    ∙ bind_assoc (step m s) (run_moves ms) (run_moves ns)

-- How many moves what waits can still take.
abbrev pub work : Relay → ℕ
work s = 3 * length s.tasks + length s.closing + length s.requests

-- One move on a list that waits: it takes work away, or there is none.
abbrev Works : ℕ → Relay → Relay → Type 0
Works waiting s t =
    (suc (work t) ≤ work s)
    ⊎ ((length t.tasks ≡ length s.tasks)
        × (length t.closing ≡ length s.closing)
        × (length t.requests ≡ length s.requests)
        × (waiting ≡ 0))

take_task-Works :
    (s : Relay) (ts : List Task)
    → length s.tasks ≡ length ts
    → Ends (Works (length ts) s) (take_task true (pick 0 ts) s)
unfolding take_task async_cb send_data alloc
take_task-Works s [] e = inr (refl, refl, refl, refl)
take_task-Works s (t ∷ ts) e =
    let sent = send_data true t.packet (record s { tasks = ts }) in
    release-Ends _ t.func (record sent { closing = t.handle ∷ sent.closing })
      (λ found. inl (omega (arith, e)))

take_handle-Works :
    (s : Relay) (hs : List ℕ)
    → length s.closing ≡ length hs
    → Ends (Works (length hs) s) (take_handle (pick 0 hs) s)
unfolding take_handle
take_handle-Works s [] e = inr (refl, refl, refl, refl)
take_handle-Works s (h ∷ hs) e =
    release-Ends _ h (record s { closing = hs }) (λ found. inl (omega (arith, e)))

take_request-Works :
    (s : Relay) (rs : List Request)
    → length s.requests ≡ length rs
    → Ends (Works (length rs) s) (take_request (pick 0 rs) s)
unfolding take_request send_u release
take_request-Works s [] e = inr (refl, refl, refl, refl)
take_request-Works s (r ∷ rs) e =
    Ends-bind (λ t. suc (work t) ≤ work s) _ (release r.block (record s { requests = rs }))
      (release r.req)
      (release-Ends _ r.block (record s { requests = rs }) (λ found. omega (arith, e)))
      (λ t less. release-Ends _ r.req t (λ found. inl less))

-- A task, a handle and a request in turn, the first of each that waits.
unfoldable pub tick : List Move
tick = run_task true 0 ∷ close_handle 0 ∷ complete 0 ∷ []

Works-three :
    (s s1 s2 s3 : Relay)
    → Works (length s.tasks) s s1
    → Works (length s1.closing) s1 s2
    → Works (length s2.requests) s2 s3
    → work s3 ≤ work s - 1
Works-three s s1 s2 s3 a b c = ground (arith, a, b, c)

tick-Ends : (s : Relay) → Ends (λ t. work t ≤ work s - 1) (run_moves tick s)
unfolding tick run_moves step
tick-Ends s =
    Ends-bind (Works (length s.tasks) s) _ (step (run_task true 0) s) _
      (take_task-Works s s.tasks refl)
      (λ s1 a.
        Ends-bind (Works (length s1.closing) s1) _ (step (close_handle 0) s1) _
          (take_handle-Works s1 s1.closing refl)
          (λ s2 b.
            Ends-bind (Works (length s2.requests) s2) _ (step (complete 0) s2) done
              (take_request-Works s2 s2.requests refl) (λ s3 c. Works-three s s1 s2 s3 a b c)))

-- `n` rounds.
unfoldable pub finish : ℕ → List Move
unfolding tick
finish zero = []
finish (suc n) = tick ++ finish n

pub finish-IsAccepted : (n : ℕ) → All IsAccepted (finish n)
unfolding finish
finish-IsAccepted zero = tt
finish-IsAccepted (suc n) = (refl, (tt, (tt, finish-IsAccepted n)))

-- As many rounds as there is work leave nothing that waits.
pub finish-Ends : (n : ℕ) (s : Relay) → work s ≤ n → Ends (λ t. work t ≡ 0) (run_moves (finish n) s)
unfolding finish run_moves
finish-Ends zero s less = omega arith
finish-Ends (suc n) s less = rw (run_moves-append tick (finish n) s) (
    Ends-bind (λ t. work t ≤ work s - 1) _ (run_moves tick s) (run_moves (finish n)) (tick-Ends s)
      (λ t h. finish-Ends n t (omega arith)))
