-- ===== src/Forward/Tasks.antt =====
-- The functions that wait run in any order, while the data of their packets is allocated: each is run
-- once, and sends where its connection's last datagram came from.
use mathlib.Core.List.{Perm, perm_middle}
use mathlib.Core.List.Perm
use spadia.Common.{
  All, false, done, ℕ, zero, suc, ◌≤◌, ◌≡◌, refl, ap, ◌∙◌, subst, List, [], ◌∷◌, ◌++◌, map, length,
  Option, none, some, arith, replicate, ◌⊎◌, inl, inr,
}
use mathlib.Core.List.{append-nil}
use spadia.Relay.{pick, is_in}
use spadia.Forward.{
  Peer, Dispatch, Task, System, send_data, take_task, Move, run_function, step, run_moves,
}

-- What a function that waits sends.
abbrev pub resolve : (ℕ → Peer) → Task → Dispatch
resolve peers t = record {
  from = t.sink;
  to = (peers t.sink).last_remote;
  size = t.packet.size;
  data_block = t.packet.bytes;
}

-- A function runs whose packet has its data; and functions in turn.
unfoldable take_kept : Option (Task × List Task) → System → System
unfolding send_data
take_kept none s = s
take_kept (some (t, rest)) s =
    send_data t.sink (some t.number) t.packet.size t.packet.bytes (record s { tasks = rest })

unfoldable run_kept : List ℕ → System → System
unfolding take_kept
run_kept [] s = s
run_kept (k ∷ ks) s = run_kept ks (take_kept (pick k s.tasks) s)

abbrev IsPicked {ℓ} : {A : Type ℓ} → List A → Option (A × List A) → Type ℓ
IsPicked xs none = Unit
IsPicked xs (some (x, rest)) = Perm xs (x ∷ rest) × (length xs ≡ suc (length rest))

IsPicked-later {ℓ} :
    {A : Type ℓ} (x : A) (xs : List A) (o : Option (A × List A))
    → IsPicked xs o
    → IsPicked (x ∷ xs) (elim o [ none ↦ none | some (y, ys) ↦ some (y, x ∷ ys) ])
IsPicked-later x xs none h = tt
IsPicked-later x xs (some (y, ys)) (same, longer) =
    (Perm.trans (Perm.cons x same) (Perm.swap y x ys), ap suc longer)

pick-IsPicked {ℓ} : {A : Type ℓ} (k : ℕ) (xs : List A) → IsPicked xs (pick k xs)
pick-IsPicked k [] = tt
pick-IsPicked zero (x ∷ xs) = (Perm.refl (x ∷ xs), refl)
pick-IsPicked (suc k) (x ∷ xs) = IsPicked-later x xs (pick k xs) (pick-IsPicked k xs)

-- What has been sent and what will be.
abbrev due : (ℕ → Peer) → System → List Dispatch
due peers s = s.sent ++ map (resolve peers) s.tasks

-- One function runs.
abbrev Follows : System → System → Type 0
Follows s t =
    (t.peers ≡ s.peers) × Perm (due s.peers t) (due s.peers s) × (length t.tasks ≤ length s.tasks)

take_kept-Follows : (s : System) (o : _) → IsPicked s.tasks o → Follows s (take_kept o s)
unfolding take_kept send_data
take_kept-Follows s none h = (refl, Perm.refl (due s.peers s), omega arith)
take_kept-Follows s (some (t, rest)) (same, longer) = (
  refl,
  Perm.trans (Perm.symm (perm_middle s.sent (map (resolve s.peers) rest)))
      (Perm.append_left s.sent (Perm.symm (Perm.map (resolve s.peers) same))),
  omega (arith, longer),
)

run_kept-Follows : (ks : List ℕ) (s : System) → Follows s (run_kept ks s)
unfolding run_kept
run_kept-Follows [] s = (refl, Perm.refl (due s.peers s), omega arith)
run_kept-Follows (k ∷ ks) s =
    let t = take_kept (pick k s.tasks) s in
    let (peers1, due1, shorter1) = take_kept-Follows s (pick k s.tasks) (pick-IsPicked k s.tasks) in
    let (peers2, due2, shorter2) = run_kept-Follows ks t in
    (
      peers2 ∙ peers1,
      Perm.trans (subst (λ p. Perm (due p (run_kept ks t)) (due p t)) peers1 due2) due1,
      omega (arith, shorter1, shorter2),
    )

-- The first that waits, `n` times.
abbrev pub drain : ℕ → List ℕ
drain n = replicate n 0

take_first :
    (s : System) (ts : List Task)
    → s.tasks ≡ ts
    → suc (length (take_kept (pick 0 ts) s).tasks) ≤ length s.tasks
      ⊎ ((take_kept (pick 0 ts) s).tasks ≡ [])
unfolding take_kept send_data
take_first s [] e = inr e
take_first s (t ∷ ts) e = inl (omega (arith, ap length e))

length-zero {ℓ} : {A : Type ℓ} (xs : List A) → length xs ≡ 0 → xs ≡ []
length-zero [] e = refl
length-zero (x ∷ xs) e = absurd (omega (arith, e))

drained : (n : ℕ) (s : System) → length s.tasks ≤ n → (run_kept (drain n) s).tasks ≡ []
unfolding run_kept
drained zero s h = length-zero s.tasks (omega (arith, h))
drained (suc n) s h = drained n (take_kept (pick 0 s.tasks) s) (elim (take_first s s.tasks refl) [
  | inl less ↦ omega (arith, less, h)
  | inr none_left ↦ omega (arith, ap length none_left)
])

run_kept-append :
    (ks ls : List ℕ) (s : System) → run_kept (ks ++ ls) s ≡ run_kept ls (run_kept ks s)
unfolding run_kept
run_kept-append [] ls s = refl
run_kept-append (k ∷ ks) ls s = run_kept-append ks ls (take_kept (pick k s.tasks) s)

-- Once nothing waits, what waited has been sent, by each function once.
run_kept-sent :
    (ks : List ℕ) (s : System)
    → let t = run_kept (ks ++ drain (length s.tasks)) s in
      (t.tasks ≡ []) × Perm t.sent (s.sent ++ map (resolve s.peers) s.tasks)
run_kept-sent ks s =
    let t = run_kept (ks ++ drain (length s.tasks)) s in
    let (_, all_due, _) = run_kept-Follows (ks ++ drain (length s.tasks)) s in
    let (_, _, shorter) = run_kept-Follows ks s in
    let rest : t.tasks ≡ [] =
      rw (run_kept-append ks (drain (length s.tasks)) s)
        (drained (length s.tasks) (run_kept ks s) shorter) in
    (
      rest,
      subst (λ xs. Perm xs (due s.peers s))
          (ap (λ ts. t.sent ++ map (resolve s.peers) ts) rest ∙ append-nil t.sent) all_due,
    )

-- The packets of the functions that wait have their data, and the next packet will.
abbrev pub IsAllocated : System → Type 0
IsAllocated s =
    All (λ (t : Task). is_in t.number s.freed ≡ false) s.tasks
    × (is_in s.next_packet s.freed ≡ false)

abbrev AllPicked {ℓ κ} : {A : Type ℓ} → (A → Type κ) → Option (A × List A) → Type κ
AllPicked P none = Unit
AllPicked P (some (x, rest)) = P x × All P rest

AllPicked-later {ℓ κ} :
    {A : Type ℓ} (P : A → Type κ) (x : A) (o : Option (A × List A))
    → P x
    → AllPicked P o
    → AllPicked P (elim o [ none ↦ none | some (y, ys) ↦ some (y, x ∷ ys) ])
AllPicked-later P x none here h = tt
AllPicked-later P x (some (y, ys)) here (h, hs) = (h, (here, hs))

pick-AllPicked {ℓ κ} :
    {A : Type ℓ} (P : A → Type κ) (k : ℕ) (xs : List A) → All P xs → AllPicked P (pick k xs)
pick-AllPicked P k [] h = tt
pick-AllPicked P zero (x ∷ xs) (here, h) = (here, h)
pick-AllPicked P (suc k) (x ∷ xs) (here, h) =
    AllPicked-later P x (pick k xs) here (pick-AllPicked P k xs h)

take_task-kept :
    (s : System) (o : Option (Task × List Task))
    → All (λ (t : Task). is_in t.number s.freed ≡ false) s.tasks
    → AllPicked (λ (t : Task). is_in t.number s.freed ≡ false) o
    → let u = take_kept o s in
      (take_task o s ≡ done u) × All (λ (t : Task). is_in t.number u.freed ≡ false) u.tasks
unfolding take_task take_kept send_data
take_task-kept s none h picked = (refl, h)
take_task-kept s (some (t, rest)) h (here, others) = (rw here refl, others)

run_moves-kept :
    (ks : List ℕ) (s : System)
    → All (λ (t : Task). is_in t.number s.freed ≡ false) s.tasks
    → run_moves (map run_function ks) s ≡ done (run_kept ks s)
unfolding run_moves step run_kept
run_moves-kept [] s h = refl
run_moves-kept (k ∷ ks) s h =
    let (taken, later) =
      take_task-kept s (pick k s.tasks) h
        (pick-AllPicked (λ (t : Task). is_in t.number s.freed ≡ false) k s.tasks h) in
    rw taken (run_moves-kept ks (take_kept (pick k s.tasks) s) later)

-- The functions of these numbers, then the first that waits until none does.
abbrev pub functions : List ℕ → System → List Move
functions ks s = map run_function (ks ++ drain (length s.tasks))

pub functions-sent :
    (ks : List ℕ) (s : System)
    → All (λ (t : Task). is_in t.number s.freed ≡ false) s.tasks
    → (t : System) × (run_moves (functions ks s) s ≡ done t)
      × (t.tasks ≡ [])
      × Perm t.sent (s.sent ++ map (resolve s.peers) s.tasks)
functions-sent ks s h =
    let (rest, all_sent) = run_kept-sent ks s in
    (_, run_moves-kept (ks ++ drain (length s.tasks)) s h, rest, all_sent)
