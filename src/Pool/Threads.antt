-- ===== src/Pool/Threads.antt =====
-- `GetLoop` called by several threads: `index ++` and `index % LOOP_NUM` are two operations on the
-- atomic, and other threads can come in between.
use spadia.Common.{
  ℕ, ◌+◌, ◌%◌, ◌^◌, ◌==◌, ◌≤◌, ◌<◌, ◌≡◌, ◌≢◌, refl, sym, if◌then◌else◌, arith, u8, ==_refl, ne→==,
  false, Bool-cases, inl, inr, subst,
}
use spadia.Pool.{Pool, loop_num}

-- Where a thread stands in `GetLoop`: outside, behind `index ++`, or with the loop that it returns.
pub data Pc : Type 0 where
  idle : Pc
  ticked : Pc
  took : ℕ → Pc

pub record System : Type 0 where
  pub pool : Pool
  pub pc : ℕ → Pc

-- One operation of a thread on the pool, with the number of its ticks.
pub data Move (p : Pool) : ℕ → Pc → Pool → Pc → Type 0 where
  tick : Move p 1 idle (record { index = u8 (p.index + 1) }) ticked
  give : Move p 0 ticked p (took (p.index % loop_num))
  again : {l : ℕ} → Move p 0 (took l) p idle

abbrev pub at : (ℕ → Pc) → ℕ → Pc → ℕ → Pc
at f i c j = if j == i then c else f j

pub data Step (s : System) : ℕ → System → Type 0 where
  pick :
      (i : ℕ) {k : ℕ} {p : Pool} {c : Pc}
      → Move s.pool k (s.pc i) p c
      → Step s k (record { pool = p; pc = at s.pc i c })

-- What `n` ticks and other steps lead to.
pub data Steps (s : System) : ℕ → System → Type 0 where
  stop : Steps s 0 s
  later : {n k : ℕ} {t u : System} → Steps s n t → Step t k u → Steps s (k + n) u

-- No thread in a call; `index` is what the memory holds.
abbrev pub start : ℕ → System
start index = record { pool = record { index = index }; pc = λ _. Pc.idle }

-- A loop that a thread has is that of one of the ticks.
abbrev pub HasTicked : ℕ → ℕ → Pc → Type 0
HasTicked index n idle = Unit
HasTicked index n ticked = 1 ≤ n
HasTicked index n (took l) = (k : ℕ) × (1 ≤ k) × (k ≤ n) × (l ≡ (index + k) % loop_num)

HasTicked-add : (index n k : ℕ) (c : Pc) → HasTicked index n c → HasTicked index (k + n) c
HasTicked-add index n k idle h = tt
HasTicked-add index n k ticked h = omega (arith, h)
HasTicked-add index n k (took l) (j, low, high, same) = (j, low, omega (arith, high), same)

Move-HasTicked :
    (index n k : ℕ) (p q : Pool) (c d : Pc)
    → p.index ≡ u8 (index + n)
    → HasTicked index n c
    → Move p k c q d
    → (q.index ≡ u8 (index + (k + n))) × HasTicked index (k + n) d
Move-HasTicked index n k p q c d e h tick = (omega (arith, e), omega arith)
Move-HasTicked index n k p q c d e h give =
    (omega (arith, e), (n, h, omega arith, omega (arith, e)))
Move-HasTicked index n k p q c d e h again = (omega (arith, e), tt)

abbrev pub Ticked : ℕ → ℕ → System → Type 0
Ticked index n s = (s.pool.index ≡ u8 (index + n)) × ((i : ℕ) → HasTicked index n (s.pc i))

Step-Ticked :
    (index n k : ℕ) (s t : System) → Ticked index n s → Step s k t → Ticked index (k + n) t
Step-Ticked index n k s t (e, h) (pick i {p = p} {c = c} move) =
    let (e', h') = Move-HasTicked index n k s.pool p (s.pc i) c e (h i) move in
    (
      e',
      λ j. elim (Bool-cases (j == i)) [
        | inl same ↦ rw same h'
        | inr other ↦ rw other (HasTicked-add index n k (s.pc j) (h j))
      ],
    )

-- However the calls of any number of threads interleave, `index`, which has 8 bits at the start, has
-- gone up by the number of increments, modulo 256, and a loop that a thread has been given is that
-- of an increment up to then, and so one of the four.
pub Steps-Ticked :
    (index n : ℕ) (s : System) → index < 2 ^ 8 → Steps (start index) n s → Ticked index n s
Steps-Ticked index n s fits stop = (omega (arith, fits), λ i. tt)
Steps-Ticked index n s fits (later before step) =
    Step-Ticked index _ _ _ s (Steps-Ticked index _ _ fits before) step

abbrev increment : System → ℕ → System
increment s i = record { pool = record { index = u8 (s.pool.index + 1) }; pc = at s.pc i ticked }

abbrev read : System → ℕ → System
read s i = record { pool = s.pool; pc = at s.pc i (took (s.pool.index % loop_num)) }

Step-increment : (s : System) (i : ℕ) → s.pc i ≡ Pc.idle → Step s 1 (increment s i)
Step-increment s i e =
    pick i
      (subst (λ c. Move s.pool 1 c (record { index = u8 (s.pool.index + 1) }) ticked) (sym e) tick)

Step-read : (s : System) (i : ℕ) → s.pc i ≡ ticked → Step s 0 (read s i)
Step-read s i e =
    pick i (subst (λ c. Move s.pool 0 c s.pool (took (s.pool.index % loop_num))) (sym e) give)

-- From every state two different threads outside of `GetLoop` can be given the same loop: that of the
-- second increment, where both come before either reads.
pub share_loop :
    (s : System) (i j : ℕ)
    → i ≢ j
    → s.pc i ≡ Pc.idle
    → s.pc j ≡ Pc.idle
    → (t : System) × Steps s 2 t × (l : ℕ) × (t.pc i ≡ took l) × (t.pc j ≡ took l)
share_loop s i j apart idle_i idle_j =
    let i_not_j : (i == j) ≡ false = ne→== i j apart in
    let j_not_i : (j == i) ≡ false = ground (arith, i_not_j) in
    let s1 = increment s i in
    let s2 = increment s1 j in
    let s3 = read s2 i in
    let first = Step-increment s i idle_i in
    let second = Step-increment s1 j (rw j_not_i idle_j) in
    let third = Step-read s2 i (rw (i_not_j, ==_refl i) refl) in
    let fourth = Step-read s3 j (rw (j_not_i, ==_refl j) refl) in
    (
      read s3 j,
      later (later (later (later stop first) second) third) fourth,
      s2.pool.index % loop_num,
      rw (i_not_j, ==_refl i) refl,
      rw (==_refl j) refl,
    )
