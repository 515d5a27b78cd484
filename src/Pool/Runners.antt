-- ===== src/Pool/Runners.antt =====
-- pool.cpp: the constructor of the pool, and which thread runs which loop.
use spadia.Common.{
  ℕ, zero, suc, ◌+◌, ◌==◌, ◌≤◌, ◌<◌, ◌≡◌, refl, List, [], ◌∷◌, if◌then◌else◌, arith,
}
use spadia.Pool.{loop_num, Pool}

-- `threads[i]` of the pool, or a thread outside of it.
pub data Thread : Type 0 where
  pool_thread : ℕ → Thread
  outside : Thread

-- A thread inside `uv_run`, and the loop.
pub record Runner : Type 0 where
  pub thread : Thread
  pub loop : ℕ

-- `run` on a loop: the thread stays in `uv_run`, since the timer that it starts goes on.
abbrev pub run : Thread → ℕ → List Runner → List Runner
run thread loop runners = record { thread = thread; loop = loop } ∷ runners

-- The loop of `Pool()`, with `n` rounds left from `i` on: a loop, and a thread that runs it.
unfoldable pub create_threads : ℕ → ℕ → List Runner → List Runner
create_threads zero i runners = runners
create_threads (suc n) i runners = create_threads n (i + 1) (run (pool_thread i) i runners)

-- The pool and everything that runs.
pub record Process : Type 0 where
  pub pool : Pool
  pub runners : List Runner

-- `Pool()`; `index` holds what was there.
unfoldable pub new_process : ℕ → Process
unfolding create_threads
new_process index = record {
  pool = record { index = index };
  runners = create_threads loop_num 0 [];
}

-- How many threads run a loop.
abbrev pub count_runners : ℕ → List Runner → ℕ
count_runners loop [] = 0
count_runners loop (r ∷ rs) =
    if r.loop == loop then suc (count_runners loop rs) else count_runners loop rs

create_threads-count :
    (n i loop : ℕ) (rs : List Runner)
    → (loop < i → count_runners loop (create_threads n i rs) ≡ count_runners loop rs)
      × (i ≤ loop
          → loop < i + n
          → count_runners loop (create_threads n i rs) ≡ suc (count_runners loop rs))
unfolding create_threads
create_threads-count zero i loop rs = (λ h. refl, λ h g. absurd (omega (arith, h, g)))
create_threads-count (suc n) i loop rs =
    let (before, inside) = create_threads-count n (i + 1) loop (run (pool_thread i) i rs) in
    (λ h. ground (arith, before, h), λ h g. ground (arith, before, inside, h, g))

-- Each loop of the pool is run by one thread.
pub new_process-count :
    (index loop : ℕ) → loop < loop_num → count_runners loop (new_process index).runners ≡ 1
unfolding new_process
new_process-count index loop h = (create_threads-count loop_num 0 loop []).1 (omega arith) h
