-- ===== src/Pool.antt =====
-- pool.h: the round robin over the event loops. `Threads` lets the calls interleave; a loop is
-- its place in `loops`.
pub mod Threads
pub mod Runners
use spadia.Common.{ℕ, ◌+◌, ◌%◌, u8}

-- `LOOP_NUM`
abbrev pub loop_num : ℕ
loop_num = 4

-- `index`, which the constructor does not set.
pub record Pool : Type 0 where
  pub index : ℕ

-- `GetLoop`, in one thread.
unfoldable pub get_loop : Pool → ℕ × Pool
get_loop p = let index = u8 (p.index + 1) in (index % loop_num, record { index = index })
