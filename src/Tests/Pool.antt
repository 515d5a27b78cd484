-- ===== src/Tests/Pool.antt =====
-- Two threads that ask for a loop at once.
use spadia.Common.{ℕ, ◌≡◌, refl, arith, ◌==◌, if◌then◌else◌}
use spadia.Pool.Threads.{
  Pc, took, System, start, Steps, stop, later, pick, tick, give, Ticked, Steps-Ticked, share_loop,
}

share_loop_example :
    (t : System) × Steps (start 77) 2 t × (l : ℕ) × (t.pc 0 ≡ took l) × (t.pc 1 ≡ took l)
share_loop_example = share_loop (start 77) 0 1 (λ e. absurd (omega (arith, e))) refl refl

-- One call from `index` 255 on.
abbrev one_call : System
one_call = record {
  pool = record { index = 0 };
  pc = λ j. if j == 3 then took 0 else (if j == 3 then Pc.ticked else Pc.idle);
}

Steps-Ticked_example : Ticked 255 1 one_call
Steps-Ticked_example =
    Steps-Ticked 255 1 one_call (omega arith) (later (later stop (pick 3 tick)) (pick 3 give))
