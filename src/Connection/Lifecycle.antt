-- ===== src/Connection/Lifecycle.antt =====
-- The life of a connection on its loop: the constructor, `Start`, the timer, and the destructor, which runs
-- when nobody holds the connection (a task of `Start` holds it), and frees its memory, in which the
-- two handles lie: a later read of a handle is a fault out of bounds.
use spadia.Common.{
  ℕ, ◌+◌, ◌-◌, ◌==◌, ◌≡◌, refl, Bool, Bool-cases, true, false, ◌&&◌, List, [], ◌∷◌, inl, inr,
  if◌then◌else◌, Run, done, fault, null_pointer, out_of_bounds, not, ◌>>=◌, stuck, ==-false→ne,
  arith,
}
use spadia.Connection.{Connection, on_ice_timer}

-- Whether the connection lives, the tasks of `Start` that wait, whether `socket_` receives and
-- `iceTimer` runs, and whether `iceTimer.data` is set (`socket_.data` is set and cleared with it).
pub record Life : Type 0 where
  pub members : Connection
  pub lives : Bool
  pub tasks : ℕ
  pub receives : Bool
  pub ticks : Bool
  pub has_data : Bool

-- `PeerConnection()`
unfoldable pub constructed : Connection → Life
constructed c = record {
  members = c;
  lives = true;
  tasks = 0;
  receives = false;
  ticks = false;
  has_data = true;
}

-- `Start`, up to `Pool::Async`; and what it posts.
unfoldable pub start : Life → Life
start s = record s { tasks = s.tasks + 1 }

unfoldable pub started : Life → Life
started s = record s { tasks = s.tasks - 1; receives = true; ticks = true }

-- `~PeerConnection()`
unfoldable pub destroyed : Life → Life
destroyed s = record s { lives = false; receives = false; has_data = false }

-- `ontimer`, which reads `data` of the handle; a null pointer has no members.
unfoldable pub ontimer : ℕ → Life → Run Life
ontimer now s =
    if not s.lives
    then fault out_of_bounds
    else if s.has_data
    then done (record s { members = (on_ice_timer now s.members).0 })
    else fault null_pointer

-- What happens next: a call of `Start`, its task, a tick of the timer at a time, the end of the
-- last holder. What cannot happen changes nothing.
pub data Event : Type 0 where
  call_start : Event
  run_start : Event
  tick : ℕ → Event
  release : Event

unfoldable pub step : Event → Life → Run Life
unfolding start started destroyed ontimer
step call_start s = if s.lives then done (start s) else done s
step run_start s = if s.tasks == 0 then done s else done (started s)
step (tick now) s = if s.ticks then ontimer now s else done s
step release s = if s.lives && s.tasks == 0 then done (destroyed s) else done s

unfoldable pub run_life : List Event → Life → Run Life
unfolding step
run_life [] s = done s
run_life (e ∷ es) s = step e s >>= run_life es

-- What holds of a connection that was not destroyed before its time: it receives with `data` set and
-- alive, what waits keeps it alive, and `data` is cleared when it dies.
pub record IsHeld (s : Life) : Type 0 where
  pub receiving : s.receives ≡ true → s.lives ≡ true
  pub waiting : s.lives ≡ false → s.tasks ≡ 0
  pub data_set : s.has_data ≡ s.lives

abbrev pub Held : Run Life → Type 0
Held (done s) = IsHeld s
Held (fault e) = e ≡ out_of_bounds
Held stuck = ⊥

Held-bind :
    (m : Run Life) (f : Life → Run Life)
    → Held m
    → ((s : Life) → IsHeld s → Held (f s))
    → Held (m >>= f)
Held-bind (done s) f h k = k s h
Held-bind (fault e) f h k = h
Held-bind stuck f h k = h

Held-if : (b : Bool) (m n : Run Life) → (b ≡ true → Held m) → Held n → Held (if b then m else n)
Held-if true m n h k = h refl
Held-if false m n h k = k

start-IsHeld : (s : Life) → s.lives ≡ true → IsHeld s → IsHeld (start s)
unfolding start
start-IsHeld s alive h = record {
  receiving = h.receiving;
  waiting = λ dead. absurd (ground (arith, alive, dead));
  data_set = h.data_set;
}

started-IsHeld : (s : Life) → (s.tasks == 0) ≡ false → IsHeld s → IsHeld (started s)
unfolding started
started-IsHeld s some_wait h = record {
  receiving = λ _. elim (Bool-cases s.lives) [
    | inl alive ↦ alive
    | inr dead ↦ absurd (==-false→ne s.tasks 0 some_wait (h.waiting dead))
  ];
  waiting = λ dead. omega (arith, h.waiting dead);
  data_set = h.data_set;
}

destroyed-IsHeld : (s : Life) → (s.lives && s.tasks == 0) ≡ true → IsHeld (destroyed s)
unfolding destroyed
destroyed-IsHeld s free = record {
  receiving = λ e. absurd (ground (arith, e));
  waiting = λ _. ground (arith, free);
  data_set = refl;
}

Held-timer :
    (alive has_data : Bool) (s : Life)
    → has_data ≡ alive
    → IsHeld s
    → Held
        (if not alive then fault out_of_bounds else if has_data then done s else fault null_pointer)
Held-timer true true s e h = h
Held-timer true false s e h = absurd (ground (arith, e))
Held-timer false has_data s e h = refl

ontimer-Held : (now : ℕ) (s : Life) → IsHeld s → Held (ontimer now s)
unfolding ontimer
ontimer-Held now s h =
    Held-timer s.lives s.has_data (record s { members = (on_ice_timer now s.members).0 }) h.data_set
      (record { receiving = h.receiving; waiting = h.waiting; data_set = h.data_set })

step-Held : (e : Event) (s : Life) → IsHeld s → Held (step e s)
unfolding step
step-Held call_start s h =
    Held-if s.lives (done (start s)) (done s) (λ alive. start-IsHeld s alive h) h
step-Held run_start s h = elim (Bool-cases (s.tasks == 0)) [
  | inl none_wait ↦ rw none_wait h
  | inr some_wait ↦ rw some_wait (started-IsHeld s some_wait h)
]
step-Held (tick now) s h = Held-if s.ticks (ontimer now s) (done s) (λ on. ontimer-Held now s h) h
step-Held release s h =
    Held-if (s.lives && s.tasks == 0) (done (destroyed s)) (done s)
      (λ free. destroyed-IsHeld s free) h

-- However a connection is started, ticks and is released, from a state where the following holds it
-- comes to another or to a read of a handle that was freed, and never to a member call through a null
-- pointer: the socket receives only while the
-- connection lives, what waits for the loop keeps it alive, and `data` is cleared when it dies.
pub run_life-Held : (es : List Event) (s : Life) → IsHeld s → Held (run_life es s)
unfolding run_life
run_life-Held [] s h = h
run_life-Held (e ∷ es) s h = Held-bind (step e s) (run_life es) (step-Held e s h) (run_life-Held es)

pub constructed-IsHeld : (c : Connection) → IsHeld (constructed c)
unfolding constructed
constructed-IsHeld c = record {
  receiving = λ e. absurd (ground (arith, e));
  waiting = λ _. refl;
  data_set = refl;
}
