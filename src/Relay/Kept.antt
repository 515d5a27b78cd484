-- ===== src/Relay/Kept.antt =====
-- Which receive buffers stay allocated for good, and the runs where a packet goes to one sink at most.
use spadia.Common.{
  ℕ, suc, ◌+◌, ◌≡◌, ◌∙◌, refl, ap, arith, ◌≤◌, Bool, true, false, not, ◌&&◌, List, [], ◌∷◌, length,
  if◌then◌else◌,
}
use spadia.Stream.{on_rtp}
use spadia.Connection.{Outcome, responded, took_rtcp, took_rtp}
use spadia.Relay.{Arrival, is_positive, is_zero, Move, arrive, run_task, close_handle, complete}

-- An RTP packet that has a sink.
abbrev pub is_passed_on : List ℕ → Outcome → Bool
is_passed_on [] o = false
is_passed_on (sink ∷ sinks) (responded size block) = false
is_passed_on (sink ∷ sinks) (took_rtcp items) = false
is_passed_on (sink ∷ sinks) (took_rtp sent packet) = true

-- Whether a receive buffer stays for good: it is freed where nothing was read and no address is
-- given, and behind a packet that was sent on.
abbrev pub is_kept : Arrival → List ℕ → Bool
is_kept a sinks =
    if is_positive a.nread && a.has_data
    then not (is_passed_on sinks a.outcome)
    else not (is_zero a.nread && not a.has_addr)

abbrev pub keep : Bool → ℕ → ℕ
keep true n = suc n
keep false n = n

-- The buffers that a run keeps, beside `n` of before.
abbrev pub kept_by : Move → ℕ → ℕ
kept_by (arrive a alive m) n = keep (is_kept a (on_rtp alive m)) n
kept_by (run_task accepted k) n = n
kept_by (close_handle k) n = n
kept_by (complete k) n = n

abbrev pub kept : List Move → ℕ → ℕ
kept [] n = n
kept (m ∷ ms) n = kept ms (kept_by m n)

keep-add : (b : Bool) (m n : ℕ) → keep b (m + n) ≡ m + keep b n
keep-add true m n = omega arith
keep-add false m n = refl

kept_by-add : (x : Move) (m n : ℕ) → kept_by x (m + n) ≡ m + kept_by x n
kept_by-add (arrive a alive s) m n = keep-add (is_kept a (on_rtp alive s)) m n
kept_by-add (run_task accepted k) m n = refl
kept_by-add (close_handle k) m n = refl
kept_by-add (complete k) m n = refl

pub kept-add : (ms : List Move) (m n : ℕ) → kept ms (m + n) ≡ m + kept ms n
kept-add [] m n = refl
kept-add (x ∷ ms) m n = ap (kept ms) (kept_by-add x m n) ∙ kept-add ms m (kept_by x n)

-- How many sends libuv refuses.
abbrev pub refused_by : Move → ℕ
refused_by (arrive a alive m) = if a.accepted then 0 else 1
refused_by (run_task accepted k) = if accepted then 0 else 1
refused_by (close_handle k) = 0
refused_by (complete k) = 0

abbrev pub refusals : List Move → ℕ
refusals [] = 0
refusals (m ∷ ms) = refused_by m + refusals ms

-- The send of a task is accepted.
abbrev pub IsAccepted : Move → Type 0
IsAccepted (arrive a alive m) = Unit
IsAccepted (run_task accepted k) = accepted ≡ true
IsAccepted (close_handle k) = Unit
IsAccepted (complete k) = Unit

-- At most one sink is told.
abbrev pub IsNarrow : Move → Type 0
IsNarrow (arrive a alive m) = length (on_rtp alive m) ≤ 1
IsNarrow (run_task accepted k) = Unit
IsNarrow (close_handle k) = Unit
IsNarrow (complete k) = Unit
