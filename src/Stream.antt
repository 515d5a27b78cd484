-- ===== src/Stream.antt =====
-- media_stream.h: the table of sinks, and the packets handed on to them; and what a connection does as
-- a sink: it joins the stream by `AddStream` and leaves it in its destructor.
pub mod Sinks
use spadia.Common.{
  suc, ℕ, ◌≡◌, refl, ◌∙◌, Bool, true, false, ◌&&◌, List, [], ◌∷◌, ◌++◌, Option, none, some,
  if◌then◌else◌, arith,
}
use spadia.Common.Texts.{
  Text, is_text, is_text_refl, is_text→eq, find, assign, erase, find-assign, find-erase,
}

-- How many entries meet a test.
abbrev pub tally : (Text × ℕ → Bool) → List (Text × ℕ) → ℕ
tally test [] = 0
tally test (e ∷ entries) = if test e then suc (tally test entries) else tally test entries

-- The order in which an `unordered_map` is gone through: any, each entry once.
pub record Iteration : Type 0 where
  pub order : List (Text × ℕ) → List (Text × ℕ)
  pub each_once :
      (entries : List (Text × ℕ)) (test : Text × ℕ → Bool)
      → tally test (order entries) ≡ tally test entries

-- The order of the entries of a table, as they stand.
abbrev pub as_it_stands : Iteration
as_it_stands = record { order = λ entries. entries; each_once = λ entries test. refl }

-- `sinks_`: the number of a connection for each name. A `weak_ptr` to it locks as long as it lives.
pub record MediaStream : Type 0 where
  pub iteration : Iteration
  pub sinks : List (Text × ℕ)

-- `AddSink`
unfoldable pub add_sink : MediaStream → Text → ℕ → MediaStream
unfolding assign
add_sink m name sink = record m { sinks = assign name sink m.sinks }

-- `RemoveSink`
unfoldable pub remove_sink : MediaStream → Text → MediaStream
unfolding erase
remove_sink m name = record m { sinks = erase name m.sinks }

-- The loop of `OnRTP` over the entries of the table in turn: the sinks whose `OnMediaData` is called.
unfoldable pub told : (ℕ → Bool) → List (Text × ℕ) → List ℕ
told alive [] = []
told alive ((name, sink) ∷ rest) =
    let others = told alive rest in if alive sink then sink ∷ others else others

unfoldable pub on_rtp : (ℕ → Bool) → MediaStream → List ℕ
unfolding told
on_rtp alive m = told alive (m.iteration.order m.sinks)
