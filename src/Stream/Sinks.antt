-- ===== src/Stream/Sinks.antt =====
-- Who is told of a packet: the connections that joined the stream, once each.
use spadia.Common.{
  ℕ, ◌≡◌, refl, ◌∙◌, ap, sym, Bool, true, false, ◌&&◌, List, [], ◌∷◌, Option, none, some, ◌==◌,
  ==_refl, ==→eq, if◌then◌else◌, inl, inr, Bool-cases, arith, count,
}
use spadia.Common.Texts.{Text, is_text, is_text→eq, find, assign, erase, find-assign, find-erase}
use spadia.Stream.{Iteration, tally, MediaStream, add_sink, remove_sink, told, on_rtp}

abbrev pub is_found : Option ℕ → Bool
is_found none = false
is_found (some x) = true

is_text_comm : (xs ys : Text) → is_text xs ys ≡ is_text ys xs
is_text_comm [] [] = refl
is_text_comm [] (y ∷ ys) = refl
is_text_comm (x ∷ xs) [] = refl
is_text_comm (x ∷ xs) (y ∷ ys) = ground (arith, is_text_comm xs ys)

-- A connection is told as often as the table has it, if it lives.
count-told-tally :
    (alive : ℕ → Bool) (pc : ℕ) (sinks : List (Text × ℕ))
    → count pc (told alive sinks) ≡ tally (λ (name, x). alive x && x == pc) sinks
unfolding told
count-told-tally alive pc [] = refl
count-told-tally alive pc ((name, x) ∷ rest) = ground (arith, count-told-tally alive pc rest)

-- What a connection does: `AddStream`, and its destructor.
pub data Op : Type 0 where
  join : ℕ → Op
  leave : ℕ → Op

-- The abstract table: which connections take part.
unfoldable pub joined : List Op → (ℕ → Bool) → ℕ → Bool
joined [] f = f
joined (join pc ∷ ops) f = joined ops (λ x. if x == pc then true else f x)
joined (leave pc ∷ ops) f = joined ops (λ x. if x == pc then false else f x)

-- `id_` of each connection, a `uuid()`.
module _ (id : ℕ → Text) where
  -- `localStream_->AddSink(id_, weak_from_this())`
  unfoldable pub add_stream : MediaStream → ℕ → MediaStream
  unfolding add_sink
  add_stream m pc = add_sink m (id pc) pc

  -- `localStream_->RemoveSink(id_)`
  unfoldable pub leave_stream : MediaStream → ℕ → MediaStream
  unfolding remove_sink
  leave_stream m pc = remove_sink m (id pc)

  unfoldable pub run : List Op → MediaStream → MediaStream
  unfolding add_stream leave_stream
  run [] m = m
  run (join pc ∷ ops) m = run ops (add_stream m pc)
  run (leave pc ∷ ops) m = run ops (leave_stream m pc)

  -- Each name is its connection's, and stands once.
  abbrev IsTable : List (Text × ℕ) → Type 0
  IsTable [] = Unit
  IsTable ((name, pc) ∷ rest) = (name ≡ id pc) × (find name rest ≡ none) × IsTable rest

  module _ (unique : (a b : ℕ) → is_text (id a) (id b) ≡ (a == b)) where
    count-told :
        (alive : ℕ → Bool) (pc : ℕ) (sinks : List (Text × ℕ))
        → IsTable sinks
        → count pc (told alive sinks) ≡ (if is_found (find (id pc) sinks) && alive pc then 1 else 0)
    unfolding told find
    count-told alive pc [] h = refl
    count-told alive pc ((name, x) ∷ rest) (own, sole, table) =
        rw (own, unique pc x)
          (elim (Bool-cases (pc == x)) [
            | inl same ↦
                let e : x ≡ pc = sym (==→eq pc x same) in
                let absent : find (id pc) rest ≡ none =
                  ap (λ n. find n rest) (sym (own ∙ ap id e)) ∙ sole in
                let others : count pc (told alive rest) ≡ 0 =
                  rw absent at (count-told alive pc rest table) in
                rw e (ground (arith, ==_refl pc, others))
            | inr other ↦
                let apart : (x == pc) ≡ false = ground arith in
                rw other (ground (arith, apart, count-told alive pc rest table))
          ])

    assign-IsTable :
        (pc : ℕ) (sinks : List (Text × ℕ)) → IsTable sinks → IsTable (assign (id pc) pc sinks)
    unfolding assign find
    assign-IsTable pc [] h = (refl, refl, tt)
    assign-IsTable pc ((name, x) ∷ rest) (own, sole, table) =
        elim (Bool-cases (is_text (id pc) name)) [
          | inl same ↦ rw same (refl, rw (is_text→eq (id pc) name same) sole, table)
          | inr other ↦ rw other (
            own,
            find-assign (id pc) name pc rest ∙ rw (is_text_comm name (id pc), other) sole,
            assign-IsTable pc rest table,
          )
        ]

    erase-IsTable :
        (key : Text) (sinks : List (Text × ℕ)) → IsTable sinks → IsTable (erase key sinks)
    unfolding erase find
    erase-IsTable key [] h = tt
    erase-IsTable key ((name, x) ∷ rest) (own, sole, table) = elim (Bool-cases (is_text key name)) [
      | inl same ↦ rw same (erase-IsTable key rest table)
      | inr other ↦
          rw other
            (own, find-erase key name rest ∙ ground (arith, sole), erase-IsTable key rest table)
    ]

    on_rtp_from :
        (ops : List Op) (m : MediaStream) (alive : ℕ → Bool) (f : ℕ → Bool) (pc : ℕ)
        → IsTable m.sinks
        → ((x : ℕ) → is_found (find (id x) m.sinks) ≡ f x)
        → count pc (on_rtp alive (run ops m)) ≡ (if joined ops f pc && alive pc then 1 else 0)
    unfolding on_rtp run joined
    on_rtp_from [] m alive f pc table same =
        count-told-tally alive pc (m.iteration.order m.sinks)
        ∙ m.iteration.each_once m.sinks (λ (name, x). alive x && x == pc)
        ∙ sym (count-told-tally alive pc m.sinks)
        ∙ count-told alive pc m.sinks table
        ∙ rw (same pc)
    on_rtp_from (join x ∷ ops) m alive f pc table same =
        on_rtp_from ops (add_stream m x) alive _ pc (assign-IsTable x m.sinks table)
          (λ y. rw (find-assign (id x) (id y) x m.sinks, unique y x) (ground (arith, same y)))
    on_rtp_from (leave x ∷ ops) m alive f pc table same =
        on_rtp_from ops (leave_stream m x) alive _ pc (erase-IsTable (id x) m.sinks table)
          (λ y. rw (find-erase (id x) (id y) m.sinks, unique y x) (ground (arith, same y)))

    -- After any joins and leaves of a new stream a packet is handed exactly once to each connection
    -- that lives and whose last step was to join, and to no other, where the connections' names
    -- differ; in whatever order the hash table is gone through.
    pub on_rtp_once :
        (iteration : Iteration) (ops : List Op) (alive : ℕ → Bool) (pc : ℕ)
        → count pc (on_rtp alive (run ops (record { iteration = iteration; sinks = [] })))
          ≡ (if joined ops (λ _. false) pc && alive pc then 1 else 0)
    unfolding find
    on_rtp_once iteration ops alive pc =
        on_rtp_from ops (record { iteration = iteration; sinks = [] }) alive (λ _. false) pc tt
          (λ x. refl)
