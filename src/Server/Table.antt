-- ===== src/Server/Table.antt =====
-- The table of connections as a function of two user names.
use spadia.Common.{
  ℕ, ◌≡◌, refl, ◌∙◌, true, false, ◌&&◌, List, [], ◌∷◌, All, ◌==◌, Option, none, some, if◌then◌else◌,
  arith,
}
use spadia.Common.Texts.{Text, is_text, find, find-assign, find-erase}
use spadia.Tools.{is_alphanumeric}
use spadia.Server.{Peer, Server, name_of, add_pc, remove_pc}

-- Letters and digits alone, as `randomID` makes them.
abbrev pub IsId : Text → Type 0
IsId = All (λ c. is_alphanumeric c ≡ true)

not_colon : (c : ℕ) → is_alphanumeric c ≡ true → (c == b':') ≡ false
not_colon c h = ground arith

-- A name falls apart at its first colon.
is_text-name_of :
    (l r l' r' : Text)
    → IsId l
    → IsId l'
    → is_text (name_of l r) (name_of l' r') ≡ (is_text l l' && is_text r r')
is_text-name_of [] r [] r' h h' = refl
is_text-name_of [] r (x ∷ l') r' h h' = ground (arith, not_colon x h'.0)
is_text-name_of (x ∷ l) r [] r' h h' = ground (arith, not_colon x h.0)
is_text-name_of (x ∷ l) r (y ∷ l') r' h h' = ground (arith, is_text-name_of l r l' r' h.1 h'.1)

-- What happens to the table: `CreateAnswer` and `SetRemoteSdp` add a connection, `Destroy` removes it.
pub data Op : Type 0 where
  add : ℕ → Op
  destroy : ℕ → Op

-- The abstract table: which connection two users have.
abbrev pub Registry : Type 0
Registry = Text → Text → Option ℕ

abbrev pub view : Server → Registry
view s l r = find (name_of l r) s.pc_table

module _ (store : ℕ → Peer) where
  unfoldable pub destroy_pc : Server → ℕ → Server
  destroy_pc s pc = remove_pc s (store pc).local_username (store pc).remote_username

  unfoldable pub run : List Op → Server → Server
  unfolding destroy_pc
  run [] s = s
  run (add pc ∷ ops) s = run ops (add_pc store s pc)
  run (destroy pc ∷ ops) s = run ops (destroy_pc s pc)

  -- The registry changed at the users of one connection.
  abbrev pub update : Registry → ℕ → Option ℕ → Registry
  update f pc v l r =
      if is_text l (store pc).local_username && is_text r (store pc).remote_username
      then v
      else f l r

  unfoldable pub replay : List Op → Registry → Registry
  replay [] f = f
  replay (add pc ∷ ops) f = replay ops (update f pc (some pc))
  replay (destroy pc ∷ ops) f = replay ops (update f pc none)

  pub replay-same :
      (ops : List Op) (f g : Registry)
      → ((l r : Text) → IsId l → f l r ≡ g l r)
      → (l r : Text) → IsId l
      → replay ops f l r ≡ replay ops g l r
  unfolding replay
  replay-same [] f g same l r h = same l r h
  replay-same (add pc ∷ ops) f g same l r h =
      replay-same ops (update f pc (some pc)) (update g pc (some pc))
        (λ l' r' h'. ground (arith, same l' r' h')) l r h
  replay-same (destroy pc ∷ ops) f g same l r h =
      replay-same ops (update f pc none) (update g pc none)
        (λ l' r' h'. ground (arith, same l' r' h')) l r h

  module _ (ids : (pc : ℕ) → IsId (store pc).local_username) where
    is_text-pc :
        (pc : ℕ) (l r : Text)
        → IsId l
        → is_text (name_of l r) (name_of (store pc).local_username (store pc).remote_username)
          ≡ (is_text l (store pc).local_username && is_text r (store pc).remote_username)
    is_text-pc pc l r h =
        is_text-name_of l r (store pc).local_username (store pc).remote_username h (ids pc)

    view-add_pc :
        (s : Server) (pc : ℕ) (l r : Text)
        → IsId l
        → view (add_pc store s pc) l r ≡ update (view s) pc (some pc) l r
    unfolding add_pc
    view-add_pc s pc l r h =
        find-assign (name_of (store pc).local_username (store pc).remote_username) (name_of l r) pc
          s.pc_table
        ∙ rw (is_text-pc pc l r h)

    view-destroy_pc :
        (s : Server) (pc : ℕ) (l r : Text)
        → IsId l
        → view (destroy_pc s pc) l r ≡ update (view s) pc none l r
    unfolding destroy_pc remove_pc
    view-destroy_pc s pc l r h =
        find-erase (name_of (store pc).local_username (store pc).remote_username) (name_of l r)
          s.pc_table
        ∙ rw (is_text-pc pc l r h)

    -- The table refines the registry: after any run of additions and removals, the name of two users
    -- finds the connection that the same run leaves for the two, for local names of letters and
    -- digits (the remote ones may hold colons).
    pub run_refines :
        (ops : List Op) (s : Server) (l r : Text)
        → IsId l
        → find (name_of l r) (run ops s).pc_table ≡ replay ops (view s) l r
    unfolding run replay
    run_refines [] s l r h = refl
    run_refines (add pc ∷ ops) s l r h =
        run_refines ops (add_pc store s pc) l r h
        ∙ replay-same ops _ (update (view s) pc (some pc)) (view-add_pc s pc) l r h
    run_refines (destroy pc ∷ ops) s l r h =
        run_refines ops (destroy_pc s pc) l r h
        ∙ replay-same ops _ (update (view s) pc none) (view-destroy_pc s pc) l r h
