-- ===== src/Sdp/Answer/Extensions.antt =====
-- The header extensions that an answer announces, and those that the session looks for.
use spadia.Common.{
  ℕ, ◌≡◌, refl, ap, Bool, false, inl, inr, Bool-cases, ◌||◌, List, [], ◌∷◌, All, ◌==◌, ==_refl,
  if◌then◌else◌, Option, none, some, u8, arith,
}
use spadia.Common.Dict.{insert, insert-All, lookup, lookup-insert}
use spadia.Common.Texts.{is_text}
use spadia.Session.Manager.{
  ExtensionType, transport_wide, Manager, transport_cc_uri, set_extension, find_type,
  get_extension_id,
}
use spadia.Sdp.{Ext}
use spadia.Sdp.Answer.{take_exts}

-- The extensions of an offer that the code knows.
pub wanted : List Ext → List Ext
wanted [] = []
wanted (e ∷ es) = if is_text e.uri transport_cc_uri then e ∷ wanted es else wanted es

-- One of the extensions has the id.
abbrev pub announces : ℕ → List Ext → Bool
announces id [] = false
announces id (e ∷ es) = (u8 e.value == id) || announces id es

abbrev pub IsWide : Manager → Type 0
IsWide m = All (λ (x : ℕ × ExtensionType). x.1 ≡ transport_wide) m.ext_map

-- The session after an extension that it knows.
abbrev widened : Manager → Ext → Manager
widened m e = record { ext_map = insert (u8 e.value) transport_wide m.ext_map }

pub take_exts-wanted : (m : Manager) (es : List Ext) → (take_exts m es).0 ≡ wanted es
unfolding take_exts set_extension wanted
take_exts-wanted m [] = refl
take_exts-wanted m (e ∷ es) = elim (Bool-cases (is_text e.uri transport_cc_uri)) [
  | inl is_wide ↦ rw is_wide (ap (λ t. e ∷ t) (take_exts-wanted (widened m e) es))
  | inr other ↦ rw other (take_exts-wanted m es)
]

pub take_exts-lookup :
    (m : Manager) (es : List Ext) (id : ℕ)
    → lookup id (take_exts m es).1.ext_map
      ≡ (if announces id (take_exts m es).0 then some transport_wide else lookup id m.ext_map)
unfolding take_exts set_extension
take_exts-lookup m [] id = refl
take_exts-lookup m (e ∷ es) id = elim (Bool-cases (is_text e.uri transport_cc_uri)) [
  | inl is_wide ↦ rw is_wide (
      ground (
        arith,
        take_exts-lookup (widened m e) es id,
        lookup-insert (u8 e.value) id transport_wide m.ext_map,
      ))
  | inr other ↦ rw other (take_exts-lookup m es id)
]

pub take_exts-IsWide : (m : Manager) (es : List Ext) → IsWide m → IsWide (take_exts m es).1
unfolding take_exts set_extension
take_exts-IsWide m [] h = h
take_exts-IsWide m (e ∷ es) h = elim (Bool-cases (is_text e.uri transport_cc_uri)) [
  | inl is_wide ↦ rw is_wide (
      take_exts-IsWide (widened m e) es
        (insert-All (λ x. x.1 ≡ transport_wide) (u8 e.value) transport_wide m.ext_map refl h))
  | inr other ↦ rw other (take_exts-IsWide m es h)
]

-- The id that the session finds is an entry of its map, and it finds none in an empty map only.
abbrev pub Finds : Manager → Option ℕ → Type 0
Finds m none = (id : ℕ) → lookup id m.ext_map ≡ none
Finds m (some id) = lookup id m.ext_map ≡ some transport_wide

pub get_extension_id-Finds : (m : Manager) → IsWide m → Finds m (get_extension_id m transport_wide)
unfolding get_extension_id find_type lookup
get_extension_id-Finds m h =
    elim m.ext_map
        as (λ ext_map.
          All (λ (x : ℕ × ExtensionType). x.1 ≡ transport_wide) ext_map
          → Finds (record { ext_map = ext_map }) (find_type transport_wide ext_map)) [
            | [] ↦ λ _ id. refl
            | (id, t) ∷ rest ↦ λ (wide, _). rw (wide, ==_refl id) refl
          ]
      h
