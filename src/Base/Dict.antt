-- ===== src/Base/Dict.antt =====
-- A map with text keys, as an association list: a `HashMap`, and the files of a directory.
use mathlib.Core.Path.{◌≡◌, refl}
use mathlib.Core.Option.{Option, none, some}
use mathlib.Core.List.{List, [], ◌∷◌}
use native.Mathlib.Omega.{arith}
use mathlib.Core.Logic.{inl, inr}
use sebenza.Base.Tests.{if◌then◌else◌, ◌==◌, Bool-cases}
use sebenza.Base.Chars.{Text, text_beq_iff, text_beq_refl, text_eq}

-- An entry of the map; a key that stands twice is read at its first entry.
abbrev Entry {ℓ} : Type ℓ → Type ℓ
Entry V = Text × V

module _ {ℓ} {V : Type ℓ} where
  unfoldable pub lookup : Text → List (Entry V) → Option V
  lookup key [] = none
  lookup key ((name, file) ∷ rest) = if name == key then some file else lookup key rest

  unfoldable pub insert : Text → V → List (Entry V) → List (Entry V)
  insert key new [] = (key, new) ∷ []
  insert key new ((name, file) ∷ rest) =
      if name == key then (key, new) ∷ rest else (name, file) ∷ insert key new rest

  unfoldable pub remove : Text → List (Entry V) → List (Entry V)
  remove key [] = []
  remove key ((name, file) ∷ entries) =
      let rest = remove key entries in if name == key then rest else (name, file) ∷ rest

  pub lookup-insert :
      (key asked : Text) (new : V) (entries : List (Entry V))
      → lookup asked (insert key new entries)
        ≡ (if key == asked then some new else lookup asked entries)
  unfolding lookup insert
  lookup-insert key asked new [] = refl
  lookup-insert key asked new ((name, file) ∷ rest) = ground (
    arith,
    text_beq_iff key asked,
    text_beq_iff name key,
    text_beq_iff name asked,
    lookup-insert key asked new rest,
  )

  pub lookup-insert_same :
      (key : Text) (new : V) (entries : List (Entry V))
      → lookup key (insert key new entries) ≡ some new
  lookup-insert_same key new entries =
      ground (arith, lookup-insert key key new entries, text_beq_refl key)

  pub lookup-remove :
      (key asked : Text) (entries : List (Entry V))
      → lookup asked (remove key entries) ≡ (if key == asked then none else lookup asked entries)
  unfolding lookup remove
  lookup-remove key asked [] = ground arith
  lookup-remove key asked ((name, file) ∷ rest) = ground (
    arith,
    text_beq_iff key asked,
    text_beq_iff name key,
    text_beq_iff name asked,
    lookup-remove key asked rest,
  )

-- One part of what a map holds under a key.
module _ {ℓ κ} {V : Type ℓ} {P : Type κ} (part : V → P) where
  unfoldable pub read_at : Text → List (Entry V) → Option P
  read_at key entries = elim (lookup key entries) [ none ↦ none | some v ↦ some (part v) ]

  pub read_at-known :
      (key : Text) (entries : List (Entry V)) {v : V}
      → lookup key entries ≡ some v
      → read_at key entries ≡ some (part v)
  unfolding read_at
  read_at-known key entries known = rw (read_at, known) refl

  pub read_at-unknown :
      (key : Text) (entries : List (Entry V))
      → lookup key entries ≡ none
      → read_at key entries ≡ none
  unfolding read_at
  read_at-unknown key entries unknown = rw (read_at, unknown) refl

  pub read_at-insert :
      (key asked : Text) (new : V) (entries : List (Entry V))
      → read_at asked (insert key new entries)
        ≡ (if key == asked then some (part new) else read_at asked entries)
  unfolding read_at
  read_at-insert key asked new entries =
      rw (read_at, lookup-insert key asked new entries)
        (elim (Bool-cases (key == asked)) [ inl same ↦ rw same refl | inr differ ↦ rw differ refl ])

  pub read_at-remove :
      (key asked : Text) (entries : List (Entry V))
      → read_at asked (remove key entries) ≡ (if key == asked then none else read_at asked entries)
  unfolding read_at
  read_at-remove key asked entries =
      rw (read_at, lookup-remove key asked entries)
        (elim (Bool-cases (key == asked)) [ inl same ↦ rw same refl | inr differ ↦ rw differ refl ])
