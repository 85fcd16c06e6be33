-- ===== src/Prelude/Maps.antt =====
-- Go maps with text keys as association lists with one entry to a key.
use Prim.Native.String.{String}
use mathlib.Core.Path.{◌≡◌, refl}
use mathlib.Core.Bool.{Bool, true, false}
use mathlib.Core.List.{List, [], ◌∷◌}
use mathlib.Core.Option.{Option, none, some}
use native.Mathlib.Omega.{arith}
use text.Mathlib.TextEquality.{eq_iff}
use software_distribution_pl.Prelude.Tests.{◌==◌, string_eq, if◌then◌else◌}

abbrev pub Map {ℓ} : Type ℓ → Type ℓ
Map V = List (String × V)

module _ {ℓ} {V : Type ℓ} where
  unfoldable pub lookup : (key : String) → Map V → Option V
  lookup key [] = none
  lookup key ((name, val) ∷ rest) =
      let later = lookup key rest in if name == key then some val else later

  -- `delete(m, key)`
  unfoldable pub erase : (key : String) → Map V → Map V
  erase key [] = []
  erase key ((name, val) ∷ rest) =
      let later = erase key rest in if name == key then later else (name, val) ∷ later

  -- `m[key] = val`
  unfoldable pub insert : (key : String) → V → Map V → Map V
  insert key val [] = (key, val) ∷ []
  insert key val ((name, old) ∷ rest) =
      let later = insert key val rest in
      if name == key then (key, val) ∷ rest else (name, old) ∷ later

  -- The values, in the order of the entries.
  unfoldable pub values : Map V → List V
  values [] = []
  values ((name, val) ∷ rest) = val ∷ values rest

  unfoldable pub has_key : String → Map V → Bool
  unfolding lookup
  has_key key m = elim (lookup key m) [ none ↦ false | some _ ↦ true ]

  pub lookup-erase :
      (key query : String) (m : Map V)
      → lookup query (erase key m) ≡ (if key == query then none else lookup query m)
  unfolding lookup erase
  lookup-erase key query [] = ground arith
  lookup-erase key query ((name, val) ∷ rest) =
      ground
        (arith, lookup-erase key query rest, eq_iff name key, eq_iff name query, eq_iff key query)

  pub lookup-insert :
      (key query : String) (val : V) (m : Map V)
      → lookup query (insert key val m) ≡ (if key == query then some val else lookup query m)
  unfolding lookup insert
  lookup-insert key query val [] = refl
  lookup-insert key query val ((name, old) ∷ rest) = ground (
    arith,
    lookup-insert key query val rest,
    eq_iff name key,
    eq_iff name query,
    eq_iff key query,
  )
