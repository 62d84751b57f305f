-- ===== src/Prelude/Maps.antt =====
-- Go's `map[string]V`, as an association list with one entry for a key that is set.
use Prim.Native.String.{String}
use mathlib.Core.Path.{◌≡◌, refl}
use mathlib.Core.Bool.{Bool}
use mathlib.Core.List.{List, [], ◌∷◌}
use mathlib.Core.Option.{Option, none, some}
use native.Mathlib.Omega.{arith}
use text.Mathlib.TextEquality.{eq_iff}
use aws_multi_eni_controller.Prelude.Tests.{if◌then◌else◌, str_eq, is_some}

abbrev pub Dict {ℓ} : Type ℓ → Type ℓ
Dict V = List (String × V)

module _ {ℓ} {V : Type ℓ} where
  -- `v, ok := m[key]`
  unfoldable pub lookup : String → Dict V → Option V
  lookup key [] = none
  lookup key ((name, value) ∷ rest) = if str_eq name key then some value else lookup key rest

  -- `delete(m, key)`
  unfoldable pub delete : String → Dict V → Dict V
  delete key [] = []
  delete key ((name, value) ∷ rest) =
      if str_eq name key then delete key rest else (name, value) ∷ delete key rest

  -- `m[key] = value`
  unfoldable pub insert : String → V → Dict V → Dict V
  insert key value [] = (key, value) ∷ []
  insert key value ((name, old) ∷ rest) =
      if str_eq name key then (key, value) ∷ rest else (name, old) ∷ insert key value rest

  -- `_, ok := m[key]`
  abbrev pub has_key : String → Dict V → Bool
  has_key key m = is_some (lookup key m)

  pub lookup-delete :
      (key asked : String) (m : Dict V)
      → lookup asked (delete key m) ≡ (if str_eq key asked then none else lookup asked m)
  unfolding lookup delete
  lookup-delete key asked [] = ground arith
  lookup-delete key asked ((name, value) ∷ rest) =
      ground
        (arith, lookup-delete key asked rest, eq_iff name asked, eq_iff key asked, eq_iff name key)

  pub lookup-insert :
      (key asked : String) (value : V) (m : Dict V)
      → lookup asked (insert key value m)
        ≡ (if str_eq key asked then some value else lookup asked m)
  unfolding lookup insert
  lookup-insert key asked value [] = refl
  lookup-insert key asked value ((name, old) ∷ rest) = ground (
    arith,
    lookup-insert key asked value rest,
    eq_iff name asked,
    eq_iff key asked,
    eq_iff name key,
  )

pub ruleset map_laws = (lookup-insert, lookup-delete)
