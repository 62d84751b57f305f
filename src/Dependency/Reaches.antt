-- ===== src/Dependency/Reaches.antt =====
-- Paths in the graph of dependencies.
use aws_multi_eni_controller.Prelude.{
  ℕ, suc, ◌≤◌, ◌<◌, String, true, false, ◌≡◌, List, [], ◌∷◌, ◌⊎◌, inl, inr, arith, eq_iff, eq_refl,
  str_eq, if◌then◌else◌, is_some, contains_string, length, Bool-cases, false≢true,
}
use aws_multi_eni_controller.Prelude.Maps.{Dict, lookup}
use aws_multi_eni_controller.Dependency.{DependencyGraph, depends_of}

-- The dependency `x` is in the graph, and depends on `y`.
abbrev pub Edge : DependencyGraph → String → String → Type 0
Edge g x y = contains_string (depends_of (lookup x g.dependencies)) y ≡ true

pub data Reaches (g : DependencyGraph) : String → String → Type 0 where
  step : {x y : String} → Edge g x y → Reaches g x y
  more : {x y z : String} → Edge g x y → Reaches g y z → Reaches g x z

-- Nothing depends on itself, directly or through others.
abbrev pub IsAcyclic : DependencyGraph → Type 0
IsAcyclic g = (x : String) → Reaches g x x → ⊥

pub extend : {g : DependencyGraph} {x y z : String} → Reaches g x y → Edge g y z → Reaches g x z
extend (step e) f = more e (step f)
extend (more e p) f = more e (extend p f)

-- How many keys of the map are not in the list: what bounds the depth of a search.
pub left_out : {V : Type 0} → List String → Dict V → ℕ
left_out seen [] = 0
left_out seen ((k, v) ∷ rest) =
    if contains_string seen k then left_out seen rest else suc (left_out seen rest)

pub left_out-length : {V : Type 0} (seen : List String) (m : Dict V) → left_out seen m ≤ length m
unfolding left_out
left_out-length seen [] = omega arith
left_out-length seen ((k, v) ∷ rest) = ground (arith, left_out-length seen rest)

-- Every text of the first list is in the second.
abbrev pub Within : List String → List String → Type 0
Within xs ys = (x : String) → contains_string xs x ≡ true → contains_string ys x ≡ true

pub left_out-Within :
    {V : Type 0} (xs ys : List String) (m : Dict V) → Within xs ys → left_out ys m ≤ left_out xs m
unfolding left_out
left_out-Within xs ys [] h = omega arith
left_out-Within xs ys ((k, v) ∷ rest) h = ground (arith, left_out-Within xs ys rest h, h k)

pub Within-cons : (x : String) (xs : List String) → Within xs (x ∷ xs)
Within-cons x xs y h = ground arith

pub left_out-cons :
    {V : Type 0} (x : String) (seen : List String) (m : Dict V)
    → contains_string seen x ≡ false
    → is_some (lookup x m) ≡ true
    → left_out (x ∷ seen) m < left_out seen m
unfolding left_out lookup
left_out-cons x seen [] h k = absurd (false≢true k)
left_out-cons x seen ((j, v) ∷ rest) h k = elim (Bool-cases (str_eq j x)) [
  | inl t ↦
      ground
        (arith, left_out-Within seen (x ∷ seen) rest (Within-cons x seen), eq_iff j x, eq_iff x j)
  | inr f ↦
      ground (arith, left_out-cons x seen rest h (rw (f, lookup) at k), eq_iff j x, eq_iff x j)
]

-- A text of `x ∷ xs` is `x` or one of `xs`.
pub contains-cases :
    (x : String) (xs : List String) (y : String)
    → contains_string (x ∷ xs) y ≡ true
    → (x ≡ y) ⊎ (contains_string xs y ≡ true)
contains-cases x xs y h = elim (Bool-cases (str_eq x y)) [
  | inl t ↦ inl ((eq_iff x y).0 t)
  | inr f ↦ inr (ground arith)
]

pub contains-first : (x : String) (xs : List String) → contains_string (x ∷ xs) x ≡ true
contains-first x xs = ground (arith, eq_refl x)

pub Within-trans : (xs ys zs : List String) → Within xs ys → Within ys zs → Within xs zs
Within-trans xs ys zs h k x m = k x (h x m)
