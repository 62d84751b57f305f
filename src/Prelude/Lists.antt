-- ===== src/Prelude/Lists.antt =====
-- Lists measured by native numbers, quantified by recursion, and lists of texts as Go slices.
use Prim.Native.Nat.{ℕ, suc, ◌+◌}
use Prim.Native.String.{String}
use mathlib.Core.Path.{◌≡◌, refl}
use mathlib.Core.Bool.{Bool, false, ◌||◌}
use mathlib.Core.List.{List, [], ◌∷◌, ◌++◌}
use native.Mathlib.Omega.{arith}
use text.Mathlib.TextEquality.{eq_iff}
use aws_multi_eni_controller.Prelude.Tests.{if◌then◌else◌, str_eq}

module _ {ℓ} {A : Type ℓ} where
  abbrev pub length : List A → ℕ
  length [] = 0
  length (x ∷ xs) = suc (length xs)

  pub length-append : (xs ys : List A) → length (xs ++ ys) ≡ length xs + length ys
  length-append [] ys = omega arith
  length-append (x ∷ xs) ys = omega (arith, length-append xs ys)

  -- Every entry satisfies `P`, as nested pairs.
  abbrev pub All {κ} : (A → Type κ) → List A → Type κ
  All P [] = Unit
  All P (x ∷ xs) = P x × All P xs

  pub All-append {κ} : (P : A → Type κ) (xs ys : List A) → All P xs → All P ys → All P (xs ++ ys)
  All-append P [] ys h k = k
  All-append P (x ∷ xs) ys h k = (h.0, All-append P xs ys h.1 k)

  pub All-map {κ} : (P Q : A → Type κ) (xs : List A) → ((x : A) → P x → Q x) → All P xs → All Q xs
  All-map P Q [] f h = h
  All-map P Q (x ∷ xs) f h = (f x h.0, All-map P Q xs f h.1)

-- `util.ContainsString`, and the test `_, ok := set[s]` on a set of texts.
abbrev pub contains_string : List String → String → Bool
contains_string [] s = false
contains_string (x ∷ xs) s = str_eq x s || contains_string xs s

-- `util.RemoveString`.
abbrev pub remove_string : List String → String → List String
remove_string [] s = []
remove_string (x ∷ xs) s = if str_eq x s then remove_string xs s else x ∷ remove_string xs s

pub contains_string-append :
    (xs ys : List String) (s : String)
    → contains_string (xs ++ ys) s ≡ (contains_string xs s || contains_string ys s)
contains_string-append [] ys s = refl
contains_string-append (x ∷ xs) ys s = ground (arith, contains_string-append xs ys s)

pub contains_string-remove :
    (xs : List String) (s t : String)
    → contains_string (remove_string xs s) t ≡ (if str_eq s t then false else contains_string xs t)
contains_string-remove [] s t = ground arith
contains_string-remove (x ∷ xs) s t =
    ground (arith, contains_string-remove xs s t, eq_iff x s, eq_iff x t, eq_iff s t)
