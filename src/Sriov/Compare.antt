-- ===== src/Sriov/Compare.antt =====
-- Lists of texts and selectors that compare equal.
pub mod Configs
pub mod Equal
mod Tests
use aws_multi_eni_controller.Prelude.{
  ℕ, suc, ◌≤◌, ◌<◌, String, ◌<>◌, Bool, true, false, ◌&&◌, ◌||◌, ◌≡◌, refl, sym, ap, ◌∙◌, subst,
  List, [], ◌∷◌, Option, none, some, inl, inr, ◌⊎◌, arith, eq_iff, eq_refl, str_eq, if◌then◌else◌,
  contains_string, remove_string, contains_string-remove, Bool-cases, Option-cases, length, ◌==◌,
  false≢true,
}
use aws_multi_eni_controller.Prelude.Maps.{Dict, lookup, insert, lookup-insert}
use aws_multi_eni_controller.Controller.Subnets.Laws.{NoRepeat}
use aws_multi_eni_controller.Sriov.{
  Selector, Resource, SriovConfig, selectors_have, within, selectors_equal, all_selectors_equal,
  resources_equal, resource_key, by_key, found_equal, all_in, configs_equal,
}
use aws_multi_eni_controller.Sriov.Update.{is_named, list_has, config_has}

length-remove_le : (xs : List String) (x : String) → length (remove_string xs x) ≤ length xs
length-remove_le [] x = omega arith
length-remove_le (y ∷ xs) x = ground (arith, length-remove_le xs x)

length-remove_lt :
    (xs : List String) (x : String)
    → contains_string xs x ≡ true
    → length (remove_string xs x) < length xs
length-remove_lt [] x h = absurd (false≢true h)
length-remove_lt (y ∷ xs) x h = elim (Bool-cases (str_eq y x)) [
  | inl t ↦ rw (t) (omega (arith, length-remove_le xs x))
  | inr f ↦ rw (f) (omega (arith, length-remove_lt xs x (ground arith)))
]

within-remove :
    (xs ys : List String) (x : String)
    → within xs ys ≡ true
    → contains_string xs x ≡ false
    → within xs (remove_string ys x) ≡ true
unfolding within
within-remove [] ys x h k = refl
within-remove (z ∷ xs) ys x h k =
    ground (arith, within-remove xs ys x, contains_string-remove ys x z, eq_iff x z, eq_iff z x)

-- A list with no text twice, within another one that has one text more, is shorter.
within-shorter :
    (xs ys : List String) (a : String)
    → NoRepeat xs
    → within xs ys ≡ true
    → contains_string ys a ≡ true
    → contains_string xs a ≡ false
    → length xs < length ys
unfolding within
within-shorter [] [] a n h k f = absurd (false≢true k)
within-shorter [] (y ∷ ys) a n h k f = omega arith
within-shorter (x ∷ xs) ys a n h k f =
    let rest =
      within-shorter xs (remove_string ys x) a n.1 (within-remove xs ys x (ground arith) n.0)
        (ground (arith, contains_string-remove ys x a, eq_iff x a)) (ground arith) in
    omega (arith, rest, length-remove_lt ys x (ground arith))

pub contains-within :
    (xs ys : List String) (a : String)
    → within xs ys ≡ true
    → contains_string xs a ≡ true
    → contains_string ys a ≡ true
unfolding within
contains-within [] ys a h k = absurd (false≢true k)
contains-within (x ∷ xs) ys a h k = ground (arith, contains-within xs ys a, eq_iff x a)

-- Lists of one length with no text twice in the first one, of which the first is within the second,
-- have the same texts.
pub within-same :
    (xs ys : List String) (a : String)
    → NoRepeat xs
    → (length xs == length ys) ≡ true
    → within xs ys ≡ true
    → contains_string xs a ≡ contains_string ys a
within-same xs ys a n l h = elim (Bool-cases (contains_string xs a)) [
  | inl t ↦ t ∙ sym (contains-within xs ys a h t)
  | inr f ↦ elim (Bool-cases (contains_string ys a)) [
    | inr g ↦ f ∙ sym g
    | inl t ↦ absurd (ground (arith, within-shorter xs ys a n h t f))
  ]
]

-- No selector has an address or a driver twice.
abbrev pub AllNoRepeat : List Selector → Type 0
AllNoRepeat [] = Unit
AllNoRepeat (s ∷ ss) = (NoRepeat s.pci_addresses × NoRepeat s.drivers) × AllNoRepeat ss

pub selectors_have-equal :
    (ss ts : List Selector) (a : String)
    → AllNoRepeat ss
    → (length ss == length ts) ≡ true
    → all_selectors_equal ss ts ≡ true
    → selectors_have a ss ≡ selectors_have a ts
unfolding all_selectors_equal selectors_have
selectors_have-equal [] [] a n l h = refl
selectors_have-equal [] (t ∷ ts) a n l h = absurd (ground arith)
selectors_have-equal (s ∷ ss) [] a n l h = absurd (ground arith)
selectors_have-equal (s ∷ ss) (t ∷ ts) a n l h =
    ground
      (arith, within-same s.pci_addresses t.pci_addresses a n.0.0, selectors_have-equal ss ts a n.1)

-- Whether a selector that has the address has the driver.
abbrev pub selectors_drive : String → String → List Selector → Bool
selectors_drive v a [] = false
selectors_drive v a (s ∷ ss) =
    contains_string s.drivers v && contains_string s.pci_addresses a || selectors_drive v a ss

pub selectors_drive-equal :
    (ss ts : List Selector) (v a : String)
    → AllNoRepeat ss
    → (length ss == length ts) ≡ true
    → all_selectors_equal ss ts ≡ true
    → selectors_drive v a ss ≡ selectors_drive v a ts
unfolding all_selectors_equal
selectors_drive-equal [] [] v a n l h = refl
selectors_drive-equal [] (t ∷ ts) v a n l h = absurd (ground arith)
selectors_drive-equal (s ∷ ss) [] v a n l h = absurd (ground arith)
selectors_drive-equal (s ∷ ss) (t ∷ ts) v a n l h = ground (
  arith,
  within-same s.pci_addresses t.pci_addresses a n.0.0,
  within-same s.drivers t.drivers v n.0.1,
  selectors_drive-equal ss ts v a n.1,
)
