-- ===== src/Sriov/Compare/Configs.antt =====
-- Resources by their keys.
use aws_multi_eni_controller.Prelude.{
  suc, String, true, false, ◌≡◌, refl, sym, ap, ◌∙◌, subst, List, [], ◌∷◌, none, some, inl, inr,
  ◌⊎◌, arith, eq_iff, eq_refl, str_eq, contains_string, Bool-cases, length, false≢true,
}
use aws_multi_eni_controller.Prelude.Maps.{Dict, lookup, insert, lookup-insert}
use aws_multi_eni_controller.Controller.Subnets.Laws.{NoRepeat}
use aws_multi_eni_controller.Sriov.{Resource, resource_key, by_key, found_equal, all_in}

abbrev pub keys_of : List Resource → List String
keys_of [] = []
keys_of (r ∷ rs) = resource_key r ∷ keys_of rs

pub length-keys_of : (rs : List Resource) → length (keys_of rs) ≡ length rs
length-keys_of [] = refl
length-keys_of (r ∷ rs) = ap suc (length-keys_of rs)

abbrev pub Listed : Resource → List Resource → Type 0
Listed r [] = ⊥
Listed r (x ∷ xs) = (r ≡ x) ⊎ Listed r xs

pub Listed-key :
    (r : Resource) (rs : List Resource)
    → Listed r rs
    → contains_string (keys_of rs) (resource_key r) ≡ true
Listed-key r [] h = absurd h
Listed-key r (x ∷ xs) (inl e) =
    subst (λ y. contains_string (resource_key x ∷ keys_of xs) (resource_key y) ≡ true) (sym e)
      (ground (arith, eq_refl (resource_key x)))
Listed-key r (x ∷ xs) (inr h) = ground (arith, Listed-key r xs h)

pub key-Listed :
    (k : String) (rs : List Resource)
    → contains_string (keys_of rs) k ≡ true
    → (r : Resource) × (Listed r rs × (resource_key r ≡ k))
key-Listed k [] h = absurd (false≢true h)
key-Listed k (x ∷ xs) h = elim (Bool-cases (str_eq (resource_key x) k)) [
  | inl t ↦ (x, (inl refl, (eq_iff (resource_key x) k).0 t))
  | inr f ↦ let r = key-Listed k xs (ground arith) in (r.0, (inr r.1.0, r.1.1))
]

pub lookup-by_key_absent :
    (k : String) (rs : List Resource) (m : Dict Resource)
    → contains_string (keys_of rs) k ≡ false
    → lookup k (by_key rs m) ≡ lookup k m
unfolding by_key
lookup-by_key_absent k [] m h = refl
lookup-by_key_absent k (r ∷ rs) m h =
    lookup-by_key_absent k rs (insert (resource_key r) r m) (ground arith)
    ∙ ground (arith, lookup-insert (resource_key r) k r m)

pub lookup-by_key :
    (r : Resource) (rs : List Resource) (m : Dict Resource)
    → NoRepeat (keys_of rs)
    → Listed r rs
    → lookup (resource_key r) (by_key rs m) ≡ some r
unfolding by_key
lookup-by_key r [] m n h = absurd h
lookup-by_key r (x ∷ xs) m n (inr h) = lookup-by_key r xs (insert (resource_key x) x m) n.1 h
lookup-by_key r (x ∷ xs) m n (inl e) =
    subst (λ y. lookup (resource_key y) (by_key xs (insert (resource_key x) x m)) ≡ some y) (sym e)
      (lookup-by_key_absent (resource_key x) xs (insert (resource_key x) x m) n.0
        ∙ ground
            (arith, lookup-insert (resource_key x) (resource_key x) x m, eq_refl (resource_key x)))

pub some_injective : {A : Type 0} {a b : A} → some a ≡ some b → a ≡ b
some_injective h = cc

pub by_key-Listed :
    (k : String) (t : Resource) (rs : List Resource) (m : Dict Resource)
    → lookup k (by_key rs m) ≡ some t
    → Listed t rs ⊎ (lookup k m ≡ some t)
unfolding by_key
by_key-Listed k t [] m h = inr h
by_key-Listed k t (r ∷ rs) m h = elim (by_key-Listed k t rs (insert (resource_key r) r m) h) [
  | inl l ↦ inl (inr l)
  | inr q ↦ elim (Bool-cases (str_eq (resource_key r) k)) [
    | inl same ↦
        inl (inl (sym (some_injective (rw (lookup-insert (resource_key r) k r m, same) at q))))
    | inr f ↦ inr (rw (lookup-insert (resource_key r) k r m, f) at q)
  ]
]

pub all_in-lookup :
    (m other : Dict Resource) (k : String) (r : Resource)
    → all_in m other ≡ true
    → lookup k m ≡ some r
    → found_equal r (lookup k other) ≡ true
unfolding all_in lookup
all_in-lookup [] other k r h q = absurd (none_is_not_some q)
  where
    none_is_not_some : none ≡ some r → ⊥
    none_is_not_some e = cc
all_in-lookup ((j, v) ∷ rest) other k r h q = elim (Bool-cases (str_eq j k)) [
  | inl t ↦
      let same = (eq_iff j k).0 t in
      let e = some_injective (rw (t, lookup) at q) in
      subst (λ y. found_equal y (lookup k other) ≡ true) e
        (subst (λ y. found_equal v (lookup y other) ≡ true) same (ground arith))
  | inr f ↦ all_in-lookup rest other k r (ground arith) (rw (f, lookup) at q)
]
