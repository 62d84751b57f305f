-- ===== src/Sriov/Cleanup.antt =====
-- The cleanup at the end of a batch of updates.
use aws_multi_eni_controller.Prelude.{
  String, true, false, ◌≡◌, refl, ◌∙◌, List, [], ◌∷◌, inl, arith, eq_iff, str_eq, contains_string,
  Bool-cases, length, ltb, false≢true, All, Bool, ◌&&◌, ◌||◌, ◌⊎◌, sym, ap, inr,
}
use aws_multi_eni_controller.Sriov.{
  Selector, Resource, SriovConfig, selectors_have, filled, kept_resource, filled_resources,
  only_placeholder, one_placeholder, is_placeholder, placeholder_address, placeholder_name,
  has_real_resources, real_resources, cleanup_config,
}
use aws_multi_eni_controller.Sriov.Update.{is_named, list_has, config_has, list_has-kept}

contains-empty :
    (xs : List String) (a : String) → ltb 0 (length xs) ≡ false → contains_string xs a ≡ false
contains-empty [] a h = refl
contains-empty (x ∷ xs) a h = absurd (ground arith)

selectors_have-filled :
    (ss : List Selector) (a : String) → selectors_have a (filled ss) ≡ selectors_have a ss
unfolding selectors_have filled
selectors_have-filled [] a = refl
selectors_have-filled (s ∷ ss) a = elim (Bool-cases (ltb 0 (length s.pci_addresses))) [
  | inl t ↦ rw (t, filled) (ground (arith, selectors_have-filled ss a))
  | inr f ↦
      rw (f, filled)
        (ground (arith, selectors_have-filled ss a, contains-empty s.pci_addresses a f))
]

list_has-filled :
    (rs : List Resource) (p n a : String) → list_has p n a (filled_resources rs) ≡ list_has p n a rs
unfolding filled_resources
list_has-filled [] p n a = refl
list_has-filled (r ∷ rs) p n a = ground (
  arith,
  list_has-kept r (filled r.selectors) (filled_resources rs) p n a,
  selectors_have-filled r.selectors a,
  list_has-filled rs p n a,
)

only_placeholder_lem :
    (xs : List String) (a : String)
    → only_placeholder xs ≡ true
    → str_eq a placeholder_address ≡ false
    → contains_string xs a ≡ false
only_placeholder_lem [] a h k = refl
only_placeholder_lem (x ∷ []) a h k =
    ground (arith, eq_iff x a, eq_iff x placeholder_address, eq_iff a placeholder_address)
only_placeholder_lem (x ∷ y ∷ xs) a h k = absurd (false≢true h)

one_placeholder_lem :
    (ss : List Selector) (a : String)
    → one_placeholder ss ≡ true
    → str_eq a placeholder_address ≡ false
    → selectors_have a ss ≡ false
unfolding selectors_have
one_placeholder_lem [] a h k = refl
one_placeholder_lem (s ∷ []) a h k = ground (arith, only_placeholder_lem s.pci_addresses a h k)
one_placeholder_lem (s ∷ t ∷ ss) a h k = absurd (false≢true h)

-- The placeholder's address under the placeholder's name.
abbrev pub is_placeholders : String → String → Bool
is_placeholders n a = str_eq n placeholder_name && str_eq a placeholder_address

placeholder_has :
    (r : Resource) (p n a : String)
    → is_placeholder r ≡ true
    → is_named p n r && selectors_have a r.selectors ≡ true
    → is_placeholders n a ≡ true
placeholder_has r p n a t h = elim (Bool-cases (str_eq a placeholder_address)) [
  | inl e ↦ ground (arith, eq_iff r.resource_name n)
  | inr e ↦ absurd (ground (arith, one_placeholder_lem r.selectors a (ground arith) e))
]

-- Of the real resources nothing is lost but what stands in a placeholder, and nothing is added.
list_has-real :
    (rs : List Resource) (p n a : String)
    → ((list_has p n a (real_resources rs) || is_placeholders n a)
        ≡ (list_has p n a rs || is_placeholders n a))
      × ((list_has p n a (real_resources rs) && list_has p n a rs)
          ≡ list_has p n a (real_resources rs))
unfolding real_resources
list_has-real [] p n a = (refl, refl)
list_has-real (r ∷ rs) p n a = elim (Bool-cases (is_placeholder r)) [
  | inl t ↦ elim (Bool-cases (is_named p n r && selectors_have a r.selectors)) [
    | inl h ↦
        let k = placeholder_has r p n a t h in
        rw (t, real_resources) (ground (arith, list_has-real rs p n a, k))
    | inr h ↦ rw (t, real_resources) (ground (arith, list_has-real rs p n a, h))
  ]
  | inr f ↦ rw (f, real_resources) (ground (arith, list_has-real rs p n a))
]

-- Every selector has an address.
abbrev IsFilled : List Selector → Type 0
IsFilled ss = All (λ s. ltb 0 (length s.pci_addresses) ≡ true) ss

filled-IsFilled : (ss : List Selector) → IsFilled (filled ss)
unfolding filled
filled-IsFilled [] = tt
filled-IsFilled (s ∷ ss) = elim (Bool-cases (ltb 0 (length s.pci_addresses))) [
  | inl t ↦ rw (t, filled) (t, filled-IsFilled ss)
  | inr f ↦ rw (f, filled) (filled-IsFilled ss)
]

-- A resource with selectors, of which each has an address.
abbrev pub IsUsed : Resource → Type 0
IsUsed r = (r.selectors ≡ [] → ⊥) × All (λ s. ltb 0 (length s.pci_addresses) ≡ true) r.selectors

kept_resource-IsUsed :
    (r : Resource) (ss : List Selector) (rest : List Resource)
    → IsFilled ss
    → All IsUsed rest
    → All IsUsed (kept_resource r ss rest)
kept_resource-IsUsed r [] rest h k = k
kept_resource-IsUsed r (s ∷ ss) rest h k = ((cons_not_nil, h), k)
  where
    cons_not_nil : s ∷ ss ≡ [] → ⊥
    cons_not_nil e = cc

filled_resources-IsUsed : (rs : List Resource) → All IsUsed (filled_resources rs)
unfolding filled_resources
filled_resources-IsUsed [] = tt
filled_resources-IsUsed (r ∷ rs) =
    kept_resource-IsUsed r (filled r.selectors) (filled_resources rs) (filled-IsFilled r.selectors)
      (filled_resources-IsUsed rs)

real_resources-IsUsed :
    (rs : List Resource)
    → All IsUsed rs
    → All (λ r. IsUsed r × (is_placeholder r ≡ false)) (real_resources rs)
unfolding real_resources
real_resources-IsUsed [] h = tt
real_resources-IsUsed (r ∷ rs) h = elim (Bool-cases (is_placeholder r)) [
  | inl t ↦ rw (t, real_resources) (real_resources-IsUsed rs h.1)
  | inr f ↦ rw (f, real_resources) ((h.0, f), real_resources-IsUsed rs h.1)
]

forget_placeholder :
    (rs : List Resource) → All (λ r. IsUsed r × (is_placeholder r ≡ false)) rs → All IsUsed rs
forget_placeholder [] h = tt
forget_placeholder (r ∷ rs) h = (h.0.0, forget_placeholder rs h.1)

forget_used :
    (rs : List Resource)
    → All (λ r. IsUsed r × (is_placeholder r ≡ false)) rs
    → All (λ r. is_placeholder r ≡ false) rs
forget_used [] h = tt
forget_used (r ∷ rs) h = (h.0.1, forget_used rs h.1)

no_real-placeholders :
    (rs : List Resource) → has_real_resources rs ≡ false → All (λ r. is_placeholder r ≡ true) rs
unfolding has_real_resources
no_real-placeholders [] h = tt
no_real-placeholders (r ∷ rs) h = (ground arith, no_real-placeholders rs (ground arith))

-- cleanupConfig loses nothing but the placeholder's address under the placeholder's name, and adds no
-- address, the placeholder's neither. In what is left each resource has selectors and each of these an
-- address, and either no resource is a placeholder or all are.
pub cleanup_config_lem :
    (c : SriovConfig) (p n a : String)
    → ((config_has p n a (cleanup_config c) || is_placeholders n a)
        ≡ (config_has p n a c || is_placeholders n a))
      × ((config_has p n a (cleanup_config c) && config_has p n a c)
          ≡ config_has p n a (cleanup_config c))
      × All IsUsed (cleanup_config c).resource_list
      × (All (λ r. is_placeholder r ≡ false) (cleanup_config c).resource_list
          ⊎ All (λ r. is_placeholder r ≡ true) (cleanup_config c).resource_list)
unfolding cleanup_config
cleanup_config_lem c p n a =
    let rs = filled_resources c.resource_list in
    let used = filled_resources-IsUsed c.resource_list in
    let same = list_has-filled c.resource_list p n a in
    let real = real_resources-IsUsed rs used in
    elim (Bool-cases (has_real_resources rs)) [
      | inl t ↦
          rw (t, cleanup_config)
            (
              (list_has-real rs p n a).0 ∙ ap (λ b. b || is_placeholders n a) same,
              ap (λ b. list_has p n a (real_resources rs) && b) (sym same)
                  ∙ (list_has-real rs p n a).1,
              forget_placeholder (real_resources rs) real,
              inl (forget_used (real_resources rs) real),
            )
      | inr f ↦
          rw (f, cleanup_config)
            (
              ap (λ b. b || is_placeholders n a) same,
              ground (arith, same),
              used,
              inr (no_real-placeholders rs f),
            )
    ]
