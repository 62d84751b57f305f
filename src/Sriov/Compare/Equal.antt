-- ===== src/Sriov/Compare/Equal.antt =====
-- What it means that two configurations compare equal.
use aws_multi_eni_controller.Prelude.{
  String, Bool, true, false, ◌&&◌, ◌||◌, ◌≡◌, refl, sym, ap, ◌∙◌, subst, List, [], ◌∷◌, none, some,
  inl, inr, arith, eq_iff, eq_refl, contains_string, Bool-cases, Option-cases, length, ◌==◌,
  false≢true, All,
}
use aws_multi_eni_controller.Prelude.Maps.{lookup}
use aws_multi_eni_controller.Controller.Subnets.Laws.{NoRepeat}
use aws_multi_eni_controller.Sriov.{
  Resource, SriovConfig, selectors_have, within, resources_equal, resource_key, by_key, found_equal,
  all_in, configs_equal,
}
use aws_multi_eni_controller.Sriov.Update.{is_named, list_has, config_has}
use aws_multi_eni_controller.Sriov.Compare.{
  AllNoRepeat, within-same, selectors_have-equal, selectors_drive, selectors_drive-equal,
}
use aws_multi_eni_controller.Sriov.Compare.Configs.{
  keys_of, length-keys_of, Listed, Listed-key, key-Listed, lookup-by_key_absent, lookup-by_key,
  by_key-Listed, all_in-lookup, some_injective,
}

-- Whether a resource of that prefix and name passes the test.
list_with : String → String → (Resource → Bool) → List Resource → Bool
list_with p n test [] = false
list_with p n test (r ∷ rs) = is_named p n r && test r || list_with p n test rs

has_address : String → Resource → Bool
has_address a r = selectors_have a r.selectors

drives : String → String → Resource → Bool
drives v a r = selectors_drive v a r.selectors

-- Whether a resource of that prefix and name has the address with the driver in one selector.
abbrev pub list_drives : String → String → String → String → List Resource → Bool
list_drives p n v a [] = false
list_drives p n v a (r ∷ rs) =
    is_named p n r && selectors_drive v a r.selectors || list_drives p n v a rs

abbrev pub config_drives : String → String → String → String → SriovConfig → Bool
config_drives p n v a c = list_drives p n v a c.resource_list

list_has-with :
    (p n a : String) (rs : List Resource) → list_has p n a rs ≡ list_with p n (has_address a) rs
unfolding list_with has_address
list_has-with p n a [] = refl
list_has-with p n a (r ∷ rs) =
    ap (λ b. is_named p n r && selectors_have a r.selectors || b) (list_has-with p n a rs)

list_drives-with :
    (p n v a : String) (rs : List Resource) → list_drives p n v a rs ≡ list_with p n (drives v a) rs
unfolding list_with drives
list_drives-with p n v a [] = refl
list_drives-with p n v a (r ∷ rs) =
    ap (λ b. is_named p n r && selectors_drive v a r.selectors || b) (list_drives-with p n v a rs)

-- A resource of that prefix and name that passes the test.
abbrev Has : String → String → (Resource → Bool) → List Resource → Type 0
Has p n test rs = (r : Resource) × (Listed r rs × ((is_named p n r ≡ true) × (test r ≡ true)))

list_with-Has :
    (p n : String) (test : Resource → Bool) (rs : List Resource)
    → list_with p n test rs ≡ true
    → Has p n test rs
unfolding list_with
list_with-Has p n test [] h = absurd (false≢true h)
list_with-Has p n test (r ∷ rs) h = elim (Bool-cases (is_named p n r && test r)) [
  | inl t ↦ (r, (inl refl, (ground arith, ground arith)))
  | inr f ↦ let k = list_with-Has p n test rs (ground arith) in (k.0, (inr k.1.0, k.1.1))
]

Has-list_with :
    (p n : String) (test : Resource → Bool) (r : Resource) (rs : List Resource)
    → Listed r rs
    → is_named p n r ≡ true
    → test r ≡ true
    → list_with p n test rs ≡ true
unfolding list_with
Has-list_with p n test r [] l h k = absurd l
Has-list_with p n test r (x ∷ xs) (inr l) h k = ground (arith, Has-list_with p n test r xs l h k)
Has-list_with p n test r (x ∷ xs) (inl e) h k =
    subst (λ y. (is_named p n y && test y || list_with p n test xs) ≡ true) e (ground arith)

-- In each resource no selector has an address or a driver twice.
abbrev pub IsPlain : List Resource → Type 0
IsPlain rs = All (λ r. AllNoRepeat r.selectors) rs

plain_at : (r : Resource) (rs : List Resource) → IsPlain rs → Listed r rs → AllNoRepeat r.selectors
plain_at r [] h l = absurd l
plain_at r (x ∷ xs) h (inl e) = subst (λ y. AllNoRepeat y.selectors) (sym e) h.0
plain_at r (x ∷ xs) h (inr l) = plain_at r xs h.1 l

-- Resources that compare equal have one prefix and one name.
resources_equal-is_named :
    (r t : Resource) (p n : String) → resources_equal r t ≡ true → is_named p n r ≡ is_named p n t
unfolding resources_equal
resources_equal-is_named r t p n e =
    ground
      (arith, eq_iff r.resource_name t.resource_name, eq_iff r.resource_prefix t.resource_prefix)

-- Resources that compare equal have the same addresses.
has_address-equal :
    (a : String) (r t : Resource)
    → AllNoRepeat r.selectors
    → resources_equal r t ≡ true
    → has_address a r ≡ has_address a t
unfolding resources_equal has_address
has_address-equal a r t h e =
    selectors_have-equal r.selectors t.selectors a h (ground arith) (ground arith)

-- Resources that compare equal have the same addresses with the same drivers.
drives-equal :
    (v a : String) (r t : Resource)
    → AllNoRepeat r.selectors
    → resources_equal r t ≡ true
    → drives v a r ≡ drives v a t
unfolding resources_equal drives
drives-equal v a r t h e =
    selectors_drive-equal r.selectors t.selectors v a h (ground arith) (ground arith)

module _ (c d : List Resource) (distinct : NoRepeat (keys_of c))
    (lengths : (length c == length d) ≡ true)
    (included : all_in (by_key c []) (by_key d []) ≡ true) where
  -- The resource of the second list that a resource of the first one was compared with.
  matched :
      (r : Resource)
      → Listed r c
      → (t : Resource) × (Listed t d
          × ((resources_equal r t ≡ true) × (lookup (resource_key r) (by_key d []) ≡ some t)))
  unfolding lookup
  matched r l =
      let e =
        all_in-lookup (by_key c []) (by_key d []) (resource_key r) r included
          (lookup-by_key r c [] distinct l) in
      elim (Option-cases (lookup (resource_key r) (by_key d []))) [
        | inl q ↦ absurd (false≢true (sym (ap (found_equal r) q) ∙ e))
        | inr (t, q) ↦ elim (by_key-Listed (resource_key r) t d [] q) [
          | inl m ↦ (t, (m, (sym (ap (found_equal r) q) ∙ e, q)))
          | inr n ↦ absurd (none_is_not_some n)
        ]
      ]
    where
      none_is_not_some : {t : Resource} → none ≡ some t → ⊥
      none_is_not_some k = cc

  key_included :
      (k : String) → contains_string (keys_of c) k ≡ true → contains_string (keys_of d) k ≡ true
  unfolding lookup
  key_included k h = elim (Bool-cases (contains_string (keys_of d) k)) [
    | inl t ↦ t
    | inr f ↦
        let r = key-Listed k c h in
        let m = matched r.0 r.1.0 in
        absurd (
          none_is_not_some (
            sym (lookup-by_key_absent k d [] f)
            ∙ ap (λ y. lookup y (by_key d [])) (sym r.1.1)
            ∙ m.1.1.1))
  ]
    where
      none_is_not_some : {t : Resource} → none ≡ some t → ⊥
      none_is_not_some e = cc

  within-all :
      (ks js : List String)
      → ((k : String) → contains_string ks k ≡ true → contains_string js k ≡ true)
      → within ks js ≡ true
  unfolding within
  within-all [] js h = refl
  within-all (k ∷ ks) js h =
      ground (arith, h k (ground (arith, eq_refl k)), within-all ks js (λ j m. h j (ground arith)))

  same_keys : (k : String) → contains_string (keys_of c) k ≡ contains_string (keys_of d) k
  same_keys k =
      within-same (keys_of c) (keys_of d) k distinct
        (rw (length-keys_of c) (rw (length-keys_of d) lengths))
        (within-all (keys_of c) (keys_of d) key_included)

  -- A test that resources that compare equal pass together.
  module _ (plain : IsPlain c) (distinct_too : NoRepeat (keys_of d)) (test : Resource → Bool)
      (test_equal : (r t : Resource)
        → AllNoRepeat r.selectors
        → resources_equal r t ≡ true
        → test r ≡ test t) where
    forward : (p n : String) → list_with p n test c ≡ true → list_with p n test d ≡ true
    forward p n h =
        let r = list_with-Has p n test c h in
        let m = matched r.0 r.1.0 in
        let e = m.1.1.0 in
        Has-list_with p n test m.0 d m.1.0 (sym (resources_equal-is_named r.0 m.0 p n e) ∙ r.1.1.0)
          (sym (test_equal r.0 m.0 (plain_at r.0 c plain r.1.0) e) ∙ r.1.1.1)

    backward : (p n : String) → list_with p n test d ≡ true → list_with p n test c ≡ true
    backward p n h =
        let t = list_with-Has p n test d h in
        let r =
          key-Listed (resource_key t.0) c (same_keys (resource_key t.0) ∙ Listed-key t.0 d t.1.0) in
        let m = matched r.0 r.1.0 in
        let same = some_injective (
          sym m.1.1.1
          ∙ ap (λ y. lookup y (by_key d [])) r.1.1
          ∙ lookup-by_key t.0 d [] distinct_too t.1.0) in
        let e = m.1.1.0 in
        Has-list_with p n test r.0 c r.1.0
          (resources_equal-is_named r.0 m.0 p n e ∙ ap (is_named p n) same ∙ t.1.1.0)
          (test_equal r.0 m.0 (plain_at r.0 c plain r.1.0) e ∙ ap test same ∙ t.1.1.1)

    both_ways : (p n : String) → list_with p n test c ≡ list_with p n test d
    both_ways p n = elim (Bool-cases (list_with p n test c)) [
      | inl t ↦ t ∙ sym (forward p n t)
      | inr f ↦ elim (Bool-cases (list_with p n test d)) [
        | inr g ↦ f ∙ sym g
        | inl t ↦ absurd (false≢true (sym f ∙ backward p n t))
      ]
    ]

-- If configsEqual sees no difference, the two configurations have the same addresses under the same
-- prefixes and names, and each of these with the same drivers: provided that in each of them no two
-- resources have one key, and in the first one no selector has an address or a driver twice.
pub configs_equal-same :
    (c d : SriovConfig)
    → NoRepeat (keys_of c.resource_list)
    → IsPlain c.resource_list
    → NoRepeat (keys_of d.resource_list)
    → configs_equal c d ≡ true
    → (p n a v : String)
    → (config_has p n a c ≡ config_has p n a d)
      × (config_drives p n v a c ≡ config_drives p n v a d)
unfolding configs_equal
configs_equal-same c d h plain k e p n a v =
    let cs = c.resource_list in
    let ds = d.resource_list in
    (
      list_has-with p n a cs
          ∙ both_ways cs ds h (ground arith) (ground arith) plain k (has_address a)
              (has_address-equal a) p n
          ∙ sym (list_has-with p n a ds),
      list_drives-with p n v a cs
          ∙ both_ways cs ds h (ground arith) (ground arith) plain k (drives v a) (drives-equal v a)
              p n
          ∙ sym (list_drives-with p n v a ds),
    )
