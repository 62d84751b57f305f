-- ===== src/Sriov/Update.antt =====
-- The configuration as a set of addresses under a prefix and a name, and what the updates do to it.
use aws_multi_eni_controller.Prelude.{
  String, Bool, false, ◌&&◌, ◌||◌, not, ◌≡◌, refl, List, [], ◌∷◌, inl, inr, arith, eq_iff, str_eq,
  contains_string, contains_string-append, Bool-cases,
}
use aws_multi_eni_controller.Sriov.{
  Selector, Resource, SriovConfig, ResourceUpdate, matches_resource, selectors_have,
  add_to_selectors, add_pci_address_to_resource, add_to_list, apply_add_update, without_address,
  remove_from_selectors, remove_from_list, apply_remove_update, remove_in_selectors,
  remove_everywhere, is_modified, kept_selector, kept_resource,
}

abbrev pub is_named : String → String → Resource → Bool
is_named p n r = str_eq r.resource_prefix p && str_eq r.resource_name n

-- Whether a resource of that prefix and name has the address.
abbrev pub list_has : String → String → String → List Resource → Bool
list_has p n a [] = false
list_has p n a (r ∷ rs) = is_named p n r && selectors_have a r.selectors || list_has p n a rs

abbrev pub config_has : String → String → String → SriovConfig → Bool
config_has p n a c = list_has p n a c.resource_list

-- The update is about the address under that prefix and name.
abbrev pub is_about : String → String → String → ResourceUpdate → Bool
is_about p n a u = str_eq u.resource_prefix p && str_eq u.resource_name n && str_eq u.pci_address a

selectors_have-add :
    (u : ResourceUpdate) (ss : List Selector) (a : String)
    → selectors_have a (add_to_selectors u ss) ≡ (selectors_have a ss || str_eq u.pci_address a)
unfolding selectors_have add_to_selectors
selectors_have-add u [] a = ground arith
selectors_have-add u (s ∷ ss) a =
    ground (arith, contains_string-append s.pci_addresses (u.pci_address ∷ []) a)

add_pci_address_lem :
    (r : Resource) (u : ResourceUpdate) (a : String)
    → selectors_have a (add_pci_address_to_resource r u).selectors
      ≡ (selectors_have a r.selectors || str_eq u.pci_address a)
unfolding add_pci_address_to_resource
add_pci_address_lem r u a = elim (Bool-cases (selectors_have u.pci_address r.selectors)) [
  | inl t ↦ rw (t, add_pci_address_to_resource) (ground (arith, eq_iff u.pci_address a))
  | inr f ↦ rw (f, add_pci_address_to_resource) (selectors_have-add u r.selectors a)
]

add_pci_address-is_named :
    (r : Resource) (u : ResourceUpdate) (p n : String)
    → is_named p n (add_pci_address_to_resource r u) ≡ is_named p n r
unfolding add_pci_address_to_resource
add_pci_address-is_named r u p n = ground arith

add_to_list_lem :
    (u : ResourceUpdate) (rs : List Resource) (p n a : String)
    → list_has p n a (add_to_list u rs) ≡ (list_has p n a rs || is_about p n a u)
unfolding add_to_list selectors_have
add_to_list_lem u [] p n a = ground arith
add_to_list_lem u (r ∷ rs) p n a = elim (Bool-cases (matches_resource r u)) [
  | inl t ↦
      rw (t, add_to_list)
        (ground (
          arith,
          add_pci_address_lem r u a,
          add_pci_address-is_named r u p n,
          eq_iff r.resource_prefix u.resource_prefix,
          eq_iff r.resource_name u.resource_name,
        ))
  | inr f ↦ rw (f, add_to_list) (ground (arith, add_to_list_lem u rs p n a))
]

-- An "add" update puts its address under its prefix and name, and changes nothing else.
pub apply_add_update_lem :
    (c : SriovConfig) (u : ResourceUpdate) (p n a : String)
    → config_has p n a (apply_add_update c u) ≡ (config_has p n a c || is_about p n a u)
apply_add_update_lem c u p n a = add_to_list_lem u c.resource_list p n a

contains_string-without :
    (x a : String) (xs : List String)
    → contains_string (without_address x xs) a ≡ (not (str_eq x a) && contains_string xs a)
unfolding without_address
contains_string-without x a [] = ground arith
contains_string-without x a (y ∷ xs) =
    ground (arith, contains_string-without x a xs, eq_iff y x, eq_iff y a, eq_iff x a)

selectors_have-remove :
    (x a : String) (ss : List Selector)
    → selectors_have a (remove_from_selectors x ss) ≡ (not (str_eq x a) && selectors_have a ss)
unfolding selectors_have remove_from_selectors
selectors_have-remove x a [] = ground arith
selectors_have-remove x a (s ∷ ss) =
    ground (arith, selectors_have-remove x a ss, contains_string-without x a s.pci_addresses)

-- No two resources have the same prefix and name.
abbrev pub is_there : String → String → List Resource → Bool
is_there p n [] = false
is_there p n (r ∷ rs) = is_named p n r || is_there p n rs

abbrev pub IsDistinct : List Resource → Type 0
IsDistinct [] = Unit
IsDistinct (r ∷ rs) = (is_there r.resource_prefix r.resource_name rs ≡ false) × IsDistinct rs

list_has-absent :
    (p n a : String) (rs : List Resource) → is_there p n rs ≡ false → list_has p n a rs ≡ false
list_has-absent p n a [] h = refl
list_has-absent p n a (r ∷ rs) h = ground (arith, list_has-absent p n a rs)

remove_from_list_lem :
    (u : ResourceUpdate) (rs : List Resource) (p n a : String)
    → IsDistinct rs
    → list_has p n a (remove_from_list u rs) ≡ (list_has p n a rs && not (is_about p n a u))
unfolding remove_from_list
remove_from_list_lem u [] p n a h = refl
remove_from_list_lem u (r ∷ rs) p n a h = elim (Bool-cases (matches_resource r u)) [
  | inl t ↦
      rw (t, remove_from_list)
        (ground (
          arith,
          selectors_have-remove u.pci_address a r.selectors,
          list_has-absent r.resource_prefix r.resource_name a rs h.0,
          eq_iff r.resource_prefix u.resource_prefix,
          eq_iff r.resource_name u.resource_name,
          eq_iff r.resource_prefix p,
          eq_iff r.resource_name n,
          eq_iff u.resource_prefix p,
          eq_iff u.resource_name n,
        ))
  | inr f ↦
      rw (f, remove_from_list)
        (ground (
          arith,
          remove_from_list_lem u rs p n a h.1,
          eq_iff r.resource_prefix p,
          eq_iff r.resource_name n,
          eq_iff u.resource_prefix p,
          eq_iff u.resource_name n,
          eq_iff r.resource_prefix u.resource_prefix,
          eq_iff r.resource_name u.resource_name,
        ))
]

-- In a configuration with no two resources of the same prefix and name, a "remove" update takes its
-- address away from its prefix and name, and changes nothing else.
pub apply_remove_update_lem :
    (c : SriovConfig) (u : ResourceUpdate) (p n a : String)
    → IsDistinct c.resource_list
    → config_has p n a (apply_remove_update c u) ≡ (config_has p n a c && not (is_about p n a u))
apply_remove_update_lem c u p n a h = remove_from_list_lem u c.resource_list p n a h

selectors_have-kept :
    (s : Selector) (left : List String) (rest : List Selector) (a : String)
    → selectors_have a (kept_selector s left rest)
      ≡ (contains_string left a || selectors_have a rest)
unfolding selectors_have
selectors_have-kept s [] rest a = refl
selectors_have-kept s (x ∷ xs) rest a = refl

selectors_have-remove_in :
    (x a : String) (ss : List Selector)
    → selectors_have a (remove_in_selectors x ss) ≡ (not (str_eq x a) && selectors_have a ss)
unfolding selectors_have remove_in_selectors
selectors_have-remove_in x a [] = ground arith
selectors_have-remove_in x a (s ∷ ss) = ground (
  arith,
  selectors_have-kept s (without_address x s.pci_addresses) (remove_in_selectors x ss) a,
  selectors_have-remove_in x a ss,
  contains_string-without x a s.pci_addresses,
)

pub list_has-kept :
    (r : Resource) (ss : List Selector) (rest : List Resource) (p n a : String)
    → list_has p n a (kept_resource r ss rest)
      ≡ (is_named p n r && selectors_have a ss || list_has p n a rest)
unfolding selectors_have
list_has-kept r [] rest p n a = ground arith
list_has-kept r (s ∷ ss) rest p n a = refl

-- What RemoveResource leaves of a list: the address is away wherever it stood, and each other one
-- stays under its prefix and name.
pub remove_everywhere_lem :
    (x : String) (rs : List Resource) (p n a : String)
    → list_has p n a (remove_everywhere x rs) ≡ (list_has p n a rs && not (str_eq x a))
unfolding remove_everywhere
remove_everywhere_lem x [] p n a = refl
remove_everywhere_lem x (r ∷ rs) p n a = ground (
  arith,
  list_has-kept r (remove_in_selectors x r.selectors) (remove_everywhere x rs) p n a,
  selectors_have-remove_in x a r.selectors,
  remove_everywhere_lem x rs p n a,
)

-- If RemoveResource sees nothing to remove, the address is nowhere.
pub is_modified_lem :
    (x : String) (rs : List Resource) (p n : String)
    → is_modified x rs ≡ false
    → list_has p n x rs ≡ false
unfolding is_modified
is_modified_lem x [] p n h = refl
is_modified_lem x (r ∷ rs) p n h = ground (arith, is_modified_lem x rs p n)
