-- ===== src/Sriov/Batch.antt =====
-- Batches of updates.
use aws_multi_eni_controller.Prelude.{
  String, Bool, ◌&&◌, ◌||◌, not, ◌≡◌, refl, ap, ◌∙◌, List, [], ◌∷◌, inl, inr, arith, eq_iff, str_eq,
  if◌then◌else◌, Bool-cases,
}
use aws_multi_eni_controller.Sriov.{
  Resource, SriovConfig, ResourceUpdate, matches_resource, add_pci_address_to_resource, add_to_list,
  apply_add_update, remove_from_list, apply_remove_update, apply_updates,
}
use aws_multi_eni_controller.Sriov.Update.{
  config_has, is_about, apply_add_update_lem, apply_remove_update_lem, is_there, IsDistinct,
}

is_there-add :
    (u : ResourceUpdate) (rs : List Resource) (p n : String)
    → is_there p n (add_to_list u rs)
      ≡ (is_there p n rs || str_eq u.resource_prefix p && str_eq u.resource_name n)
unfolding add_to_list add_pci_address_to_resource
is_there-add u [] p n = ground arith
is_there-add u (r ∷ rs) p n = elim (Bool-cases (matches_resource r u)) [
  | inl t ↦
      rw (t, add_to_list)
        (ground (
          arith,
          eq_iff r.resource_prefix u.resource_prefix,
          eq_iff r.resource_name u.resource_name,
        ))
  | inr f ↦ rw (f, add_to_list) (ground (arith, is_there-add u rs p n))
]

IsDistinct-add :
    (u : ResourceUpdate) (rs : List Resource) → IsDistinct rs → IsDistinct (add_to_list u rs)
unfolding add_to_list add_pci_address_to_resource
IsDistinct-add u [] h = (refl, tt)
IsDistinct-add u (r ∷ rs) h = elim (Bool-cases (matches_resource r u)) [
  | inl t ↦ rw (t, add_to_list) (ground arith, h.1)
  | inr f ↦
      rw (f, add_to_list)
        (
          ground (
            arith,
            is_there-add u rs r.resource_prefix r.resource_name,
            eq_iff r.resource_prefix u.resource_prefix,
            eq_iff r.resource_name u.resource_name,
            eq_iff u.resource_prefix r.resource_prefix,
            eq_iff u.resource_name r.resource_name,
          ),
          IsDistinct-add u rs h.1,
        )
]

is_there-remove :
    (u : ResourceUpdate) (rs : List Resource) (p n : String)
    → is_there p n (remove_from_list u rs) ≡ is_there p n rs
unfolding remove_from_list
is_there-remove u [] p n = refl
is_there-remove u (r ∷ rs) p n = elim (Bool-cases (matches_resource r u)) [
  | inl t ↦ rw (t, remove_from_list) refl
  | inr f ↦ rw (f, remove_from_list) (ground (arith, is_there-remove u rs p n))
]

IsDistinct-remove :
    (u : ResourceUpdate) (rs : List Resource) → IsDistinct rs → IsDistinct (remove_from_list u rs)
unfolding remove_from_list
IsDistinct-remove u [] h = tt
IsDistinct-remove u (r ∷ rs) h = elim (Bool-cases (matches_resource r u)) [
  | inl t ↦ rw (t, remove_from_list) h
  | inr f ↦
      rw (f, remove_from_list)
        (is_there-remove u rs r.resource_prefix r.resource_name ∙ h.0, IsDistinct-remove u rs h.1)
]

-- Whether an address is there after updates of a set of addresses.
abbrev pub set_after : String → String → String → List ResourceUpdate → Bool → Bool
set_after p n a [] before = before
set_after p n a (u ∷ us) before = set_after p n a us (
    if str_eq u.action "add"
    then before || is_about p n a u
    else if str_eq u.action "remove"
    then before && not (is_about p n a u)
    else before)

-- The updates of a batch do to the configuration what they say of a set of addresses under prefixes and
-- names, one after the other, if no two of its resources have the same prefix and name; and that stays
-- so.
pub apply_updates_lem :
    (us : List ResourceUpdate) (c : SriovConfig) (p n a : String)
    → IsDistinct c.resource_list
    → (config_has p n a (apply_updates us c) ≡ set_after p n a us (config_has p n a c))
      × IsDistinct (apply_updates us c).resource_list
unfolding apply_updates
apply_updates_lem [] c p n a h = (refl, h)
apply_updates_lem (u ∷ us) c p n a h = elim (Bool-cases (str_eq u.action "add")) [
  | inl t ↦
      let rest =
        apply_updates_lem us (apply_add_update c u) p n a (IsDistinct-add u c.resource_list h) in
      rw (t, apply_updates)
        (rest.0 ∙ ap (set_after p n a us) (apply_add_update_lem c u p n a), rest.1)
  | inr f ↦ elim (Bool-cases (str_eq u.action "remove")) [
    | inl t ↦
        let rest =
          apply_updates_lem us (apply_remove_update c u) p n a
            (IsDistinct-remove u c.resource_list h) in
        rw (f, t, apply_updates)
          (rest.0 ∙ ap (set_after p n a us) (apply_remove_update_lem c u p n a h), rest.1)
    | inr g ↦ rw (f, g, apply_updates) (apply_updates_lem us c p n a h)
  ]
]
