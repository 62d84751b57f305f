-- ===== src/Mapping/Lookup.antt =====
-- What the three lookups answer after a change.
use aws_multi_eni_controller.Prelude.{
  String, true, none, some, is_some, ◌≡◌, ◌≢◌, refl, sym, ap, ◌∙◌, eq_iff, arith,
}
use aws_multi_eni_controller.Prelude.Maps.{
  Dict, lookup, insert, delete, lookup-insert, lookup-delete,
}
use aws_multi_eni_controller.Mapping.Store.{
  InterfaceMapping, Store, index, unindex, put, take_out, get_mapping_by_eni_id,
  get_mapping_by_pci_address, get_mapping_by_interface_name, File, add_mapping, update_mapping,
  remove_mapping,
}

-- The two steps of a lookup through an index.
pub get_mapping_by_pci_address-some :
    (pci eni : String) (s : Store)
    → lookup pci s.pci_map ≡ some eni
    → get_mapping_by_pci_address pci s ≡ lookup eni s.mappings
unfolding get_mapping_by_pci_address
get_mapping_by_pci_address-some pci eni s h = rw h refl

pub get_mapping_by_pci_address-none :
    (pci : String) (s : Store)
    → lookup pci s.pci_map ≡ none
    → get_mapping_by_pci_address pci s ≡ none
unfolding get_mapping_by_pci_address
get_mapping_by_pci_address-none pci s h = rw h refl

get_mapping_by_interface_name-some :
    (name eni : String) (s : Store)
    → lookup name s.iface_map ≡ some eni
    → get_mapping_by_interface_name name s ≡ lookup eni s.mappings
unfolding get_mapping_by_interface_name
get_mapping_by_interface_name-some name eni s h = rw h refl

get_mapping_by_interface_name-none :
    (name : String) (s : Store)
    → lookup name s.iface_map ≡ none
    → get_mapping_by_interface_name name s ≡ none
unfolding get_mapping_by_interface_name
get_mapping_by_interface_name-none name s h = rw h refl

pub lookup-same : {V : Type 0} (k : String) (v : V) (m : Dict V) → lookup k (insert k v m) ≡ some v
lookup-same k v m = ground (arith, eq_iff k k, lookup-insert k k v m)

pub lookup-gone : {V : Type 0} (k : String) (m : Dict V) → lookup k (delete k m) ≡ none
lookup-gone k m = ground (arith, eq_iff k k, lookup-delete k k m)

lookup-index : (k eni : String) (m : Dict String) → k ≢ "" → lookup k (index k eni m) ≡ some eni
lookup-index k eni m n = ground (arith, eq_iff k "", lookup-same k eni m)

lookup-index_other :
    (k j eni : String) (m : Dict String) → k ≢ j → lookup j (index k eni m) ≡ lookup j m
lookup-index_other k j eni m n = ground (arith, eq_iff k j, lookup-insert k j eni m)

lookup-unindex : (k : String) (m : Dict String) → k ≢ "" → lookup k (unindex k m) ≡ none
lookup-unindex k m n = ground (arith, eq_iff k "", lookup-gone k m)

put-old_address :
    (old_pci : String) (m : InterfaceMapping) (s : Store)
    → lookup old_pci s.pci_map ≡ some m.eni_id
    → m.pci_address ≢ old_pci
    → get_mapping_by_pci_address old_pci (put m s) ≡ some m
unfolding put
put-old_address old_pci m s i n =
    get_mapping_by_pci_address-some old_pci m.eni_id (put m s)
      (lookup-index_other m.pci_address old_pci m.eni_id s.pci_map n ∙ i)
    ∙ lookup-same m.eni_id m s.mappings

module _ {W : Type 0} (f : File W) where
  -- A mapping that was added is found under its ENI ID, and under its PCI address and its interface
  -- name if these are not empty, whether or not it could be saved.
  pub add_mapping_lem :
      (m : InterfaceMapping) (s : Store) (w : W)
      → (get_mapping_by_eni_id m.eni_id (add_mapping f m s w).0.1 ≡ some m)
        × (m.pci_address ≢ ""
            → get_mapping_by_pci_address m.pci_address (add_mapping f m s w).0.1 ≡ some m)
        × (m.iface_name ≢ ""
            → get_mapping_by_interface_name m.iface_name (add_mapping f m s w).0.1 ≡ some m)
  unfolding add_mapping put get_mapping_by_eni_id
  add_mapping_lem m s w = (
    lookup-same m.eni_id m s.mappings,
    λ np.
        get_mapping_by_pci_address-some m.pci_address m.eni_id (put m s)
          (lookup-index m.pci_address m.eni_id s.pci_map np)
        ∙ lookup-same m.eni_id m s.mappings,
    λ ni.
        get_mapping_by_interface_name-some m.iface_name m.eni_id (put m s)
          (lookup-index m.iface_name m.eni_id s.iface_map ni)
        ∙ lookup-same m.eni_id m s.mappings,
  )

  -- A mapping that is there and is removed is found under none of its keys that are not empty, and
  -- every other ENI ID is found as before.
  pub remove_mapping_lem :
      (eni : String) (s : Store) (w : W) (m : InterfaceMapping)
      → get_mapping_by_eni_id eni s ≡ some m
      → (get_mapping_by_eni_id eni (remove_mapping f eni s w).0.1 ≡ none)
        × (m.pci_address ≢ ""
            → get_mapping_by_pci_address m.pci_address (remove_mapping f eni s w).0.1 ≡ none)
        × (m.iface_name ≢ ""
            → get_mapping_by_interface_name m.iface_name (remove_mapping f eni s w).0.1 ≡ none)
        × ((other : String)
            → other ≢ eni
            → get_mapping_by_eni_id other (remove_mapping f eni s w).0.1
              ≡ get_mapping_by_eni_id other s)
  unfolding remove_mapping take_out get_mapping_by_eni_id
  remove_mapping_lem eni s w m h = rw h (
    lookup-gone eni s.mappings,
    λ n.
        get_mapping_by_pci_address-none m.pci_address (take_out m eni s)
          (lookup-unindex m.pci_address s.pci_map n),
    λ n.
        get_mapping_by_interface_name-none m.iface_name (take_out m eni s)
          (lookup-unindex m.iface_name s.iface_map n),
    λ other n. ground (arith, eq_iff eni other, lookup-delete eni other s.mappings),
  )

  -- A mapping that is not there is neither updated nor removed: both give an error and change neither
  -- the store nor the file.
  pub update_mapping-missing :
      (m : InterfaceMapping) (s : Store) (w : W)
      → get_mapping_by_eni_id m.eni_id s ≡ none
      → (is_some (update_mapping f m s w).0.0 ≡ true)
        × ((update_mapping f m s w).0.1 ≡ s)
        × ((update_mapping f m s w).1 ≡ w)
        × (remove_mapping f m.eni_id s w ≡ update_mapping f m s w)
  unfolding update_mapping remove_mapping get_mapping_by_eni_id
  update_mapping-missing m s w h = rw h (refl, refl, refl, refl)

  -- A change of the PCI address of a stored and indexed mapping leaves the old address in the index: asked for the old address, the store
  -- answers with the mapping that has the new one.
  pub update_mapping-old_address :
      (old new : InterfaceMapping) (s : Store) (w : W)
      → old.eni_id ≡ new.eni_id
      → lookup old.pci_address s.pci_map ≡ some old.eni_id
      → get_mapping_by_eni_id old.eni_id s ≡ some old
      → new.pci_address ≢ old.pci_address
      → get_mapping_by_pci_address old.pci_address (update_mapping f new s w).0.1 ≡ some new
  unfolding update_mapping add_mapping get_mapping_by_eni_id
  update_mapping-old_address old new s w e i g n =
      let there = ap (λ k. lookup k s.mappings) (sym e) ∙ g in
      rw there (put-old_address old.pci_address new s (i ∙ ap some e) n)
