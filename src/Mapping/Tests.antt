-- ===== src/Mapping/Tests.antt =====
-- The store on concrete mappings, with a file that is a list.
use aws_multi_eni_controller.Prelude.{
  String, false, List, [], ◌∷◌, none, some, ◌≡◌, refl, arith, eq_iff,
}
use aws_multi_eni_controller.Prelude.Maps.{lookup}
use aws_multi_eni_controller.Prelude.State.{ok}
use aws_multi_eni_controller.Mapping.Store.{
  InterfaceMapping, Store, File, empty_store, get_mapping_by_eni_id, get_mapping_by_pci_address,
  add_mapping, update_mapping, remove_mapping,
}
use aws_multi_eni_controller.Mapping.Lookup.{update_mapping-old_address}
use aws_multi_eni_controller.Mapping.Consistent.{
  IsIndexed, get_mapping_by_pci_address_lem, add_mapping-IsIndexed, remove_mapping-IsIndexed,
}

abbrev disk : File (List InterfaceMapping)
disk = record { write = λ ms w. (none, ms); read = λ w. (ok w, w) }

abbrev mapping_of : String → String → InterfaceMapping
mapping_of eni pci = record {
  eni_id = eni;
  iface_name = "eth1";
  pci_address = pci;
  device_index = 1;
  dpdk_bound = false;
  dpdk_driver = "";
  node_eni_name = "demo";
}

abbrev old : InterfaceMapping
old = mapping_of "eni-1" "0000:00:06.0"

abbrev new : InterfaceMapping
new = mapping_of "eni-1" "0000:00:07.0"

abbrev one : Store
one = record {
  mappings = ("eni-1", old) ∷ [];
  pci_map = ("0000:00:06.0", "eni-1") ∷ [];
  iface_map = ("eth1", "eni-1") ∷ [];
}

update_mapping-old_address_example :
    get_mapping_by_pci_address "0000:00:06.0" (update_mapping disk new one []).0.1 ≡ some new
unfolding get_mapping_by_eni_id lookup
update_mapping-old_address_example =
    update_mapping-old_address disk old new one [] refl refl refl
      (λ h. ground (arith, h, eq_iff "0000:00:07.0" "0000:00:06.0"))

no_entry : (pci eni : String) → lookup pci [] ≡ some eni → ⊥
unfolding lookup
no_entry pci eni h = cc

no_mapping : (eni : String) (m : InterfaceMapping) → lookup eni [] ≡ some m → ⊥
unfolding lookup
no_mapping eni m h = cc

empty-IsIndexed : IsIndexed empty_store
unfolding lookup
empty-IsIndexed = record {
  no_empty = refl;
  leads = λ pci eni h. absurd (no_entry pci eni h);
  covers = λ eni m h n. absurd (no_mapping eni m h);
}

added-IsIndexed : IsIndexed (add_mapping disk old empty_store []).0.1
unfolding get_mapping_by_eni_id lookup
added-IsIndexed = add_mapping-IsIndexed disk old empty_store [] empty-IsIndexed refl refl

add_mapping-IsIndexed_example : IsIndexed (add_mapping disk old empty_store []).0.1
unfolding get_mapping_by_eni_id lookup
add_mapping-IsIndexed_example =
    add_mapping-IsIndexed disk old empty_store [] empty-IsIndexed refl refl

remove_mapping-IsIndexed_example :
    IsIndexed (remove_mapping disk "eni-1" (add_mapping disk old empty_store []).0.1 []).0.1
remove_mapping-IsIndexed_example =
    remove_mapping-IsIndexed disk "eni-1" (add_mapping disk old empty_store []).0.1 []
      added-IsIndexed

get_mapping_by_pci_address_example :
    (get_mapping_by_pci_address "0000:00:06.0" (add_mapping disk old empty_store []).0.1 ≡ some old
      → (eni : String) × (get_mapping_by_eni_id eni (add_mapping disk old empty_store []).0.1
          ≡ some old)
        × (old.pci_address ≡ "0000:00:06.0"))
    × ((eni : String)
        → get_mapping_by_eni_id eni (add_mapping disk old empty_store []).0.1 ≡ some old
        → old.pci_address ≡ "0000:00:06.0"
        → get_mapping_by_pci_address "0000:00:06.0" (add_mapping disk old empty_store []).0.1
          ≡ some old)
get_mapping_by_pci_address_example =
    get_mapping_by_pci_address_lem "0000:00:06.0" (add_mapping disk old empty_store []).0.1 old
      added-IsIndexed (λ h. ground (arith, h, eq_iff "0000:00:06.0" ""))
