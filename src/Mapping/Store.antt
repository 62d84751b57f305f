-- ===== src/Mapping/Store.antt =====
-- The store's state and its methods.
use aws_multi_eni_controller.Prelude.{
  ℕ, String, Bool, List, [], ◌∷◌, Option, none, some, if◌then◌else◌, str_eq,
}
use aws_multi_eni_controller.Prelude.Maps.{Dict, lookup, insert, delete, has_key}
use aws_multi_eni_controller.Prelude.State.{Call, Result, ok, err}

pub record InterfaceMapping : Type 0 where
  pub eni_id : String
  pub iface_name : String
  pub pci_address : String
  pub device_index : ℕ
  pub dpdk_bound : Bool
  pub dpdk_driver : String
  pub node_eni_name : String

pub record Store : Type 0 where
  pub mappings : Dict InterfaceMapping
  pub pci_map : Dict String
  pub iface_map : Dict String

abbrev pub empty_store : Store
empty_store = record { mappings = []; pci_map = []; iface_map = [] }

-- The lookup maps after a mapping is put in.
abbrev pub index : String → String → Dict String → Dict String
index key eni m = if str_eq key "" then m else insert key eni m

-- `s.mappings[mapping.ENIID] = mapping` and both lookup maps: `AddMapping`, `UpdateMapping`, `load`.
unfoldable pub put : InterfaceMapping → Store → Store
put m s = record {
  mappings = insert m.eni_id m s.mappings;
  pci_map = index m.pci_address m.eni_id s.pci_map;
  iface_map = index m.iface_name m.eni_id s.iface_map;
}

abbrev pub unindex : String → Dict String → Dict String
unindex key m = if str_eq key "" then m else delete key m

unfoldable pub take_out : InterfaceMapping → String → Store → Store
take_out m eni s = record {
  mappings = delete eni s.mappings;
  pci_map = unindex m.pci_address s.pci_map;
  iface_map = unindex m.iface_name s.iface_map;
}

abbrev pub values : Dict InterfaceMapping → List InterfaceMapping
values [] = []
values ((k, m) ∷ ms) = m ∷ values ms

pub get_all_mappings : Store → List InterfaceMapping
get_all_mappings s = values s.mappings

unfoldable pub get_mapping_by_eni_id : String → Store → Option InterfaceMapping
get_mapping_by_eni_id eni s = lookup eni s.mappings

abbrev pub follow : Option String → Store → Option InterfaceMapping
follow none s = none
follow (some eni) s = lookup eni s.mappings

unfoldable pub get_mapping_by_pci_address : String → Store → Option InterfaceMapping
get_mapping_by_pci_address pci s = follow (lookup pci s.pci_map) s

unfoldable pub get_mapping_by_interface_name : String → Store → Option InterfaceMapping
get_mapping_by_interface_name name s = follow (lookup name s.iface_map) s

abbrev pub not_there : String → String
not_there eni = "mapping for ENI ID does not exist"

-- The file: `write` is `json.MarshalIndent` and `os.WriteFile`, `read` is `os.ReadFile` and
-- `json.Unmarshal`.
pub record File (W : Type 0) : Type 0 where
  pub write : List InterfaceMapping → Call W (Option String)
  pub read : Call W (Result (List InterfaceMapping))

module _ {W : Type 0} (f : File W) where
  unfoldable pub save : Store → Call W (Option String)
  save s = f.write (values s.mappings)

  -- The answer with the store, which keeps the change also when it cannot be saved.
  unfoldable pub add_mapping : InterfaceMapping → Store → Call W (Option String × Store)
  add_mapping m s w = let s' = put m s in let r = save s' w in ((r.0, s'), r.1)

  unfoldable pub update_mapping : InterfaceMapping → Store → Call W (Option String × Store)
  update_mapping m s w =
      if has_key m.eni_id s.mappings then add_mapping m s w else ((some (not_there m.eni_id), s), w)

  remove_found : Option InterfaceMapping → String → Store → Call W (Option String × Store)
  remove_found none eni s w = ((some (not_there eni), s), w)
  remove_found (some m) eni s w = let s' = take_out m eni s in let r = save s' w in ((r.0, s'), r.1)

  unfoldable pub remove_mapping : String → Store → Call W (Option String × Store)
  unfolding remove_found
  remove_mapping eni s = remove_found (lookup eni s.mappings) eni s

  unfoldable pub put_all : List InterfaceMapping → Store → Store
  put_all [] s = s
  put_all (m ∷ ms) s = put_all ms (put m s)

  loaded : Result (List InterfaceMapping) → Store → Option String × Store
  loaded (err e) s = (some e, s)
  loaded (ok ms) s = (none, put_all ms empty_store)

  unfoldable pub load : Store → Call W (Option String × Store)
  unfolding loaded
  load s w = (loaded (f.read w).0 s, (f.read w).1)
