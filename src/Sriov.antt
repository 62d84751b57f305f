-- ===== src/Sriov.antt =====
-- The configuration of the SR-IOV device plugin: what pkg/eni-manager/sriov/manager.go does to it in
-- memory. `Sriov.File` has its load and save.
pub mod Update
pub mod Batch
pub mod Cleanup
pub mod Compare
pub mod File
mod Tests
use aws_multi_eni_controller.Prelude.{
  ℕ, suc, String, ◌<>◌, Bool, true, false, ◌&&◌, ◌||◌, not, List, [], ◌∷◌, ◌++◌, Option, none, some,
  if◌then◌else◌, str_eq, ◌==◌, ltb, length, contains_string,
}
use aws_multi_eni_controller.Prelude.Maps.{Dict, lookup, insert}

pub record Selector : Type 0 where
  pub drivers : List String
  pub pci_addresses : List String
  pub vendors : List String
  pub devices : List String

pub record Resource : Type 0 where
  pub resource_prefix : String
  pub resource_name : String
  pub selectors : List Selector

-- `ModernSRIOVDPConfig`
pub record SriovConfig : Type 0 where
  pub resource_list : List Resource

-- `action` is "add" or "remove".
pub record ResourceUpdate : Type 0 where
  pub pci_address : String
  pub driver : String
  pub resource_name : String
  pub resource_prefix : String
  pub action : String

abbrev pub selector_of : String → String → Selector
selector_of driver pci_address = record {
  drivers = driver ∷ [];
  pci_addresses = pci_address ∷ [];
  vendors = [];
  devices = [];
}

abbrev pub placeholder_name : String
placeholder_name = "sriov_placeholder"

abbrev pub placeholder_address : String
placeholder_address = "0000:00:00.0"

abbrev pub create_minimal_config : SriovConfig
create_minimal_config = record {
  resource_list =
      record {
        resource_prefix = "intel.com";
        resource_name = placeholder_name;
        selectors = selector_of "placeholder" placeholder_address ∷ [];
      }
      ∷ [];
}

abbrev pub matches_resource : Resource → ResourceUpdate → Bool
matches_resource r u =
    str_eq r.resource_prefix u.resource_prefix && str_eq r.resource_name u.resource_name

-- Whether some selector has the address.
unfoldable pub selectors_have : String → List Selector → Bool
selectors_have a [] = false
selectors_have a (s ∷ ss) = contains_string s.pci_addresses a || selectors_have a ss

abbrev pub with_driver : List String → String → List String
with_driver drivers d = if contains_string drivers d then drivers else drivers ++ d ∷ []

-- To the first selector, or to a new one.
unfoldable pub add_to_selectors : ResourceUpdate → List Selector → List Selector
add_to_selectors u [] = selector_of u.driver u.pci_address ∷ []
add_to_selectors u (s ∷ ss) =
    record s {
      drivers = with_driver s.drivers u.driver;
      pci_addresses = s.pci_addresses ++ u.pci_address ∷ [];
    }
    ∷ ss

unfoldable pub add_pci_address_to_resource : Resource → ResourceUpdate → Resource
add_pci_address_to_resource r u =
    if selectors_have u.pci_address r.selectors
    then r
    else record r { selectors = add_to_selectors u r.selectors }

abbrev pub create_resource : ResourceUpdate → Resource
create_resource u = record {
  resource_prefix = u.resource_prefix;
  resource_name = u.resource_name;
  selectors = selector_of u.driver u.pci_address ∷ [];
}

-- The first resource that matches, or else a new one at the end.
unfoldable pub add_to_list : ResourceUpdate → List Resource → List Resource
add_to_list u [] = create_resource u ∷ []
add_to_list u (r ∷ rs) =
    if matches_resource r u then add_pci_address_to_resource r u ∷ rs else r ∷ add_to_list u rs

abbrev pub apply_add_update : SriovConfig → ResourceUpdate → SriovConfig
apply_add_update c u = record c { resource_list = add_to_list u c.resource_list }

-- `newPCIAddresses`
unfoldable pub without_address : String → List String → List String
without_address a [] = []
without_address a (x ∷ xs) = if str_eq x a then without_address a xs else x ∷ without_address a xs

unfoldable pub remove_from_selectors : String → List Selector → List Selector
remove_from_selectors a [] = []
remove_from_selectors a (s ∷ ss) =
    record s { pci_addresses = without_address a s.pci_addresses } ∷ remove_from_selectors a ss

abbrev pub remove_pci_address_from_resource : Resource → String → Resource
remove_pci_address_from_resource r a = record r { selectors = remove_from_selectors a r.selectors }

unfoldable pub remove_from_list : ResourceUpdate → List Resource → List Resource
remove_from_list u [] = []
remove_from_list u (r ∷ rs) =
    if matches_resource r u
    then remove_pci_address_from_resource r u.pci_address ∷ rs
    else r ∷ remove_from_list u rs

abbrev pub apply_remove_update : SriovConfig → ResourceUpdate → SriovConfig
apply_remove_update c u = record c { resource_list = remove_from_list u c.resource_list }

-- Selectors with an address.
unfoldable pub filled : List Selector → List Selector
filled [] = []
filled (s ∷ ss) = if ltb 0 (length s.pci_addresses) then s ∷ filled ss else filled ss

abbrev pub kept_resource : Resource → List Selector → List Resource → List Resource
kept_resource r [] rest = rest
kept_resource r (s ∷ ss) rest = record r { selectors = s ∷ ss } ∷ rest

-- The first loop of `cleanupConfig`.
unfoldable pub filled_resources : List Resource → List Resource
filled_resources [] = []
filled_resources (r ∷ rs) = kept_resource r (filled r.selectors) (filled_resources rs)

abbrev pub only_placeholder : List String → Bool
only_placeholder [] = false
only_placeholder (a ∷ []) = str_eq a placeholder_address
only_placeholder (a ∷ b ∷ rest) = false

abbrev pub one_placeholder : List Selector → Bool
one_placeholder [] = false
one_placeholder (s ∷ []) = only_placeholder s.pci_addresses
one_placeholder (s ∷ t ∷ ss) = false

abbrev pub is_placeholder : Resource → Bool
is_placeholder r = str_eq r.resource_name placeholder_name && one_placeholder r.selectors

unfoldable pub has_real_resources : List Resource → Bool
has_real_resources [] = false
has_real_resources (r ∷ rs) = not (is_placeholder r) || has_real_resources rs

unfoldable pub real_resources : List Resource → List Resource
real_resources [] = []
real_resources (r ∷ rs) = if is_placeholder r then real_resources rs else r ∷ real_resources rs

unfoldable pub cleanup_config : SriovConfig → SriovConfig
cleanup_config c =
    let rs = filled_resources c.resource_list in
    record c { resource_list = if has_real_resources rs then real_resources rs else rs }

-- The loop over the updates; an unknown action is passed over.
unfoldable pub apply_updates : List ResourceUpdate → SriovConfig → SriovConfig
apply_updates [] c = c
apply_updates (u ∷ us) c = apply_updates us (
    if str_eq u.action "add"
    then apply_add_update c u
    else if str_eq u.action "remove"
    then apply_remove_update c u
    else c)

-- The loops of `RemoveResource`: what is left, without selectors and resources that have become empty,
-- and whether something was removed.
abbrev pub kept_selector : Selector → List String → List Selector → List Selector
kept_selector s [] rest = rest
kept_selector s (a ∷ others) rest = record s { pci_addresses = a ∷ others } ∷ rest

unfoldable pub remove_in_selectors : String → List Selector → List Selector
remove_in_selectors a [] = []
remove_in_selectors a (s ∷ ss) =
    kept_selector s (without_address a s.pci_addresses) (remove_in_selectors a ss)

unfoldable pub remove_everywhere : String → List Resource → List Resource
remove_everywhere a [] = []
remove_everywhere a (r ∷ rs) =
    kept_resource r (remove_in_selectors a r.selectors) (remove_everywhere a rs)

abbrev pub no_selector : List Selector → Bool
no_selector [] = true
no_selector (s ∷ ss) = false

unfoldable pub is_modified : String → List Resource → Bool
is_modified a [] = false
is_modified a (r ∷ rs) =
    selectors_have a r.selectors
    || no_selector (remove_in_selectors a r.selectors)
    || is_modified a rs

-- Every entry of the first list is in the second one, as the loops over the sets test it.
unfoldable pub within : List String → List String → Bool
within [] ys = true
within (x ∷ xs) ys = contains_string ys x && within xs ys

abbrev pub selectors_equal : Selector → Selector → Bool
selectors_equal s t =
    length s.drivers == length t.drivers
    && within s.drivers t.drivers
    && (length s.pci_addresses == length t.pci_addresses)
    && within s.pci_addresses t.pci_addresses

unfoldable pub all_selectors_equal : List Selector → List Selector → Bool
all_selectors_equal [] ts = true
all_selectors_equal (s ∷ ss) [] = false
all_selectors_equal (s ∷ ss) (t ∷ ts) = selectors_equal s t && all_selectors_equal ss ts

unfoldable pub resources_equal : Resource → Resource → Bool
resources_equal r t =
    str_eq r.resource_name t.resource_name
    && str_eq r.resource_prefix t.resource_prefix
    && (length r.selectors == length t.selectors)
    && all_selectors_equal r.selectors t.selectors

abbrev pub resource_key : Resource → String
resource_key r = r.resource_prefix <> ("/" <> r.resource_name)

-- A later resource of the same key takes the place of an earlier one.
unfoldable pub by_key : List Resource → Dict Resource → Dict Resource
by_key [] m = m
by_key (r ∷ rs) m = by_key rs (insert (resource_key r) r m)

abbrev pub found_equal : Resource → Option Resource → Bool
found_equal r none = false
found_equal r (some t) = resources_equal r t

unfoldable pub all_in : Dict Resource → Dict Resource → Bool
all_in [] m = true
all_in ((k, r) ∷ rest) m = found_equal r (lookup k m) && all_in rest m

unfoldable pub configs_equal : SriovConfig → SriovConfig → Bool
configs_equal c d =
    length c.resource_list == length d.resource_list
    && all_in (by_key c.resource_list []) (by_key d.resource_list [])
