-- ===== src/Sriov/Compare/Tests.antt =====
-- A configuration and the same one with its addresses in another order.
use aws_multi_eni_controller.Prelude.{String, true, List, [], ◌∷◌, ◌≡◌, refl}
use aws_multi_eni_controller.Prelude.Maps.{lookup, insert}
use aws_multi_eni_controller.Sriov.{
  SriovConfig, configs_equal, within, all_selectors_equal, resources_equal, by_key, all_in,
}
use aws_multi_eni_controller.Sriov.Update.{config_has}
use aws_multi_eni_controller.Sriov.Compare.Equal.{config_drives, configs_equal-same}

abbrev with_addresses : List String → SriovConfig
with_addresses addresses = record {
  resource_list =
      record {
        resource_prefix = "intel.com";
        resource_name = "one";
        selectors =
            record {
              drivers = "vfio-pci" ∷ [];
              pci_addresses = addresses;
              vendors = [];
              devices = [];
            }
            ∷ [];
      }
      ∷ [];
}

abbrev in_order : SriovConfig
in_order = with_addresses ("0000:00:06.0" ∷ "0000:00:07.0" ∷ [])

abbrev turned_round : SriovConfig
turned_round = with_addresses ("0000:00:07.0" ∷ "0000:00:06.0" ∷ [])

seen_equal : configs_equal in_order turned_round ≡ true
unfolding configs_equal all_in by_key insert lookup resources_equal all_selectors_equal within
seen_equal = refl

configs_equal-same_example :
    (config_has "intel.com" "one" "0000:00:07.0" in_order
      ≡ config_has "intel.com" "one" "0000:00:07.0" turned_round)
    × (config_drives "intel.com" "one" "vfio-pci" "0000:00:07.0" in_order
        ≡ config_drives "intel.com" "one" "vfio-pci" "0000:00:07.0" turned_round)
configs_equal-same_example =
    configs_equal-same in_order turned_round (refl, tt) ((((refl, (refl, tt)), (refl, tt)), tt), tt)
      (refl, tt) seen_equal "intel.com" "one" "0000:00:07.0" "vfio-pci"
