-- ===== src/Sriov/Tests.antt =====
-- Updates of a small configuration, on a disk that holds the configuration itself as its text's meaning.
use aws_multi_eni_controller.Prelude.{
  String, true, false, ◌&&◌, ◌||◌, ◌⊎◌, List, [], ◌∷◌, ◌≡◌, refl, All,
}
use aws_multi_eni_controller.Prelude.Maps.{lookup, insert}
use aws_multi_eni_controller.Sriov.{
  is_placeholder, has_real_resources, filled_resources, add_to_list, remove_from_list, filled,
  remove_from_selectors, without_address, real_resources, all_in, by_key, resources_equal,
  all_selectors_equal, within, add_pci_address_to_resource, add_to_selectors, selectors_have,
  Resource, SriovConfig, ResourceUpdate, apply_updates, cleanup_config, configs_equal,
}
use aws_multi_eni_controller.Sriov.Update.{config_has, IsDistinct}
use aws_multi_eni_controller.Sriov.Batch.{set_after, apply_updates_lem}
use aws_multi_eni_controller.Sriov.Cleanup.{IsUsed, is_placeholders, cleanup_config_lem}

abbrev resource_of : String → List String → Resource
resource_of name addresses = record {
  resource_prefix = "intel.com";
  resource_name = name;
  selectors =
      record { drivers = "vfio-pci" ∷ []; pci_addresses = addresses; vendors = []; devices = [] }
      ∷ [];
}

abbrev config : SriovConfig
config = record {
  resource_list =
      resource_of "one" ("0000:00:06.0" ∷ []) ∷ resource_of "two" ("0000:00:07.0" ∷ []) ∷ [];
}

abbrev update_of : String → String → String → ResourceUpdate
update_of action name address = record {
  pci_address = address;
  driver = "vfio-pci";
  resource_name = name;
  resource_prefix = "intel.com";
  action = action;
}

abbrev updates : List ResourceUpdate
updates = update_of "add" "one" "0000:00:08.0" ∷ update_of "remove" "two" "0000:00:07.0" ∷ []

apply_updates_example :
    (config_has "intel.com" "one" "0000:00:08.0" (apply_updates updates config)
      ≡ set_after "intel.com" "one" "0000:00:08.0" updates
          (config_has "intel.com" "one" "0000:00:08.0" config))
    × IsDistinct (apply_updates updates config).resource_list
apply_updates_example =
    apply_updates_lem updates config "intel.com" "one" "0000:00:08.0" (refl, (refl, tt))

cleanup_config_example :
    ((config_has "intel.com" "one" "0000:00:06.0" (cleanup_config config)
        || is_placeholders "one" "0000:00:06.0")
      ≡ (config_has "intel.com" "one" "0000:00:06.0" config
          || is_placeholders "one" "0000:00:06.0"))
    × ((config_has "intel.com" "one" "0000:00:06.0" (cleanup_config config)
          && config_has "intel.com" "one" "0000:00:06.0" config)
        ≡ config_has "intel.com" "one" "0000:00:06.0" (cleanup_config config))
    × All IsUsed (cleanup_config config).resource_list
    × (All (λ r. is_placeholder r ≡ false) (cleanup_config config).resource_list
        ⊎ All (λ r. is_placeholder r ≡ true) (cleanup_config config).resource_list)
cleanup_config_example = cleanup_config_lem config "intel.com" "one" "0000:00:06.0"

-- Two resources of one name, as a file written by hand may have them: one is emptied and another one
-- added, and the comparison sees no change.
abbrev twice : SriovConfig
twice = record {
  resource_list =
      resource_of "one" ("0000:00:06.0" ∷ []) ∷ resource_of "one" ("0000:00:07.0" ∷ []) ∷ [];
}

abbrev swap : List ResourceUpdate
swap = update_of "remove" "one" "0000:00:06.0" ∷ update_of "add" "two" "0000:00:08.0" ∷ []

change_not_seen : configs_equal twice (cleanup_config (apply_updates swap twice)) ≡ true
unfolding configs_equal cleanup_config has_real_resources filled_resources apply_updates add_to_list
    remove_from_list filled remove_from_selectors without_address real_resources all_in by_key
    insert lookup resources_equal all_selectors_equal within add_pci_address_to_resource
    add_to_selectors selectors_have
change_not_seen = refl
