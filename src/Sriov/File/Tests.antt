-- ===== src/Sriov/File/Tests.antt =====
-- A disk on which the file is there or not; its bytes are the configuration itself.
use aws_multi_eni_controller.Prelude.{
  String, ◌||◌, ◌&&◌, str_eq, Option, none, some, ◌≡◌, refl, is_some, not,
}
use aws_multi_eni_controller.Prelude.State.{Result, ok, err}
use aws_multi_eni_controller.Sriov.{
  SriovConfig, ResourceUpdate, is_modified, add_to_list, selectors_have, remove_in_selectors,
  without_address,
}
use aws_multi_eni_controller.Sriov.Update.{config_has, is_about}
use aws_multi_eni_controller.Sriov.File.{
  Disk, load_or_create_config, save_config, add_resource, remove_resource,
}
use aws_multi_eni_controller.Sriov.File.Saved.{DiskLaws, add_resource-load, remove_resource-load}

abbrev read : Option SriovConfig → Result SriovConfig
read none = err "no such file"
read (some c) = ok c

abbrev disk : Disk
disk = record {
  World = Option SriovConfig;
  Data = SriovConfig;
  is_missing = λ w. not (is_some w);
  read_file = λ w. (read w, w);
  make_dir = λ w. (none, w);
  write_file = λ c w. (none, some c);
  parse = λ c. some c;
  print = λ c. ok c;
}

ok_same : (c text : SriovConfig) → ok c ≡ ok text → some text ≡ some c
ok_same c text h = cc

disk_laws : DiskLaws disk
disk_laws = record {
  there = λ c w h. refl;
  same = λ c w h. refl;
  still_there = λ w h. h;
  again = λ w. refl;
  parses = λ c text h. ok_same c text h;
}

abbrev update : ResourceUpdate
update = record {
  pci_address = "0000:00:06.0";
  driver = "vfio-pci";
  resource_name = "one";
  resource_prefix = "intel.com";
  action = "add";
}

added : (add_resource disk update none).0 ≡ none
unfolding add_resource load_or_create_config save_config
added = refl

add_resource-load_example :
    (before : SriovConfig) × ((after : SriovConfig) × (((load_or_create_config disk none).0
          ≡ ok before)
        × (((load_or_create_config disk (add_resource disk update none).1).0 ≡ ok after)
            × ((p n a : String)
                → config_has p n a after ≡ (config_has p n a before || is_about p n a update)))))
add_resource-load_example = add_resource-load disk disk_laws update none added

-- The file that the addition leaves.
abbrev one_added : Option SriovConfig
one_added = (add_resource disk update none).1

removed : (remove_resource disk "0000:00:06.0" one_added).0 ≡ none
unfolding remove_resource add_resource load_or_create_config save_config is_modified add_to_list
    selectors_have remove_in_selectors without_address
removed = refl

remove_resource-load_example :
    (before : SriovConfig) × ((after : SriovConfig) × (((load_or_create_config disk one_added).0
          ≡ ok before)
        × (((load_or_create_config disk (remove_resource disk "0000:00:06.0" one_added).1).0
              ≡ ok after)
            × ((p n a : String)
                → config_has p n a after
                  ≡ (config_has p n a before && not (str_eq "0000:00:06.0" a))))))
remove_resource-load_example = remove_resource-load disk disk_laws "0000:00:06.0" one_added removed
