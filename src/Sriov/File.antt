-- ===== src/Sriov/File.antt =====
-- The configuration file of the SR-IOV device plugin: its load and save, and the operations of the
-- manager (pkg/eni-manager/sriov/manager.go). The file system and the JSON text are parameters.
pub mod Saved
mod Tests
use aws_multi_eni_controller.Prelude.{
  String, ◌<>◌, Bool, true, false, not, List, [], ◌∷◌, Option, none, some, if◌then◌else◌,
}
use aws_multi_eni_controller.Prelude.State.{Call, Result, ok, err}
use aws_multi_eni_controller.Sriov.{
  SriovConfig, ResourceUpdate, create_minimal_config, apply_add_update, apply_updates,
  cleanup_config, remove_everywhere, is_modified, configs_equal,
}

pub record Disk : Type 1 where
  pub World : Type 0
  -- The bytes of a file.
  pub Data : Type 0
  -- `os.Stat` and `os.IsNotExist`, `os.ReadFile`, `os.MkdirAll`, `os.WriteFile` at the path.
  pub is_missing : World → Bool
  pub read_file : Call World (Result Data)
  pub make_dir : Call World (Option String)
  pub write_file : Data → Call World (Option String)
  -- `json.Unmarshal`, with `none` for an error, and `json.MarshalIndent`.
  pub parse : Data → Option SriovConfig
  pub print : SriovConfig → Result Data

abbrev pub parsed_or_minimal : Option SriovConfig → SriovConfig
parsed_or_minimal none = create_minimal_config
parsed_or_minimal (some c) = c

module _ (d : Disk) where
  open d use {World, Data, is_missing, read_file, make_dir, write_file, parse, print}

  parsed : Result Data → Result SriovConfig
  parsed (err e) = err ("failed to read SR-IOV config file: " <> e)
  parsed (ok text) = ok (parsed_or_minimal (parse text))

  unfoldable pub load_or_create_config : Call World (Result SriovConfig)
  unfolding parsed
  load_or_create_config w =
      let r = read_file w in
      if is_missing w then (ok create_minimal_config, w) else (parsed r.0, r.1)

  abbrev pub write_error : Option String → Option String
  write_error none = none
  write_error (some e) = some ("failed to write SR-IOV config file: " <> e)

  save_text : Result Data → Call World (Option String)
  save_text (err e) w = (some ("failed to marshal SR-IOV config: " <> e), w)
  save_text (ok text) w = let r = write_file text w in (write_error r.0, r.1)

  save_in : SriovConfig → Option String → Call World (Option String)
  save_in c (some e) w = (some ("failed to create config directory: " <> e), w)
  save_in c none w = save_text (print c) w

  unfoldable pub save_config : SriovConfig → Call World (Option String)
  unfolding save_in save_text
  save_config c w = let r = make_dir w in save_in c r.0 r.1

  add_loaded : ResourceUpdate → Result SriovConfig → Call World (Option String)
  add_loaded u (err e) w = (some ("failed to load SR-IOV config: " <> e), w)
  add_loaded u (ok c) w = save_config (apply_add_update c u) w

  unfoldable pub add_resource : ResourceUpdate → Call World (Option String)
  unfolding add_loaded
  add_resource u w = let r = load_or_create_config w in add_loaded u r.0 r.1

  -- Saved only if something was removed.
  remove_loaded : String → Result SriovConfig → Call World (Option String)
  remove_loaded a (err e) w = (some ("failed to load SR-IOV config: " <> e), w)
  remove_loaded a (ok c) w =
      if is_modified a c.resource_list
      then save_config (record c { resource_list = remove_everywhere a c.resource_list }) w
      else (none, w)

  unfoldable pub remove_resource : String → Call World (Option String)
  unfolding remove_loaded
  remove_resource a w = let r = load_or_create_config w in remove_loaded a r.0 r.1

  saved_result : Option String → Result Bool
  saved_result none = ok true
  saved_result (some e) = err e

  batch_loaded : List ResourceUpdate → Result SriovConfig → Call World (Result Bool)
  unfolding saved_result
  batch_loaded us (err e) w = (err ("failed to load SR-IOV config: " <> e), w)
  batch_loaded us (ok c) w =
      let updated = cleanup_config (apply_updates us c) in
      let r = save_config updated w in
      if configs_equal c updated then (ok false, w) else (saved_result r.0, r.1)

  -- `ApplyBatchUpdatesWithChangeDetection`: whether the configuration changed, or an error.
  unfoldable pub apply_batch_updates : List ResourceUpdate → Call World (Result Bool)
  unfolding batch_loaded
  apply_batch_updates [] w = (ok false, w)
  apply_batch_updates (u ∷ us) w = let r = load_or_create_config w in batch_loaded (u ∷ us) r.0 r.1
