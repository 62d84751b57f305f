-- ===== src/Sriov/File/Saved.antt =====
-- What a save has written comes back in the next load.
use aws_multi_eni_controller.Prelude.{
  String, false, ◌≡◌, refl, none, some, inl, inr, Option-cases, Bool-cases, ◌||◌, ◌&&◌, ◌∙◌, ap,
  not, str_eq, eq_iff, arith,
}
use aws_multi_eni_controller.Prelude.State.{Result, ok, err, Result-cases}
use aws_multi_eni_controller.Sriov.{
  SriovConfig, ResourceUpdate, apply_add_update, remove_everywhere, is_modified,
}
use aws_multi_eni_controller.Sriov.Update.{
  config_has, is_about, apply_add_update_lem, remove_everywhere_lem, is_modified_lem,
}
use aws_multi_eni_controller.Sriov.File.{
  Disk, parsed, load_or_create_config, save_text, save_in, save_config, add_loaded, add_resource,
  remove_loaded, remove_resource,
}

-- A file that was written is there, with what was written; a file that is read is still there, with the
-- same bytes; and JSON that was printed parses to what was
-- printed.
pub record DiskLaws (d : Disk) : Type 0 where
  pub there :
      (text : d.Data) (w : d.World)
      → (d.write_file text w).0 ≡ none
      → d.is_missing (d.write_file text w).1 ≡ false
  pub same :
      (text : d.Data) (w : d.World)
      → (d.write_file text w).0 ≡ none
      → (d.read_file (d.write_file text w).1).0 ≡ ok text
  pub still_there : (w : d.World) → d.is_missing w ≡ false → d.is_missing (d.read_file w).1 ≡ false
  pub again : (w : d.World) → (d.read_file (d.read_file w).1).0 ≡ (d.read_file w).0
  pub parses : (c : SriovConfig) (text : d.Data) → d.print c ≡ ok text → d.parse text ≡ some c

some_is_not_none : {A : Type 0} {a : A} → some a ≡ none → ⊥
some_is_not_none h = cc

module _ (d : Disk) (laws : DiskLaws d) where
  save_text-load :
      (c : SriovConfig) (r : Result d.Data) (w : d.World)
      → d.print c ≡ r
      → (save_text d r w).0 ≡ none
      → (load_or_create_config d (save_text d r w).1).0 ≡ ok c
  unfolding save_text load_or_create_config parsed
  save_text-load c (err e) w q h = absurd (some_is_not_none h)
  save_text-load c (ok text) w q h = elim (Option-cases (d.write_file text w).0) [
    | inr (e, k) ↦ absurd (some_is_not_none (rw (k) at h))
    | inl k ↦
        rw (laws.there text w k, load_or_create_config)
          (rw (laws.same text w k, parsed) (rw (laws.parses c text q) refl))
  ]

  -- A configuration that SaveConfig saved without an error is what LoadOrCreateConfig loads next. (A file
  -- that was written is there with what was written, and JSON parses to what was printed.)
  pub save_config-load :
      (c : SriovConfig) (w : d.World)
      → (save_config d c w).0 ≡ none
      → (load_or_create_config d (save_config d c w).1).0 ≡ ok c
  unfolding save_config save_in
  save_config-load c w h = elim (Option-cases (d.make_dir w).0) [
    | inr (e, k) ↦ absurd (some_is_not_none (rw (k, save_config) at h))
    | inl k ↦
        rw (k, save_config)
          (save_text-load c (d.print c) (d.make_dir w).1 refl (rw (k, save_config) at h))
  ]

  -- If AddResource reports no error, a configuration was loaded, and the one that is loaded next has its
  -- addresses and that of the update, and no others.
  pub add_resource-load :
      (u : ResourceUpdate) (w : d.World)
      → (add_resource d u w).0 ≡ none
      → (before : SriovConfig) × ((after : SriovConfig) × (((load_or_create_config d w).0
              ≡ ok before)
            × (((load_or_create_config d (add_resource d u w).1).0 ≡ ok after)
                × ((p n a : String)
                    → config_has p n a after ≡ (config_has p n a before || is_about p n a u)))))
  unfolding add_resource add_loaded
  add_resource-load u w h = elim (Result-cases (load_or_create_config d w).0) [
    | inr (e, q) ↦ absurd (some_is_not_none (rw (q, add_resource) at h))
    | inl (c, q) ↦ (
      c,
      (
        apply_add_update c u,
        (
          q,
          (
            rw (q, add_resource)
                (save_config-load (apply_add_update c u) (load_or_create_config d w).1
                  (rw (q, add_resource) at h)),
            λ p n a. apply_add_update_lem c u p n a,
          ),
        ),
      ),
    )
  ]

  -- A load leaves the file as it is: the next load gives the same.
  load_or_create_config-again :
      (w : d.World)
      → (load_or_create_config d (load_or_create_config d w).1).0 ≡ (load_or_create_config d w).0
  unfolding load_or_create_config
  load_or_create_config-again w = elim (Bool-cases (d.is_missing w)) [
    | inl t ↦ rw (t, load_or_create_config) (rw (t, load_or_create_config) refl)
    | inr f ↦
        rw (f, load_or_create_config)
          (rw (laws.still_there w f, load_or_create_config) (ap (parsed d) (laws.again w)))
  ]

  -- If RemoveResource reports no error, a configuration was loaded, and the one that is loaded next has
  -- the addresses of that one but the address removed, which it has under no prefix and name. (A file that
  -- was written is there with what was written, a file that is read is still there with the same bytes,
  -- and JSON parses to what was printed.)
  pub remove_resource-load :
      (x : String) (w : d.World)
      → (remove_resource d x w).0 ≡ none
      → (before : SriovConfig) × ((after : SriovConfig) × (((load_or_create_config d w).0
              ≡ ok before)
            × (((load_or_create_config d (remove_resource d x w).1).0 ≡ ok after)
                × ((p n a : String)
                    → config_has p n a after ≡ (config_has p n a before && not (str_eq x a))))))
  unfolding remove_resource remove_loaded
  remove_resource-load x w h = elim (Result-cases (load_or_create_config d w).0) [
    | inr (e, q) ↦ absurd (some_is_not_none (rw (q, remove_resource) at h))
    | inl (c, q) ↦ elim (Bool-cases (is_modified x c.resource_list)) [
      | inl t ↦ (
        c,
        (
          removed c,
          (
            q,
            (
              rw (q, remove_resource)
                  (rw (t, remove_resource)
                    (save_config-load (removed c) (load_or_create_config d w).1
                      (rw (t, remove_resource) at (rw (q, remove_resource) at h)))),
              λ p n a. remove_everywhere_lem x c.resource_list p n a,
            ),
          ),
        ),
      )
      | inr f ↦ (
        c,
        (
          c,
          (
            q,
            (
              rw (q, remove_resource) (rw (f, remove_resource) (load_or_create_config-again w ∙ q)),
              λ p n a. ground (arith, is_modified_lem x c.resource_list p n f, eq_iff x a),
            ),
          ),
        ),
      )
    ]
  ]
    where
      removed : SriovConfig → SriovConfig
      removed c = record c { resource_list = remove_everywhere x c.resource_list }
