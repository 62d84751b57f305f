-- ===== src/Controller/Creation/Effects.antt =====
-- What the creation of an ENI keeps.
use aws_multi_eni_controller.Prelude.{
  String, inl, inr, List, [], ◌∷◌, Option, none, some, Bool-cases,
}
use aws_multi_eni_controller.Prelude.Int.{ℤ, eq_ℤ}
use aws_multi_eni_controller.Prelude.State.{Result, ok, err, Result-cases}
use aws_multi_eni_controller.Types.{NodeEni}
use aws_multi_eni_controller.Cluster.{Cluster, Config, Node}
use aws_multi_eni_controller.Controller.Calls.{IsKept}
use aws_multi_eni_controller.Controller.DeviceIndex.{find_next_available_device_index}
use aws_multi_eni_controller.Controller.Updates.Memory.{status-keeps}
use aws_multi_eni_controller.Controller.Subnets.{add_new}
use aws_multi_eni_controller.Controller.Creation.{
  is_device_index_conflict_error, Ended, value, error, panics, get_aws_used_device_indices,
  attach_again, attach_corrected, attach_answered, wanted_index, attach_eni, add_groups,
  create_tagged, create_in_groups, create_eni_in_subnet, last_eight, record_attachment,
  after_attach, after_create, create_and_attach_eni_for_subnet,
}

module _ (c : Cluster) (config : Config) (P : c.World → Type 0) (kept : IsKept c P) where
  pub get_aws_used_device_indices-keeps :
      (id : String) (w : c.World) → P w → P (get_aws_used_device_indices c config id w).1
  unfolding get_aws_used_device_indices
  get_aws_used_device_indices-keeps id w h = elim (Result-cases (c.get_instance_enis id w).0) [
    | inl (x, q) ↦ rw (q, get_aws_used_device_indices) (kept.by_enis id w h)
    | inr (e, q) ↦ rw (q, get_aws_used_device_indices) (kept.by_enis id w h)
  ]

  attach_again-keeps :
      (eni id : String) (i : ℤ) (first : String) (w : c.World)
      → P w
      → P (attach_again c config eni id i first w).1
  unfolding attach_again
  attach_again-keeps eni id i first w h =
      let d = config.default_delete_on_termination in
      elim (Result-cases (c.attach_eni eni id i d w).0) [
        | inl (x, q) ↦ rw (q, attach_again) (kept.by_attach eni id i d w h)
        | inr (e, q) ↦ rw (q, attach_again) (kept.by_attach eni id i d w h)
      ]

  attach_corrected-keeps :
      (eni id : String) (i : ℤ) (first : String) (r : Result (List ℤ)) (w : c.World)
      → P w
      → P (attach_corrected c config eni id i first r w).1
  unfolding attach_corrected
  attach_corrected-keeps eni id i first (err e) w h = h
  attach_corrected-keeps eni id i first (ok used) w h =
      let free = find_next_available_device_index i used in
      elim (Bool-cases (eq_ℤ free i)) [
        | inl t ↦ rw (t, attach_corrected) h
        | inr f ↦ rw (f, attach_corrected) (attach_again-keeps eni id free first w h)
      ]

  attach_answered-keeps :
      (eni id : String) (i : ℤ) (r : Result String) (w : c.World)
      → P w
      → P (attach_answered c config eni id i (r, w)).1
  unfolding attach_answered
  attach_answered-keeps eni id i (ok x) w h = h
  attach_answered-keeps eni id i (err e) w h =
      elim (Bool-cases (is_device_index_conflict_error e)) [
        | inl t ↦
            rw (t, attach_answered)
              (attach_corrected-keeps eni id i e (get_aws_used_device_indices c config id w).0
                (get_aws_used_device_indices c config id w).1
                (get_aws_used_device_indices-keeps id w h))
        | inr f ↦ rw (f, attach_answered) h
      ]

  pub attach_eni-keeps :
      (eni id : String) (i : ℤ) (w : c.World) → P w → P (attach_eni c config eni id i w).1
  unfolding attach_eni
  attach_eni-keeps eni id i w h =
      let index = wanted_index c config i in
      let r = c.attach_eni eni id index config.default_delete_on_termination w in
      attach_answered-keeps eni id index r.0 r.1
        (kept.by_attach eni id index config.default_delete_on_termination w h)

  add_groups-keeps :
      (names ids : List String) (w : c.World) → P w → P (add_groups c config names ids w).1
  unfolding add_groups
  add_groups-keeps [] ids w h = h
  add_groups-keeps (name ∷ names) ids w h =
      let r = c.get_security_group_id_by_name name w in
      elim (Result-cases r.0) [
        | inl (x, q) ↦
            rw (q, add_groups) (add_groups-keeps names (add_new ids x) r.1 (kept.by_group name w h))
        | inr (e, q) ↦ rw (q, add_groups) (kept.by_group name w h)
      ]

  create_tagged-keeps :
      (n : NodeEni) (node : Node) (subnet : String) (groups : List String) (t : Option String)
      (w : c.World)
      → P w
      → P (create_tagged c config n node subnet groups t w).1
  unfolding create_tagged
  create_tagged-keeps n node subnet groups none w h = h
  create_tagged-keeps n node subnet groups (some t) w h = kept.by_create subnet groups _ _ w h

  create_in_groups-keeps :
      (n : NodeEni) (node : Node) (subnet : String) (r : Result (List String)) (w : c.World)
      → P w
      → P (create_in_groups c config n node subnet r w).1
  unfolding create_in_groups
  create_in_groups-keeps n node subnet (err e) w h = h
  create_in_groups-keeps n node subnet (ok []) w h = h
  create_in_groups-keeps n node subnet (ok (g ∷ gs)) w h =
      create_tagged-keeps n node subnet (g ∷ gs) (last_eight subnet) w h

  pub create_eni_in_subnet-keeps :
      (n : NodeEni) (node : Node) (subnet : String) (w : c.World)
      → P w
      → P (create_eni_in_subnet c config n node subnet w).1
  unfolding create_eni_in_subnet
  create_eni_in_subnet-keeps n node subnet w h =
      let r = add_groups c config n.spec.security_group_names n.spec.security_group_ids w in
      create_in_groups-keeps n node subnet r.0 r.1
        (add_groups-keeps n.spec.security_group_names n.spec.security_group_ids w h)

  after_attach-keeps :
      (n : NodeEni) (node : Node) (id subnet eni : String) (r : Result (String × ℤ)) (w : c.World)
      → P w
      → P (after_attach c config n node id subnet eni r w).1.1
  unfolding after_attach record_attachment
  after_attach-keeps n node id subnet eni (err e) w h = kept.in_cleanup.by_delete eni w h
  after_attach-keeps n node id subnet eni (ok x) w h =
      status-keeps c P kept.by_get kept.by_status _ _ (kept.by_cidr subnet w h)

  after_create-keeps :
      (n : NodeEni) (node : Node) (id subnet : String) (i : ℤ) (r : Ended String) (w : c.World)
      → P w
      → P (after_create c config n node id subnet i r w).1.1
  unfolding after_create
  after_create-keeps n node id subnet i panics w h = h
  after_create-keeps n node id subnet i (error e) w h = h
  after_create-keeps n node id subnet i (value eni) w h =
      let r = attach_eni c config eni id i w in
      after_attach-keeps n node id subnet eni r.0 r.1 (attach_eni-keeps eni id i w h)

  pub create_and_attach-keeps :
      (n : NodeEni) (node : Node) (id subnet : String) (i : ℤ) (w : c.World)
      → P w
      → P (create_and_attach_eni_for_subnet c config n node id subnet i w).1.1
  unfolding create_and_attach_eni_for_subnet
  create_and_attach-keeps n node id subnet i w h =
      let r = create_eni_in_subnet c config n node subnet w in
      after_create-keeps n node id subnet i r.0 r.1 (create_eni_in_subnet-keeps n node subnet w h)
