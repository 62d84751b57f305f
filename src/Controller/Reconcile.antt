-- ===== src/Controller/Reconcile.antt =====
-- The reconciler: Reconcile, processNodeENI, processNode and createMissingENIs of
-- pkg/controller/nodeeni_controller.go, over the parts that the other modules of `Controller` model.
pub mod Effects
pub mod Kept
pub mod Pinned
mod Tests
use aws_multi_eni_controller.Prelude.{
  ℕ, zero, suc, String, Bool, true, false, not, List, [], ◌∷◌, Option, none, some, ◌⊎◌, inl, inr,
  if◌then◌else◌, str_eq, is_some, contains_string,
}
use aws_multi_eni_controller.Prelude.Int.{ℤ}
use aws_multi_eni_controller.Prelude.Maps.{Dict}
use aws_multi_eni_controller.Prelude.State.{Call, Result, ok, err}
use aws_multi_eni_controller.Types.{NodeEni}
use aws_multi_eni_controller.Util.{get_instance_id_from_provider_id}
use aws_multi_eni_controller.Cluster.{Cluster, Config, Node, ApiError, conflict, not_found, other}
use aws_multi_eni_controller.Controller.DeviceIndex.{
  AttachmentMaps, build_attachment_maps, merge_device_indices, determine_device_index,
}
use aws_multi_eni_controller.Controller.Coordination.{CoordinationManager}
use aws_multi_eni_controller.Controller.Coordinated.{Surroundings}
use aws_multi_eni_controller.Controller.Updates.{
  node_eni_finalizer, Written, add_finalizer, update_node_eni_status_with_retry,
}
use aws_multi_eni_controller.Controller.Subnets.{get_all_subnet_ids}
use aws_multi_eni_controller.Controller.Creation.{
  Ended, value, error, panics, get_aws_used_device_indices, create_and_attach_eni_for_subnet,
}
use aws_multi_eni_controller.Controller.Verify.{verify_eni_attachments}
use aws_multi_eni_controller.Controller.Stale.{remove_stale_attachments}
use aws_multi_eni_controller.Controller.Deletion.{
  Outcome, finished, requeue_after, failed, outcome_of, handle_deletion,
}

-- How `Reconcile` ends: with a result, with the error of listing the nodes, or in a panic.
pub data Reconciled : Type 0 where
  result : Outcome → Reconciled
  not_listed : String → Reconciled
  panicked : Reconciled

-- The indices in use: those of the status, with those of EC2 if it can be asked.
abbrev pub all_used : List ℤ → Result (List ℤ) → List ℤ
all_used used (err e) = used
all_used used (ok aws) = merge_device_indices used aws

-- Whether the loop over the nodes or subnets goes on: an error does not end it.
abbrev pub is_panic : {A : Type 0} → Ended A → Bool
is_panic (value a) = false
is_panic (error e) = false
is_panic panics = true

module _ (c : Cluster) (config : Config) (env : Surroundings c) where
  open c use {World, list_nodes, get_node_eni, contains_finalizer}

  abbrev Shared : Type 0
  Shared = CoordinationManager × World

  -- The object in memory with the world.
  abbrev Memory : Type 0
  Memory = NodeEni × World

  -- One subnet, at position `i`: passed over if it has an ENI. In front, whether it was a panic.
  create_missing_eni :
      Node → String → List String → List ℤ → ℕ → Dict ℤ → String → Memory → Bool × (Dict ℤ × Memory)
  create_missing_eni node instance_id existing used i mapping subnet m =
      let index =
        determine_device_index (m.0).spec.device_index config.default_device_index subnet i mapping
          used in
      let r = create_and_attach_eni_for_subnet c config m.0 node instance_id subnet index.0 m.1 in
      if contains_string existing subnet
      then (false, (mapping, m))
      else (is_panic r.0, (index.1, r.1))

  -- The loop over the subnets.
  unfoldable pub create_missing_enis :
      Node → String → List String → List ℤ → ℕ → Dict ℤ → List String → Memory → Bool × Memory
  unfolding create_missing_eni
  create_missing_enis node instance_id existing used i mapping [] m = (false, m)
  create_missing_enis node instance_id existing used i mapping (subnet ∷ rest) m =
      let r = create_missing_eni node instance_id existing used i mapping subnet m in
      let others = create_missing_enis node instance_id existing used (suc i) r.1.0 rest r.1.1 in
      if r.0 then (true, r.1.1) else others

  -- From the answer for the subnets on.
  create_in_subnets : Node → String → Result (List String) → Memory → Bool × Memory
  create_in_subnets node instance_id (err e) m = (false, m)
  create_in_subnets node instance_id (ok subnets) m =
      let maps = build_attachment_maps m.0.attachments node.name in
      let aws = get_aws_used_device_indices c config instance_id m.1 in
      create_missing_enis node instance_id maps.existing_subnets
        (all_used maps.used_device_indices aws.0) zero maps.subnet_to_device_index subnets
        (m.0, aws.1)

  -- A node with an instance: verify, choose the subnets, create.
  process_instance : Node → String → Memory → Bool × Memory
  unfolding create_in_subnets
  process_instance node instance_id m =
      let v = verify_eni_attachments c m.0 node.name m.1 in
      let s = get_all_subnet_ids c v.0.spec v.1 in create_in_subnets node instance_id s.0 (v.0, s.1)

  -- The nodes that were processed, whether there was a panic, and the memory. A node without an
  -- instance ID is passed over.
  unfoldable pub process_node : Node → List String → Memory → List String × (Bool × Memory)
  unfolding process_instance
  process_node node current m =
      let instance_id = get_instance_id_from_provider_id node.provider_id in
      if str_eq node.provider_id ""
      then (current, (false, m))
      else if str_eq instance_id ""
      then (current, (false, m))
      else (node.name ∷ current, process_instance node instance_id m)

  unfoldable pub process_nodes : List Node → List String → Memory → List String × (Bool × Memory)
  process_nodes [] current m = (current, (false, m))
  process_nodes (node ∷ rest) current m =
      let r = process_node node current m in
      let others = process_nodes rest r.0 r.1.1 in if r.1.0 then r else others

  abbrev pub requeued : Option ApiError → Outcome
  requeued none = requeue_after config.reconcile_period
  requeued (some e) = failed e

  -- From the end of the loop over the nodes on: the stale attachments go, the status is written.
  finish_processing :
      CoordinationManager
      → List String × (Bool × Memory)
      → Reconciled × (CoordinationManager × Memory)
  finish_processing cm (current, (true, m)) = (panicked, (cm, m))
  finish_processing cm (current, (false, (n, w))) =
      let kept = remove_stale_attachments c config env n current (cm, w) in
      let r = update_node_eni_status_with_retry c (record n { attachments = kept.0 }) kept.1.1 in
      (result (requeued r.0), (kept.1.0, r.1))

  process_listed :
      CoordinationManager
      → NodeEni
      → Result (List Node) × World
      → Reconciled × (CoordinationManager × Memory)
  process_listed cm n (err e, w) = (not_listed e, (cm, (n, w)))
  process_listed cm n (ok nodes, w) = finish_processing cm (process_nodes nodes [] (n, w))

  unfoldable pub process_node_eni : NodeEni → Shared → Reconciled × (CoordinationManager × Memory)
  unfolding process_listed finish_processing
  process_node_eni n (cm, w) = process_listed cm n (list_nodes n.spec.node_selector w)

  -- What is done with an object that was fetched.
  unfoldable pub reconcile_object : NodeEni → Shared → Reconciled × Shared
  reconcile_object n (cm, w) =
      if is_some n.deletion_timestamp
      then (let d = handle_deletion c config env n (cm, w) in (result d.0, d.1))
      else if not (contains_finalizer n.finalizers node_eni_finalizer)
      then (let r = add_finalizer c n w in (result (outcome_of r.0), (cm, r.1.1)))
      else (let r = process_node_eni n (cm, w) in (r.0, (r.1.0, r.1.1.1)))

  reconcile_fetched : CoordinationManager → (ApiError ⊎ NodeEni) × World → Reconciled × Shared
  reconcile_fetched cm (inl not_found, w) = (result finished, (cm, w))
  reconcile_fetched cm (inl conflict, w) = (result (failed conflict), (cm, w))
  reconcile_fetched cm (inl other, w) = (result (failed other), (cm, w))
  reconcile_fetched cm (inr n, w) = reconcile_object n (cm, w)

  unfoldable pub reconcile : String → Shared → Reconciled × Shared
  unfolding reconcile_fetched
  reconcile name (cm, w) = reconcile_fetched cm (get_node_eni name w)
