-- ===== src/Controller/Coordinated.antt =====
-- Cleaning up many attachments: the coordinated cleanups of pkg/controller/nodeeni_controller.go and
-- `parallelCleanupENIs` of pkg/controller/parallel_cleanup.go, over the lock manager, the worker pool
-- and the cleanup of one attachment.
pub mod Guarantee
mod Tests
use aws_multi_eni_controller.Prelude.{
  ℕ, String, ◌<>◌, Bool, true, false, ◌||◌, not, List, [], ◌∷◌, ◌++◌, Option, none, some,
  if◌then◌else◌, str_eq, is_some, length,
}
use aws_multi_eni_controller.Prelude.Int.{ℤ}
use aws_multi_eni_controller.Prelude.State.{Call}
use aws_multi_eni_controller.Types.{NodeEni, EniAttachment}
use aws_multi_eni_controller.Cluster.{Cluster, Config}
use aws_multi_eni_controller.Controller.Cleanup.{cleanup_eni_attachment}
use aws_multi_eni_controller.Controller.Coordination.{
  CoordinationManager, CoordinatedOperation, execute_coordinated,
}
use aws_multi_eni_controller.Controller.Parallel.{Pool, Choice, calculate_worker_count, run_workers}

-- DPDK, or SR-IOV as the address or the resource name shows it.
pub should_use_node_level_coordination : NodeEni → Bool
should_use_node_level_coordination n =
    n.spec.enable_dpdk
    || not (str_eq n.spec.dpdk_pci_address "")
    || not (str_eq n.spec.dpdk_resource_name "")

-- The resources that the two kinds of cleanup lock.
pub granular_resource_ids : EniAttachment → List String
granular_resource_ids a =
    a.eni_id
    ∷ (if str_eq a.instance_id ""
        then []
        else ("instance-" <> (a.instance_id <> ("-eni-" <> a.eni_id))) ∷ [])

pub node_resource_ids : EniAttachment → List String
node_resource_ids a =
    a.eni_id ∷ ("node-" <> a.node_id) ∷ (if str_eq a.instance_id "" then [] else a.instance_id ∷ [])

pub operation_id : String → NodeEni → EniAttachment → String
operation_id prefix n a = prefix <> (n.name <> ("-" <> (a.node_id <> ("-" <> a.eni_id))))

-- What the environment of the reconciler decides: the caller's context, the steps of others between
-- the calls of the lock manager, whether the context is done, and the scheduler.
pub record Surroundings (c : Cluster) : Type 0 where
  pub context_end : Option ℕ
  pub others : CoordinationManager × c.World → CoordinationManager × c.World
  pub is_cancelled : CoordinationManager × c.World → Bool
  pub choose : Pool EniAttachment (CoordinationManager × c.World) → Choice
  -- The attachments sent before the sender sees the context done, if it does.
  pub sent : Option (List EniAttachment)

module _ (c : Cluster) (config : Config) (env : Surroundings c) where
  abbrev Shared : Type 0
  Shared = CoordinationManager × c.World

  -- The cleanup as the body of an operation: `nil` or an error.
  cleanup_body : NodeEni → EniAttachment → Call Shared (Option String)
  cleanup_body n a (cm, w) =
      let r = cleanup_eni_attachment c config n a w in
      (if r.0 then none else some "cleanup failed", (cm, r.1))

  cleanup_operation :
      String → String → List String → NodeEni → EniAttachment → CoordinatedOperation Shared
  unfolding cleanup_body
  cleanup_operation prefix kind resource_ids n a = record {
    id = operation_id prefix n a;
    operation_type = kind;
    resource_ids = resource_ids;
    timeout = config.detachment_timeout;
    execute = cleanup_body n a;
  }

  run_operation : CoordinatedOperation Shared → Call Shared Bool
  run_operation op s =
      let r = execute_coordinated c.now env.context_end env.others op s in (not (is_some r.0), r.1)

  pub cleanup_eni_attachment_coordinated : NodeEni → EniAttachment → Call Shared Bool
  unfolding run_operation cleanup_operation
  cleanup_eni_attachment_coordinated n a =
      run_operation (cleanup_operation "cleanup-" "eni-cleanup" (granular_resource_ids a) n a)

  pub cleanup_eni_attachment_with_node_coordination : NodeEni → EniAttachment → Call Shared Bool
  unfolding run_operation cleanup_operation
  cleanup_eni_attachment_with_node_coordination n a =
      run_operation (cleanup_operation "node-cleanup-" "eni-node-cleanup" (node_resource_ids a) n a)

  -- What a worker does with an attachment.
  pub worker_cleanup : NodeEni → EniAttachment → Call Shared Bool
  worker_cleanup n a =
      if should_use_node_level_coordination n
      then cleanup_eni_attachment_with_node_coordination n a
      else cleanup_eni_attachment_coordinated n a

  -- A single attachment is cleaned up with no lock.
  cleanup_single : NodeEni → EniAttachment → Call Shared Bool
  cleanup_single n a (cm, w) = let r = cleanup_eni_attachment c config n a w in (r.0, (cm, r.1))

  pub parallel_cleanup_enis : NodeEni → List EniAttachment → Call Shared Bool
  unfolding cleanup_single
  parallel_cleanup_enis n [] s = (true, s)
  parallel_cleanup_enis n (a ∷ []) s = cleanup_single n a s
  parallel_cleanup_enis n (a ∷ b ∷ rest) s =
      run_workers (worker_cleanup n) env.is_cancelled env.choose env.sent
        (calculate_worker_count config.max_concurrent_eni_cleanup (length (a ∷ b ∷ rest)))
        (a ∷ b ∷ rest) s
