-- ===== src/Controller/Coordinated/Guarantee.antt =====
-- A parallel cleanup that reports success has got rid of every ENI.
use aws_multi_eni_controller.Prelude.{
  ◌≡◌, String, true, false, List, [], ◌∷◌, none, inl, inr, length, arith, Bool-cases, subst, sym,
}
use aws_multi_eni_controller.Types.{NodeEni, EniAttachment}
use aws_multi_eni_controller.Cluster.{Cluster, Config}
use aws_multi_eni_controller.Controller.Cleanup.Laws.{IsStable, EniLaws}
use aws_multi_eni_controller.Controller.Cleanup.Effects.{cleanup_eni_attachment-stable}
use aws_multi_eni_controller.Controller.Cleanup.Deleted.{cleanup_eni_attachment-gone}
use aws_multi_eni_controller.Controller.Coordination.{CoordinationManager}
use aws_multi_eni_controller.Controller.Coordination.Bodies.{
  execute_coordinated-keeps, execute_coordinated-establishes,
}
use aws_multi_eni_controller.Controller.Parallel.{calculate_worker_count}
use aws_multi_eni_controller.Controller.Parallel.Workers.{calculate_worker_count_bounds}
use aws_multi_eni_controller.Controller.Parallel.Effects.{run_workers-keeps}
use aws_multi_eni_controller.Controller.Parallel.Outcome.{In, run_workers-Good}
use aws_multi_eni_controller.Controller.Coordinated.{
  Surroundings, cleanup_body, cleanup_operation, run_operation, cleanup_eni_attachment_coordinated,
  cleanup_eni_attachment_with_node_coordination, worker_cleanup, cleanup_single,
  parallel_cleanup_enis, should_use_node_level_coordination, granular_resource_ids,
  node_resource_ids,
}

module _ (c : Cluster) (config : Config) (env : Surroundings c) (P : c.World → Type 0)
    (stable : IsStable c P)
    (others_keep : (s : CoordinationManager × c.World) → P s.1 → P (env.others s).1) where
  run_operation-keeps :
      (prefix kind : String) (ids : List String) (n : NodeEni) (a : EniAttachment)
      (s : CoordinationManager × c.World)
      → P s.1
      → P (run_operation c config env (cleanup_operation c config env prefix kind ids n a) s).1.1
  unfolding run_operation cleanup_operation
  run_operation-keeps prefix kind ids n a s h =
      execute_coordinated-keeps c.now env.context_end env.others P others_keep _ s
        (λ t k. cleanup_eni_attachment-stable c config P stable n a t.1 k) h

  pub worker_cleanup-keeps :
      (n : NodeEni) (a : EniAttachment) (s : CoordinationManager × c.World)
      → P s.1
      → P (worker_cleanup c config env n a s).1.1
  unfolding worker_cleanup cleanup_eni_attachment_coordinated
      cleanup_eni_attachment_with_node_coordination
  worker_cleanup-keeps n a s h = elim (Bool-cases (should_use_node_level_coordination n)) [
    | inl e ↦
        rw (e, worker_cleanup)
          (run_operation-keeps "node-cleanup-" "eni-node-cleanup" (node_resource_ids a) n a s h)
    | inr e ↦
        rw (e, worker_cleanup)
          (run_operation-keeps "cleanup-" "eni-cleanup" (granular_resource_ids a) n a s h)
  ]

  -- A fact that each call and the others keep is kept by a parallel cleanup, on every path.
  pub parallel_cleanup_enis-keeps :
      (n : NodeEni) (attachments : List EniAttachment) (s : CoordinationManager × c.World)
      → P s.1
      → P (parallel_cleanup_enis c config env n attachments s).1.1
  unfolding parallel_cleanup_enis cleanup_single
  parallel_cleanup_enis-keeps n [] s h = h
  parallel_cleanup_enis-keeps n (a ∷ []) s h =
      cleanup_eni_attachment-stable c config P stable n a s.1 h
  parallel_cleanup_enis-keeps n (a ∷ b ∷ rest) s h =
      run_workers-keeps (worker_cleanup c config env n) env.is_cancelled (λ t. P t.1)
        (worker_cleanup-keeps n) env.choose env.sent
        (calculate_worker_count config.max_concurrent_eni_cleanup (length (a ∷ b ∷ rest)))
        (a ∷ b ∷ rest) s h

module _ (c : Cluster) (config : Config) (env : Surroundings c) (IsGone : String → c.World → Type 0)
    (laws : EniLaws c IsGone)
    (others_keep : (id : String) (s : CoordinationManager × c.World)
      → IsGone id s.1
      → IsGone id (env.others s).1) where
  body-gone :
      (n : NodeEni) (a : EniAttachment) (t : CoordinationManager × c.World)
      → (cleanup_body c config env n a t).0 ≡ none
      → IsGone a.eni_id (cleanup_body c config env n a t).1.1
  unfolding cleanup_body
  body-gone n a t h = cleanup_eni_attachment-gone c config IsGone laws n a t.1 (ground arith)

  run_operation-gone :
      (prefix kind : String) (ids : List String) (n : NodeEni) (a : EniAttachment)
      (s : CoordinationManager × c.World)
      → (run_operation c config env (cleanup_operation c config env prefix kind ids n a) s).0 ≡ true
      → IsGone a.eni_id
          (run_operation c config env (cleanup_operation c config env prefix kind ids n a) s).1.1
  unfolding run_operation cleanup_operation
  run_operation-gone prefix kind ids n a s h =
      execute_coordinated-establishes c.now env.context_end env.others (IsGone a.eni_id)
        (others_keep a.eni_id) _ s (λ t k. body-gone n a t k) (ground arith)

  worker_cleanup-gone :
      (n : NodeEni) (a : EniAttachment) (s : CoordinationManager × c.World)
      → (worker_cleanup c config env n a s).0 ≡ true
      → IsGone a.eni_id (worker_cleanup c config env n a s).1.1
  unfolding worker_cleanup cleanup_eni_attachment_coordinated
      cleanup_eni_attachment_with_node_coordination
  worker_cleanup-gone n a s h = elim (Bool-cases (should_use_node_level_coordination n)) [
    | inl e ↦
        rw (e, worker_cleanup)
          (run_operation-gone "node-cleanup-" "eni-node-cleanup" (node_resource_ids a) n a s
            (rw (e, worker_cleanup) at h))
    | inr e ↦
        rw (e, worker_cleanup)
          (run_operation-gone "cleanup-" "eni-cleanup" (granular_resource_ids a) n a s
            (rw (e, worker_cleanup) at h))
  ]

  -- If the context is not done, a parallel cleanup that reports success has got rid of the ENI of
  -- every attachment: for no attachment, for one, and for many under any schedule of the workers,
  -- whatever other operations do between the calls of the lock manager. (An ENI that is gone does not
  -- come back.)
  pub parallel_cleanup_enis-gone :
      (n : NodeEni) (attachments : List EniAttachment) (s : CoordinationManager × c.World)
      (a : EniAttachment)
      → ((t : CoordinationManager × c.World) → env.is_cancelled t ≡ false)
      → (parallel_cleanup_enis c config env n attachments s).0 ≡ true
      → In a attachments
      → IsGone a.eni_id (parallel_cleanup_enis c config env n attachments s).1.1
  unfolding parallel_cleanup_enis
  parallel_cleanup_enis-gone n [] s a running h m = absurd m
  parallel_cleanup_enis-gone n (b ∷ []) s a running h (inl e) =
      unfold cleanup_single in
      (subst (λ x. IsGone x.eni_id (cleanup_single c config env n b s).1.1) (sym e)
        (cleanup_eni_attachment-gone c config IsGone laws n b s.1 h))
  parallel_cleanup_enis-gone n (b ∷ []) s a running h (inr m) = absurd m
  parallel_cleanup_enis-gone n (b ∷ d ∷ rest) s a running h m =
      run_workers-Good (worker_cleanup c config env n) env.is_cancelled running
        (λ x t. IsGone x.eni_id t.1) (worker_cleanup-gone n)
        (λ x y t g.
          worker_cleanup-keeps c config env (IsGone x.eni_id) (laws.stable x.eni_id)
            (others_keep x.eni_id) n y t g)
        env.choose env.sent
        (calculate_worker_count config.max_concurrent_eni_cleanup (length (b ∷ d ∷ rest)))
        (b ∷ d ∷ rest) s a
        (calculate_worker_count_bounds config.max_concurrent_eni_cleanup (length (b ∷ d ∷ rest))
          (omega arith)).0
        h m
