-- ===== src/Controller/Coordinated/Tests.antt =====
-- Parallel cleanups in the sample cluster.
use aws_multi_eni_controller.Prelude.{true, List, [], ◌∷◌, ◌≡◌, refl, inr, inl}
use aws_multi_eni_controller.Types.{EniAttachment}
use aws_multi_eni_controller.Controller.Sample.{
  place_cluster, short_config, IsGoneHere, place_laws, attachment_of, node_eni_of, place, quiet,
  Place,
}
use aws_multi_eni_controller.Controller.Coordination.{
  CoordinationManager, execute_coordinated, get_resource_conflicts, cleanup_stale_locks,
  check_dependencies, acquire_lock, complete_dependency, release_lock,
}
use aws_multi_eni_controller.Controller.Cleanup.{
  cleanup_eni_attachment, check_eni_exists, handle_dpdk_unbinding, detach_eni_with_retry,
  wait_for_eni_detachment_with_retry, delete_eni_if_exists,
}
use aws_multi_eni_controller.Controller.Parallel.{
  pool_measure, start_pool, pool_step, run_pool, scheduled, run_workers, collect_results,
  calculate_worker_count, pick,
}
use aws_multi_eni_controller.Controller.Coordinated.{
  parallel_cleanup_enis, operation_id, worker_cleanup, should_use_node_level_coordination,
  cleanup_eni_attachment_coordinated, granular_resource_ids,
}
use aws_multi_eni_controller.Prelude.Maps.{lookup, insert, delete}
use aws_multi_eni_controller.Controller.Coordinated.Guarantee.{parallel_cleanup_enis-gone}

abbrev two : List EniAttachment
two = attachment_of "eni-1" ∷ attachment_of "eni-2" ∷ []

abbrev start : CoordinationManager × Place
start = (record { locks = []; dependencies = [] }, place)

succeeds :
    (parallel_cleanup_enis place_cluster short_config quiet (node_eni_of two) two start).0 ≡ true
unfolding parallel_cleanup_enis worker_cleanup run_workers cleanup_eni_attachment collect_results
    pool_measure start_pool calculate_worker_count pool_step pick should_use_node_level_coordination
    cleanup_eni_attachment_coordinated execute_coordinated get_resource_conflicts
    granular_resource_ids lookup cleanup_stale_locks check_dependencies acquire_lock insert delete
    check_eni_exists delete_eni_if_exists detach_eni_with_retry handle_dpdk_unbinding
    wait_for_eni_detachment_with_retry complete_dependency release_lock run_pool scheduled
    operation_id
succeeds = refl

parallel_cleanup_enis-gone_example :
    IsGoneHere "eni-2"
      (parallel_cleanup_enis place_cluster short_config quiet (node_eni_of two) two start).1.1
parallel_cleanup_enis-gone_example =
    parallel_cleanup_enis-gone place_cluster short_config quiet IsGoneHere place_laws (λ id s h. h)
      (node_eni_of two) two start (attachment_of "eni-2") (λ t. refl) succeeds (inr (inl refl))
