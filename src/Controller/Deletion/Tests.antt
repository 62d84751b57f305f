-- ===== src/Controller/Deletion/Tests.antt =====
-- The deletion of a NodeENI in the sample cluster.
use aws_multi_eni_controller.Prelude.{true, List, [], ◌∷◌, ◌≡◌, refl, ◌⊎◌}
use aws_multi_eni_controller.Types.{EniAttachment}
use aws_multi_eni_controller.Controller.Sample.Laws.{
  HasFinalizer, HasDemo, demo_status, pinned_laws, kept_by_api,
}
use aws_multi_eni_controller.Controller.Sample.{
  Place, place_cluster, short_config, IsGoneHere, place_laws, attachment_of, node_eni_of, place,
  quiet,
}
use aws_multi_eni_controller.Controller.Coordination.{CoordinationManager}
use aws_multi_eni_controller.Controller.Deletion.{is_cleanup_timed_out, handle_deletion}
use aws_multi_eni_controller.Controller.Deletion.Finalizer.{AllGone, handle_deletion-safe}

abbrev two : List EniAttachment
two = attachment_of "eni-1" ∷ attachment_of "eni-2" ∷ []

abbrev start : CoordinationManager × Place
start = (record { locks = []; dependencies = [] }, place)

handle_deletion-safe_example :
    HasFinalizer (handle_deletion place_cluster short_config quiet (node_eni_of two) start).1.1
    ⊎ ((is_cleanup_timed_out place_cluster short_config quiet (node_eni_of two) place ≡ true)
        ⊎ AllGone IsGoneHere
            (node_eni_of two)
            (handle_deletion place_cluster short_config quiet (node_eni_of two) start).1.1)
handle_deletion-safe_example =
    handle_deletion-safe place_cluster short_config quiet HasFinalizer pinned_laws (λ s h. h)
      IsGoneHere place_laws kept_by_api (λ id s h. h) (λ t. refl) "demo" two HasDemo demo_status
      (node_eni_of two) start refl refl tt refl
