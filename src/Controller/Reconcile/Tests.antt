-- ===== src/Controller/Reconcile/Tests.antt =====
-- A reconciliation of the deleted object of the sample cluster, and the processing of one that is not
-- deleted.
use aws_multi_eni_controller.Prelude.{true, none, [], ◌∷◌, ◌≡◌, refl, ◌⊎◌, inl, inr, is_some}
use aws_multi_eni_controller.Types.{NodeEni}
use aws_multi_eni_controller.Controller.Coordination.{CoordinationManager}
use aws_multi_eni_controller.Controller.Sample.{
  Place, place_cluster, short_config, IsGoneHere, place_laws, attachment_of, node_eni_of, demo,
  place, quiet,
}
use aws_multi_eni_controller.Controller.Sample.Laws.{
  place_stores, HasFinalizer, pinned_laws, kept_by_api, gone_kept, pinned_kept, finalizer_added,
  HasDemo, demo_status,
}
use aws_multi_eni_controller.Controller.Verify.Dropped.{HasSame, IsReleased}
use aws_multi_eni_controller.Controller.Reconcile.{process_node_eni, reconcile}
use aws_multi_eni_controller.Controller.Reconcile.Kept.{process_node_eni-kept}
use aws_multi_eni_controller.Controller.Reconcile.Pinned.{TimedOutOrGone, reconcile-safe}

abbrev two : NodeEni
two = record (node_eni_of (attachment_of "eni-1" ∷ attachment_of "eni-2" ∷ [])) {
  deletion_timestamp = none;
}

abbrev start : CoordinationManager × Place
start = (record { locks = []; dependencies = [] }, place)

process_node_eni-kept_example :
    HasSame
      (attachment_of "eni-2")
      (process_node_eni place_cluster short_config quiet two start).1.1.0.attachments
    ⊎ (IsReleased place_cluster (attachment_of "eni-2")
        ⊎ IsGoneHere "eni-2" (process_node_eni place_cluster short_config quiet two start).1.1.1)
process_node_eni-kept_example =
    process_node_eni-kept place_cluster short_config quiet place_stores IsGoneHere place_laws
      gone_kept (λ id s h. h) (λ t. refl) two start (attachment_of "eni-2") (inr (inl refl))

reconcile-safe_example :
    HasFinalizer (reconcile place_cluster short_config quiet "demo" start).1.1
    ⊎ ((n : NodeEni) × (((place_cluster.get_node_eni "demo" place).0 ≡ inr n)
          × ((is_some n.deletion_timestamp ≡ true)
              × ((n.attachments ≡ demo.attachments)
                  × TimedOutOrGone place_cluster short_config quiet IsGoneHere n place
                      (reconcile place_cluster short_config quiet "demo" start).1.1))))
reconcile-safe_example =
    reconcile-safe place_cluster short_config quiet HasFinalizer pinned_laws pinned_kept
      finalizer_added (λ s h. h) IsGoneHere place_laws kept_by_api (λ id s h. h) (λ t. refl) "demo"
      demo.attachments HasDemo demo_status start tt refl
