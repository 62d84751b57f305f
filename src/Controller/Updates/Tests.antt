-- ===== src/Controller/Updates/Tests.antt =====
-- Writes in the sample cluster.
use aws_multi_eni_controller.Prelude.{[], ◌∷◌, none, ◌≡◌, refl}
use aws_multi_eni_controller.Prelude.Maps.{lookup}
use aws_multi_eni_controller.Types.{NodeEni}
use aws_multi_eni_controller.Controller.Sample.Laws.{place_stores}
use aws_multi_eni_controller.Controller.Sample.{place_cluster, attachment_of, node_eni_of, place}
use aws_multi_eni_controller.Controller.Updates.{
  cleanup_start_time_annotation, entries, remove_finalizer, update_node_eni_with_retry,
  update_node_eni_status_with_retry,
}
use aws_multi_eni_controller.Controller.Updates.Results.{remove_finalizer_lem}

removed : (remove_finalizer place_cluster (node_eni_of []) place).0 ≡ none
unfolding remove_finalizer update_node_eni_with_retry
removed = refl

remove_finalizer_example :
    ((remove_finalizer place_cluster (node_eni_of []) place).1.0.finalizers ≡ [])
    × (lookup cleanup_start_time_annotation
          (entries (remove_finalizer place_cluster (node_eni_of []) place).1.0.annotations)
        ≡ none)
remove_finalizer_example =
    remove_finalizer_lem place_cluster place_stores (node_eni_of []) place [] refl removed

abbrev with_one : NodeEni
with_one = node_eni_of (attachment_of "eni-1" ∷ [])

written_status : (update_node_eni_status_with_retry place_cluster with_one place).0 ≡ none
unfolding update_node_eni_status_with_retry
written_status = refl
