-- ===== src/Controller/Stale/Tests.antt =====
-- Stale attachments in the sample cluster, where no instance exists.
use aws_multi_eni_controller.Prelude.{refl, List, [], ◌∷◌, ◌⊎◌, inl, inr}
use aws_multi_eni_controller.Types.{EniAttachment}
use aws_multi_eni_controller.Controller.Sample.{
  Place, place_cluster, short_config, IsGoneHere, place_laws, attachment_of, node_eni_of, place,
  quiet,
}
use aws_multi_eni_controller.Controller.Coordination.{CoordinationManager}
use aws_multi_eni_controller.Controller.Parallel.Outcome.{In}
use aws_multi_eni_controller.Controller.Stale.{remove_stale_attachments}
use aws_multi_eni_controller.Controller.Stale.Safety.{remove_stale_attachments-safe}

abbrev two : List EniAttachment
two = attachment_of "eni-1" ∷ attachment_of "eni-2" ∷ []

abbrev start : CoordinationManager × Place
start = (record { locks = []; dependencies = [] }, place)

remove_stale_attachments-safe_example :
    In
      (attachment_of "eni-2")
      (remove_stale_attachments place_cluster short_config quiet
        (node_eni_of two)
        ("node-1" ∷ [])
        start).0
    ⊎ IsGoneHere "eni-2"
        (remove_stale_attachments place_cluster short_config quiet
          (node_eni_of two)
          ("node-1" ∷ [])
          start).1.1
remove_stale_attachments-safe_example =
    remove_stale_attachments-safe place_cluster short_config quiet IsGoneHere place_laws
      (λ id s h. h) (λ t. refl) (node_eni_of two) ("node-1" ∷ []) start (attachment_of "eni-2")
      (inr (inl refl))
