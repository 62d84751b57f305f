-- ===== src/Controller/Cleanup/Tests.antt =====
-- The cleanup of one attachment in the sample cluster.
use aws_multi_eni_controller.Prelude.{true, [], ◌≡◌, refl}
use aws_multi_eni_controller.Controller.Sample.{
  place_cluster, short_config, IsGoneHere, place_laws, attachment_of, node_eni_of, place,
}
use aws_multi_eni_controller.Controller.Cleanup.{
  cleanup_eni_attachment, check_eni_exists, handle_dpdk_unbinding, detach_eni_with_retry,
  wait_for_eni_detachment_with_retry, delete_eni_if_exists,
}
use aws_multi_eni_controller.Controller.Cleanup.Deleted.{cleanup_eni_attachment-gone}

succeeds :
    (cleanup_eni_attachment place_cluster short_config
      (node_eni_of [])
      (attachment_of "eni-1")
      place).0
    ≡ true
unfolding cleanup_eni_attachment check_eni_exists handle_dpdk_unbinding detach_eni_with_retry
    wait_for_eni_detachment_with_retry delete_eni_if_exists
succeeds = refl

cleanup_eni_attachment-gone_example :
    IsGoneHere "eni-1"
      (cleanup_eni_attachment place_cluster short_config
        (node_eni_of [])
        (attachment_of "eni-1")
        place).1
cleanup_eni_attachment-gone_example =
    cleanup_eni_attachment-gone place_cluster short_config IsGoneHere place_laws (node_eni_of [])
      (attachment_of "eni-1") place succeeds
