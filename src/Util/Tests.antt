-- ===== src/Util/Tests.antt =====
-- Provider IDs as Kubernetes writes them.
use aws_multi_eni_controller.Prelude.{◌≡◌, refl}
use aws_multi_eni_controller.Util.{split_slash, get_instance_id_from_provider_id}

no_slash_no_id : get_instance_id_from_provider_id "i-0abc" ≡ ""
unfolding get_instance_id_from_provider_id split_slash
no_slash_no_id = refl
