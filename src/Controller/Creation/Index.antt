-- ===== src/Controller/Creation/Index.antt =====
-- The device index that an attached ENI gets.
use aws_multi_eni_controller.Prelude.{String, false, ◌≡◌, List}
use aws_multi_eni_controller.Prelude.Int.{ℤ, contains_int}
use aws_multi_eni_controller.Prelude.State.{ok}
use aws_multi_eni_controller.Cluster.{Cluster, Config}
use aws_multi_eni_controller.Controller.Creation.{get_aws_used_device_indices, attach_eni}

module _ (c : Cluster) (config : Config) (eni_id instance_id : String) where
  -- The ENI was attached at the index by a call of `AttachENI`.
  abbrev pub Attached : String → ℤ → Type 0
  Attached id i =
      (v : c.World) × ((c.attach_eni eni_id instance_id i config.default_delete_on_termination v).0
        ≡ ok id)

  -- The index is not in use by what EC2 answered for the instance.
  abbrev pub FreeInEc2 : ℤ → Type 0
  FreeInEc2 i =
      (v : c.World) × (used : List ℤ) × ((get_aws_used_device_indices c config instance_id v).0
        ≡ ok used)
      × (contains_int used i ≡ false)
