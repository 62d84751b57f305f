-- ===== src/Controller/Calls.antt =====
-- A fact of the world that no call of the reconciler takes away, except the metadata writes.
use aws_multi_eni_controller.Prelude.{String, Bool, List}
use aws_multi_eni_controller.Prelude.Int.{ℤ}
use aws_multi_eni_controller.Prelude.Maps.{Dict}
use aws_multi_eni_controller.Types.{NodeEni}
use aws_multi_eni_controller.Cluster.{Cluster}
use aws_multi_eni_controller.Controller.Cleanup.Laws.{IsStable}

pub record IsKept (c : Cluster) (P : c.World → Type 0) : Type 0 where
  pub in_cleanup : IsStable c P
  pub by_create :
      (subnet : String) (groups : List String) (text : String) (tags : Dict String) (w : c.World)
      → P w
      → P (c.create_eni subnet groups text tags w).1
  pub by_attach :
      (eni instance_id : String) (i : ℤ) (d : Bool) (w : c.World)
      → P w
      → P (c.attach_eni eni instance_id i d w).1
  pub by_instance : (id : String) (w : c.World) → P w → P (c.describe_instance id w).1
  pub by_enis : (id : String) (w : c.World) → P w → P (c.get_instance_enis id w).1
  pub by_subnet : (name : String) (w : c.World) → P w → P (c.get_subnet_id_by_name name w).1
  pub by_cidr : (id : String) (w : c.World) → P w → P (c.get_subnet_cidr_by_id id w).1
  pub by_group : (name : String) (w : c.World) → P w → P (c.get_security_group_id_by_name name w).1
  pub by_list : (selector : Dict String) (w : c.World) → P w → P (c.list_nodes selector w).1
  pub by_get : (name : String) (w : c.World) → P w → P (c.get_node_eni name w).1
  pub by_status : (n : NodeEni) (w : c.World) → P w → P (c.update_node_eni_status n w).1
