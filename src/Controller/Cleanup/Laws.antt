-- ===== src/Controller/Cleanup/Laws.antt =====
-- What the cleanup relies on in EC2: an ENI that a call reports missing or deleted is gone, and an
-- ENI that is gone does not come back (EC2 never uses an id again).
use aws_multi_eni_controller.Prelude.{ℕ, String, Bool, true, none, some, ◌≡◌, str_contains}
use aws_multi_eni_controller.Prelude.State.{ok, err}
use aws_multi_eni_controller.Types.{EniAttachment}
use aws_multi_eni_controller.Cluster.{Cluster, InterfaceState, eni_not_found}

-- A predicate of the world that no call of the reconciler's cleanup takes away.
pub record IsStable (c : Cluster) (P : c.World → Type 0) : Type 0 where
  pub by_describe : (id : String) (w : c.World) → P w → P (c.describe_eni id w).1
  pub by_detach : (id : String) (force : Bool) (w : c.World) → P w → P (c.detach_eni id force w).1
  pub by_wait : (id : String) (t : ℕ) (w : c.World) → P w → P (c.wait_for_eni_detachment id t w).1
  pub by_delete : (id : String) (w : c.World) → P w → P (c.delete_eni id w).1
  pub by_capture : (a : EniAttachment) (w : c.World) → P w → P (c.capture_interface_state a w).1
  pub by_unbind :
      (a : EniAttachment) (s : InterfaceState) (w : c.World)
      → P w
      → P (c.atomic_dpdk_unbind a s w).1
  pub by_rollback :
      (a : EniAttachment) (s : InterfaceState) (w : c.World)
      → P w
      → P (c.rollback_interface_state a s w).1
  pub by_sleep : (t : ℕ) (w : c.World) → P w → P (c.sleep t w)

pub record EniLaws (c : Cluster) (IsGone : String → c.World → Type 0) : Type 0 where
  pub described_none :
      (id : String) (w : c.World)
      → (c.describe_eni id w).0 ≡ ok none
      → IsGone id (c.describe_eni id w).1
  pub described_not_found :
      (id e : String) (w : c.World)
      → (c.describe_eni id w).0 ≡ err e
      → str_contains e eni_not_found ≡ true
      → IsGone id (c.describe_eni id w).1
  pub deleted :
      (id : String) (w : c.World) → (c.delete_eni id w).0 ≡ none → IsGone id (c.delete_eni id w).1
  pub deleted_not_found :
      (id e : String) (w : c.World)
      → (c.delete_eni id w).0 ≡ some e
      → str_contains e eni_not_found ≡ true
      → IsGone id (c.delete_eni id w).1
  pub stable : (id : String) → IsStable c (IsGone id)
