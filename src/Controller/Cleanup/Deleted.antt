-- ===== src/Controller/Cleanup/Deleted.antt =====
-- A cleanup that reports success has got rid of the ENI.
use aws_multi_eni_controller.Prelude.{
  String, true, false, Option, none, some, ◌≡◌, refl, arith, inl, inr, Bool-cases,
}
use aws_multi_eni_controller.Prelude.State.{Result, ok, err}
use aws_multi_eni_controller.Types.{NodeEni, EniAttachment}
use aws_multi_eni_controller.Cluster.{Cluster, Config, NetworkInterface}
use aws_multi_eni_controller.Controller.Cleanup.{
  exists_of, still_attached, deleted_of, handle_dpdk_unbinding, check_eni_exists, delete_now,
  delete_after_pause, delete_described, delete_eni_if_exists, detach_and_delete,
  cleanup_eni_attachment,
}
use aws_multi_eni_controller.Controller.Cleanup.Laws.{EniLaws}

module _ (c : Cluster) (config : Config) (IsGone : String → c.World → Type 0)
    (laws : EniLaws c IsGone) where
  pub described_gone :
      (id : String) (w : c.World) (r : Result (Option NetworkInterface))
      → (c.describe_eni id w).0 ≡ r
      → exists_of r ≡ false
      → IsGone id (c.describe_eni id w).1
  described_gone id w (ok none) e h = laws.described_none id w e
  described_gone id w (ok (some eni)) e h = cc
  described_gone id w (err m) e h = laws.described_not_found id m w e (ground arith)

  deleted_gone :
      (id : String) (w : c.World) (r : Option String)
      → (c.delete_eni id w).0 ≡ r
      → deleted_of r ≡ true
      → IsGone id (c.delete_eni id w).1
  deleted_gone id w none e h = laws.deleted id w e
  deleted_gone id w (some m) e h = laws.deleted_not_found id m w e h

  delete_now-gone :
      (a : EniAttachment) (w : c.World)
      → (delete_now c config a w).0 ≡ true
      → IsGone a.eni_id (delete_now c config a w).1
  unfolding delete_now
  delete_now-gone a w h = deleted_gone a.eni_id w (c.delete_eni a.eni_id w).0 refl h

  delete_after_pause-gone :
      (a : EniAttachment) (w : c.World) (r : Result (Option NetworkInterface))
      → (c.describe_eni a.eni_id w).0 ≡ r
      → (delete_after_pause c config a r (c.describe_eni a.eni_id w).1).0 ≡ true
      → IsGone a.eni_id (delete_after_pause c config a r (c.describe_eni a.eni_id w).1).1
  unfolding delete_after_pause
  delete_after_pause-gone a w (err m) e h = laws.described_not_found a.eni_id m w e h
  delete_after_pause-gone a w (ok none) e h = laws.described_none a.eni_id w e
  delete_after_pause-gone a w (ok (some eni)) e h = delete_now-gone a _ h

  delete_described-gone :
      (a : EniAttachment) (w : c.World) (r : Result (Option NetworkInterface))
      → (c.describe_eni a.eni_id w).0 ≡ r
      → (delete_described c config a r (c.describe_eni a.eni_id w).1).0 ≡ true
      → IsGone a.eni_id (delete_described c config a r (c.describe_eni a.eni_id w).1).1
  unfolding delete_described
  delete_described-gone a w (err m) e h = laws.described_not_found a.eni_id m w e h
  delete_described-gone a w (ok none) e h = laws.described_none a.eni_id w e
  delete_described-gone a w (ok (some eni)) e h = elim (Bool-cases (still_attached eni)) [
    | inl b ↦
        rw (b, delete_described)
          (delete_after_pause-gone a
            (c.sleep config.detachment_timeout (c.describe_eni a.eni_id w).1) _ refl
            (rw (b, delete_described) at h))
    | inr b ↦ rw (b, delete_described) (delete_now-gone a _ (rw (b, delete_described) at h))
  ]

  delete_eni_if_exists-gone :
      (a : EniAttachment) (w : c.World)
      → (delete_eni_if_exists c config a w).0 ≡ true
      → IsGone a.eni_id (delete_eni_if_exists c config a w).1
  unfolding delete_eni_if_exists
  delete_eni_if_exists-gone a w h = delete_described-gone a w (c.describe_eni a.eni_id w).0 refl h

  detach_and_delete-gone :
      (a : EniAttachment) (w : c.World)
      → (detach_and_delete c config a w).0 ≡ true
      → IsGone a.eni_id (detach_and_delete c config a w).1
  unfolding detach_and_delete
  detach_and_delete-gone a w h = delete_eni_if_exists-gone a _ (ground arith)

  -- If `cleanupENIAttachment` reports success, the ENI is gone from EC2, on every path: found
  -- missing at first, missing after a pause, deleted, or missing when the deletion was tried. (EC2
  -- calls an ENI missing or deleted only if it is gone, and what is gone stays gone.)
  pub cleanup_eni_attachment-gone :
      (n : NodeEni) (a : EniAttachment) (w : c.World)
      → (cleanup_eni_attachment c config n a w).0 ≡ true
      → IsGone a.eni_id (cleanup_eni_attachment c config n a w).1
  unfolding cleanup_eni_attachment check_eni_exists
  cleanup_eni_attachment-gone n a w h =
      elim (Bool-cases (exists_of (c.describe_eni a.eni_id v).0)) [
        | inl b ↦
            rw (b, cleanup_eni_attachment)
              (detach_and_delete-gone a _ (rw (b, cleanup_eni_attachment) at h))
        | inr b ↦ rw (b, cleanup_eni_attachment) (described_gone a.eni_id v _ refl b)
      ]
    where
      v : c.World
      v = (handle_dpdk_unbinding c config n a w).1
