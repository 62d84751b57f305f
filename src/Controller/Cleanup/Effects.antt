-- ===== src/Controller/Cleanup/Effects.antt =====
-- What holds of the world through a cleanup: a stable fact survives it.
use aws_multi_eni_controller.Prelude.{
  String, true, ◌&&◌, Option, none, some, str_eq, inl, inr, Bool-cases,
}
use aws_multi_eni_controller.Prelude.State.{Result, ok, err}
use aws_multi_eni_controller.Types.{NodeEni, EniAttachment}
use aws_multi_eni_controller.Cluster.{Cluster, Config, NetworkInterface, InterfaceState}
use aws_multi_eni_controller.Wait.{Verdict, done, again, fail, Exit, Attempted, run_inv}
use aws_multi_eni_controller.Controller.Cleanup.{
  cleanup_steps, still_attached, verify_dpdk_unbind, after_unbind, unbind_captured,
  unbind_interface_from_dpdk, handle_dpdk_unbinding, check_eni_exists, detach_eni_with_retry,
  wait_for_eni_detachment_with_retry, delete_now, delete_after_pause, delete_described,
  delete_eni_if_exists, detach_and_delete, cleanup_eni_attachment,
}
use aws_multi_eni_controller.Controller.Cleanup.Laws.{IsStable}

module _ (c : Cluster) (config : Config) (P : c.World → Type 0) (stable : IsStable c P) where
  after_unbind-stable :
      (a : EniAttachment) (s : InterfaceState) (e : Option String) (w : c.World)
      → P w
      → P (after_unbind c config a s e w).1
  unfolding after_unbind verify_dpdk_unbind
  after_unbind-stable a s none w h = stable.by_capture a w h
  after_unbind-stable a s (some e) w h = stable.by_rollback a s w h

  unbind_captured-stable :
      (a : EniAttachment) (r : Result InterfaceState) (w : c.World)
      → P w
      → P (unbind_captured c config a r w).1
  unfolding unbind_captured
  unbind_captured-stable a (err e) w h = h
  unbind_captured-stable a (ok s) w h = elim (Bool-cases s.is_bound_to_dpdk) [
    | inl b ↦ simp b (
        after_unbind-stable a s (c.atomic_dpdk_unbind a s w).0 (c.atomic_dpdk_unbind a s w).1
          (stable.by_unbind a s w h))
    | inr b ↦ simp b h
  ]

  handle_dpdk_unbinding-stable :
      (n : NodeEni) (a : EniAttachment) (w : c.World)
      → P w
      → P (handle_dpdk_unbinding c config n a w).1
  unfolding handle_dpdk_unbinding unbind_interface_from_dpdk
  handle_dpdk_unbinding-stable n a w h = elim (Bool-cases (n.spec.enable_dpdk && a.dpdk_bound)) [
    | inl b ↦
        rw (b, handle_dpdk_unbinding)
          (unbind_captured-stable a (c.capture_interface_state a w).0
            (c.capture_interface_state a w).1 (stable.by_capture a w h))
    | inr b ↦ rw (b, handle_dpdk_unbinding) h
  ]

  Attempted-stable :
      (v : Verdict String) (w : c.World) → P w → Attempted P (λ (e : Exit String) s. P s) (v, w)
  Attempted-stable done w h = h
  Attempted-stable again w h = h
  Attempted-stable (fail e) w h = h

  detach_eni_with_retry-stable :
      (a : EniAttachment) (w : c.World) → P w → P (detach_eni_with_retry c config a w).1
  unfolding detach_eni_with_retry
  detach_eni_with_retry-stable a w h = elim (Bool-cases (str_eq a.attachment_id "")) [
    | inl b ↦ rw (b, detach_eni_with_retry) h
    | inr b ↦
        rw (b, detach_eni_with_retry)
          (run_inv c.backoff P (λ e s. P s) _
            (λ s k. Attempted-stable _ _ (stable.by_detach a.attachment_id true s k)) (λ s k. k)
            cleanup_steps w h)
  ]

  wait_for_eni_detachment_with_retry-stable :
      (a : EniAttachment) (w : c.World)
      → P w
      → P (wait_for_eni_detachment_with_retry c config a w).1
  unfolding wait_for_eni_detachment_with_retry
  wait_for_eni_detachment_with_retry-stable a w h = elim (Bool-cases (str_eq a.eni_id "")) [
    | inl b ↦ rw (b, wait_for_eni_detachment_with_retry) h
    | inr b ↦
        rw (b, wait_for_eni_detachment_with_retry)
          (run_inv c.backoff P (λ e s. P s) _
            (λ s k. Attempted-stable _ _ (stable.by_wait a.eni_id config.detachment_timeout s k))
            (λ s k. k) cleanup_steps w h)
  ]

  delete_after_pause-stable :
      (a : EniAttachment) (r : Result (Option NetworkInterface)) (w : c.World)
      → P w
      → P (delete_after_pause c config a r w).1
  unfolding delete_after_pause delete_now
  delete_after_pause-stable a (err e) w h = h
  delete_after_pause-stable a (ok none) w h = h
  delete_after_pause-stable a (ok (some eni)) w h = stable.by_delete a.eni_id w h

  delete_described-stable :
      (a : EniAttachment) (r : Result (Option NetworkInterface)) (w : c.World)
      → P w
      → P (delete_described c config a r w).1
  unfolding delete_described delete_now
  delete_described-stable a (err e) w h = h
  delete_described-stable a (ok none) w h = h
  delete_described-stable a (ok (some eni)) w h = elim (Bool-cases (still_attached eni)) [
    | inl b ↦
        let v = c.sleep config.detachment_timeout w in
        let d = c.describe_eni a.eni_id v in
        rw (b, delete_described)
          (delete_after_pause-stable a d.0 d.1
            (stable.by_describe a.eni_id v (stable.by_sleep config.detachment_timeout w h)))
    | inr b ↦ rw (b, delete_described) (stable.by_delete a.eni_id w h)
  ]

  delete_eni_if_exists-stable :
      (a : EniAttachment) (w : c.World) → P w → P (delete_eni_if_exists c config a w).1
  unfolding delete_eni_if_exists
  delete_eni_if_exists-stable a w h =
      delete_described-stable a (c.describe_eni a.eni_id w).0 (c.describe_eni a.eni_id w).1
        (stable.by_describe a.eni_id w h)

  detach_and_delete-stable :
      (a : EniAttachment) (w : c.World) → P w → P (detach_and_delete c config a w).1
  unfolding detach_and_delete
  detach_and_delete-stable a w h =
      delete_eni_if_exists-stable a _
        (wait_for_eni_detachment_with_retry-stable a _ (detach_eni_with_retry-stable a w h))

  -- A fact that each call keeps is kept by the whole cleanup.
  pub cleanup_eni_attachment-stable :
      (n : NodeEni) (a : EniAttachment) (w : c.World)
      → P w
      → P (cleanup_eni_attachment c config n a w).1
  unfolding cleanup_eni_attachment check_eni_exists
  cleanup_eni_attachment-stable n a w h =
      elim (Bool-cases (check_eni_exists c config a (handle_dpdk_unbinding c config n a w).1).0) [
        | inl b ↦ rw (b, cleanup_eni_attachment) (detach_and_delete-stable a _ kept)
        | inr b ↦ rw (b, cleanup_eni_attachment) kept
      ]
    where
      kept : P (check_eni_exists c config a (handle_dpdk_unbinding c config n a w).1).1
      kept = stable.by_describe a.eni_id _ (handle_dpdk_unbinding-stable n a w h)
