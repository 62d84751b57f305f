-- ===== src/Controller/Verify/Effects.antt =====
-- What the verification of a node keeps.
use aws_multi_eni_controller.Prelude.{
  String, Bool, true, false, List, [], ◌∷◌, Option, none, some, inl, inr, str_eq, ◌&&◌, not,
  str_contains, Bool-cases,
}
use aws_multi_eni_controller.Prelude.Int.{pos, leb_ℤ}
use aws_multi_eni_controller.Prelude.State.{Result, ok, err}
use aws_multi_eni_controller.Types.{NodeEni, EniAttachment}
use aws_multi_eni_controller.Cluster.{Cluster, NetworkInterface, eni_not_found}
use aws_multi_eni_controller.Controller.Calls.{IsKept}
use aws_multi_eni_controller.Controller.Updates.Memory.{status-keeps}
use aws_multi_eni_controller.Controller.Verify.{
  is_detached, is_attachment_valid, handle_eni_describe_error, described, is_eni_properly_attached,
  update_cidr, update_mtu, update_index, update_attachment_info, when_attached, when_valid,
  verify_and_update_attachment, verify_each, update_node_eni_status, verify_eni_attachments,
}

module _ (c : Cluster) (P : c.World → Type 0) (kept : IsKept c P) where
  is_attachment_valid-keeps :
      (a : EniAttachment) (w : c.World) → P w → P (is_attachment_valid c a w).1
  unfolding is_attachment_valid
  is_attachment_valid-keeps a w h = elim (Bool-cases (str_eq a.attachment_id "")) [
    | inl t ↦ rw (t, is_attachment_valid) h
    | inr f ↦ rw (f, is_attachment_valid) (kept.in_cleanup.by_detach a.attachment_id false w h)
  ]

  described-keeps :
      (a : EniAttachment) (r : Result (Option NetworkInterface)) (w : c.World)
      → P w
      → P (described c a r w).1
  unfolding described handle_eni_describe_error
  described-keeps a (err e) w h = elim (Bool-cases (str_contains e eni_not_found)) [
    | inl t ↦ rw (t, described) h
    | inr f ↦ rw (f, described) (is_attachment_valid-keeps a w h)
  ]
  described-keeps a (ok none) w h = h
  described-keeps a (ok (some eni)) w h = elim (Bool-cases (is_detached eni)) [
    | inl t ↦ rw (t, described) (kept.in_cleanup.by_delete a.eni_id w h)
    | inr f ↦ rw (f, described) h
  ]

  is_eni_properly_attached-keeps :
      (a : EniAttachment) (w : c.World) → P w → P (is_eni_properly_attached c a w).1
  unfolding is_eni_properly_attached
  is_eni_properly_attached-keeps a w h =
      let d = c.describe_eni a.eni_id w in
      described-keeps a d.0 d.1 (kept.in_cleanup.by_describe a.eni_id w h)

  update_cidr-keeps : (a : EniAttachment) (w : c.World) → P w → P (update_cidr c a w).1
  unfolding update_cidr
  update_cidr-keeps a w h =
      elim (Bool-cases (str_eq a.subnet_cidr "" && not (str_eq a.subnet_id ""))) [
        | inl t ↦ rw (t, update_cidr) (kept.by_cidr a.subnet_id w h)
        | inr f ↦ rw (f, update_cidr) h
      ]

  update_index-keeps : (a : EniAttachment) (w : c.World) → P w → P (update_index c a w).1
  unfolding update_index
  update_index-keeps a w h = elim (Bool-cases (leb_ℤ a.device_index (pos 0))) [
    | inl t ↦ rw (t, update_index) (kept.in_cleanup.by_describe a.eni_id w h)
    | inr f ↦ rw (f, update_index) h
  ]

  when_attached-keeps :
      (n : NodeEni) (a : EniAttachment) (b : Bool) (w : c.World)
      → P w
      → P (when_attached c n a b w).1
  unfolding when_attached update_attachment_info
  when_attached-keeps n a false w h = h
  when_attached-keeps n a true w h =
      let r = update_cidr c a w in
      update_index-keeps (update_mtu c n r.0) r.1 (update_cidr-keeps a w h)

  when_valid-keeps :
      (n : NodeEni) (a : EniAttachment) (b : Bool) (w : c.World) → P w → P (when_valid c n a b w).1
  unfolding when_valid
  when_valid-keeps n a false w h = h
  when_valid-keeps n a true w h =
      let r = is_eni_properly_attached c a w in
      when_attached-keeps n a r.0 r.1 (is_eni_properly_attached-keeps a w h)

  verify_and_update_attachment-keeps :
      (n : NodeEni) (a : EniAttachment) (w : c.World)
      → P w
      → P (verify_and_update_attachment c n a w).1
  unfolding verify_and_update_attachment
  verify_and_update_attachment-keeps n a w h =
      let r = is_attachment_valid c a w in
      when_valid-keeps n a r.0 r.1 (is_attachment_valid-keeps a w h)

  verify_each-keeps :
      (n : NodeEni) (node_name : String) (attachments : List EniAttachment) (w : c.World)
      → P w
      → P (verify_each c n node_name attachments w).1
  unfolding verify_each
  verify_each-keeps n node_name [] w h = h
  verify_each-keeps n node_name (a ∷ rest) w h = elim (Bool-cases (str_eq a.node_id node_name)) [
    | inl t ↦
        rw (t, verify_each)
          (verify_each-keeps n node_name rest (verify_and_update_attachment c n a w).1
            (verify_and_update_attachment-keeps n a w h))
    | inr f ↦ rw (f, verify_each) (verify_each-keeps n node_name rest w h)
  ]

  pub verify_eni_attachments-keeps :
      (n : NodeEni) (node_name : String) (w : c.World)
      → P w
      → P (verify_eni_attachments c n node_name w).1
  unfolding verify_eni_attachments update_node_eni_status
  verify_eni_attachments-keeps n node_name w h =
      status-keeps c P kept.by_get kept.by_status _ _
        (verify_each-keeps n node_name n.attachments w h)
