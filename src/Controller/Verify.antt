-- ===== src/Controller/Verify.antt =====
-- The check of the attachments of one node against EC2: verifyENIAttachments of
-- pkg/controller/nodeeni_controller.go and what it calls.
pub mod Others
pub mod Dropped
pub mod Effects
use aws_multi_eni_controller.Prelude.{
  String, Bool, true, false, ◌&&◌, ◌||◌, not, List, [], ◌∷◌, Option, none, some, if◌then◌else◌,
  str_eq, is_some, str_contains,
}
use aws_multi_eni_controller.Prelude.Int.{ℤ, pos, leb_ℤ, ltb_ℤ}
use aws_multi_eni_controller.Prelude.State.{Call, pure, ◌>>=◌, Result, ok, err}
use aws_multi_eni_controller.Types.{NodeEni, EniAttachment}
use aws_multi_eni_controller.Cluster.{
  Cluster, NetworkInterface, EniAttachmentState, attachment_not_found, eni_not_found,
}
use aws_multi_eni_controller.Controller.Updates.{update_node_eni_status_with_retry}

-- An answer of `DetachENI` without force: only an error other than "not found" speaks for the
-- attachment.
abbrev pub attachment_seen : Option String → Bool
attachment_seen none = false
attachment_seen (some e) = not (str_contains e attachment_not_found)

-- `eni.Attachment == nil || eni.Status == available`
abbrev pub is_detached : NetworkInterface → Bool
is_detached eni = not (is_some eni.attachment) || str_eq eni.status "available"

-- The instance that the ENI is attached to is the expected one, or none.
abbrev pub on_instance : String → Option EniAttachmentState → Bool
on_instance instance_id none = true
on_instance instance_id (some s) = str_eq s.instance_id instance_id

abbrev pub cidr_of : String → Result String → String
cidr_of old (err e) = old
cidr_of old (ok cidr) = cidr

-- The device index of the description, if it shows an attachment.
abbrev pub index_of : ℤ → Result (Option NetworkInterface) → ℤ
index_of old (err e) = old
index_of old (ok none) = old
index_of old (ok (some eni)) = elim eni.attachment [ none ↦ old | some s ↦ s.device_index ]

abbrev pub kept_in : Option EniAttachment → List EniAttachment → List EniAttachment
kept_in none rest = rest
kept_in (some a) rest = a ∷ rest

module _ (c : Cluster) where
  open c use {World, describe_eni, detach_eni, delete_eni, get_subnet_cidr_by_id, now}

  unfoldable pub is_attachment_valid : EniAttachment → Call World Bool
  is_attachment_valid a =
      if str_eq a.attachment_id ""
      then pure true
      else (do r ← detach_eni a.attachment_id false; pure (attachment_seen r))

  unfoldable pub handle_eni_describe_error : EniAttachment → String → Call World Bool
  handle_eni_describe_error a e =
      if str_contains e eni_not_found then pure false else is_attachment_valid a

  -- An ENI that was detached by hand is deleted; an error of that is only reported.
  described : EniAttachment → Result (Option NetworkInterface) → Call World Bool
  described a (err e) = handle_eni_describe_error a e
  described a (ok none) = pure false
  described a (ok (some eni)) =
      if is_detached eni
      then (do _e ← delete_eni a.eni_id; pure false)
      else pure (on_instance a.instance_id eni.attachment)

  unfoldable pub is_eni_properly_attached : EniAttachment → Call World Bool
  unfolding described
  is_eni_properly_attached a = describe_eni a.eni_id >>= described a

  update_cidr : EniAttachment → World → EniAttachment × World
  update_cidr a w =
      if str_eq a.subnet_cidr "" && not (str_eq a.subnet_id "")
      then (let r = get_subnet_cidr_by_id a.subnet_id w in
          (record a { subnet_cidr = cidr_of a.subnet_cidr r.0 }, r.1))
      else (a, w)

  update_mtu : NodeEni → EniAttachment → EniAttachment
  update_mtu n a =
      if leb_ℤ a.mtu (pos 0) && ltb_ℤ (pos 0) n.spec.mtu then record a { mtu = n.spec.mtu } else a

  update_index : EniAttachment → World → EniAttachment × World
  update_index a w =
      if leb_ℤ a.device_index (pos 0)
      then (let r = describe_eni a.eni_id w in
          (record a { device_index = index_of a.device_index r.0 }, r.1))
      else (a, w)

  unfoldable pub update_attachment_info : NodeEni → EniAttachment → World → EniAttachment × World
  unfolding update_cidr update_mtu update_index
  update_attachment_info n a w =
      let r = update_cidr a w in
      let t = update_index (update_mtu n r.0) r.1 in (record (t.0) { last_updated = now t.1 }, t.1)

  when_attached : NodeEni → EniAttachment → Bool → World → Option EniAttachment × World
  when_attached n a false w = (none, w)
  when_attached n a true w = let r = update_attachment_info n a w in (some r.0, r.1)

  when_valid : NodeEni → EniAttachment → Bool → World → Option EniAttachment × World
  when_valid n a false w = (none, w)
  when_valid n a true w = let r = is_eni_properly_attached a w in when_attached n a r.0 r.1

  -- The updated attachment, or `none` if it leaves the status.
  unfoldable pub verify_and_update_attachment :
      NodeEni → EniAttachment → World → Option EniAttachment × World
  unfolding when_valid when_attached
  verify_and_update_attachment n a w = let r = is_attachment_valid a w in when_valid n a r.0 r.1

  -- The loop: attachments of other nodes stay as they are.
  unfoldable pub verify_each :
      NodeEni → String → List EniAttachment → World → List EniAttachment × World
  verify_each n node_name [] w = ([], w)
  verify_each n node_name (a ∷ rest) w =
      let r =
        if str_eq a.node_id node_name then verify_and_update_attachment n a w else (some a, w) in
      let others = verify_each n node_name rest r.1 in (kept_in r.0 others.0, others.1)

  -- The object in memory after the status was written; an error of the write is only reported.
  unfoldable pub update_node_eni_status : NodeEni → List EniAttachment → World → NodeEni × World
  update_node_eni_status n attachments w =
      (update_node_eni_status_with_retry c (record n { attachments = attachments }) w).1

  unfoldable pub verify_eni_attachments : NodeEni → String → World → NodeEni × World
  verify_eni_attachments n node_name w =
      let r = verify_each n node_name n.attachments w in update_node_eni_status n r.0 r.1
