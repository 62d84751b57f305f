-- ===== src/Controller/Stale/Effects.antt =====
-- What the removal of stale attachments keeps.
use aws_multi_eni_controller.Prelude.{
  String, Bool, true, false, List, [], ◌∷◌, inl, inr, contains_string, Bool-cases,
}
use aws_multi_eni_controller.Types.{NodeEni, EniAttachment}
use aws_multi_eni_controller.Cluster.{Cluster, Config}
use aws_multi_eni_controller.Controller.Calls.{IsKept}
use aws_multi_eni_controller.Controller.Cleanup.{exists_of}
use aws_multi_eni_controller.Controller.Cleanup.Effects.{cleanup_eni_attachment-stable}
use aws_multi_eni_controller.Controller.Coordination.{CoordinationManager}
use aws_multi_eni_controller.Controller.Coordinated.{Surroundings, parallel_cleanup_enis}
use aws_multi_eni_controller.Controller.Coordinated.Guarantee.{parallel_cleanup_enis-keeps}
use aws_multi_eni_controller.Controller.Stale.{
  verify_instance_exists, check_state, check_mapping, verify_eni_attachment_state, check_eni,
  is_attachment_stale_in_aws, is_attachment_comprehensively_stale, is_stale, separate,
  verify_eni_instance_mapping, handle_described, handle_stale_attachment, check_each,
  after_parallel, clean_stale, remove_stale_attachments,
}

module _ (c : Cluster) (config : Config) (env : Surroundings c) (P : c.World → Type 0)
    (kept : IsKept c P)
    (others_keep : (s : CoordinationManager × c.World) → P s.1 → P (env.others s).1) where
  check_mapping-keeps :
      (a : EniAttachment) (b : Bool) (w : c.World) → P w → P (check_mapping c config env a b w).1
  unfolding check_mapping verify_eni_instance_mapping
  check_mapping-keeps a false w h = h
  check_mapping-keeps a true w h = kept.in_cleanup.by_describe a.eni_id w h

  check_state-keeps :
      (a : EniAttachment) (b : Bool) (w : c.World) → P w → P (check_state c config env a b w).1
  unfolding check_state verify_eni_attachment_state
  check_state-keeps a false w h = h
  check_state-keeps a true w h =
      let r = verify_eni_attachment_state c config env a w in
      check_mapping-keeps a r.0 r.1 (kept.in_cleanup.by_describe a.eni_id w h)

  check_eni-keeps :
      (a : EniAttachment) (b : Bool) (w : c.World) → P w → P (check_eni c config env a b w).1
  unfolding check_eni
  check_eni-keeps a false w h = h
  check_eni-keeps a true w h = kept.in_cleanup.by_describe a.eni_id w h

  is_stale-keeps :
      (current : List String) (a : EniAttachment) (w : c.World)
      → P w
      → P (is_stale c config env current a w).1
  unfolding is_stale is_attachment_stale_in_aws is_attachment_comprehensively_stale
      verify_instance_exists
  is_stale-keeps current a w h =
      let r = verify_instance_exists c config env a.instance_id w in
      let k = kept.by_instance a.instance_id w h in
      elim (Bool-cases (contains_string current a.node_id)) [
        | inl t ↦ rw (t, is_stale) (check_state-keeps a r.0 r.1 k)
        | inr f ↦ rw (f, is_stale) (check_eni-keeps a r.0 r.1 k)
      ]

  separate-keeps :
      (current : List String) (attachments : List EniAttachment) (w : c.World)
      → P w
      → P (separate c config env current attachments w).1
  unfolding separate
  separate-keeps current [] w h = h
  separate-keeps current (a ∷ rest) w h =
      separate-keeps current rest (is_stale c config env current a w).1
        (is_stale-keeps current a w h)

  handle_described-keeps :
      (n : NodeEni) (a : EniAttachment) (b : Bool) (w : c.World)
      → P w
      → P (handle_described c config env n a b w).1
  unfolding handle_described
  handle_described-keeps n a false w h = h
  handle_described-keeps n a true w h =
      cleanup_eni_attachment-stable c config P kept.in_cleanup n a w h

  check_each-keeps :
      (stale : List EniAttachment) (w : c.World) → P w → P (check_each c config env stale w).1
  unfolding check_each
  check_each-keeps [] w h = h
  check_each-keeps (a ∷ rest) w h =
      check_each-keeps rest (c.describe_eni a.eni_id w).1 (kept.in_cleanup.by_describe a.eni_id w h)

  after_parallel-keeps :
      (left stale : List EniAttachment) (success : Bool) (s : CoordinationManager × c.World)
      → P s.1
      → P (after_parallel c config env left stale success s).1.1
  unfolding after_parallel
  after_parallel-keeps left stale true s h = h
  after_parallel-keeps left stale false (cm, w) h = check_each-keeps stale w h

  clean_stale-keeps :
      (n : NodeEni) (left stale : List EniAttachment) (s : CoordinationManager × c.World)
      → P s.1
      → P (clean_stale c config env n left stale s).1.1
  unfolding clean_stale handle_stale_attachment
  clean_stale-keeps n left [] s h = h
  clean_stale-keeps n left (a ∷ []) (cm, w) h =
      let r = c.describe_eni a.eni_id w in
      handle_described-keeps n a (exists_of r.0) r.1 (kept.in_cleanup.by_describe a.eni_id w h)
  clean_stale-keeps n left (a ∷ b ∷ rest) s h =
      let r = parallel_cleanup_enis c config env n (a ∷ b ∷ rest) s in
      after_parallel-keeps left (a ∷ b ∷ rest) r.0 r.1 (
        parallel_cleanup_enis-keeps c config env P kept.in_cleanup others_keep n (a ∷ b ∷ rest) s h)

  pub remove_stale_attachments-keeps :
      (n : NodeEni) (current : List String) (s : CoordinationManager × c.World)
      → P s.1
      → P (remove_stale_attachments c config env n current s).1.1
  unfolding remove_stale_attachments
  remove_stale_attachments-keeps n current (cm, w) h =
      let r = separate c config env current n.attachments w in
      clean_stale-keeps n r.0.0 r.0.1 (cm, r.1) (separate-keeps current n.attachments w h)
