-- ===== src/Controller/Verify/Dropped.antt =====
-- Why an attachment leaves the status in the verification of its node.
use aws_multi_eni_controller.Prelude.{
  String, Bool, true, false, ◌≡◌, refl, sym, ◌∙◌, subst, List, [], ◌∷◌, Option, none, some, ◌⊎◌,
  inl, inr, str_eq, str_contains, false≢true, Bool-cases, arith,
}
use aws_multi_eni_controller.Prelude.State.{Result, ok, err}
use aws_multi_eni_controller.Types.{NodeEni, EniAttachment}
use aws_multi_eni_controller.Cluster.{Cluster, NetworkInterface, eni_not_found}
use aws_multi_eni_controller.Controller.Parallel.Outcome.{In}
use aws_multi_eni_controller.Controller.Updates.Results.{Stores}
use aws_multi_eni_controller.Controller.Updates.Memory.{status-attachments}
use aws_multi_eni_controller.Controller.Verify.{
  attachment_seen, is_detached, on_instance, kept_in, is_attachment_valid,
  handle_eni_describe_error, described, is_eni_properly_attached, update_cidr, update_mtu,
  update_index, update_attachment_info, when_attached, when_valid, verify_and_update_attachment,
  verify_each, update_node_eni_status, verify_eni_attachments,
}

-- An answer of `DescribeENI` that says that the ENI is not attached to the instance.
abbrev pub SaysReleased : String → Result (Option NetworkInterface) → Type 0
SaysReleased instance_id (err e) = str_contains e eni_not_found ≡ true
SaysReleased instance_id (ok none) = Unit
SaysReleased instance_id (ok (some eni)) =
    (is_detached eni ≡ true) ⊎ (on_instance instance_id eni.attachment ≡ false)

-- The second attachment has the first one's ENI, attachment and instance.
abbrev pub Same : EniAttachment → EniAttachment → Type 0
Same a b =
    (b.eni_id ≡ a.eni_id) × (b.attachment_id ≡ a.attachment_id) × (b.instance_id ≡ a.instance_id)

abbrev pub HasSame : EniAttachment → List EniAttachment → Type 0
HasSame a [] = ⊥
HasSame a (b ∷ rest) = Same a b ⊎ HasSame a rest

HasSame-kept_in :
    (r : Option EniAttachment) (a : EniAttachment) (rest : List EniAttachment)
    → HasSame a rest
    → HasSame a (kept_in r rest)
HasSame-kept_in none a rest h = h
HasSame-kept_in (some b) a rest h = inr h

module _ (c : Cluster) where
  -- At some moment EC2 answered that the attachment is not there.
  abbrev pub IsReleased : EniAttachment → Type 0
  IsReleased a =
      (v : c.World) × ((attachment_seen (c.detach_eni a.attachment_id false v).0 ≡ false)
        ⊎ SaysReleased a.instance_id (c.describe_eni a.eni_id v).0)

  -- Kept, or released.
  abbrev KeptOr : EniAttachment → Option EniAttachment → Type 0
  KeptOr a none = IsReleased a
  KeptOr a (some b) = Same a b

  is_attachment_valid-IsReleased :
      (a : EniAttachment) (w : c.World) → (is_attachment_valid c a w).0 ≡ false → IsReleased a
  unfolding is_attachment_valid
  is_attachment_valid-IsReleased a w h = elim (Bool-cases (str_eq a.attachment_id "")) [
    | inl t ↦ absurd (false≢true (sym h ∙ rw (t, is_attachment_valid) refl))
    | inr f ↦ (w, inl (rw (f, is_attachment_valid) at h))
  ]

  described-IsReleased :
      (a : EniAttachment) (v : c.World) (r : Result (Option NetworkInterface)) (w : c.World)
      → (c.describe_eni a.eni_id v).0 ≡ r
      → (described c a r w).0 ≡ false
      → IsReleased a
  unfolding described handle_eni_describe_error
  described-IsReleased a v (err e) w q h = elim (Bool-cases (str_contains e eni_not_found)) [
    | inl t ↦ (v, inr (rw (q) t))
    | inr f ↦ is_attachment_valid-IsReleased a w (rw (f, described) at h)
  ]
  described-IsReleased a v (ok none) w q h = (v, inr (rw (q) tt))
  described-IsReleased a v (ok (some eni)) w q h = elim (Bool-cases (is_detached eni)) [
    | inl t ↦ (v, inr (rw (q) (inl t)))
    | inr f ↦ (v, inr (rw (q) (inr (rw (f, described) at h))))
  ]

  update_attachment_info-Same :
      (n : NodeEni) (a : EniAttachment) (w : c.World) → Same a (update_attachment_info c n a w).0
  unfolding update_attachment_info update_cidr update_mtu update_index
  update_attachment_info-Same n a w = (ground arith, ground arith, ground arith)

  when_attached-KeptOr :
      (n : NodeEni) (a : EniAttachment) (b : Bool) (w : c.World)
      → (b ≡ false → IsReleased a)
      → KeptOr a (when_attached c n a b w).0
  unfolding when_attached
  when_attached-KeptOr n a false w h = h refl
  when_attached-KeptOr n a true w h = update_attachment_info-Same n a w

  when_valid-KeptOr :
      (n : NodeEni) (a : EniAttachment) (b : Bool) (w : c.World)
      → (b ≡ false → IsReleased a)
      → KeptOr a (when_valid c n a b w).0
  unfolding when_valid is_eni_properly_attached
  when_valid-KeptOr n a false w h = h refl
  when_valid-KeptOr n a true w h =
      let d = c.describe_eni a.eni_id w in
      let r = is_eni_properly_attached c a w in
      when_attached-KeptOr n a r.0 r.1 (λ f. described-IsReleased a w d.0 d.1 refl f)

  verify_and_update_attachment-KeptOr :
      (n : NodeEni) (a : EniAttachment) (w : c.World)
      → KeptOr a (verify_and_update_attachment c n a w).0
  unfolding verify_and_update_attachment
  verify_and_update_attachment-KeptOr n a w =
      let r = is_attachment_valid c a w in
      when_valid-KeptOr n a r.0 r.1 (λ f. is_attachment_valid-IsReleased a w f)

  HasSame-KeptOr :
      (a : EniAttachment) (r : Option EniAttachment) (rest : List EniAttachment)
      → KeptOr a r
      → HasSame a (kept_in r rest) ⊎ IsReleased a
  HasSame-KeptOr a none rest h = inr h
  HasSame-KeptOr a (some b) rest h = inl (inl h)

  verify_each-kept :
      (n : NodeEni) (node_name : String) (attachments : List EniAttachment) (w : c.World)
      (a : EniAttachment)
      → In a attachments
      → HasSame a (verify_each c n node_name attachments w).0 ⊎ IsReleased a
  unfolding verify_each
  verify_each-kept n node_name [] w a h = absurd h
  verify_each-kept n node_name (b ∷ rest) w a (inl e) =
      subst (λ x. HasSame x (verify_each c n node_name (b ∷ rest) w).0 ⊎ IsReleased x) (sym e)
        (elim (Bool-cases (str_eq b.node_id node_name)) [
          | inl t ↦
              let r = verify_and_update_attachment c n b w in
              rw (t, verify_each)
                (HasSame-KeptOr b r.0 (verify_each c n node_name rest r.1).0
                  (verify_and_update_attachment-KeptOr n b w))
          | inr f ↦ rw (f, verify_each) (inl (inl (refl, refl, refl)))
        ])
  verify_each-kept n node_name (b ∷ rest) w a (inr h) =
      elim (Bool-cases (str_eq b.node_id node_name)) [
        | inl t ↦
            let r = verify_and_update_attachment c n b w in
            elim (verify_each-kept n node_name rest r.1 a h) [
              | inl k ↦ inl (
                  rw (t, verify_each)
                    (HasSame-kept_in r.0 a (verify_each c n node_name rest r.1).0 k))
              | inr k ↦ inr k
            ]
        | inr f ↦ elim (verify_each-kept n node_name rest w a h) [
          | inl k ↦ inl (rw (f, verify_each) (inr k))
          | inr k ↦ inr k
        ]
      ]

  -- The verification of a node drops an attachment only if EC2 says that it is not there: the status
  -- in memory still has its ENI, attachment and instance, or at some moment DetachENI answered that there is no such attachment,
  -- or DescribeENI that there is no such ENI, that it is detached, or that it is on another instance.
  -- (The API stores the attachments of a status that it accepts.)
  pub verify_eni_attachments-kept :
      (stores : Stores c) (n : NodeEni) (node_name : String) (w : c.World) (a : EniAttachment)
      → In a n.attachments
      → HasSame a (verify_eni_attachments c n node_name w).0.attachments ⊎ IsReleased a
  unfolding verify_eni_attachments update_node_eni_status
  verify_eni_attachments-kept stores n node_name w a h =
      let r = verify_each c n node_name n.attachments w in
      subst (λ xs. HasSame a xs ⊎ IsReleased a)
        (sym (status-attachments c stores (record n { attachments = r.0 }) r.1))
        (verify_each-kept n node_name n.attachments w a h)
