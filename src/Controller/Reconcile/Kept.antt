-- ===== src/Controller/Reconcile/Kept.antt =====
-- What becomes of the attachments of a NodeENI that is processed.
use aws_multi_eni_controller.Prelude.{
  ℕ, zero, suc, String, Bool, true, false, ◌≡◌, refl, sym, ◌∙◌, subst, List, [], ◌∷◌, ◌++◌, ◌⊎◌,
  inl, inr, contains_string, str_eq, Bool-cases,
}
use aws_multi_eni_controller.Prelude.Int.{ℤ}
use aws_multi_eni_controller.Prelude.Maps.{Dict}
use aws_multi_eni_controller.Prelude.State.{Result, ok, err}
use aws_multi_eni_controller.Types.{NodeEni, EniAttachment}
use aws_multi_eni_controller.Util.{get_instance_id_from_provider_id}
use aws_multi_eni_controller.Cluster.{Cluster, Config, Node}
use aws_multi_eni_controller.Controller.Calls.{IsKept}
use aws_multi_eni_controller.Controller.Cleanup.Laws.{EniLaws}
use aws_multi_eni_controller.Controller.Coordination.{CoordinationManager}
use aws_multi_eni_controller.Controller.Coordinated.{Surroundings}
use aws_multi_eni_controller.Controller.Parallel.Outcome.{In}
use aws_multi_eni_controller.Controller.Updates.Results.{Stores}
use aws_multi_eni_controller.Controller.Updates.Memory.{status-attachments, status-keeps}
use aws_multi_eni_controller.Controller.Subnets.{get_all_subnet_ids}
use aws_multi_eni_controller.Controller.Creation.{get_aws_used_device_indices}
use aws_multi_eni_controller.Controller.Creation.Accounted.{create_and_attach-extends}
use aws_multi_eni_controller.Controller.Verify.{attachment_seen, verify_eni_attachments}
use aws_multi_eni_controller.Controller.Verify.Dropped.{
  Same, HasSame, IsReleased, SaysReleased, verify_eni_attachments-kept,
}
use aws_multi_eni_controller.Controller.Stale.{remove_stale_attachments}
use aws_multi_eni_controller.Controller.Stale.Safety.{remove_stale_attachments-safe}
use aws_multi_eni_controller.Controller.Reconcile.{
  create_missing_eni, create_missing_enis, create_in_subnets, process_instance, process_node,
  process_nodes, finish_processing, process_listed, process_node_eni,
}

HasSame-left :
    (a : EniAttachment) (xs ys : List EniAttachment) → HasSame a xs → HasSame a (xs ++ ys)
HasSame-left a [] ys h = absurd h
HasSame-left a (x ∷ xs) ys (inl e) = inl e
HasSame-left a (x ∷ xs) ys (inr h) = inr (HasSame-left a xs ys h)

In-HasSame : (a b : EniAttachment) (xs : List EniAttachment) → Same a b → In b xs → HasSame a xs
In-HasSame a b [] s h = absurd h
In-HasSame a b (x ∷ xs) s (inl e) = inl (subst (Same a) e s)
In-HasSame a b (x ∷ xs) s (inr h) = inr (In-HasSame a b xs s h)

HasSame-In :
    (a : EniAttachment) (xs : List EniAttachment)
    → HasSame a xs
    → (b : EniAttachment) × (Same a b × In b xs)
HasSame-In a [] h = absurd h
HasSame-In a (x ∷ xs) (inl s) = (x, (s, inl refl))
HasSame-In a (x ∷ xs) (inr h) = let r = HasSame-In a xs h in (r.0, (r.1.0, inr r.1.1))

Same-trans : (a b d : EniAttachment) → Same a b → Same b d → Same a d
Same-trans a b d s t = (t.0 ∙ s.0, t.1 ∙ s.1, t.2 ∙ s.2)

HasSame-trans :
    (a b : EniAttachment) (xs : List EniAttachment) → Same a b → HasSame b xs → HasSame a xs
HasSame-trans a b [] s h = absurd h
HasSame-trans a b (x ∷ xs) s (inl t) = inl (Same-trans a b x s t)
HasSame-trans a b (x ∷ xs) s (inr h) = inr (HasSame-trans a b xs s h)

module _ (c : Cluster) (config : Config) (env : Surroundings c) (stores : Stores c) where
  IsReleased-Same : (a b : EniAttachment) → Same a b → IsReleased c b → IsReleased c a
  IsReleased-Same a b s (v, inl q) =
      (v, inl (subst (λ x. attachment_seen (c.detach_eni x false v).0 ≡ false) s.1 q))
  IsReleased-Same a b s (v, inr q) = (
    v,
    inr (
        subst (λ x. SaysReleased x (c.describe_eni a.eni_id v).0) s.2
          (subst (λ x. SaysReleased b.instance_id (c.describe_eni x v).0) s.0 q)),
  )

  -- The status has it, or EC2 said that it is not there.
  abbrev Kept : EniAttachment → NodeEni × c.World → Type 0
  Kept a m = HasSame a m.0.attachments ⊎ IsReleased c a

  create_missing_eni-Kept :
      (a : EniAttachment) (node : Node) (id : String) (existing : List String) (used : List ℤ)
      (i : ℕ) (mapping : Dict ℤ) (subnet : String) (m : NodeEni × c.World)
      → Kept a m
      → Kept a (create_missing_eni c config env node id existing used i mapping subnet m).1.1
  unfolding create_missing_eni
  create_missing_eni-Kept a node id existing used i mapping subnet m (inr h) = inr h
  create_missing_eni-Kept a node id existing used i mapping subnet m (inl h) =
      elim (Bool-cases (contains_string existing subnet)) [
        | inl t ↦ inl (rw (t, create_missing_eni) h)
        | inr f ↦
            let e = create_and_attach-extends c config stores m.0 node id subnet _ m.1 in
            inl (
              rw (f, create_missing_eni)
                (subst (HasSame a) (sym e.1) (HasSame-left a m.0.attachments e.0 h)))
      ]

  create_missing_enis-Kept :
      (a : EniAttachment) (node : Node) (id : String) (existing : List String) (used : List ℤ)
      (i : ℕ) (mapping : Dict ℤ) (subnets : List String) (m : NodeEni × c.World)
      → Kept a m
      → Kept a (create_missing_enis c config env node id existing used i mapping subnets m).1
  unfolding create_missing_enis
  create_missing_enis-Kept a node id existing used i mapping [] m h = h
  create_missing_enis-Kept a node id existing used i mapping (subnet ∷ rest) m h =
      let r = create_missing_eni c config env node id existing used i mapping subnet m in
      let k = create_missing_eni-Kept a node id existing used i mapping subnet m h in
      elim (Bool-cases r.0) [
        | inl t ↦ rw (t, create_missing_enis) k
        | inr f ↦
            rw (f, create_missing_enis)
              (create_missing_enis-Kept a node id existing used (suc i) r.1.0 rest r.1.1 k)
      ]

  create_in_subnets-Kept :
      (a : EniAttachment) (node : Node) (id : String) (r : Result (List String))
      (m : NodeEni × c.World)
      → Kept a m
      → Kept a (create_in_subnets c config env node id r m).1
  unfolding create_in_subnets
  create_in_subnets-Kept a node id (err e) m h = h
  create_in_subnets-Kept a node id (ok subnets) m h =
      create_missing_enis-Kept a node id _ _ zero _ subnets
        (m.0, (get_aws_used_device_indices c config id m.1).1) h

  verified-Kept :
      (a : EniAttachment) (node_name : String) (m : NodeEni × c.World)
      → Kept a m
      → Kept a (verify_eni_attachments c m.0 node_name m.1)
  verified-Kept a node_name m (inr h) = inr h
  verified-Kept a node_name m (inl h) =
      let b = HasSame-In a m.0.attachments h in
      elim (verify_eni_attachments-kept c stores m.0 node_name m.1 b.0 b.1.1) [
        | inl k ↦ inl (HasSame-trans a b.0 _ b.1.0 k)
        | inr k ↦ inr (IsReleased-Same a b.0 b.1.0 k)
      ]

  process_instance-Kept :
      (a : EniAttachment) (node : Node) (id : String) (m : NodeEni × c.World)
      → Kept a m
      → Kept a (process_instance c config env node id m).1
  unfolding process_instance
  process_instance-Kept a node id m h =
      let v = verify_eni_attachments c m.0 node.name m.1 in
      let s = get_all_subnet_ids c v.0.spec v.1 in
      create_in_subnets-Kept a node id s.0 (v.0, s.1) (verified-Kept a node.name m h)

  process_node-Kept :
      (a : EniAttachment) (node : Node) (current : List String) (m : NodeEni × c.World)
      → Kept a m
      → Kept a (process_node c config env node current m).1.1
  unfolding process_node
  process_node-Kept a node current m h =
      let id = get_instance_id_from_provider_id node.provider_id in
      elim (Bool-cases (str_eq node.provider_id "")) [
        | inl t ↦ rw (t, process_node) h
        | inr f ↦ elim (Bool-cases (str_eq id "")) [
          | inl t ↦ rw (f, t, process_node) h
          | inr g ↦ rw (f, g, process_node) (process_instance-Kept a node id m h)
        ]
      ]

  process_nodes-Kept :
      (a : EniAttachment) (nodes : List Node) (current : List String) (m : NodeEni × c.World)
      → Kept a m
      → Kept a (process_nodes c config env nodes current m).1.1
  unfolding process_nodes
  process_nodes-Kept a [] current m h = h
  process_nodes-Kept a (node ∷ rest) current m h =
      let r = process_node c config env node current m in
      let k = process_node-Kept a node current m h in
      elim (Bool-cases r.1.0) [
        | inl t ↦ rw (t, process_nodes) k
        | inr f ↦ rw (f, process_nodes) (process_nodes-Kept a rest r.0 r.1.1 k)
      ]

  module _ (IsGone : String → c.World → Type 0) (laws : EniLaws c IsGone)
      (kept : (id : String) → IsKept c (IsGone id))
      (others_keep : (id : String) (s : CoordinationManager × c.World)
        → IsGone id s.1
        → IsGone id (env.others s).1)
      (running : (t : CoordinationManager × c.World) → env.is_cancelled t ≡ false) where
    stale-Kept :
        (a : EniAttachment) (n : NodeEni) (current : List String)
        (s : CoordinationManager × c.World)
        → HasSame a n.attachments
        → HasSame a (remove_stale_attachments c config env n current s).0
          ⊎ IsGone a.eni_id (remove_stale_attachments c config env n current s).1.1
    stale-Kept a n current s h =
        let b = HasSame-In a n.attachments h in
        elim (remove_stale_attachments-safe c config env IsGone laws others_keep running n current s
          b.0 b.1.1) [
            | inl k ↦ inl (In-HasSame a b.0 _ b.1.0 k)
            | inr g ↦ inr (
                subst (λ x. IsGone x (remove_stale_attachments c config env n current s).1.1)
                  b.1.0.0 g)
          ]

    -- Also allowed: the ENI is gone.
    abbrev KeptOrGone : EniAttachment → NodeEni × c.World → Type 0
    KeptOrGone a m = HasSame a m.0.attachments ⊎ (IsReleased c a ⊎ IsGone a.eni_id m.1)

    of_Kept : (a : EniAttachment) (m : NodeEni × c.World) → Kept a m → KeptOrGone a m
    of_Kept a m (inl h) = inl h
    of_Kept a m (inr h) = inr (inl h)

    finish_processing-KeptOrGone :
        (a : EniAttachment) (cm : CoordinationManager)
        (r : List String × (Bool × (NodeEni × c.World)))
        → Kept a r.1.1
        → KeptOrGone a (finish_processing c config env cm r).1.1
    unfolding finish_processing
    finish_processing-KeptOrGone a cm (current, (true, m)) h = of_Kept a m h
    finish_processing-KeptOrGone a cm (current, (false, (n, w))) (inr h) = inr (inl h)
    finish_processing-KeptOrGone a cm (current, (false, (n, w))) (inl h) =
        let k = remove_stale_attachments c config env n current (cm, w) in
        let sent = record n { attachments = k.0 } in
        elim (stale-Kept a n current (cm, w) h) [
          | inl g ↦ inl (subst (HasSame a) (sym (status-attachments c stores sent k.1.1)) g)
          | inr g ↦ inr (
              inr (
                status-keeps c (IsGone a.eni_id) (kept a.eni_id).by_get (kept a.eni_id).by_status
                  sent k.1.1 g))
        ]

    process_listed-KeptOrGone :
        (a : EniAttachment) (cm : CoordinationManager) (n : NodeEni)
        (r : Result (List Node) × c.World)
        → In a n.attachments
        → KeptOrGone a (process_listed c config env cm n r).1.1
    unfolding process_listed
    process_listed-KeptOrGone a cm n (err e, w) h =
        inl (In-HasSame a a n.attachments (refl, refl, refl) h)
    process_listed-KeptOrGone a cm n (ok nodes, w) h =
        finish_processing-KeptOrGone a cm (process_nodes c config env nodes [] (n, w)) (
          process_nodes-Kept a nodes [] (n, w)
            (inl (In-HasSame a a n.attachments (refl, refl, refl) h)))

    -- processNodeENI loses no attachment: afterwards the object in memory still has its ENI, attachment
    -- and instance, or at some moment EC2 said that it is not there, or its ENI is gone from EC2. So it
    -- is whatever the nodes and subnets are, whichever calls fail, and when a node panics. (The context is
    -- not done, an ENI that is gone does not come back, and the API stores the attachments of a status
    -- that it accepts.)
    pub process_node_eni-kept :
        (n : NodeEni) (s : CoordinationManager × c.World) (a : EniAttachment)
        → In a n.attachments
        → HasSame a (process_node_eni c config env n s).1.1.0.attachments
          ⊎ (IsReleased c a ⊎ IsGone a.eni_id (process_node_eni c config env n s).1.1.1)
    unfolding process_node_eni
    process_node_eni-kept n (cm, w) a h =
        process_listed-KeptOrGone a cm n (c.list_nodes n.spec.node_selector w) h
