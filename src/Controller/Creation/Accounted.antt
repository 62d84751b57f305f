-- ===== src/Controller/Creation/Accounted.antt =====
-- Where an ENI that was created is to be found.
use aws_multi_eni_controller.Prelude.{
  String, ◌≡◌, refl, sym, subst, inl, inr, ◌⊎◌, List, [], ◌∷◌, ◌++◌, some, Option-cases,
}
use mathlib.Core.List.{append-nil}
use aws_multi_eni_controller.Prelude.Int.{ℤ}
use aws_multi_eni_controller.Prelude.State.{Result, ok, err}
use aws_multi_eni_controller.Types.{NodeEni, EniAttachment}
use aws_multi_eni_controller.Cluster.{Cluster, Config, Node}
use aws_multi_eni_controller.Controller.Cleanup.Laws.{EniLaws}
use aws_multi_eni_controller.Controller.Updates.Results.{Stores}
use aws_multi_eni_controller.Controller.Updates.Memory.{status-attachments}
use aws_multi_eni_controller.Controller.Creation.{
  Ended, value, error, panics, attach_eni, create_eni_in_subnet, record_attachment, after_attach,
  after_create, create_and_attach_eni_for_subnet,
}

-- Some attachment is of the ENI.
abbrev pub HasEni : String → List EniAttachment → Type 0
HasEni id [] = ⊥
HasEni id (a ∷ rest) = (a.eni_id ≡ id) ⊎ HasEni id rest

pub HasEni-left : (id : String) (xs ys : List EniAttachment) → HasEni id xs → HasEni id (xs ++ ys)
HasEni-left id [] ys h = absurd h
HasEni-left id (x ∷ xs) ys (inl e) = inl e
HasEni-left id (x ∷ xs) ys (inr h) = inr (HasEni-left id xs ys h)

pub HasEni-right : (id : String) (xs ys : List EniAttachment) → HasEni id ys → HasEni id (xs ++ ys)
HasEni-right id [] ys h = h
HasEni-right id (x ∷ xs) ys h = inr (HasEni-right id xs ys h)

value_injective : {A : Type 0} {a b : A} → value a ≡ value b → a ≡ b
value_injective h = cc

value_not_error : {A : Type 0} {a : A} {e : String} → error e ≡ value a → ⊥
value_not_error h = cc

value_not_panics : {A : Type 0} {a : A} → panics ≡ value a → ⊥
value_not_panics h = cc

module _ (c : Cluster) (config : Config) (stores : Stores c) where
  -- The attachments after a creation: those before, and at most a new one behind them.
  abbrev Extended : List EniAttachment → List EniAttachment → Type 0
  Extended before after = (new : List EniAttachment) × (after ≡ before ++ new)

  unchanged : (before : List EniAttachment) → Extended before before
  unchanged before = ([], sym (append-nil before))

  record_attachment-extends :
      (n : NodeEni) (node : Node) (id subnet eni : String) (r : String × ℤ) (w : c.World)
      → (a : EniAttachment) × (a.eni_id ≡ eni)
        × ((record_attachment c config n node id subnet eni r w).1.0.attachments
            ≡ n.attachments ++ a ∷ [])
  unfolding record_attachment
  record_attachment-extends n node id subnet eni r w = (_, refl, status-attachments c stores _ _)

  after_attach-extends :
      (n : NodeEni) (node : Node) (id subnet eni : String) (r : Result (String × ℤ)) (w : c.World)
      → Extended n.attachments (after_attach c config n node id subnet eni r w).1.0.attachments
  unfolding after_attach
  after_attach-extends n node id subnet eni (err e) w = unchanged n.attachments
  after_attach-extends n node id subnet eni (ok x) w =
      let r = record_attachment-extends n node id subnet eni x w in (r.0 ∷ [], r.2)

  after_create-extends :
      (n : NodeEni) (node : Node) (id subnet : String) (i : ℤ) (r : Ended String) (w : c.World)
      → Extended n.attachments (after_create c config n node id subnet i r w).1.0.attachments
  unfolding after_create
  after_create-extends n node id subnet i panics w = unchanged n.attachments
  after_create-extends n node id subnet i (error e) w = unchanged n.attachments
  after_create-extends n node id subnet i (value eni) w =
      let r = attach_eni c config eni id i w in after_attach-extends n node id subnet eni r.0 r.1

  -- A creation keeps every attachment of the object.
  pub create_and_attach-extends :
      (n : NodeEni) (node : Node) (id subnet : String) (i : ℤ) (w : c.World)
      → Extended n.attachments
          (create_and_attach_eni_for_subnet c config n node id subnet i w).1.0.attachments
  unfolding create_and_attach_eni_for_subnet
  create_and_attach-extends n node id subnet i w =
      let r = create_eni_in_subnet c config n node subnet w in
      after_create-extends n node id subnet i r.0 r.1

  module _ (IsGone : String → c.World → Type 0) (laws : EniLaws c IsGone) where
    -- The deletion of the ENI was tried, and failed.
    abbrev pub NotDeleted : String → Type 0
    NotDeleted id = (v : c.World) × (e : String) × ((c.delete_eni id v).0 ≡ some e)

    abbrev Accounted : String → NodeEni × c.World → Type 0
    Accounted id m = HasEni id m.0.attachments ⊎ (IsGone id m.1 ⊎ NotDeleted id)

    after_attach-Accounted :
        (n : NodeEni) (node : Node) (id subnet eni : String) (r : Result (String × ℤ)) (w : c.World)
        → Accounted eni (after_attach c config n node id subnet eni r w).1
    unfolding after_attach
    after_attach-Accounted n node id subnet eni (err e) w =
        inr (elim (Option-cases (c.delete_eni eni w).0) [
          | inl q ↦ inl (laws.deleted eni w q)
          | inr (x, q) ↦ inr (w, x, q)
        ])
    after_attach-Accounted n node id subnet eni (ok x) w =
        let r = record_attachment-extends n node id subnet eni x w in
        inl (subst (HasEni eni) (sym r.2) (HasEni-right eni n.attachments (r.0 ∷ []) (inl r.1)))

    after_create-Accounted :
        (n : NodeEni) (node : Node) (id subnet : String) (i : ℤ) (r : Ended String) (w : c.World)
        (eni : String)
        → r ≡ value eni
        → Accounted eni (after_create c config n node id subnet i r w).1
    unfolding after_create
    after_create-Accounted n node id subnet i panics w eni h = absurd (value_not_panics h)
    after_create-Accounted n node id subnet i (error e) w eni h = absurd (value_not_error h)
    after_create-Accounted n node id subnet i (value x) w eni h =
        let r = attach_eni c config x id i w in
        subst (λ y. Accounted y (after_create c config n node id subnet i (value x) w).1)
          (value_injective h) (after_attach-Accounted n node id subnet x r.0 r.1)

    -- No ENI that was created is lost sight of: after createAndAttachENIForSubnet the status in memory
    -- has it, or it is gone from EC2, or its deletion was tried and failed. (EC2 calls an ENI deleted
    -- only if it is gone, and the API stores the attachments of a status that it accepts.)
    pub create_and_attach-Accounted :
        (n : NodeEni) (node : Node) (id subnet : String) (i : ℤ) (w : c.World) (eni : String)
        → (create_eni_in_subnet c config n node subnet w).0 ≡ value eni
        → Accounted eni (create_and_attach_eni_for_subnet c config n node id subnet i w).1
    unfolding create_and_attach_eni_for_subnet
    create_and_attach-Accounted n node id subnet i w eni h =
        let r = create_eni_in_subnet c config n node subnet w in
        after_create-Accounted n node id subnet i r.0 r.1 eni h
