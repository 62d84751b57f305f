-- ===== src/Controller/Verify/Others.antt =====
-- The attachments of other nodes.
use aws_multi_eni_controller.Prelude.{
  String, false, ◌≡◌, sym, ap, ◌∙◌, subst, List, [], ◌∷◌, Option, none, some, inl, inr, str_eq,
  Bool-cases,
}
use aws_multi_eni_controller.Types.{NodeEni, EniAttachment}
use aws_multi_eni_controller.Cluster.{Cluster}
use aws_multi_eni_controller.Controller.Parallel.Outcome.{In}
use aws_multi_eni_controller.Controller.Updates.Results.{Stores}
use aws_multi_eni_controller.Controller.Updates.Memory.{status-attachments}
use aws_multi_eni_controller.Controller.Verify.{
  kept_in, verify_and_update_attachment, verify_each, update_node_eni_status,
  verify_eni_attachments,
}

In-kept_in :
    (r : Option EniAttachment) (a : EniAttachment) (rest : List EniAttachment)
    → In a rest
    → In a (kept_in r rest)
In-kept_in none a rest h = h
In-kept_in (some b) a rest h = inr h

module _ (c : Cluster) where
  verify_each-others :
      (n : NodeEni) (node_name : String) (attachments : List EniAttachment) (w : c.World)
      (a : EniAttachment)
      → str_eq a.node_id node_name ≡ false
      → In a attachments
      → In a (verify_each c n node_name attachments w).0
  unfolding verify_each
  verify_each-others n node_name [] w a f h = absurd h
  verify_each-others n node_name (b ∷ rest) w a f (inl e) =
      rw (ap (λ x. str_eq x.node_id node_name) (sym e) ∙ f, verify_each) (inl e)
  verify_each-others n node_name (b ∷ rest) w a f (inr h) =
      elim (Bool-cases (str_eq b.node_id node_name)) [
        | inl t ↦
            let r = verify_and_update_attachment c n b w in
            rw (t, verify_each)
              (In-kept_in r.0 a (verify_each c n node_name rest r.1).0
                (verify_each-others n node_name rest r.1 a f h))
        | inr g ↦ rw (g, verify_each) (inr (verify_each-others n node_name rest w a f h))
      ]

  -- The verification of a node leaves the attachments of every other node as they are, whatever EC2
  -- answers and whether or not the status is written. (The API stores the attachments of a status that
  -- it accepts.)
  pub verify_eni_attachments-others :
      (stores : Stores c) (n : NodeEni) (node_name : String) (w : c.World) (a : EniAttachment)
      → str_eq a.node_id node_name ≡ false
      → In a n.attachments
      → In a (verify_eni_attachments c n node_name w).0.attachments
  unfolding verify_eni_attachments update_node_eni_status
  verify_eni_attachments-others stores n node_name w a f h =
      let r = verify_each c n node_name n.attachments w in
      subst (In a) (sym (status-attachments c stores (record n { attachments = r.0 }) r.1))
        (verify_each-others n node_name n.attachments w a f h)
