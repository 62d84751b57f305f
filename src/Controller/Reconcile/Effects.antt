-- ===== src/Controller/Reconcile/Effects.antt =====
-- What the processing of a NodeENI keeps.
use aws_multi_eni_controller.Prelude.{
  ℕ, zero, suc, String, Bool, true, false, List, [], ◌∷◌, inl, inr, contains_string, str_eq,
  Bool-cases,
}
use aws_multi_eni_controller.Prelude.Int.{ℤ}
use aws_multi_eni_controller.Prelude.Maps.{Dict}
use aws_multi_eni_controller.Prelude.State.{Result, ok, err}
use aws_multi_eni_controller.Types.{NodeEni}
use aws_multi_eni_controller.Util.{get_instance_id_from_provider_id}
use aws_multi_eni_controller.Cluster.{Cluster, Config, Node}
use aws_multi_eni_controller.Controller.Calls.{IsKept}
use aws_multi_eni_controller.Controller.Coordination.{CoordinationManager}
use aws_multi_eni_controller.Controller.Coordinated.{Surroundings}
use aws_multi_eni_controller.Controller.Updates.Memory.{status-keeps}
use aws_multi_eni_controller.Controller.Subnets.{get_all_subnet_ids}
use aws_multi_eni_controller.Controller.Subnets.Laws.{get_all_subnet_ids-keeps}
use aws_multi_eni_controller.Controller.Creation.{get_aws_used_device_indices}
use aws_multi_eni_controller.Controller.Creation.Effects.{
  get_aws_used_device_indices-keeps, create_and_attach-keeps,
}
use aws_multi_eni_controller.Controller.Verify.{verify_eni_attachments}
use aws_multi_eni_controller.Controller.Verify.Effects.{verify_eni_attachments-keeps}
use aws_multi_eni_controller.Controller.Stale.Effects.{remove_stale_attachments-keeps}
use aws_multi_eni_controller.Controller.Reconcile.{
  create_missing_eni, create_missing_enis, create_in_subnets, process_instance, process_node,
  process_nodes, finish_processing, process_listed, process_node_eni,
}

module _ (c : Cluster) (config : Config) (env : Surroundings c) (P : c.World → Type 0)
    (kept : IsKept c P)
    (others_keep : (s : CoordinationManager × c.World) → P s.1 → P (env.others s).1) where
  create_missing_eni-keeps :
      (node : Node) (id : String) (existing : List String) (used : List ℤ) (i : ℕ)
      (mapping : Dict ℤ) (subnet : String) (m : NodeEni × c.World)
      → P m.1
      → P (create_missing_eni c config env node id existing used i mapping subnet m).1.1.1
  unfolding create_missing_eni
  create_missing_eni-keeps node id existing used i mapping subnet m h =
      elim (Bool-cases (contains_string existing subnet)) [
        | inl t ↦ rw (t, create_missing_eni) h
        | inr f ↦
            rw (f, create_missing_eni)
              (create_and_attach-keeps c config P kept m.0 node id subnet _ m.1 h)
      ]

  create_missing_enis-keeps :
      (node : Node) (id : String) (existing : List String) (used : List ℤ) (i : ℕ)
      (mapping : Dict ℤ) (subnets : List String) (m : NodeEni × c.World)
      → P m.1
      → P (create_missing_enis c config env node id existing used i mapping subnets m).1.1
  unfolding create_missing_enis
  create_missing_enis-keeps node id existing used i mapping [] m h = h
  create_missing_enis-keeps node id existing used i mapping (subnet ∷ rest) m h =
      let r = create_missing_eni c config env node id existing used i mapping subnet m in
      let k = create_missing_eni-keeps node id existing used i mapping subnet m h in
      elim (Bool-cases r.0) [
        | inl t ↦ rw (t, create_missing_enis) k
        | inr f ↦
            rw (f, create_missing_enis)
              (create_missing_enis-keeps node id existing used (suc i) r.1.0 rest r.1.1 k)
      ]

  create_in_subnets-keeps :
      (node : Node) (id : String) (r : Result (List String)) (m : NodeEni × c.World)
      → P m.1
      → P (create_in_subnets c config env node id r m).1.1
  unfolding create_in_subnets
  create_in_subnets-keeps node id (err e) m h = h
  create_in_subnets-keeps node id (ok subnets) m h =
      create_missing_enis-keeps node id _ _ zero _ subnets
        (m.0, (get_aws_used_device_indices c config id m.1).1)
        (get_aws_used_device_indices-keeps c config P kept id m.1 h)

  process_instance-keeps :
      (node : Node) (id : String) (m : NodeEni × c.World)
      → P m.1
      → P (process_instance c config env node id m).1.1
  unfolding process_instance
  process_instance-keeps node id m h =
      let v = verify_eni_attachments c m.0 node.name m.1 in
      let s = get_all_subnet_ids c v.0.spec v.1 in
      create_in_subnets-keeps node id s.0 (v.0, s.1)
        (get_all_subnet_ids-keeps c P kept v.0.spec v.1
          (verify_eni_attachments-keeps c P kept m.0 node.name m.1 h))

  process_node-keeps :
      (node : Node) (current : List String) (m : NodeEni × c.World)
      → P m.1
      → P (process_node c config env node current m).1.1.1
  unfolding process_node
  process_node-keeps node current m h =
      let id = get_instance_id_from_provider_id node.provider_id in
      elim (Bool-cases (str_eq node.provider_id "")) [
        | inl t ↦ rw (t, process_node) h
        | inr f ↦ elim (Bool-cases (str_eq id "")) [
          | inl t ↦ rw (f, t, process_node) h
          | inr g ↦ rw (f, g, process_node) (process_instance-keeps node id m h)
        ]
      ]

  process_nodes-keeps :
      (nodes : List Node) (current : List String) (m : NodeEni × c.World)
      → P m.1
      → P (process_nodes c config env nodes current m).1.1.1
  unfolding process_nodes
  process_nodes-keeps [] current m h = h
  process_nodes-keeps (node ∷ rest) current m h =
      let r = process_node c config env node current m in
      let k = process_node-keeps node current m h in
      elim (Bool-cases r.1.0) [
        | inl t ↦ rw (t, process_nodes) k
        | inr f ↦ rw (f, process_nodes) (process_nodes-keeps rest r.0 r.1.1 k)
      ]

  finish_processing-keeps :
      (cm : CoordinationManager) (r : List String × (Bool × (NodeEni × c.World)))
      → P r.1.1.1
      → P (finish_processing c config env cm r).1.1.1
  unfolding finish_processing
  finish_processing-keeps cm (current, (true, m)) h = h
  finish_processing-keeps cm (current, (false, (n, w))) h =
      status-keeps c P kept.by_get kept.by_status _ _
        (remove_stale_attachments-keeps c config env P kept others_keep n current (cm, w) h)

  process_listed-keeps :
      (cm : CoordinationManager) (n : NodeEni) (r : Result (List Node) × c.World)
      → P r.1
      → P (process_listed c config env cm n r).1.1.1
  unfolding process_listed
  process_listed-keeps cm n (err e, w) h = h
  process_listed-keeps cm n (ok nodes, w) h =
      finish_processing-keeps cm (process_nodes c config env nodes [] (n, w))
        (process_nodes-keeps nodes [] (n, w) h)

  -- A fact that each call and the others keep is kept by the processing of a NodeENI.
  pub process_node_eni-keeps :
      (n : NodeEni) (s : CoordinationManager × c.World)
      → P s.1
      → P (process_node_eni c config env n s).1.1.1
  unfolding process_node_eni
  process_node_eni-keeps n (cm, w) h =
      process_listed-keeps cm n (c.list_nodes n.spec.node_selector w)
        (kept.by_list n.spec.node_selector w h)
