-- ===== src/Controller/Creation.antt =====
-- The creation and attachment of an ENI: createENIInSubnet, attachENI and createAndAttachENIForSubnet of
-- pkg/controller/nodeeni_controller.go.
pub mod Index
pub mod Effects
pub mod Accounted
mod Tests
use aws_multi_eni_controller.Prelude.{
  ℕ, zero, suc, ◌-◌, String, ◌<>◌, Bool, true, false, ◌&&◌, ◌||◌, List, [], ◌∷◌, ◌++◌, Option, none,
  some, if◌then◌else◌, str_eq, str_contains, ltb, map,
}
use aws_multi_eni_controller.Prelude.Int.{ℤ, pos, leb_ℤ, eq_ℤ}
use aws_multi_eni_controller.Prelude.Maps.{Dict}
use aws_multi_eni_controller.Prelude.State.{Call, pure, ◌>>=◌, Result, ok, err}
use aws_multi_eni_controller.Types.{NodeEni, NodeEniSpec, EniAttachment}
use aws_multi_eni_controller.Cluster.{Cluster, Config, Node}
use aws_multi_eni_controller.Controller.DeviceIndex.{find_next_available_device_index}
use aws_multi_eni_controller.Controller.Subnets.{add_new}
use aws_multi_eni_controller.Controller.Updates.{Written, update_node_eni_status_with_retry}

-- `isDeviceIndexConflictError`
pub is_device_index_conflict_error : String → Bool
is_device_index_conflict_error e =
    str_contains e "already has an interface attached at device index"
    || str_contains e "InvalidParameterValue" && str_contains e "device index"

-- The characters of a text; `len` counts bytes, the same for the ASCII of an ID.
abbrev pub str_length : String → ℕ
str_length String.[] = 0
str_length (String.◌∷◌ c s) = suc (str_length s)

abbrev pub drop_chars : ℕ → String → String
drop_chars zero s = s
drop_chars (suc n) String.[] = String.[]
drop_chars (suc n) (String.◌∷◌ c s) = drop_chars n s

-- `subnetID[len(subnetID)-8:]`; on a shorter text Go panics.
pub last_eight : String → Option String
last_eight s = if ltb (str_length s) 8 then none else some (drop_chars (str_length s - 8) s)

-- A Go function that ends with a value, with an error, or in a panic.
pub data Ended (A : Type 0) : Type 0 where
  value : A → Ended A
  error : String → Ended A
  panics : Ended A

abbrev pub created_tags : NodeEni → Node → String → String → Dict String
created_tags n node subnet_id suffix =
    ("Name", "nodeeni-" <> (n.name <> ("-" <> (node.name <> ("-" <> suffix)))))
    ∷ ("NodeENI", n.name)
    ∷ ("Node", node.name)
    ∷ ("SubnetID", subnet_id)
    ∷ ("kubernetes.io/cluster/managed-by", "nodeeni-controller")
    ∷ ("node.k8s.amazonaws.com/no_manage", "true")
    ∷ []

abbrev pub description_of : NodeEniSpec → Node → String
description_of spec node =
    if str_eq spec.description ""
    then "ENI created by nodeeni-controller for node " <> node.name
    else spec.description

abbrev pub created_of : Result String → Ended String
created_of (err e) = error ("failed to create ENI: " <> e)
created_of (ok id) = value id

-- The attachment that the status gets.
abbrev pub new_attachment :
    NodeEni → Node → String → String → String → String → String → ℤ → ℕ → EniAttachment
new_attachment n node instance_id subnet_id subnet_cidr eni_id attachment_id device_index now =
    record {
      node_id = node.name;
      instance_id = instance_id;
      eni_id = eni_id;
      attachment_id = attachment_id;
      subnet_id = subnet_id;
      subnet_cidr = subnet_cidr;
      mtu = n.spec.mtu;
      device_index = device_index;
      status = "attached";
      last_updated = now;
      dpdk_bound = false;
      dpdk_driver = "";
      dpdk_resource_name = "";
      dpdk_pci_address = "";
    }

module _ (c : Cluster) (config : Config) where
  open c use {
    World, create_eni, attach_eni as attach_call, delete_eni, get_instance_enis,
    get_security_group_id_by_name, get_subnet_cidr_by_id, now,
  }

  -- The device indices that EC2 reports for the instance.
  pub get_aws_used_device_indices : String → Call World (Result (List ℤ))
  get_aws_used_device_indices instance_id w =
      let r = get_instance_enis instance_id w in
      elim r.0 [
        | err e ↦ (err ("failed to get instance ENIs from AWS: " <> e), r.1)
        | ok enis ↦ (ok (map (λ entry. entry.0) enis), r.1)
      ]

  attach_again : String → String → ℤ → String → Call World (Result (String × ℤ))
  attach_again eni_id instance_id index first w =
      let r = attach_call eni_id instance_id index config.default_delete_on_termination w in
      elim r.0 [
        | err e ↦ (
          err (
              "failed to attach ENI after retry: original error: "
              <> (first <> (", retry error: " <> e))),
          r.1,
        )
        | ok id ↦ (ok (id, index), r.1)
      ]

  -- After a conflict: the next index that EC2 shows free, tried once.
  attach_corrected :
      String → String → ℤ → String → Result (List ℤ) → Call World (Result (String × ℤ))
  attach_corrected eni_id instance_id index first (err e) w =
      (err ("failed to attach ENI: " <> (first <> (" (retry query failed: " <> (e <> ")")))), w)
  attach_corrected eni_id instance_id index first (ok used) w =
      let free = find_next_available_device_index index used in
      if eq_ℤ free index
      then (err ("failed to attach ENI: " <> first), w)
      else attach_again eni_id instance_id free first w

  attach_answered : String → String → ℤ → Result String × World → Result (String × ℤ) × World
  attach_answered eni_id instance_id index (ok id, w) = (ok (id, index), w)
  attach_answered eni_id instance_id index (err e, w) =
      if is_device_index_conflict_error e
      then (let r = get_aws_used_device_indices instance_id w in
          attach_corrected eni_id instance_id index e r.0 r.1)
      else (err ("failed to attach ENI: " <> e), w)

  -- An index of 0 or less means the default.
  abbrev pub wanted_index : ℤ → ℤ
  wanted_index i = if leb_ℤ i (pos 0) then config.default_device_index else i

  unfoldable pub attach_eni : String → String → ℤ → Call World (Result (String × ℤ))
  unfolding attach_answered attach_corrected attach_again
  attach_eni eni_id instance_id device_index w =
      let index = wanted_index device_index in
      attach_answered eni_id instance_id index
        (attach_call eni_id instance_id index config.default_delete_on_termination w)

  unfoldable pub add_groups : List String → List String → Call World (Result (List String))
  add_groups [] ids w = (ok ids, w)
  add_groups (name ∷ names) ids w =
      let r = get_security_group_id_by_name name w in
      elim r.0 [
        | err e ↦ (err ("failed to get security group ID from name " <> (name <> (": " <> e))), r.1)
        | ok id ↦ add_groups names (add_new ids id) r.1
      ]

  create_tagged : NodeEni → Node → String → List String → Option String → Call World (Ended String)
  create_tagged n node subnet_id groups none w = (panics, w)
  create_tagged n node subnet_id groups (some suffix) w =
      let r =
        create_eni subnet_id groups (description_of n.spec node)
          (created_tags n node subnet_id suffix) w in
      (created_of r.0, r.1)

  create_in_groups : NodeEni → Node → String → Result (List String) → Call World (Ended String)
  create_in_groups n node subnet_id (err e) w = (error e, w)
  create_in_groups n node subnet_id (ok []) w =
      (error "neither securityGroupIDs nor securityGroupNames provided, or all lookups failed", w)
  create_in_groups n node subnet_id (ok (g ∷ gs)) w =
      create_tagged n node subnet_id (g ∷ gs) (last_eight subnet_id) w

  unfoldable pub create_eni_in_subnet : NodeEni → Node → String → Call World (Ended String)
  unfolding create_in_groups create_tagged
  create_eni_in_subnet n node subnet_id w =
      let r = add_groups n.spec.security_group_names n.spec.security_group_ids w in
      create_in_groups n node subnet_id r.0 r.1

  abbrev pub cidr_or_empty : Result String → String
  cidr_or_empty (err e) = ""
  cidr_or_empty (ok cidr) = cidr

  -- The attached ENI goes into the status, which is written at once; an error of the write is only
  -- reported.
  record_attachment :
      NodeEni
      → Node
      → String
      → String
      → String
      → String × ℤ
      → World
      → Ended (Unit {0}) × (NodeEni × World)
  record_attachment n node instance_id subnet_id eni_id attached w =
      let cidr = get_subnet_cidr_by_id subnet_id w in
      let a =
        new_attachment n node instance_id subnet_id (cidr_or_empty cidr.0) eni_id attached.0
          attached.1 (now cidr.1) in
      let r =
        update_node_eni_status_with_retry c (record n { attachments = n.attachments ++ a ∷ [] })
          cidr.1 in
      (value tt, r.1)

  -- An ENI that cannot be attached is deleted; an error of that is only reported.
  after_attach :
      NodeEni
      → Node
      → String
      → String
      → String
      → Result (String × ℤ)
      → World
      → Ended (Unit {0}) × (NodeEni × World)
  after_attach n node instance_id subnet_id eni_id (err e) w =
      let d = delete_eni eni_id w in (error e, (n, d.1))
  after_attach n node instance_id subnet_id eni_id (ok attached) w =
      record_attachment n node instance_id subnet_id eni_id attached w

  after_create :
      NodeEni
      → Node
      → String
      → String
      → ℤ
      → Ended String
      → World
      → Ended (Unit {0}) × (NodeEni × World)
  after_create n node instance_id subnet_id index panics w = (panics, (n, w))
  after_create n node instance_id subnet_id index (error e) w = (error e, (n, w))
  after_create n node instance_id subnet_id index (value eni_id) w =
      let r = attach_eni eni_id instance_id index w in
      after_attach n node instance_id subnet_id eni_id r.0 r.1

  unfoldable pub create_and_attach_eni_for_subnet :
      NodeEni → Node → String → String → ℤ → World → Ended (Unit {0}) × (NodeEni × World)
  unfolding after_create after_attach record_attachment
  create_and_attach_eni_for_subnet n node instance_id subnet_id index w =
      let r = create_eni_in_subnet n node subnet_id w in
      after_create n node instance_id subnet_id index r.0 r.1
