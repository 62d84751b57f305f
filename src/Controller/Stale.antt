-- ===== src/Controller/Stale.antt =====
-- The removal of stale attachments: removeStaleAttachments of pkg/controller/nodeeni_controller.go and
-- the checks that it makes.
pub mod Safety
pub mod Effects
mod Tests
use aws_multi_eni_controller.Prelude.{
  String, Bool, true, false, ◌&&◌, not, List, [], ◌∷◌, ◌++◌, Option, none, some, if◌then◌else◌,
  str_eq, is_some, str_contains, contains_string,
}
use aws_multi_eni_controller.Prelude.State.{Call, pure, ◌>>=◌, Result, ok, err}
use aws_multi_eni_controller.Types.{NodeEni, EniAttachment}
use aws_multi_eni_controller.Cluster.{
  Cluster, Config, NetworkInterface, EniAttachmentState, Ec2Instance, eni_not_found,
  instance_not_found,
}
use aws_multi_eni_controller.Controller.Cleanup.{exists_of, cleanup_eni_attachment}
use aws_multi_eni_controller.Controller.Coordination.{CoordinationManager}
use aws_multi_eni_controller.Controller.Coordinated.{Surroundings, parallel_cleanup_enis}

abbrev pub valid_states : List String
valid_states = "running" ∷ "pending" ∷ "stopping" ∷ "stopped" ∷ []

-- An answer of `DescribeInstance`: on an error other than "not found" the instance counts as there.
abbrev pub instance_ok : Result (Option Ec2Instance) → Bool
instance_ok (err e) = not (str_contains e instance_not_found)
instance_ok (ok none) = false
instance_ok (ok (some i)) = contains_string valid_states i.state

-- The answers of `DescribeENI` as `verifyENIAttachmentState` and `verifyENIInstanceMapping` read them.
abbrev pub state_ok : Result (Option NetworkInterface) → Bool
state_ok (err e) = not (str_contains e eni_not_found)
state_ok (ok none) = false
state_ok (ok (some eni)) = is_some eni.attachment && str_eq eni.status "in-use"

abbrev pub attached_to : String → Option EniAttachmentState → Bool
attached_to instance_id none = false
attached_to instance_id (some s) = str_eq s.instance_id instance_id

abbrev pub mapping_ok : String → Result (Option NetworkInterface) → Bool
mapping_ok instance_id (err e) = true
mapping_ok instance_id (ok none) = false
mapping_ok instance_id (ok (some eni)) = attached_to instance_id eni.attachment

-- Steps 2 to 4 of `isAttachmentComprehensivelyStale`: an ENI that is there makes the attachment stale
-- whether it is attached to the instance, to another one or to none.
abbrev pub stale_of : Result (Option NetworkInterface) → Bool
stale_of (err e) = str_contains e eni_not_found
stale_of (ok none) = true
stale_of (ok (some eni)) = true

abbrev pub sorted_in :
    Bool
    → EniAttachment
    → List EniAttachment × List EniAttachment
    → List EniAttachment × List EniAttachment
sorted_in stale a (kept, gone) = if stale then (kept, a ∷ gone) else (a ∷ kept, gone)

module _ (c : Cluster) (config : Config) (env : Surroundings c) where
  open c use {World, describe_eni, describe_instance}

  abbrev Shared : Type 0
  Shared = CoordinationManager × World

  pub verify_instance_exists : String → Call World Bool
  verify_instance_exists id = do r ← describe_instance id; pure (instance_ok r)

  pub verify_eni_attachment_state : EniAttachment → Call World Bool
  verify_eni_attachment_state a = do r ← describe_eni a.eni_id; pure (state_ok r)

  pub verify_eni_instance_mapping : EniAttachment → Call World Bool
  verify_eni_instance_mapping a = do r ← describe_eni a.eni_id; pure (mapping_ok a.instance_id r)

  -- The checks after the first, each made only if the one before it passed.
  check_mapping : EniAttachment → Bool → Call World Bool
  check_mapping a false = pure true
  check_mapping a true = do mapped ← verify_eni_instance_mapping a; pure (not mapped)

  check_state : EniAttachment → Bool → Call World Bool
  check_state a false = pure true
  check_state a true = verify_eni_attachment_state a >>= check_mapping a

  pub is_attachment_stale_in_aws : EniAttachment → Call World Bool
  unfolding check_state check_mapping
  is_attachment_stale_in_aws a = verify_instance_exists a.instance_id >>= check_state a

  check_eni : EniAttachment → Bool → Call World Bool
  check_eni a false = pure true
  check_eni a true = do r ← describe_eni a.eni_id; pure (stale_of r)

  pub is_attachment_comprehensively_stale : EniAttachment → Call World Bool
  unfolding check_eni
  is_attachment_comprehensively_stale a = verify_instance_exists a.instance_id >>= check_eni a

  -- `current` holds the nodes that match the selector.
  pub is_stale : List String → EniAttachment → Call World Bool
  is_stale current a =
      if contains_string current a.node_id
      then is_attachment_stale_in_aws a
      else is_attachment_comprehensively_stale a

  -- The first loop: the attachments to keep and the stale ones.
  pub separate :
      List String → List EniAttachment → Call World (List EniAttachment × List EniAttachment)
  separate current [] w = (([], []), w)
  separate current (a ∷ rest) w =
      let r = is_stale current a w in
      let others = separate current rest r.1 in (sorted_in r.0 a others.0, others.1)

  handle_described : NodeEni → EniAttachment → Bool → Call World Bool
  handle_described n a false = pure false
  handle_described n a true = do cleaned ← cleanup_eni_attachment c config n a; pure (not cleaned)

  -- Whether the attachment is to be kept.
  pub handle_stale_attachment : NodeEni → EniAttachment → Call World Bool
  unfolding handle_described
  handle_stale_attachment n a = do r ← describe_eni a.eni_id; handle_described n a (exists_of r)

  -- The last loop: the stale attachments that are kept after all.
  pub check_each : List EniAttachment → Call World (List EniAttachment)
  check_each [] w = ([], w)
  check_each (a ∷ rest) w =
      let r = describe_eni a.eni_id w in
      let others = check_each rest r.1 in
      (if exists_of r.0 then a ∷ others.0 else others.0, others.1)

  after_parallel :
      List EniAttachment → List EniAttachment → Bool → Shared → List EniAttachment × Shared
  after_parallel kept stale true s = (kept, s)
  after_parallel kept stale false (cm, w) = let r = check_each stale w in (kept ++ r.0, (cm, r.1))

  clean_stale :
      NodeEni → List EniAttachment → List EniAttachment → Shared → List EniAttachment × Shared
  clean_stale n kept [] s = (kept, s)
  clean_stale n kept (a ∷ []) (cm, w) =
      let r = handle_stale_attachment n a w in (if r.0 then kept ++ a ∷ [] else kept, (cm, r.1))
  clean_stale n kept (a ∷ b ∷ rest) s =
      let r = parallel_cleanup_enis c config env n (a ∷ b ∷ rest) s in
      after_parallel kept (a ∷ b ∷ rest) r.0 r.1

  -- The attachments that the status keeps.
  pub remove_stale_attachments : NodeEni → List String → Shared → List EniAttachment × Shared
  unfolding clean_stale after_parallel
  remove_stale_attachments n current (cm, w) =
      let r = separate current n.attachments w in clean_stale n r.0.0 r.0.1 (cm, r.1)
