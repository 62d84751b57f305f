-- ===== src/Cluster.antt =====
-- What the reconciler calls and does not implement: the EC2 operations (`EC2Interface` of
-- pkg/aws/interface.go), the Kubernetes API, the commands that it runs in the ENI Manager pod, the
-- clock. Each call takes the world as it finds it and leaves another; what other parties do meanwhile
-- is part of the answer.
use aws_multi_eni_controller.Prelude.{ℕ, String, Bool, Option, List, ◌⊎◌}
use aws_multi_eni_controller.Prelude.Int.{ℤ}
use aws_multi_eni_controller.Prelude.Maps.{Dict}
use aws_multi_eni_controller.Prelude.State.{Call, Result}
use aws_multi_eni_controller.Types.{NodeEni, EniAttachment}
use aws_multi_eni_controller.Wait.{Backoff}

-- `EC2v2NetworkInterfaceAttachment` and `EC2v2NetworkInterface` (pkg/aws/types.go).
pub record EniAttachmentState : Type 0 where
  pub attachment_id : String
  pub delete_on_termination : Bool
  pub device_index : ℤ
  pub instance_id : String
  pub status : String

pub record NetworkInterface : Type 0 where
  pub network_interface_id : String
  pub status : String
  pub attachment : Option EniAttachmentState

pub record Ec2Instance : Type 0 where
  pub instance_id : String
  pub state : String

-- `InterfaceState` of the controller.
pub record InterfaceState : Type 0 where
  pub pci_address : String
  pub current_driver : String
  pub iface_name : String
  pub is_bound_to_dpdk : Bool

-- An error of the Kubernetes API, as `errors.IsConflict` and `errors.IsNotFound` tell them apart.
pub data ApiError : Type 0 where
  conflict not_found other : ApiError

-- The fields of `ControllerConfig` that the reconciler reads; durations are in nanoseconds.
pub record Config : Type 0 where
  pub reconcile_period : ℕ
  pub detachment_timeout : ℕ
  pub max_cleanup_duration : ℕ
  pub default_device_index : ℤ
  pub default_delete_on_termination : Bool
  pub max_concurrent_eni_cleanup : ℤ

-- The fields of `corev1.Node` that the reconciler reads.
pub record Node : Type 0 where
  pub name : String
  pub provider_id : String

pub record Cluster : Type 1 where
  pub World : Type 0
  pub backoff : Backoff
  -- EC2
  pub describe_eni : String → Call World (Result (Option NetworkInterface))
  pub detach_eni : String → Bool → Call World (Option String)
  pub wait_for_eni_detachment : String → ℕ → Call World (Option String)
  pub delete_eni : String → Call World (Option String)
  pub create_eni : String → List String → String → Dict String → Call World (Result String)
  pub attach_eni : String → String → ℤ → Bool → Call World (Result String)
  pub describe_instance : String → Call World (Result (Option Ec2Instance))
  pub get_instance_enis : String → Call World (Result (List (ℤ × String)))
  pub get_subnet_id_by_name : String → Call World (Result String)
  pub get_subnet_cidr_by_id : String → Call World (Result String)
  pub get_security_group_id_by_name : String → Call World (Result String)
  -- Kubernetes: the object as the server returns it, or an error.
  pub list_nodes : Dict String → Call World (Result (List Node))
  pub get_node_eni : String → Call World (ApiError ⊎ NodeEni)
  pub update_node_eni : NodeEni → Call World (ApiError ⊎ NodeEni)
  pub update_node_eni_status : NodeEni → Call World (ApiError ⊎ NodeEni)
  -- `controllerutil`: the finalizers of an object.
  pub contains_finalizer : List String → String → Bool
  pub with_finalizer : List String → String → List String
  pub without_finalizer : List String → String → List String
  -- Commands in the ENI Manager pod of the attachment's node.
  pub capture_interface_state : EniAttachment → Call World (Result InterfaceState)
  pub atomic_dpdk_unbind : EniAttachment → InterfaceState → Call World (Option String)
  pub rollback_interface_state : EniAttachment → InterfaceState → Call World (Option String)
  -- The clock, and its texts (`time.RFC3339`).
  pub now : World → ℕ
  pub sleep : ℕ → World → World
  pub parse_time : String → Option ℕ
  pub format_time : ℕ → String

-- The codes that EC2 puts in its error messages.
abbrev pub eni_not_found : String
eni_not_found = "InvalidNetworkInterfaceID.NotFound"

abbrev pub attachment_not_found : String
attachment_not_found = "InvalidAttachmentID.NotFound"

abbrev pub instance_not_found : String
instance_not_found = "InvalidInstanceID.NotFound"
