-- ===== src/Types.antt =====
-- The NodeENI resource (pkg/apis/networking/v1alpha1/types.go), with the metadata that the
-- controller reads. Node selectors and time stamps for display are left out.
use aws_multi_eni_controller.Prelude.{String, Bool, Option, List, ℕ}
use aws_multi_eni_controller.Prelude.Int.{ℤ}
use aws_multi_eni_controller.Prelude.Maps.{Dict}

pub record NodeEniSpec : Type 0 where
  pub node_selector : Dict String
  pub subnet_id : String
  pub subnet_name : String
  pub subnet_ids : List String
  pub subnet_names : List String
  pub security_group_ids : List String
  pub security_group_names : List String
  pub device_index : ℤ
  pub delete_on_termination : Bool
  pub description : String
  pub mtu : ℤ
  pub enable_dpdk : Bool
  pub dpdk_driver : String
  pub dpdk_resource_name : String
  pub dpdk_pci_address : String

pub record EniAttachment : Type 0 where
  pub node_id : String
  pub instance_id : String
  pub eni_id : String
  pub attachment_id : String
  pub subnet_id : String
  pub subnet_cidr : String
  pub mtu : ℤ
  pub device_index : ℤ
  pub status : String
  pub last_updated : ℕ
  pub dpdk_bound : Bool
  pub dpdk_driver : String
  pub dpdk_resource_name : String
  pub dpdk_pci_address : String

-- `annotations` is `none` where Go's map is nil.
pub record NodeEni : Type 0 where
  pub name : String
  pub resource_version : ℕ
  pub deletion_timestamp : Option ℕ
  pub finalizers : List String
  pub annotations : Option (Dict String)
  pub spec : NodeEniSpec
  pub attachments : List EniAttachment
