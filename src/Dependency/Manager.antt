-- ===== src/Dependency/Manager.antt =====
-- The dependency manager: what it adds for the attachment and the detachment of an ENI
-- (pkg/controller/dependency_manager.go).
mod Ids
mod Added
pub mod Detachment
pub mod Attachment
mod Tests
use aws_multi_eni_controller.Prelude.{
  ℕ, String, ◌<>◌, Bool, true, false, List, [], ◌∷◌, Option, none, some, if◌then◌else◌,
}
use aws_multi_eni_controller.Prelude.Int.{pos}
use aws_multi_eni_controller.Types.{NodeEni, EniAttachment}
use aws_multi_eni_controller.Controller.Creation.{Ended, value, error, panics}
use aws_multi_eni_controller.Dependency.{
  Dependency, DependencyGraph, on_instance, on_subnet, on_eni, available, in_use, add_dependency,
  remove_dependency,
}

abbrev pub instance_dependency : NodeEni → EniAttachment → ℕ → Dependency
instance_dependency n a now = record {
  id = "instance-" <> (a.instance_id <> ("-" <> a.eni_id));
  dependency_type = on_instance;
  resource_id = a.instance_id;
  depends_on = [];
  required_state = available;
  priority = pos 10;
  created_at = now;
  metadata = ("nodeENI", n.name) ∷ ("eniID", a.eni_id) ∷ ("operation", "attach") ∷ [];
}

abbrev pub subnet_dependency : NodeEni → EniAttachment → String → ℕ → Dependency
subnet_dependency n a subnet_id now = record {
  id = "subnet-" <> (subnet_id <> ("-" <> a.eni_id));
  dependency_type = on_subnet;
  resource_id = subnet_id;
  depends_on = [];
  required_state = available;
  priority = pos 8;
  created_at = now;
  metadata = ("nodeENI", n.name) ∷ ("eniID", a.eni_id) ∷ ("operation", "attach") ∷ [];
}

abbrev pub eni_dependency : NodeEni → EniAttachment → String → ℕ → Dependency
eni_dependency n a subnet_id now = record {
  id = "eni-" <> a.eni_id;
  dependency_type = on_eni;
  resource_id = a.eni_id;
  depends_on = (instance_dependency n a now).id ∷ (subnet_dependency n a subnet_id now).id ∷ [];
  required_state = available;
  priority = pos 5;
  created_at = now;
  metadata = ("nodeENI", n.name) ∷ ("instanceID", a.instance_id) ∷ ("operation", "attach") ∷ [];
}

abbrev pub dpdk_dependency : NodeEni → EniAttachment → ℕ → Dependency
dpdk_dependency n a now = record {
  id = "dpdk-unbind-" <> a.eni_id;
  dependency_type = on_eni;
  resource_id = "dpdk-" <> a.eni_id;
  depends_on = [];
  required_state = available;
  priority = pos 15;
  created_at = now;
  metadata = ("nodeENI", n.name) ∷ ("eniID", a.eni_id) ∷ ("operation", "dpdk-unbind") ∷ [];
}

abbrev pub detach_dependency : NodeEni → EniAttachment → List String → ℕ → Dependency
detach_dependency n a depends_on now = record {
  id = "detach-" <> a.eni_id;
  dependency_type = on_eni;
  resource_id = a.eni_id;
  depends_on = depends_on;
  required_state = in_use;
  priority = pos 10;
  created_at = now;
  metadata =
      ("nodeENI", n.name)
      ∷ ("instanceID", a.instance_id)
      ∷ ("attachmentID", a.attachment_id)
      ∷ ("operation", "detach")
      ∷ [];
}

-- `AddDependency`, an error of which ends the function with a message.
abbrev pub ended_of : String → Option String → Ended (Unit {0})
ended_of message none = value tt
ended_of message (some e) = error (message <> (": " <> e))

after_add :
    (DependencyGraph → Ended (Unit {0}) × DependencyGraph)
    → Ended (Unit {0}) × DependencyGraph
    → Ended (Unit {0}) × DependencyGraph
after_add rest (value x, g) = rest g
after_add rest (error e, g) = (error e, g)
after_add rest (panics, g) = (panics, g)

unfoldable pub add_or_fail :
    String
    → Dependency
    → (DependencyGraph → Ended (Unit {0}) × DependencyGraph)
    → DependencyGraph
    → Ended (Unit {0}) × DependencyGraph
unfolding after_add
add_or_fail message dep rest g =
    let r = add_dependency dep g in after_add rest (ended_of message r.0, r.1)

abbrev pub return_nil : DependencyGraph → Ended (Unit {0}) × DependencyGraph
return_nil g = (value tt, g)

-- The first subnet is read with no test of the length: Go panics if there is none.
attach_in :
    NodeEni → EniAttachment → ℕ → List String → DependencyGraph → Ended (Unit {0}) × DependencyGraph
attach_in n a now [] g = (panics, g)
attach_in n a now (subnet_id ∷ rest) g =
    add_or_fail "failed to add instance dependency" (instance_dependency n a now)
      (add_or_fail "failed to add subnet dependency" (subnet_dependency n a subnet_id now)
        (add_or_fail "failed to add ENI dependency" (eni_dependency n a subnet_id now) return_nil))
      g

unfoldable pub create_eni_attachment_dependencies :
    NodeEni → EniAttachment → ℕ → DependencyGraph → Ended (Unit {0}) × DependencyGraph
unfolding attach_in
create_eni_attachment_dependencies n a now g = attach_in n a now n.spec.subnet_ids g

add_detach :
    NodeEni → EniAttachment → ℕ → List String → DependencyGraph → Ended (Unit {0}) × DependencyGraph
add_detach n a now depends_on g =
    add_or_fail "failed to add detachment dependency" (detach_dependency n a depends_on now)
      return_nil g

-- With DPDK the detachment waits for the unbinding.
unfoldable pub create_eni_detachment_dependencies :
    NodeEni → EniAttachment → ℕ → DependencyGraph → Ended (Unit {0}) × DependencyGraph
unfolding add_detach
create_eni_detachment_dependencies n a now g =
    if n.spec.enable_dpdk
    then add_or_fail "failed to add DPDK dependency" (dpdk_dependency n a now)
        (add_detach n a now ((dpdk_dependency n a now).id ∷ [])) g
    else add_detach n a now [] g

unfoldable pub complete_dependency : String → DependencyGraph → DependencyGraph
complete_dependency id g = remove_dependency id g
