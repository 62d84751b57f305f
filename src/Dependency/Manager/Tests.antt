-- ===== src/Dependency/Manager/Tests.antt =====
-- The dependencies of one ENI.
use aws_multi_eni_controller.Prelude.{true, false, ◌&&◌, not, ◌≡◌, refl, [], ◌∷◌, some}
use aws_multi_eni_controller.Prelude.Maps.{lookup, insert, has_key}
use aws_multi_eni_controller.Types.{NodeEni, EniAttachment}
use aws_multi_eni_controller.Controller.Sample.{attachment_of, node_eni_of}
use aws_multi_eni_controller.Controller.Creation.{value, panics}
use aws_multi_eni_controller.Dependency.{
  Dependency, in_use, DependencyGraph, new_dependency_graph, available, eq_state,
  would_create_cycle, add_dependency, get_resource_state, is_dependency_ready,
}
use aws_multi_eni_controller.Dependency.Manager.{
  dpdk_dependency, detach_dependency, instance_dependency, subnet_dependency, eni_dependency,
  add_or_fail, create_eni_attachment_dependencies, create_eni_detachment_dependencies,
  complete_dependency,
}
use aws_multi_eni_controller.Dependency.Manager.Detachment.{awaited, detach_dependency_lem}
use aws_multi_eni_controller.Dependency.Manager.Attachment.{eni_dependency_lem}

abbrev listed : NodeEni
listed =
    let n = node_eni_of [] in record n { spec = record (n.spec) { subnet_ids = "subnet-1" ∷ [] } }

abbrev a : EniAttachment
a = attachment_of "eni-1"

abbrev after : DependencyGraph
after = (create_eni_attachment_dependencies listed a 1 new_dependency_graph).1

attach_succeeded : (create_eni_attachment_dependencies listed a 1 new_dependency_graph).0 ≡ value tt
unfolding create_eni_attachment_dependencies add_or_fail add_dependency would_create_cycle lookup
    insert
attach_succeeded = refl

abbrev freed : DependencyGraph
freed =
    complete_dependency (subnet_dependency listed a "subnet-1" 1).id
      (complete_dependency (instance_dependency listed a 1).id after)

eni_dependency_example :
    (lookup (eni_dependency listed a "subnet-1" 1).id after.dependencies
      ≡ some (eni_dependency listed a "subnet-1" 1))
    × (has_key (instance_dependency listed a 1).id after.dependencies ≡ true)
    × (has_key (subnet_dependency listed a "subnet-1" 1).id after.dependencies ≡ true)
    × (is_dependency_ready after (eni_dependency listed a "subnet-1" 1) ≡ false)
    × (lookup (eni_dependency listed a "subnet-1" 1).id freed.dependencies
        ≡ some (eni_dependency listed a "subnet-1" 1))
    × (is_dependency_ready freed (eni_dependency listed a "subnet-1" 1)
        ≡ eq_state (get_resource_state after "eni-1") available)
eni_dependency_example =
    eni_dependency_lem listed a 1 "subnet-1" [] new_dependency_graph refl attach_succeeded

-- A NodeENI that names its subnet in the field for one subnet.
no_subnet_ids_panics :
    (create_eni_attachment_dependencies (node_eni_of []) a 1 new_dependency_graph).0 ≡ panics
unfolding create_eni_attachment_dependencies
no_subnet_ids_panics = refl

-- A NodeENI with DPDK.
abbrev with_dpdk : NodeEni
with_dpdk = let n = node_eni_of [] in record n { spec = record (n.spec) { enable_dpdk = true } }

abbrev detaching : DependencyGraph
detaching = (create_eni_detachment_dependencies with_dpdk a 1 new_dependency_graph).1

abbrev detachment : Dependency
detachment = detach_dependency with_dpdk a (awaited with_dpdk a 1) 1

detach_succeeded :
    (create_eni_detachment_dependencies with_dpdk a 1 new_dependency_graph).0 ≡ value tt
unfolding create_eni_detachment_dependencies add_or_fail add_dependency would_create_cycle lookup
    insert
detach_succeeded = refl

detach_dependency_example :
    (lookup detachment.id detaching.dependencies ≡ some detachment)
    × (is_dependency_ready detaching detachment ≡ (
        not with_dpdk.spec.enable_dpdk && eq_state (get_resource_state detaching a.eni_id) in_use))
    × (lookup detachment.id
          (complete_dependency (dpdk_dependency with_dpdk a 1).id detaching).dependencies
        ≡ some detachment)
    × (is_dependency_ready
          (complete_dependency (dpdk_dependency with_dpdk a 1).id detaching)
          detachment
        ≡ eq_state (get_resource_state detaching a.eni_id) in_use)
detach_dependency_example =
    detach_dependency_lem with_dpdk a 1 new_dependency_graph detach_succeeded
