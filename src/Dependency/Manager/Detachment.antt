-- ===== src/Dependency/Manager/Detachment.antt =====
-- The dependency of the detachment of an ENI, from its creation on.
use aws_multi_eni_controller.Prelude.{
  ℕ, String, false, ◌&&◌, not, ◌≡◌, refl, sym, ap, ◌∙◌, subst, List, [], ◌∷◌, some, inl, inr, arith,
  eq_refl, Bool-cases, if◌then◌else◌,
}
use aws_multi_eni_controller.Prelude.Maps.{lookup, lookup-delete}
use aws_multi_eni_controller.Types.{NodeEni, EniAttachment}
use aws_multi_eni_controller.Controller.Creation.{value}
use aws_multi_eni_controller.Dependency.{
  DependencyGraph, in_use, eq_state, add_dependency, remove_dependency, get_resource_state,
  none_exists, is_dependency_ready,
}
use aws_multi_eni_controller.Dependency.Manager.{
  dpdk_dependency, detach_dependency, return_nil, add_detach, create_eni_detachment_dependencies,
  complete_dependency,
}
use aws_multi_eni_controller.Dependency.Manager.Added.{
  Holds, Holds-added, Holds-add, lookup-added, add_or_fail-value,
}
use aws_multi_eni_controller.Dependency.Manager.Ids.{dpdk-detach}

-- With DPDK the detachment waits for the unbinding, and else for nothing.
abbrev pub awaited : NodeEni → EniAttachment → ℕ → List String
awaited n a now = if n.spec.enable_dpdk then (dpdk_dependency n a now).id ∷ [] else []

module _ (n : NodeEni) (a : EniAttachment) (now : ℕ) where
  unbinding : String
  unbinding = (dpdk_dependency n a now).id

  -- The dependency is under its ID in the graph.
  abbrev Has : List String → DependencyGraph → Type 0
  Has ids g =
      lookup (detach_dependency n a ids now).id g.dependencies
      ≡ some (detach_dependency n a ids now)

  add_detach-added :
      (ids : List String) (g : DependencyGraph)
      → (add_detach n a now ids g).0 ≡ value tt
      → Has ids (add_detach n a now ids g).1
        × ((id : String) → Holds id g → Holds id (add_detach n a now ids g).1)
  unfolding add_detach
  add_detach-added ids g h =
      let dep = detach_dependency n a ids now in
      let added = add_or_fail-value _ dep return_nil g h in
      let last = ap (λ r. r.1) (sym added.1) in
      (
        subst (Has ids) last (lookup-added dep g added.0),
        λ id k. subst (Holds id) last (Holds-add dep id g k),
      )

  kept_detach :
      (ids : List String) (g : DependencyGraph)
      → Has ids g
      → Has ids (complete_dependency unbinding g)
  unfolding complete_dependency remove_dependency unbinding
  kept_detach ids g h =
      lookup-delete (dpdk_dependency n a now).id (detach_dependency n a ids now).id g.dependencies
      ∙ rw (dpdk-detach a.eni_id a.eni_id) h

  blocked_detach :
      (g : DependencyGraph)
      → Holds unbinding g
      → is_dependency_ready g (detach_dependency n a (unbinding ∷ []) now) ≡ false
  unfolding is_dependency_ready none_exists
  blocked_detach g h = ground arith

  freed_detach :
      (g : DependencyGraph)
      → is_dependency_ready
          (complete_dependency unbinding g)
          (detach_dependency n a (unbinding ∷ []) now)
        ≡ eq_state (get_resource_state g a.eni_id) in_use
  unfolding is_dependency_ready none_exists complete_dependency remove_dependency get_resource_state
  freed_detach g =
      ground (arith, lookup-delete unbinding unbinding g.dependencies, eq_refl unbinding)

  -- A detachment that waits for nothing.
  ready_alone :
      (g : DependencyGraph)
      → is_dependency_ready g (detach_dependency n a [] now)
        ≡ eq_state (get_resource_state g a.eni_id) in_use
  unfolding is_dependency_ready none_exists
  ready_alone g = refl

  ready_after :
      (g : DependencyGraph)
      → is_dependency_ready (complete_dependency unbinding g) (detach_dependency n a [] now)
        ≡ eq_state (get_resource_state g a.eni_id) in_use
  unfolding is_dependency_ready none_exists complete_dependency remove_dependency get_resource_state
  ready_after g = refl

  -- After CreateENIDetachmentDependencies succeeds, the graph has the dependency of the detachment, which
  -- with DPDK waits for the unbinding: it is ready just when DPDK is not enabled and the ENI is recorded as
  -- in use. Once the unbinding is completed, it is still in the graph, and ready just when the ENI is
  -- recorded as in use.
  pub detach_dependency_lem :
      (g : DependencyGraph)
      → (create_eni_detachment_dependencies n a now g).0 ≡ value tt
      → let after = (create_eni_detachment_dependencies n a now g).1 in
        let dep = detach_dependency n a (awaited n a now) now in
        let unbound = complete_dependency (dpdk_dependency n a now).id after in
        (lookup dep.id after.dependencies ≡ some dep)
        × (is_dependency_ready after dep
            ≡ (not n.spec.enable_dpdk && eq_state (get_resource_state after a.eni_id) in_use))
        × (lookup dep.id unbound.dependencies ≡ some dep)
        × (is_dependency_ready unbound dep ≡ eq_state (get_resource_state after a.eni_id) in_use)
  unfolding create_eni_detachment_dependencies unbinding
  detach_dependency_lem g h = elim (Bool-cases n.spec.enable_dpdk) [
    | inl t ↦
        let dep = dpdk_dependency n a now in
        let waiting = dep.id ∷ [] in
        let first =
          add_or_fail-value _ dep (add_detach n a now waiting) g
            (rw (t, create_eni_detachment_dependencies) at h) in
        let g1 = (add_dependency dep g).1 in
        let second =
          add_detach-added waiting g1
            (ap (λ r. r.0) (sym first.1) ∙ (rw (t, create_eni_detachment_dependencies) at h)) in
        rw (t, create_eni_detachment_dependencies)
          (rw (first.1) (
            second.0,
            blocked_detach _ (second.1 dep.id (Holds-added dep g first.0)),
            kept_detach waiting _ second.0,
            freed_detach _,
          ))
    | inr f ↦
        let added = add_detach-added [] g (rw (f, create_eni_detachment_dependencies) at h) in
        rw (f, create_eni_detachment_dependencies)
          (added.0, ready_alone _, kept_detach [] _ added.0, ready_after _)
  ]
