-- ===== src/Dependency/Manager/Attachment.antt =====
-- The dependencies of the attachment of an ENI, from their creation until they are completed.
use aws_multi_eni_controller.Prelude.{
  ℕ, String, ◌<>◌, true, false, ◌≡◌, refl, sym, ap, ◌∙◌, subst, List, [], ◌∷◌, some, arith, eq_refl,
}
use aws_multi_eni_controller.Prelude.Maps.{delete, lookup, has_key, lookup-delete}
use aws_multi_eni_controller.Types.{NodeEni, EniAttachment}
use aws_multi_eni_controller.Controller.Creation.{value}
use aws_multi_eni_controller.Dependency.{
  Dependency, DependencyGraph, available, eq_state, add_dependency, remove_dependency,
  get_resource_state, none_exists, is_dependency_ready,
}
use aws_multi_eni_controller.Dependency.Manager.{
  instance_dependency, subnet_dependency, eni_dependency, return_nil, attach_in,
  create_eni_attachment_dependencies, complete_dependency,
}
use aws_multi_eni_controller.Dependency.Manager.Added.{
  Holds, Holds-added, Holds-add, lookup-added, add_or_fail-value,
}
use aws_multi_eni_controller.Dependency.Manager.Ids.{instance-eni, subnet-eni}

-- The ENI's own dependency and the two that it depends on are in the graph that a success leaves.
attach_in-Holds :
    (n : NodeEni) (a : EniAttachment) (now : ℕ) (s : String) (rest : List String)
    (g : DependencyGraph)
    → (attach_in n a now (s ∷ rest) g).0 ≡ value tt
    → Holds (instance_dependency n a now).id (attach_in n a now (s ∷ rest) g).1
      × Holds (subnet_dependency n a s now).id (attach_in n a now (s ∷ rest) g).1
      × (lookup (eni_dependency n a s now).id (attach_in n a now (s ∷ rest) g).1.dependencies
          ≡ some (eni_dependency n a s now))
unfolding attach_in
attach_in-Holds n a now s rest g h =
    let first = add_or_fail-value _ (instance_dependency n a now) _ g h in
    let g1 = (add_dependency (instance_dependency n a now) g).1 in
    let h1 = ap (λ r. r.0) (sym first.1) ∙ h in
    let second = add_or_fail-value _ (subnet_dependency n a s now) _ g1 h1 in
    let g2 = (add_dependency (subnet_dependency n a s now) g1).1 in
    let h2 = ap (λ r. r.0) (sym second.1) ∙ h1 in
    let third = add_or_fail-value _ (eni_dependency n a s now) return_nil g2 h2 in
    let last = sym (ap (λ r. r.1) (first.1 ∙ second.1 ∙ third.1)) in
    let inst = Holds-added (instance_dependency n a now) g first.0 in
    let sub = Holds-added (subnet_dependency n a s now) g1 second.0 in
    let id1 = (instance_dependency n a now).id in
    let id2 = (subnet_dependency n a s now).id in
    (
      subst (Holds id1) last (
          Holds-add (eni_dependency n a s now) id1 g2
            (Holds-add (subnet_dependency n a s now) id1 g1 inst)),
      subst (Holds id2) last (Holds-add (eni_dependency n a s now) id2 g2 sub),
      subst
          (λ r.
            lookup (eni_dependency n a s now).id r.dependencies ≡ some (eni_dependency n a s now))
          last (lookup-added (eni_dependency n a s now) g2 third.0),
    )

blocked_by :
    (g : DependencyGraph) (i s eni : String) (d : Dependency)
    → d.depends_on ≡ i ∷ s ∷ []
    → Holds i g
    → is_dependency_ready g d ≡ false
unfolding is_dependency_ready none_exists
blocked_by g i s eni d q h = rw (q) (ground arith)

freed :
    (g : DependencyGraph) (i s : String)
    → none_exists (complete_dependency s (complete_dependency i g)) (i ∷ s ∷ []) ≡ true
unfolding none_exists complete_dependency remove_dependency
freed g i s = ground (
  arith,
  lookup-delete s i (delete i g.dependencies),
  lookup-delete s s (delete i g.dependencies),
  lookup-delete i i g.dependencies,
  eq_refl i,
  eq_refl s,
)

-- The completion of the other two leaves the ENI's dependency.
kept_eni :
    (g : DependencyGraph) (n : NodeEni) (a : EniAttachment) (s : String) (now : ℕ)
    → lookup (eni_dependency n a s now).id g.dependencies ≡ some (eni_dependency n a s now)
    → lookup
        (eni_dependency n a s now).id
        (complete_dependency
          (subnet_dependency n a s now).id
          (complete_dependency (instance_dependency n a now).id g)).dependencies
      ≡ some (eni_dependency n a s now)
unfolding complete_dependency remove_dependency
kept_eni g n a s now h =
    let i = (instance_dependency n a now).id in
    let t = (subnet_dependency n a s now).id in
    let e = (eni_dependency n a s now).id in
    lookup-delete t e (delete i g.dependencies)
    ∙ (rw (subnet-eni (s <> ("-" <> a.eni_id)) a.eni_id) (
        lookup-delete i e g.dependencies
        ∙ rw (instance-eni (a.instance_id <> ("-" <> a.eni_id)) a.eni_id) h))

-- After CreateENIAttachmentDependencies succeeds, the graph has the ENI's dependency, and those of
-- the instance and the first subnet; the ENI's is blocked, and once the other two are completed, it is
-- still in the graph, and ready just when the ENI is recorded as available.
pub eni_dependency_lem :
    (n : NodeEni) (a : EniAttachment) (now : ℕ) (s : String) (rest : List String)
    (g : DependencyGraph)
    → n.spec.subnet_ids ≡ s ∷ rest
    → (create_eni_attachment_dependencies n a now g).0 ≡ value tt
    → (lookup
          (eni_dependency n a s now).id
          (create_eni_attachment_dependencies n a now g).1.dependencies
        ≡ some (eni_dependency n a s now))
      × (has_key
            (instance_dependency n a now).id
            (create_eni_attachment_dependencies n a now g).1.dependencies
          ≡ true)
      × (has_key
            (subnet_dependency n a s now).id
            (create_eni_attachment_dependencies n a now g).1.dependencies
          ≡ true)
      × (is_dependency_ready
            (create_eni_attachment_dependencies n a now g).1
            (eni_dependency n a s now)
          ≡ false)
      × (lookup
            (eni_dependency n a s now).id
            (complete_dependency (subnet_dependency n a s now).id (
              complete_dependency
                (instance_dependency n a now).id
                (create_eni_attachment_dependencies n a now g).1)).dependencies
          ≡ some (eni_dependency n a s now))
      × (is_dependency_ready
            (complete_dependency (subnet_dependency n a s now).id (
              complete_dependency
                (instance_dependency n a now).id
                (create_eni_attachment_dependencies n a now g).1))
            (eni_dependency n a s now)
          ≡ eq_state
              (get_resource_state (create_eni_attachment_dependencies n a now g).1 a.eni_id)
              available)
unfolding create_eni_attachment_dependencies is_dependency_ready complete_dependency
    remove_dependency get_resource_state
eni_dependency_lem n a now s rest g q h =
    let after = (create_eni_attachment_dependencies n a now g).1 in
    let i = (instance_dependency n a now).id in
    let t = (subnet_dependency n a s now).id in
    let same = ap (λ ids. attach_in n a now ids g) q in
    let held = attach_in-Holds n a now s rest g (ap (λ r. r.0) (sym same) ∙ h) in
    (
      subst
          (λ r.
            lookup (eni_dependency n a s now).id r.1.dependencies ≡ some (eni_dependency n a s now))
          (sym same) held.2,
      subst (λ r. Holds i r.1) (sym same) held.0,
      subst (λ r. Holds t r.1) (sym same) held.1,
      blocked_by after i t a.eni_id (eni_dependency n a s now) refl
          (subst (λ r. Holds i r.1) (sym same) held.0),
      kept_eni after n a s now (
          subst
            (λ r.
              lookup (eni_dependency n a s now).id r.1.dependencies
              ≡ some (eni_dependency n a s now))
            (sym same) held.2),
      rw (freed after i t) refl,
    )
