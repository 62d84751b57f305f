-- ===== src/Dependency/Tests.antt =====
-- A graph of two dependencies, of which one waits for the other.
use aws_multi_eni_controller.Prelude.{
  String, arith, true, false, ◌≡◌, refl, List, [], ◌∷◌, none, some, ◌↔◌, false≢true,
  contains_string,
}
use aws_multi_eni_controller.Prelude.Int.{ℤ, pos}
use aws_multi_eni_controller.Prelude.Maps.{lookup, insert, has_key}
use aws_multi_eni_controller.Prelude.State.{ok}
use aws_multi_eni_controller.Dependency.{
  Dependency, DependencyGraph, on_eni, unknown, new_dependency_graph, would_create_cycle,
  add_dependency, is_dependency_ready, get_ready_dependencies, get_blocked_dependencies,
  resolve_dependency_order,
}
use aws_multi_eni_controller.Dependency.Reaches.{Reaches, step, more, IsAcyclic}
use aws_multi_eni_controller.Dependency.Cycles.{LeadsTo}
use aws_multi_eni_controller.Dependency.Acyclic.{add_dependency-IsAcyclic, add_dependency-refuses}
use aws_multi_eni_controller.Dependency.Ordered.{IsKeyed, ids_of, IsOrdered, add_dependency-IsKeyed}
use aws_multi_eni_controller.Dependency.Order.{resolve_dependency_order_lem}
use aws_multi_eni_controller.Dependency.Ready.{Among, InGraph, IsByPriority, ready_or_blocked}

abbrev dependency_of : String → List String → ℤ → Dependency
dependency_of id ids priority = record {
  id = id;
  dependency_type = on_eni;
  resource_id = id;
  depends_on = ids;
  required_state = unknown;
  priority = priority;
  created_at = 0;
  metadata = [];
}

abbrev first : Dependency
first = dependency_of "a" [] (pos 1)

abbrev second : Dependency
second = dependency_of "b" ("a" ∷ []) (pos 2)

abbrev with_first : DependencyGraph
with_first = (add_dependency first new_dependency_graph).1

abbrev with_both : DependencyGraph
with_both = (add_dependency second with_first).1

no_edge : {x y : String} → Reaches new_dependency_graph x y → ⊥
unfolding lookup
no_edge (step e) = false≢true e
no_edge (more e p) = false≢true e

empty-IsAcyclic : IsAcyclic new_dependency_graph
empty-IsAcyclic x p = no_edge p

none_is_not_some : {A : Type 0} {a : A} → none ≡ some a → ⊥
none_is_not_some h = cc

empty-IsKeyed : IsKeyed new_dependency_graph
unfolding lookup
empty-IsKeyed k d q = absurd (none_is_not_some q)

first-IsAcyclic : IsAcyclic with_first
first-IsAcyclic = add_dependency-IsAcyclic new_dependency_graph first empty-IsAcyclic

add_dependency-IsAcyclic_example : IsAcyclic (add_dependency second with_first).1
add_dependency-IsAcyclic_example = add_dependency-IsAcyclic with_first second first-IsAcyclic

both-IsAcyclic : IsAcyclic with_both
both-IsAcyclic = add_dependency-IsAcyclic with_first second first-IsAcyclic

both-IsKeyed : IsKeyed with_both
both-IsKeyed =
    add_dependency-IsKeyed with_first second
      (add_dependency-IsKeyed new_dependency_graph first empty-IsKeyed)

-- The first one again, now waiting for the second one.
abbrev turned : Dependency
turned = dependency_of "a" ("b" ∷ []) (pos 1)

add_dependency-refuses_example :
    ((add_dependency turned with_both).0 ≡ none)
    ↔ ((x : String) → contains_string turned.depends_on x ≡ true → LeadsTo with_both "a" x → ⊥)
add_dependency-refuses_example = add_dependency-refuses with_both turned

turned_refused : would_create_cycle with_both turned ≡ true
unfolding would_create_cycle add_dependency lookup insert
turned_refused = refl

abbrev keys : List String
keys = "b" ∷ "a" ∷ []

resolve_dependency_order_example :
    (result : List Dependency) × ((resolve_dependency_order with_both keys ≡ some (ok result))
      × (IsOrdered with_both [] result
          × ((x : String)
              → contains_string keys x ≡ true
              → has_key x with_both.dependencies ≡ true
              → contains_string (ids_of result) x ≡ true)))
resolve_dependency_order_example =
    resolve_dependency_order_lem with_both both-IsKeyed both-IsAcyclic keys

keys-all : (k : String) → has_key k with_both.dependencies ≡ true → contains_string keys k ≡ true
unfolding add_dependency would_create_cycle lookup insert
keys-all k h = ground arith

ready_or_blocked_example :
    IsByPriority (get_ready_dependencies with_both keys)
    × ((d : Dependency)
        → (Among d (get_ready_dependencies with_both keys)
            ↔ (InGraph with_both d × (is_dependency_ready with_both d ≡ true)))
          × (Among d (get_blocked_dependencies with_both keys)
              ↔ (InGraph with_both d × (is_dependency_ready with_both d ≡ false))))
ready_or_blocked_example = ready_or_blocked with_both keys keys-all
