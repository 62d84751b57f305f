-- ===== src/Dependency/Manager/Added.antt =====
-- What an addition to the graph that succeeds leaves there.
use aws_multi_eni_controller.Prelude.{
  String, true, ◌≡◌, refl, none, some, inl, inr, arith, eq_refl, Bool-cases, Option-cases,
}
use aws_multi_eni_controller.Prelude.Maps.{lookup, has_key, lookup-insert}
use aws_multi_eni_controller.Controller.Creation.{Ended, value, error, panics}
use aws_multi_eni_controller.Dependency.{
  Dependency, DependencyGraph, would_create_cycle, add_dependency,
}
use aws_multi_eni_controller.Dependency.Manager.{after_add, add_or_fail}

abbrev pub Holds : String → DependencyGraph → Type 0
Holds id g = has_key id g.dependencies ≡ true

some_is_not_none : {A : Type 0} {a : A} → some a ≡ none → ⊥
some_is_not_none h = cc

error_value : {A : Type 0} {a : A} {e : String} → error e ≡ value a → ⊥
error_value h = cc

panics_value : {A : Type 0} {a : A} → panics ≡ value a → ⊥
panics_value h = cc

pub Holds-added :
    (dep : Dependency) (g : DependencyGraph)
    → (add_dependency dep g).0 ≡ none
    → Holds dep.id (add_dependency dep g).1
unfolding add_dependency
Holds-added dep g h = elim (Bool-cases (would_create_cycle g dep)) [
  | inl t ↦ absurd (some_is_not_none (rw (t, add_dependency) at h))
  | inr f ↦
      rw (f, add_dependency)
        (ground (arith, lookup-insert dep.id dep.id dep g.dependencies, eq_refl dep.id))
]

pub Holds-add :
    (dep : Dependency) (id : String) (g : DependencyGraph)
    → Holds id g
    → Holds id (add_dependency dep g).1
unfolding add_dependency
Holds-add dep id g h = elim (Bool-cases (would_create_cycle g dep)) [
  | inl t ↦ rw (t, add_dependency) h
  | inr f ↦ rw (f, add_dependency) (ground (arith, lookup-insert dep.id id dep g.dependencies))
]

pub lookup-added :
    (dep : Dependency) (g : DependencyGraph)
    → (add_dependency dep g).0 ≡ none
    → lookup dep.id (add_dependency dep g).1.dependencies ≡ some dep
unfolding add_dependency
lookup-added dep g h = elim (Bool-cases (would_create_cycle g dep)) [
  | inl t ↦ absurd (some_is_not_none (rw (t, add_dependency) at h))
  | inr f ↦
      rw (f, add_dependency)
        (ground (arith, lookup-insert dep.id dep.id dep g.dependencies, eq_refl dep.id))
]

-- A success went on after the dependency was added.
pub add_or_fail-value :
    (message : String) (dep : Dependency)
    (rest : DependencyGraph → Ended (Unit {0}) × DependencyGraph) (g : DependencyGraph)
    → (add_or_fail message dep rest g).0 ≡ value tt
    → ((add_dependency dep g).0 ≡ none)
      × (add_or_fail message dep rest g ≡ rest (add_dependency dep g).1)
unfolding add_or_fail after_add
add_or_fail-value message dep rest g h = elim (Option-cases (add_dependency dep g).0) [
  | inl q ↦ (q, rw (q, add_or_fail) refl)
  | inr (e, q) ↦ absurd (error_value (rw (q, add_or_fail) at h))
]
