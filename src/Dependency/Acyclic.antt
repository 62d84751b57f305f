-- ===== src/Dependency/Acyclic.antt =====
-- The graph never has a cycle.
use aws_multi_eni_controller.Prelude.{
  suc, String, true, false, ◌≡◌, refl, sym, ◌∙◌, subst, List, [], none, some, ◌⊎◌, inl, inr, ◌↔◌,
  arith, eq_iff, eq_refl, str_eq, contains_string, length, Bool-cases, false≢true,
}
use aws_multi_eni_controller.Prelude.Maps.{insert, lookup-insert, lookup-delete}
use aws_multi_eni_controller.Dependency.{
  Dependency, DependencyGraph, Searched, explore, has_cycle, found, would_create_cycle,
  add_dependency, remove_dependency,
}
use aws_multi_eni_controller.Dependency.Reaches.{
  Edge, Reaches, step, more, IsAcyclic, left_out-length, Within,
}
use aws_multi_eni_controller.Dependency.Cycles.{
  LeadsTo, IsClosed, IsSearched, explore-IsSearched, has_cycle-IsSearched,
}

some_is_not_none : {A : Type 0} {a : A} → some a ≡ none → ⊥
some_is_not_none h = cc

module _ (g : DependencyGraph) (dep : Dependency) where
  -- The visited IDs of a search that found no cycle.
  abbrev IsClear : List String → Type 0
  IsClear visited =
      Within dep.depends_on visited
      × ((x : String) → contains_string visited x ≡ true → IsClosed g dep.id visited x)

  abbrev search : Searched
  search =
      explore g dep.id (has_cycle g dep.id (suc (suc (length g.dependencies)))) dep.depends_on []

  search-IsSearched : IsSearched g dep.id dep.depends_on [] search
  search-IsSearched =
      explore-IsSearched g dep.id (suc (suc (length g.dependencies))) _
        (λ id before k. has_cycle-IsSearched g dep.id _ id before k) dep.depends_on []
        (omega (arith, left_out-length [] g.dependencies))

  found-true :
      (r : Searched)
      → IsSearched g dep.id dep.depends_on [] r
      → found r ≡ true
      → (x : String) × ((contains_string dep.depends_on x ≡ true) × LeadsTo g dep.id x)
  found-true none h k = absurd h
  found-true (some (true, visited)) h k = h
  found-true (some (false, visited)) h k = absurd (false≢true k)

  found-false :
      (r : Searched)
      → IsSearched g dep.id dep.depends_on [] r
      → found r ≡ false
      → (visited : List String) × IsClear visited
  found-false none h k = absurd h
  found-false (some (true, visited)) h k = absurd (false≢true (sym k))
  found-false (some (false, visited)) h k =
      (visited, (h.1.0, λ x m. elim (h.1.1 x m) [ inl n ↦ absurd (false≢true n) | inr cl ↦ cl ]))

  -- A path that starts at a visited ID stays there, in a graph with the same edges from those.
  stays :
      (h : DependencyGraph) (visited : List String)
      → IsClear visited
      → ((x y : String) → str_eq x dep.id ≡ false → Edge h x y → Edge g x y)
      → {x y : String} → Reaches h x y
      → contains_string visited x ≡ true
      → contains_string visited y ≡ true
  stays h visited k same (step {x = x} {y = y} e) m = let cl = k.1 x m in cl.1 y (same x y cl.0 e)
  stays h visited k same (more {x = x} {y = y} e p) m =
      let cl = k.1 x m in stays h visited k same p (cl.1 y (same x y cl.0 e))

  target_not_visited :
      (visited : List String) → IsClear visited → contains_string visited dep.id ≡ true → ⊥
  target_not_visited visited k m = false≢true (sym (k.1 dep.id m).0 ∙ eq_refl dep.id)

  no_path :
      (visited : List String)
      → IsClear visited
      → (x : String) → contains_string dep.depends_on x ≡ true
      → LeadsTo g dep.id x
      → ⊥
  no_path visited k x m (inl e) =
      target_not_visited visited k (subst (λ y. contains_string visited y ≡ true) e (k.0 x m))
  no_path visited k x m (inr p) =
      target_not_visited visited k (stays g visited k (λ y z f e. e) p (k.0 x m))

  abbrev added : DependencyGraph
  added = record g { dependencies = insert dep.id dep g.dependencies }

  same-Edge : (x y : String) → str_eq x dep.id ≡ false → Edge added x y → Edge g x y
  same-Edge x y f e =
      ground (arith, lookup-insert dep.id x dep g.dependencies, eq_iff x dep.id, eq_iff dep.id x)

  new-Edge : (y : String) → Edge added dep.id y → contains_string dep.depends_on y ≡ true
  new-Edge y e = ground (arith, lookup-insert dep.id dep.id dep g.dependencies, eq_refl dep.id)

  -- A path either has old edges only, or passes the new dependency and ends among the visited IDs.
  abbrev Splits : List String → String → String → Type 0
  Splits visited x y =
      Reaches g x y ⊎ ((contains_string visited y ≡ true) × ((x ≡ dep.id) ⊎ Reaches added x dep.id))

  splits :
      (visited : List String)
      → IsClear visited
      → {x y : String} → Reaches added x y
      → Splits visited x y
  splits visited k (step {x = x} {y = y} e) = elim (Bool-cases (str_eq x dep.id)) [
    | inl t ↦
        let same = (eq_iff x dep.id).0 t in
        inr (k.0 y (new-Edge y (subst (λ z. Edge added z y) same e)), inl same)
    | inr f ↦ inl (step (same-Edge x y f e))
  ]
  splits visited k (more {x = x} {y = y} {z = z} e p) = elim (Bool-cases (str_eq x dep.id)) [
    | inl t ↦
        let same = (eq_iff x dep.id).0 t in
        inr (
          stays added visited k same-Edge p
              (k.0 y (new-Edge y (subst (λ u. Edge added u y) same e))),
          inl same,
        )
    | inr f ↦ elim (splits visited k p) [
      | inl q ↦ inl (more (same-Edge x y f e) q)
      | inr (m, inl d) ↦ inr (m, inr (step (subst (Edge added x) d e)))
      | inr (m, inr q) ↦ inr (m, inr (more e q))
    ]
  ]

  added-IsAcyclic : (visited : List String) → IsClear visited → IsAcyclic g → IsAcyclic added
  added-IsAcyclic visited k h x p = elim (splits visited k p) [
    | inl q ↦ h x q
    | inr (m, inl d) ↦
        target_not_visited visited k (subst (λ y. contains_string visited y ≡ true) d m)
    | inr (m, inr q) ↦ target_not_visited visited k (stays added visited k same-Edge q m)
  ]

  -- AddDependency keeps the graph free of cycles, whether it refuses or replaces a dependency of the
  -- same ID.
  pub add_dependency-IsAcyclic : IsAcyclic g → IsAcyclic (add_dependency dep g).1
  unfolding add_dependency would_create_cycle
  add_dependency-IsAcyclic h = elim (Bool-cases (would_create_cycle g dep)) [
    | inl t ↦ rw (t, add_dependency) h
    | inr f ↦
        let k = found-false search search-IsSearched f in
        rw (f, add_dependency) (added-IsAcyclic k.0 k.1 h)
  ]

  -- AddDependency refuses just those dependencies that would close a cycle: it reports no error if and
  -- only if nothing that the dependency depends on is the dependency or leads to it in the graph.
  pub add_dependency-refuses :
      ((add_dependency dep g).0 ≡ none)
      ↔ ((x : String) → contains_string dep.depends_on x ≡ true → LeadsTo g dep.id x → ⊥)
  unfolding add_dependency would_create_cycle
  add_dependency-refuses = (
    λ e. elim (Bool-cases (would_create_cycle g dep)) [
      | inl t ↦ absurd (some_is_not_none (rw (t, add_dependency) at e))
      | inr f ↦ let k = found-false search search-IsSearched f in no_path k.0 k.1
    ],
    λ h. elim (Bool-cases (would_create_cycle g dep)) [
      | inl t ↦ let k = found-true search search-IsSearched t in absurd (h k.0 k.1.0 k.1.1)
      | inr f ↦ rw (f, add_dependency) refl
    ],
  )

-- Removing a dependency adds no edge, so the graph stays free of cycles.
fewer_edges :
    (g : DependencyGraph) (id x y : String) → Edge (remove_dependency id g) x y → Edge g x y
unfolding remove_dependency
fewer_edges g id x y e = elim (Bool-cases (str_eq id x)) [
  | inl t ↦ absurd (ground (arith, lookup-delete id x g.dependencies))
  | inr f ↦ ground (arith, lookup-delete id x g.dependencies)
]

fewer_paths :
    (g : DependencyGraph) (id : String) {x y : String}
    → Reaches (remove_dependency id g) x y
    → Reaches g x y
fewer_paths g id (step {x = x} {y = y} e) = step (fewer_edges g id x y e)
fewer_paths g id (more {x = x} {y = y} e p) = more (fewer_edges g id x y e) (fewer_paths g id p)

pub remove_dependency-IsAcyclic :
    (g : DependencyGraph) (id : String) → IsAcyclic g → IsAcyclic (remove_dependency id g)
remove_dependency-IsAcyclic g id h x p = h x (fewer_paths g id p)
