-- ===== src/Dependency/Order.antt =====
-- The order in which dependencies are resolved.
use aws_multi_eni_controller.Prelude.{
  ℕ, zero, suc, ◌<◌, String, true, false, ◌≡◌, refl, sym, ap, ◌∙◌, subst, List, [], ◌∷◌, Option,
  none, some, inl, inr, arith, eq_iff, is_some, contains_string, length, Bool-cases, Option-cases,
  false≢true,
}
use aws_multi_eni_controller.Prelude.Maps.{lookup, has_key}
use aws_multi_eni_controller.Prelude.State.{ok, err}
use aws_multi_eni_controller.Dependency.{
  Dependency, DependencyGraph, depends_of, Visits, after_visit, visit_all, finish_visit, visit,
  ordered_of, resolve_dependency_order,
}
use aws_multi_eni_controller.Dependency.Reaches.{
  Edge, Reaches, step, extend, IsAcyclic, left_out, left_out-length, left_out-cons, Within,
  Within-cons, Within-trans, contains-cases, contains-first,
}
use aws_multi_eni_controller.Dependency.Ordered.{
  IsKeyed, ids_of, ids_of-append, IsOrdered, IsOrdered-append, IsGood, IsVisited,
  visit_all-IsVisited,
}

module _ (g : DependencyGraph) (keyed : IsKeyed g) (acyclic : IsAcyclic g) where
  finish-Within :
      (id : String) (before after : List String)
      → Within before after
      → Within before (id ∷ after) × Within (id ∷ []) (id ∷ after)
  finish-Within id before after h = (
    Within-trans before after (id ∷ after) h (Within-cons id after),
    λ x m. elim (contains-cases id [] x m) [
      | inl e ↦ subst (λ y. contains_string (id ∷ after) y ≡ true) e (contains-first id after)
      | inr n ↦ absurd (false≢true n)
    ],
  )

  finish_visit-IsVisited :
      (id : String) (dep : Option Dependency) (before : List String)
      (s : List String × List Dependency)
      → lookup id g.dependencies ≡ dep
      → IsVisited g (depends_of dep) before (some (ok s))
      → IsVisited g (id ∷ []) before (finish_visit g id dep s)
  unfolding finish_visit
  finish_visit-IsVisited id none before s q h =
      let w = finish-Within id before s.0 h.1 in
      (
        (
          h.0.0,
          λ x m k. elim (contains-cases id s.0 x m) [
            | inl e ↦ absurd (
                false≢true
                  (sym (ap is_some q) ∙ subst (λ y. has_key y g.dependencies ≡ true) (sym e) k))
            | inr o ↦ h.0.1 x o k
          ],
        ),
        w.0,
        w.1,
      )
  finish_visit-IsVisited id (some d) before s q h =
      let w = finish-Within id before s.0 h.1 in
      let e = keyed id d q in
      (
        (
          IsOrdered-append g [] s.1 d h.0.0 (ap (λ y. lookup y g.dependencies) e ∙ q)
              (λ x m k. h.0.1 x (h.2 x m) k),
          λ x m k. elim (contains-cases id s.0 x m) [
            | inl same ↦ ground (arith, ids_of-append s.1 d x, eq_iff d.id x, eq_iff id x, e, same)
            | inr o ↦ ground (arith, ids_of-append s.1 d x, h.0.1 x o k)
          ],
        ),
        w.0,
        w.1,
      )

  below-IsVisited :
      (id : String) (dep : Option Dependency) (before : List String) (r : Visits)
      → lookup id g.dependencies ≡ dep
      → IsVisited g (depends_of dep) before r
      → IsVisited g (id ∷ []) before (after_visit g (finish_visit g id dep) r)
  unfolding after_visit
  below-IsVisited id dep before none q h = absurd h
  below-IsVisited id dep before (some (err e)) q h = absurd h
  below-IsVisited id dep before (some (ok s)) q h = finish_visit-IsVisited id dep before s q h

  -- Each of these leads to the ID.
  abbrev AllReach : List String → String → Type 0
  AllReach visiting id = (v : String) → contains_string visiting v ≡ true → Reaches g v id

  AllReach-below :
      (visiting : List String) (id x : String)
      → AllReach visiting id
      → Edge g id x
      → AllReach (id ∷ visiting) x
  AllReach-below visiting id x h e v m = elim (contains-cases id visiting v m) [
    | inl same ↦ subst (λ y. Reaches g y x) same (step e)
    | inr o ↦ extend (h v o) e
  ]

  -- The visits below an ID, if the visit of one ID succeeds on this fuel.
  children-IsVisited :
      (fuel : ℕ) (visiting : List String) (id : String) (s : List String × List Dependency)
      → left_out visiting g.dependencies < suc fuel
      → contains_string visiting id ≡ false
      → ((x : String) (t : List String × List Dependency)
          → left_out (id ∷ visiting) g.dependencies < fuel
          → Edge g id x
          → IsGood g t
          → IsVisited g (x ∷ []) t.0 (visit g fuel (id ∷ visiting) x t))
      → IsGood g s
      → IsVisited g
          (depends_of (lookup id g.dependencies))
          s.0
          (visit_all g (visit g fuel (id ∷ visiting)) (depends_of (lookup id g.dependencies)) s)
  unfolding visit_all
  children-IsVisited fuel visiting id s k f h i = elim (Option-cases (lookup id g.dependencies)) [
    | inl q ↦ rw (q) (i, λ x m. m, λ x m. absurd (false≢true m))
    | inr (d, q) ↦
        visit_all-IsVisited g (visit g fuel (id ∷ visiting)) (depends_of (lookup id g.dependencies))
          (λ x t m j.
            h x t (omega (arith, left_out-cons id visiting g.dependencies f (ap is_some q), k)) m j)
          s i
  ]

  visit-IsVisited :
      (fuel : ℕ) (visiting : List String) (id : String) (s : List String × List Dependency)
      → left_out visiting g.dependencies < fuel
      → AllReach visiting id
      → IsGood g s
      → IsVisited g (id ∷ []) s.0 (visit g fuel visiting id s)
  unfolding visit
  visit-IsVisited zero visiting id s k p i = absurd (omega (arith, k))
  visit-IsVisited (suc fuel) visiting id s k p i = elim (Bool-cases (contains_string visiting id)) [
    | inl t ↦ absurd (acyclic id (p id t))
    | inr f ↦ elim (Bool-cases (contains_string s.0 id)) [
      | inl t ↦
          rw (f, t, visit)
            (
              i,
              λ x m. m,
              λ x m. elim (contains-cases id [] x m) [
                | inl e ↦ subst (λ y. contains_string s.0 y ≡ true) e t
                | inr n ↦ absurd (false≢true n)
              ],
            )
      | inr n ↦
          rw (f, n, visit)
            (below-IsVisited id (lookup id g.dependencies) s.0 _ refl (
              children-IsVisited fuel visiting id s k f
                (λ x t l e j.
                  visit-IsVisited fuel (id ∷ visiting) x t l (AllReach-below visiting id x p e) j)
                i))
    ]
  ]

  resolved :
      (order : List String) (r : Visits)
      → IsVisited g order [] r
      → (result : List Dependency) × ((ordered_of g r ≡ some (ok result))
          × (IsOrdered g [] result
              × ((x : String)
                  → contains_string order x ≡ true
                  → has_key x g.dependencies ≡ true
                  → contains_string (ids_of result) x ≡ true)))
  resolved order none h = absurd h
  resolved order (some (err e)) h = absurd h
  resolved order (some (ok s)) h = (s.1, (refl, (h.0.0, λ x m k. h.0.1 x (h.2 x m) k)))

  -- In a graph with no cycle whose dependencies stand under their own IDs, ResolveDependencyOrder ends
  -- without an error, in whatever order the map is ranged over: the result has the dependency of every
  -- ID that was ranged over, all are of the graph, and each comes after all those that it depends on.
  pub resolve_dependency_order_lem :
      (order : List String)
      → (result : List Dependency) × ((resolve_dependency_order g order ≡ some (ok result))
          × (IsOrdered g [] result
              × ((x : String)
                  → contains_string order x ≡ true
                  → has_key x g.dependencies ≡ true
                  → contains_string (ids_of result) x ≡ true)))
  unfolding resolve_dependency_order
  resolve_dependency_order_lem order = resolved order _ (
      visit_all-IsVisited g (visit g (suc (suc (length g.dependencies))) []) order
        (λ id s m i.
          visit-IsVisited (suc (suc (length g.dependencies))) [] id s
            (omega (arith, left_out-length [] g.dependencies)) (λ v n. absurd (false≢true n)) i)
        ([], []) (tt, λ x m k. absurd (false≢true m)))
