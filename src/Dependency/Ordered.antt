-- ===== src/Dependency/Ordered.antt =====
-- Ordered dependencies, and the loops of the visits.
use aws_multi_eni_controller.Prelude.{
  String, true, ◌||◌, ◌≡◌, sym, ap, ◌∙◌, subst, List, [], ◌∷◌, ◌++◌, Option, none, some, inl, inr,
  arith, eq_iff, str_eq, contains_string, Bool-cases, false≢true,
}
use aws_multi_eni_controller.Prelude.Maps.{lookup, has_key, lookup-insert}
use aws_multi_eni_controller.Prelude.State.{ok, err}
use aws_multi_eni_controller.Dependency.{
  Dependency, DependencyGraph, would_create_cycle, add_dependency, Visits, after_visit, visit_all,
}
use aws_multi_eni_controller.Dependency.Reaches.{
  Within, Within-cons, Within-trans, contains-cases, contains-first,
}

-- A dependency stands in the map under its own ID.
abbrev pub IsKeyed : DependencyGraph → Type 0
IsKeyed g = (k : String) (d : Dependency) → lookup k g.dependencies ≡ some d → d.id ≡ k

some_injective : {A : Type 0} {a b : A} → some a ≡ some b → a ≡ b
some_injective h = cc

some_not_none : {A : Type 0} {a : A} {o : Option A} → o ≡ none → o ≡ some a → ⊥
some_not_none h k = cc

-- AddDependency stores a dependency under its own ID.
pub add_dependency-IsKeyed :
    (g : DependencyGraph) (dep : Dependency) → IsKeyed g → IsKeyed (add_dependency dep g).1
unfolding add_dependency
add_dependency-IsKeyed g dep h = elim (Bool-cases (would_create_cycle g dep)) [
  | inl t ↦ rw (t, add_dependency) h
  | inr f ↦
      rw (f, add_dependency)
        (λ k d q. elim (Bool-cases (str_eq dep.id k)) [
          | inl same ↦
              let e = some_injective (rw (lookup-insert dep.id k dep g.dependencies, same) at q) in
              ap (λ z. z.id) (sym e) ∙ (eq_iff dep.id k).0 same
          | inr other ↦ h k d (rw (lookup-insert dep.id k dep g.dependencies, other) at q)
        ])
]

abbrev pub ids_of : List Dependency → List String
ids_of [] = []
ids_of (d ∷ ds) = d.id ∷ ids_of ds

pub ids_of-append :
    (ds : List Dependency) (d : Dependency) (x : String)
    → contains_string (ids_of (ds ++ d ∷ [])) x ≡ (contains_string (ids_of ds) x || str_eq d.id x)
ids_of-append [] d x = ground arith
ids_of-append (e ∷ ds) d x = ground (arith, ids_of-append ds d x)

module _ (g : DependencyGraph) where
  -- What it depends on, so far as it is in the graph, is in the list.
  abbrev pub DependsWithin : List String → Dependency → Type 0
  DependsWithin before d =
      (x : String)
      → contains_string d.depends_on x ≡ true
      → has_key x g.dependencies ≡ true
      → contains_string before x ≡ true

  -- Each is in the graph, and comes after all of the graph that it depends on.
  abbrev pub IsOrdered : List String → List Dependency → Type 0
  IsOrdered before [] = Unit
  IsOrdered before (d ∷ ds) =
      (lookup d.id g.dependencies ≡ some d) × DependsWithin before d × IsOrdered (d.id ∷ before) ds

  pub IsOrdered-append :
      (before : List String) (ds : List Dependency) (d : Dependency)
      → IsOrdered before ds
      → lookup d.id g.dependencies ≡ some d
      → ((x : String)
          → contains_string d.depends_on x ≡ true
          → has_key x g.dependencies ≡ true
          → (contains_string before x || contains_string (ids_of ds) x) ≡ true)
      → IsOrdered before (ds ++ d ∷ [])
  IsOrdered-append before [] d h q k = (q, λ x m n. ground (arith, k x m n), tt)
  IsOrdered-append before (e ∷ ds) d h q k =
      (h.0, h.1, IsOrdered-append (e.id ∷ before) ds d h.2 q (λ x m n. ground (arith, k x m n)))

  -- The dependencies so far are ordered, and those of all visited IDs are there.
  abbrev pub IsGood : List String × List Dependency → Type 0
  IsGood s =
      IsOrdered [] s.1
      × ((x : String)
          → contains_string s.0 x ≡ true
          → has_key x g.dependencies ≡ true
          → contains_string (ids_of s.1) x ≡ true)

  -- Visits of `ids` succeed.
  abbrev pub IsVisited : List String → List String → Visits → Type 0
  IsVisited ids before none = ⊥
  IsVisited ids before (some (err e)) = ⊥
  IsVisited ids before (some (ok s)) = IsGood s × Within before s.0 × Within ids s.0

  joined :
      (id : String) (ids before visited : List String) (r : Visits)
      → Within before visited
      → Within (id ∷ []) visited
      → IsVisited ids visited r
      → IsVisited (id ∷ ids) before r
  joined id ids before visited none h m k = absurd k
  joined id ids before visited (some (err e)) h m k = absurd k
  joined id ids before visited (some (ok s)) h m k = (
    k.0,
    Within-trans before visited s.0 h k.1,
    λ x n. elim (contains-cases id ids x n) [
      | inl e ↦
          k.1 x (m x (subst (λ y. contains_string (id ∷ []) y ≡ true) e (contains-first id [])))
      | inr o ↦ k.2 x o
    ],
  )

  after_visit-IsVisited :
      (id : String) (ids before : List String) (rest : List String × List Dependency → Visits)
      (r : Visits)
      → IsVisited (id ∷ []) before r
      → ((s : List String × List Dependency) → IsGood s → IsVisited ids s.0 (rest s))
      → IsVisited (id ∷ ids) before (after_visit g rest r)
  unfolding after_visit
  after_visit-IsVisited id ids before rest none h k = absurd h
  after_visit-IsVisited id ids before rest (some (err e)) h k = absurd h
  after_visit-IsVisited id ids before rest (some (ok s)) h k =
      joined id ids before s.0 (rest s) h.1 h.2 (k s h.0)

  pub visit_all-IsVisited :
      (visit_one : String → List String × List Dependency → Visits) (ids : List String)
      → ((id : String) (s : List String × List Dependency)
          → contains_string ids id ≡ true
          → IsGood s
          → IsVisited (id ∷ []) s.0 (visit_one id s))
      → (s : List String × List Dependency) → IsGood s
      → IsVisited ids s.0 (visit_all g visit_one ids s)
  unfolding visit_all
  visit_all-IsVisited visit_one [] h s k = (k, λ x m. m, λ x m. absurd (false≢true m))
  visit_all-IsVisited visit_one (id ∷ ids) h s k =
      after_visit-IsVisited id ids s.0 (visit_all g visit_one ids) (visit_one id s)
        (h id s (contains-first id ids) k)
        (λ v l. visit_all-IsVisited visit_one ids (λ x u m i. h x u (Within-cons id ids x m) i) v l)
