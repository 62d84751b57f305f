-- ===== src/Dependency/Cycles.antt =====
-- The search for a cycle: what it finds, and that its fuel is enough.
use aws_multi_eni_controller.Prelude.{
  ℕ, zero, suc, ◌<◌, String, true, false, ◌≡◌, ap, subst, List, [], ◌∷◌, none, some, ◌⊎◌, inl, inr,
  arith, eq_iff, str_eq, is_some, contains_string, Bool-cases, Option-cases, false≢true,
}
use aws_multi_eni_controller.Prelude.Maps.{lookup}
use aws_multi_eni_controller.Dependency.{
  DependencyGraph, depends_of, Searched, after_search, explore, has_cycle,
}
use aws_multi_eni_controller.Dependency.Reaches.{
  Edge, Reaches, step, more, left_out, left_out-Within, left_out-cons, Within, Within-cons,
  Within-trans, contains-cases, contains-first,
}

module _ (g : DependencyGraph) (target : String) where
  abbrev pub LeadsTo : String → Type 0
  LeadsTo x = (x ≡ target) ⊎ Reaches g x target

  -- `x` is not the target, and what it depends on is in the list.
  abbrev pub IsClosed : List String → String → Type 0
  IsClosed visited x =
      (str_eq x target ≡ false) × Within (depends_of (lookup x g.dependencies)) visited

  -- A search from `ids` that knew `before`: either one of them leads to the target, or all are visited
  -- and so is what the newly visited ones depend on.
  abbrev pub IsSearched : List String → List String → Searched → Type 0
  IsSearched ids before none = ⊥
  IsSearched ids before (some (true, after)) =
      (x : String) × ((contains_string ids x ≡ true) × LeadsTo x)
  IsSearched ids before (some (false, after)) =
      Within before after
      × (Within ids after
          × ((x : String)
              → contains_string after x ≡ true
              → (contains_string before x ≡ true) ⊎ IsClosed after x))

  joined :
      (id : String) (ids before visited : List String) (r : Searched)
      → IsSearched (id ∷ []) before (some (false, visited))
      → IsSearched ids visited r
      → IsSearched (id ∷ ids) before r
  joined id ids before visited none h k = absurd k
  joined id ids before visited (some (true, after)) h k = (k.0, (ground arith, k.1.1))
  joined id ids before visited (some (false, after)) h k = (
    Within-trans before visited after h.0 k.0,
    (
      λ x m. elim (contains-cases id ids x m) [
        | inl e ↦
            k.0 x
              (h.1.0 x (subst (λ y. contains_string (id ∷ []) y ≡ true) e (contains-first id [])))
        | inr n ↦ k.1.0 x n
      ],
      λ x m. elim (k.1.1 x m) [
        | inr cl ↦ inr cl
        | inl old ↦ elim (h.1.1 x old) [
          | inl older ↦ inl older
          | inr cl ↦ inr (cl.0, Within-trans _ visited after cl.1 k.0)
        ]
      ],
    ),
  )

  after_search-IsSearched :
      (id : String) (ids before : List String) (rest : List String → Searched) (r : Searched)
      → IsSearched (id ∷ []) before r
      → ((visited : List String) → Within before visited → IsSearched ids visited (rest visited))
      → IsSearched (id ∷ ids) before (after_search g target rest r)
  unfolding after_search
  after_search-IsSearched id ids before rest none h k = absurd h
  after_search-IsSearched id ids before rest (some (true, after)) h k = (
    h.0,
    (
      elim (contains-cases id [] h.0 h.1.0) [
        | inl e ↦ subst (λ y. contains_string (id ∷ ids) y ≡ true) e (contains-first id ids)
        | inr n ↦ absurd (false≢true n)
      ],
      h.1.1,
    ),
  )
  after_search-IsSearched id ids before rest (some (false, visited)) h k =
      joined id ids before visited (rest visited) h (k visited h.0)

  pub explore-IsSearched :
      (fuel : ℕ) (search : String → List String → Searched)
      → ((id : String) (before : List String)
          → left_out before g.dependencies < fuel
          → IsSearched (id ∷ []) before (search id before))
      → (ids before : List String) → left_out before g.dependencies < fuel
      → IsSearched ids before (explore g target search ids before)
  unfolding explore
  explore-IsSearched fuel search h [] before k =
      (λ x m. m, (λ x m. absurd (false≢true m), λ x m. inl m))
  explore-IsSearched fuel search h (id ∷ ids) before k =
      after_search-IsSearched id ids before (explore g target search ids) (search id before)
        (h id before k)
        (λ visited w.
          explore-IsSearched fuel search h ids visited
            (omega (arith, left_out-Within before visited g.dependencies w, k)))

  -- What the search below an ID says of the ID.
  above :
      (id : String) (before : List String) (r : Searched)
      → str_eq id target ≡ false
      → IsSearched (depends_of (lookup id g.dependencies)) (id ∷ before) r
      → IsSearched (id ∷ []) before r
  above id before none f h = absurd h
  above id before (some (true, after)) f h = (
    id,
    (
      contains-first id [],
      inr (elim h.1.1 [ inl e ↦ step (subst (Edge g id) e h.1.0) | inr p ↦ more h.1.0 p ]),
    ),
  )
  above id before (some (false, after)) f h = (
    λ x m. h.0 x (Within-cons id before x m),
    (
      λ x m. elim (contains-cases id [] x m) [
        | inl e ↦
            h.0 x (subst (λ y. contains_string (id ∷ before) y ≡ true) e (contains-first id before))
        | inr n ↦ absurd (false≢true n)
      ],
      λ x m. elim (h.1.1 x m) [
        | inr cl ↦ inr cl
        | inl old ↦ elim (contains-cases id before x old) [
          | inl e ↦ inr (subst (IsClosed after) e (f, h.1.0))
          | inr n ↦ inl n
        ]
      ],
    ),
  )

  below-IsSearched :
      (fuel : ℕ) (id : String) (before : List String)
      → ((ids : List String)
          → left_out (id ∷ before) g.dependencies < fuel
          → IsSearched ids
              (id ∷ before)
              (explore g target (has_cycle g target fuel) ids (id ∷ before)))
      → left_out before g.dependencies < suc fuel
      → contains_string before id ≡ false
      → IsSearched (depends_of (lookup id g.dependencies)) (id ∷ before) (
          explore g target
            (has_cycle g target fuel)
            (depends_of (lookup id g.dependencies))
            (id ∷ before))
  unfolding explore
  below-IsSearched fuel id before h k f = elim (Option-cases (lookup id g.dependencies)) [
    | inl q ↦ rw (q) (λ x m. m, (λ x m. absurd (false≢true m), λ x m. inl m))
    | inr (d, q) ↦
        h (depends_of (lookup id g.dependencies))
          (omega (arith, left_out-cons id before g.dependencies f (ap is_some q), k))
  ]

  -- With more fuel than there are dependencies not yet visited, the search ends, and is right.
  pub has_cycle-IsSearched :
      (fuel : ℕ) (id : String) (before : List String)
      → left_out before g.dependencies < fuel
      → IsSearched (id ∷ []) before (has_cycle g target fuel id before)
  unfolding has_cycle
  has_cycle-IsSearched zero id before k = absurd (omega (arith, k))
  has_cycle-IsSearched (suc fuel) id before k =
      let below =
        explore g target (has_cycle g target fuel) (depends_of (lookup id g.dependencies))
          (id ∷ before) in
      elim (Bool-cases (str_eq id target)) [
        | inl t ↦ rw (t, has_cycle) (id, (contains-first id [], inl ((eq_iff id target).0 t)))
        | inr f ↦ elim (Bool-cases (contains_string before id)) [
          | inl t ↦
              rw (f, t, has_cycle)
                (
                  λ x m. m,
                  (
                    λ x m. elim (contains-cases id [] x m) [
                      | inl e ↦ subst (λ y. contains_string before y ≡ true) e t
                      | inr n ↦ absurd (false≢true n)
                    ],
                    λ x m. inl m,
                  ),
                )
          | inr n ↦
              rw (f, n, has_cycle)
                (above id before below f (
                  below-IsSearched fuel id before
                    (λ ids m.
                      explore-IsSearched fuel (has_cycle g target fuel)
                        (λ x v l. has_cycle-IsSearched fuel x v l) ids (id ∷ before) m)
                    k n))
        ]
      ]
