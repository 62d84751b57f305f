-- ===== src/Dependency/Ready.antt =====
-- Which dependencies are ready, and which are blocked.
use aws_multi_eni_controller.Prelude.{
  String, true, false, ◌≡◌, sym, ap, ◌∙◌, List, [], ◌∷◌, ◌⊎◌, inl, inr, ◌↔◌, arith, Bool-cases,
  false≢true, Option, none, some, refl, str_eq, contains_string, eq_iff,
}
use aws_multi_eni_controller.Prelude.Maps.{lookup, has_key}
use aws_multi_eni_controller.Prelude.Int.{ltb_ℤ}
use aws_multi_eni_controller.Dependency.{
  Dependency, DependencyGraph, is_dependency_ready, consed, values_in, keep_ready, keep_blocked,
  insert_by_priority, sort_by_priority, get_ready_dependencies, get_blocked_dependencies,
}

abbrev pub Among : Dependency → List Dependency → Type 0
Among d [] = ⊥
Among d (e ∷ es) = (d ≡ e) ⊎ Among d es

-- The graph has the dependency, under some key.
abbrev pub InGraph : DependencyGraph → Dependency → Type 0
InGraph g d = (k : String) × (lookup k g.dependencies ≡ some d)

none_is_not_some : {A : Type 0} {a : A} → none ≡ some a → ⊥
none_is_not_some h = cc

some_same : (d x : Dependency) → some d ≡ some x → x ≡ d
some_same d x h = cc

-- No priority is below the next one.
abbrev pub IsByPriority : List Dependency → Type 0
IsByPriority [] = Unit
IsByPriority (d ∷ []) = Unit
IsByPriority (d ∷ e ∷ es) = (ltb_ℤ d.priority e.priority ≡ false) × IsByPriority (e ∷ es)

insert_by_priority-IsByPriority :
    (d : Dependency) (es : List Dependency)
    → IsByPriority es
    → IsByPriority (insert_by_priority d es)
unfolding insert_by_priority
insert_by_priority-IsByPriority d [] h = tt
insert_by_priority-IsByPriority d (e ∷ []) h = elim (Bool-cases (ltb_ℤ d.priority e.priority)) [
  | inl t ↦ rw (t, insert_by_priority) (ground arith, tt)
  | inr f ↦ rw (f, insert_by_priority) (f, tt)
]
insert_by_priority-IsByPriority d (e ∷ b ∷ es) h = elim (Bool-cases (ltb_ℤ d.priority e.priority)) [
  | inr f ↦ rw (f, insert_by_priority) (f, h)
  | inl t ↦
      let k = insert_by_priority-IsByPriority d (b ∷ es) h.1 in
      elim (Bool-cases (ltb_ℤ d.priority b.priority)) [
        | inl u ↦ rw (t, u, insert_by_priority) (h.0, rw (u, insert_by_priority) at k)
        | inr v ↦ rw (t, v, insert_by_priority) (ground arith, rw (v, insert_by_priority) at k)
      ]
]

sort_by_priority-IsByPriority : (ds : List Dependency) → IsByPriority (sort_by_priority ds)
unfolding sort_by_priority
sort_by_priority-IsByPriority [] = tt
sort_by_priority-IsByPriority (d ∷ ds) =
    insert_by_priority-IsByPriority d (sort_by_priority ds) (sort_by_priority-IsByPriority ds)

Among-insert :
    (x d : Dependency) (es : List Dependency)
    → Among x (insert_by_priority d es) ↔ ((x ≡ d) ⊎ Among x es)
unfolding insert_by_priority
Among-insert x d [] = (λ h. h, λ h. h)
Among-insert x d (e ∷ es) = elim (Bool-cases (ltb_ℤ d.priority e.priority)) [
  | inr f ↦ rw (f, insert_by_priority) (λ h. h, λ h. h)
  | inl t ↦
      let rest = Among-insert x d es in
      rw (t, insert_by_priority)
        (
          λ h. elim h [
            | inl e ↦ inr (inl e)
            | inr m ↦ elim (rest.0 m) [ inl e ↦ inl e | inr o ↦ inr (inr o) ]
          ],
          λ h. elim h [
            | inl e ↦ inr (rest.1 (inl e))
            | inr (inl e) ↦ inl e
            | inr (inr o) ↦ inr (rest.1 (inr o))
          ],
        )
]

Among-sort : (x : Dependency) (ds : List Dependency) → Among x (sort_by_priority ds) ↔ Among x ds
unfolding sort_by_priority
Among-sort x [] = (λ h. h, λ h. h)
Among-sort x (d ∷ ds) =
    let here = Among-insert x d (sort_by_priority ds) in
    let rest = Among-sort x ds in
    (
      λ h. elim (here.0 h) [ inl e ↦ inl e | inr m ↦ inr (rest.0 m) ],
      λ h. here.1 (elim h [ inl e ↦ inl e | inr m ↦ inr (rest.1 m) ]),
    )

module _ (g : DependencyGraph) where
  Among-ready :
      (x : Dependency) (ds : List Dependency)
      → Among x (keep_ready g ds) ↔ (Among x ds × (is_dependency_ready g x ≡ true))
  unfolding keep_ready
  Among-ready x [] = (λ h. absurd h, λ h. h.0)
  Among-ready x (d ∷ ds) =
      let rest = Among-ready x ds in
      elim (Bool-cases (is_dependency_ready g d)) [
        | inl t ↦
            rw (t, keep_ready)
              (
                λ h. elim h [
                  | inl e ↦ (inl e, ap (is_dependency_ready g) e ∙ t)
                  | inr m ↦ let k = rest.0 m in (inr k.0, k.1)
                ],
                λ h. elim (h.0) [ inl e ↦ inl e | inr m ↦ inr (rest.1 (m, h.1)) ],
              )
        | inr f ↦
            rw (f, keep_ready)
              (
                λ h. let k = rest.0 h in (inr k.0, k.1),
                λ h. elim (h.0) [
                  | inl e ↦ absurd (false≢true (sym f ∙ sym (ap (is_dependency_ready g) e) ∙ h.1))
                  | inr m ↦ rest.1 (m, h.1)
                ],
              )
      ]

  Among-blocked :
      (x : Dependency) (ds : List Dependency)
      → Among x (keep_blocked g ds) ↔ (Among x ds × (is_dependency_ready g x ≡ false))
  unfolding keep_blocked
  Among-blocked x [] = (λ h. absurd h, λ h. h.0)
  Among-blocked x (d ∷ ds) =
      let rest = Among-blocked x ds in
      elim (Bool-cases (is_dependency_ready g d)) [
        | inr f ↦
            rw (f, keep_blocked)
              (
                λ h. elim h [
                  | inl e ↦ (inl e, ap (is_dependency_ready g) e ∙ f)
                  | inr m ↦ let k = rest.0 m in (inr k.0, k.1)
                ],
                λ h. elim (h.0) [ inl e ↦ inl e | inr m ↦ inr (rest.1 (m, h.1)) ],
              )
        | inl t ↦
            rw (t, keep_blocked)
              (
                λ h. let k = rest.0 h in (inr k.0, k.1),
                λ h. elim (h.0) [
                  | inl e ↦ absurd (false≢true (sym h.1 ∙ ap (is_dependency_ready g) e ∙ t))
                  | inr m ↦ rest.1 (m, h.1)
                ],
              )
      ]

  consed-values :
      (x : Dependency) (o : Option Dependency) (rest : List Dependency)
      → Among x (consed o rest) ↔ ((o ≡ some x) ⊎ Among x rest)
  consed-values x none rest =
      (λ h. inr h, λ h. elim h [ inl e ↦ absurd (none_is_not_some e) | inr m ↦ m ])
  consed-values x (some d) rest = (
    λ h. elim h [ inl e ↦ inl (ap some (sym e)) | inr m ↦ inr m ],
    λ h. elim h [ inl e ↦ inl (some_same d x e) | inr m ↦ inr m ],
  )

  values_in-InGraph : (x : Dependency) (ids : List String) → Among x (values_in g ids) → InGraph g x
  unfolding values_in
  values_in-InGraph x [] h = absurd h
  values_in-InGraph x (id ∷ ids) h =
      elim ((consed-values x (lookup id g.dependencies) (values_in g ids)).0 h) [
        | inl e ↦ (id, e)
        | inr m ↦ values_in-InGraph x ids m
      ]

  InGraph-values_in :
      (x : Dependency) (k : String) (ids : List String)
      → lookup k g.dependencies ≡ some x
      → contains_string ids k ≡ true
      → Among x (values_in g ids)
  unfolding values_in
  InGraph-values_in x k [] q m = absurd (false≢true m)
  InGraph-values_in x k (id ∷ ids) q m = elim (Bool-cases (str_eq id k)) [
    | inl t ↦
        (consed-values x (lookup id g.dependencies) (values_in g ids)).1
          (inl (ap (λ i. lookup i g.dependencies) ((eq_iff id k).0 t) ∙ q))
    | inr f ↦
        (consed-values x (lookup id g.dependencies) (values_in g ids)).1
          (inr (InGraph-values_in x k ids q (rw (f, contains_string) at m)))
  ]

  key_there :
      (k : String) (x : Dependency)
      → lookup k g.dependencies ≡ some x
      → has_key k g.dependencies ≡ true
  key_there k x q = rw (q) refl

  -- Whatever the order in which the map is ranged over, if it has every key of the graph,
  -- GetReadyDependencies gives the dependencies of the graph that are ready and no others, the highest
  -- priority first, and GetBlockedDependencies those of the graph that are not ready and no others: each
  -- dependency of the graph is in just one of the two.
  pub ready_or_blocked :
      (order : List String)
      → ((k : String) → has_key k g.dependencies ≡ true → contains_string order k ≡ true)
      → IsByPriority (get_ready_dependencies g order)
        × ((d : Dependency)
            → (Among d (get_ready_dependencies g order)
                ↔ (InGraph g d × (is_dependency_ready g d ≡ true)))
              × (Among d (get_blocked_dependencies g order)
                  ↔ (InGraph g d × (is_dependency_ready g d ≡ false))))
  unfolding get_ready_dependencies get_blocked_dependencies
  ready_or_blocked order all = (
    sort_by_priority-IsByPriority (keep_ready g (values_in g order)),
    λ d.
        let sorted = Among-sort d (keep_ready g (values_in g order)) in
        let ready = Among-ready d (values_in g order) in
        let blocked = Among-blocked d (values_in g order) in
        let into =
          λ (i : InGraph g d). InGraph-values_in d i.0 order i.1 (all i.0 (key_there i.0 d i.1)) in
        (
          (
            λ h. let k = ready.0 (sorted.0 h) in (values_in-InGraph d order k.0, k.1),
            λ h. sorted.1 (ready.1 (into h.0, h.1)),
          ),
          (
            λ h. let k = blocked.0 h in (values_in-InGraph d order k.0, k.1),
            λ h. blocked.1 (into h.0, h.1),
          ),
        ),
  )
