-- ===== src/Controller/Coordination/Exclusion.antt =====
-- `ExecuteCoordinated` as a critical section.
use mathlib.Core.List.{append-nil, append_assoc}
use aws_multi_eni_controller.Prelude.{
  ℕ, ◌≡◌, String, Bool, true, false, List, [], ◌∷◌, ◌++◌, Option, some, ◌⊎◌, inl, inr, arith,
  str_eq, eq_refl, ap, sym, ◌∙◌, is_some, false≢true, contains_string, Bool-cases,
}
use aws_multi_eni_controller.Prelude.State.{Result-cases, ok, Call}
use aws_multi_eni_controller.Controller.Coordination.{
  ResourceLock, CoordinationManager, CoordinatedOperation, is_held, is_stale, is_empty,
  get_resource_conflicts, check_dependencies, acquire_step, acquire_all, run_locked, cleanup_step,
  release_all, complete_step, execute_coordinated,
}
use aws_multi_eni_controller.Controller.Coordination.Locks.{
  lock_of, is_owned, acquire_lock_lem, get_resource_conflicts-empty, cleanup_stale_locks_lem,
}

-- There is a lock on the resource, and it is not stale now.
abbrev pub Live : {W : Type 0} → (W → ℕ) → String → CoordinationManager × W → Type 0
Live now r s = (is_some (lock_of r s.0) ≡ true) × (is_stale (now s.1) (lock_of r s.0) ≡ false)

-- The operation has the lock on the resource.
abbrev pub Owned : {W : Type 0} → String → String → CoordinationManager × W → Type 0
Owned id r s = is_owned id (lock_of r s.0) ≡ true

module _ {W : Type 0} (now : W → ℕ) (ctx : Option ℕ)
    (others : CoordinationManager × W → CoordinationManager × W) where
  cleanup_step-Live :
      (r : String) (s : CoordinationManager × W)
      → ((t : CoordinationManager × W) → Live now r t → Live now r (others t))
      → Live now r s
      → Live now r (cleanup_step now ctx others s)
  unfolding cleanup_step
  cleanup_step-Live r s keeps live =
      let v = others s in ground (arith, cleanup_stale_locks_lem (now v.1) v.0 r, keeps s live)

  -- While someone has a live lock on a resource of the operation, the operation ends with a
  -- conflict before it takes any lock, and its body is not run. (The others keep a live lock live.)
  pub execute_coordinated-excluded :
      (op : CoordinatedOperation (CoordinationManager × W)) (r : String)
      (s : CoordinationManager × W)
      → contains_string op.resource_ids r ≡ true
      → ((t : CoordinationManager × W) → Live now r t → Live now r (others t))
      → Live now r s
      → execute_coordinated now ctx others op s
        ≡ (some "resource conflicts detected", others (cleanup_step now ctx others s))
  unfolding execute_coordinated
  execute_coordinated-excluded op r s member keeps live =
      elim (Bool-cases
        (is_empty (get_resource_conflicts (now checked.1) op.resource_ids checked.0))) [
          | inr e ↦ rw (e, execute_coordinated)
          | inl e ↦ absurd (
              ground (
                arith,
                get_resource_conflicts-empty (now checked.1) op.resource_ids checked.0 r e member,
                checked_live,
              ))
        ]
    where
      checked : CoordinationManager × W
      checked = others (cleanup_step now ctx others s)

      cleaned_live : Live now r (cleanup_step now ctx others s)
      cleaned_live = cleanup_step-Live r s keeps live

      checked_live : Live now r checked
      checked_live = keeps _ cleaned_live

  module _ (kind id : String) (timeout : ℕ) (r : String)
      (keeps : (t : CoordinationManager × W) → Owned id r t → Owned id r (others t)) where
    acquire_step-Owned :
        (q : String) (s : CoordinationManager × W)
        → Owned id r s
        → Owned id r (acquire_step now ctx others kind id timeout q s).1
    unfolding acquire_step
    acquire_step-Owned q s h =
        let v = others s in
        let laws = acquire_lock_lem (now v.1) ctx q kind id timeout v.0 in
        elim (Bool-cases (is_held (now v.1) (lock_of q v.0))) [
          | inl held ↦ rw (laws.0 held) (keeps s h)
          | inr open_now ↦ ground (arith, (laws.1 open_now).1 r, keeps s h, eq_refl id)
        ]

    acquire_step-taken :
        (q : String) (s : CoordinationManager × W) (l : ResourceLock)
        → str_eq q r ≡ true
        → (acquire_step now ctx others kind id timeout q s).0 ≡ ok l
        → Owned id r (acquire_step now ctx others kind id timeout q s).1
    unfolding acquire_step
    acquire_step-taken q s l same e =
        let v = others s in
        let laws = acquire_lock_lem (now v.1) ctx q kind id timeout v.0 in
        elim (Bool-cases (is_held (now v.1) (lock_of q v.0))) [
          | inl held ↦ ground (arith, laws.0 held)
          | inr open_now ↦ ground (arith, (laws.1 open_now).1 r, eq_refl id)
        ]

    acquire_all-keeps :
        (rs taken : List String) (s : CoordinationManager × W)
        → Owned id r s
        → Owned id r (acquire_all now ctx others kind id timeout rs taken s).1
    unfolding acquire_all
    acquire_all-keeps [] taken s h = h
    acquire_all-keeps (q ∷ rs) taken s h =
        elim (Result-cases (acquire_step now ctx others kind id timeout q s).0) [
          | inl (l, e) ↦
              rw (e, acquire_all)
                (acquire_all-keeps rs (taken ++ q ∷ []) _ (acquire_step-Owned q s h))
          | inr (x, e) ↦ rw (e, acquire_all) (acquire_step-Owned q s h)
        ]

    acquire_all-Owned :
        (rs taken : List String) (s : CoordinationManager × W)
        → contains_string rs r ≡ true
        → (acquire_all now ctx others kind id timeout rs taken s).0.1 ≡ true
        → Owned id r (acquire_all now ctx others kind id timeout rs taken s).1
    unfolding acquire_all
    acquire_all-Owned [] taken s m h = cc
    acquire_all-Owned (q ∷ rs) taken s m h =
        elim (Result-cases (acquire_step now ctx others kind id timeout q s).0) [
          | inr (x, e) ↦ absurd (false≢true (rw (e, acquire_all) at h))
          | inl (l, e) ↦ elim (Bool-cases (str_eq q r)) [
            | inl same ↦
                rw (e, acquire_all)
                  (acquire_all-keeps rs (taken ++ q ∷ []) _ (acquire_step-taken q s l same e))
            | inr differ ↦
                rw (e, acquire_all)
                  (acquire_all-Owned rs (taken ++ q ∷ []) _ (rw (differ, contains_string) at m)
                    (rw (e, acquire_all) at h))
          ]
        ]

  -- When all locks are taken, the locks noted as taken are those of the resources.
  acquire_all-taken :
      (kind id : String) (timeout : ℕ) (rs taken : List String) (s : CoordinationManager × W)
      → (acquire_all now ctx others kind id timeout rs taken s).0.1 ≡ true
      → (acquire_all now ctx others kind id timeout rs taken s).0.0 ≡ taken ++ rs
  unfolding acquire_all
  acquire_all-taken kind id timeout [] taken s h = sym (append-nil taken)
  acquire_all-taken kind id timeout (q ∷ rs) taken s h =
      elim (Result-cases (acquire_step now ctx others kind id timeout q s).0) [
        | inr (x, e) ↦ absurd (false≢true (rw (e, acquire_all) at h))
        | inl (l, e) ↦
            rw (e, acquire_all)
              (acquire_all-taken kind id timeout rs (taken ++ q ∷ []) _ (rw (e, acquire_all) at h)
                ∙ append_assoc taken (q ∷ []) rs)
      ]

  -- ExecuteCoordinated runs the body of an operation only in a state where the operation has the
  -- lock on each of its resources (if the others leave its locks alone). Either the body is run in
  -- such a state, and then what it answers is answered and from the state it leaves the locks of the
  -- resources are released and the operation completed; or the answer is an error, and the answer
  -- and the state left are the same whatever the body is.
  pub execute_coordinated-Owned :
      (op : CoordinatedOperation (CoordinationManager × W)) (s : CoordinationManager × W)
      → ((r : String) (t : CoordinationManager × W) → Owned op.id r t → Owned op.id r (others t))
      → ((t : CoordinationManager × W) × ((r : String)
            → contains_string op.resource_ids r ≡ true
            → Owned op.id r t)
          × (execute_coordinated now ctx others op s ≡ (
            (op.execute t).0,
            complete_step now ctx others op.id
                (release_all now ctx others op.id op.resource_ids (op.execute t).1),
          )))
        ⊎ ((e : String) × ((u : CoordinationManager × W) × ((body : Call
                  (CoordinationManager × W)
                  (Option String))
                → execute_coordinated now ctx others (record op { execute = body }) s
                  ≡ (some e, u))))
  unfolding execute_coordinated run_locked
  execute_coordinated-Owned op s keeps =
      elim (Bool-cases
        (is_empty (get_resource_conflicts (now checked.1) op.resource_ids checked.0))) [
          | inr e ↦
              inr ("resource conflicts detected", (checked, λ body. rw (e, execute_coordinated)))
          | inl e ↦ elim (Bool-cases (check_dependencies op.id ready.0).0) [
            | inr d ↦ inr (
              "dependencies not satisfied",
              (ready, λ body. rw (e, execute_coordinated) (rw (d, execute_coordinated))),
            )
            | inl d ↦ elim (Bool-cases acquired.0.1) [
              | inr a ↦ inr (
                "failed to acquire all locks",
                (
                  release_all now ctx others op.id acquired.0.0 acquired.1,
                  λ body.
                      rw (e, execute_coordinated)
                        (rw (d, execute_coordinated) (rw (a, run_locked))),
                ),
              )
              | inl a ↦ inl (
                acquired.1,
                (λ r m.
                    acquire_all-Owned op.operation_type op.id op.timeout r (keeps r) op.resource_ids
                      [] ready m a),
                rw (e, execute_coordinated)
                    (rw (d, execute_coordinated)
                      (rw (a, run_locked)
                        (ap
                          (λ taken. (
                            (op.execute acquired.1).0,
                            complete_step now ctx others op.id
                                (release_all now ctx others op.id taken (op.execute acquired.1).1),
                          ))
                          (acquire_all-taken op.operation_type op.id op.timeout op.resource_ids []
                            ready a)))),
              )
            ]
          ]
        ]
    where
      checked : CoordinationManager × W
      checked = others (cleanup_step now ctx others s)

      ready : CoordinationManager × W
      ready = others checked

      acquired : (List String × Bool) × (CoordinationManager × W)
      acquired =
          acquire_all now ctx others op.operation_type op.id op.timeout op.resource_ids [] ready
