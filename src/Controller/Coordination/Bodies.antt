-- ===== src/Controller/Coordination/Bodies.antt =====
-- What the body of an operation establishes or keeps, through `ExecuteCoordinated`.
use aws_multi_eni_controller.Prelude.{
  ℕ, ◌≡◌, String, Bool, List, [], ◌∷◌, ◌++◌, Option, none, some, inl, inr, Bool-cases,
}
use aws_multi_eni_controller.Prelude.State.{Result-cases}
use aws_multi_eni_controller.Controller.Coordination.{
  CoordinationManager, CoordinatedOperation, is_empty, get_resource_conflicts, check_dependencies,
  acquire_step, acquire_all, release_step, release_all, complete_step, run_locked, cleanup_step,
  execute_coordinated,
}

module _ {W : Type 0} (now : W → ℕ) (ctx : Option ℕ)
    (others : CoordinationManager × W → CoordinationManager × W) (P : W → Type 0)
    (keeps : (s : CoordinationManager × W) → P s.1 → P (others s).1) where
  acquire_all-world :
      (kind id : String) (timeout : ℕ) (rs taken : List String) (s : CoordinationManager × W)
      → P s.1
      → P (acquire_all now ctx others kind id timeout rs taken s).1.1
  unfolding acquire_all acquire_step
  acquire_all-world kind id timeout [] taken s h = h
  acquire_all-world kind id timeout (r ∷ rs) taken s h =
      elim (Result-cases (acquire_step now ctx others kind id timeout r s).0) [
        | inl (l, e) ↦
            rw (e, acquire_all)
              (acquire_all-world kind id timeout rs (taken ++ r ∷ []) _ (keeps s h))
        | inr (x, e) ↦ rw (e, acquire_all) (keeps s h)
      ]

  release_all-world :
      (id : String) (rs : List String) (s : CoordinationManager × W)
      → P s.1
      → P (release_all now ctx others id rs s).1
  unfolding release_all release_step
  release_all-world id [] s h = h
  release_all-world id (r ∷ rs) s h = release_all-world id rs _ (keeps s h)

  finish-world :
      (id : String) (rs : List String) (s : CoordinationManager × W)
      → P s.1
      → P (complete_step now ctx others id (release_all now ctx others id rs s)).1
  unfolding complete_step
  finish-world id rs s h = keeps _ (release_all-world id rs s h)

  -- A fact of the world that the others and the body keep is kept by the operation.
  pub execute_coordinated-keeps :
      (op : CoordinatedOperation (CoordinationManager × W)) (s : CoordinationManager × W)
      → ((t : CoordinationManager × W) → P t.1 → P (op.execute t).1.1)
      → P s.1
      → P (execute_coordinated now ctx others op s).1.1
  unfolding execute_coordinated run_locked cleanup_step
  execute_coordinated-keeps op s body h =
      elim (Bool-cases
        (is_empty (get_resource_conflicts (now checked.1) op.resource_ids checked.0))) [
          | inr e ↦ rw (e, execute_coordinated) checked_holds
          | inl e ↦ elim (Bool-cases (check_dependencies op.id ready.0).0) [
            | inr d ↦ rw (e, execute_coordinated) (rw (d, execute_coordinated) ready_holds)
            | inl d ↦ elim (Bool-cases acquired.0.1) [
              | inr a ↦
                  rw (e, execute_coordinated)
                    (rw (d, execute_coordinated)
                      (rw (a, run_locked)
                        (release_all-world op.id acquired.0.0 acquired.1 locked_holds)))
              | inl a ↦
                  rw (e, execute_coordinated)
                    (rw (d, execute_coordinated)
                      (rw (a, run_locked)
                        (finish-world op.id acquired.0.0 (op.execute acquired.1).1
                          (body acquired.1 locked_holds))))
            ]
          ]
        ]
    where
      checked : CoordinationManager × W
      checked = others (cleanup_step now ctx others s)

      ready : CoordinationManager × W
      ready = others checked

      acquired : (List String × Bool) × (CoordinationManager × W)
      acquired =
          acquire_all now ctx others op.operation_type op.id op.timeout op.resource_ids [] ready

      checked_holds : P checked.1
      checked_holds = keeps _ (keeps s h)

      ready_holds : P ready.1
      ready_holds = keeps checked checked_holds

      locked_holds : P acquired.1.1
      locked_holds =
          acquire_all-world op.operation_type op.id op.timeout op.resource_ids [] ready ready_holds

  -- If the operation reports no error, its body has run without one, and what that establishes holds.
  pub execute_coordinated-establishes :
      (op : CoordinatedOperation (CoordinationManager × W)) (s : CoordinationManager × W)
      → ((t : CoordinationManager × W) → (op.execute t).0 ≡ none → P (op.execute t).1.1)
      → (execute_coordinated now ctx others op s).0 ≡ none
      → P (execute_coordinated now ctx others op s).1.1
  unfolding execute_coordinated run_locked
  execute_coordinated-establishes op s body h =
      elim (Bool-cases
        (is_empty (get_resource_conflicts (now checked.1) op.resource_ids checked.0))) [
          | inr e ↦ absurd (some_none (rw (e, execute_coordinated) at h))
          | inl e ↦ elim (Bool-cases (check_dependencies op.id ready.0).0) [
            | inr d ↦
                absurd
                  (some_none (rw (d, execute_coordinated) at (rw (e, execute_coordinated) at h)))
            | inl d ↦ elim (Bool-cases acquired.0.1) [
              | inr a ↦ absurd (
                  some_none (
                    rw (a, run_locked) at
                      (rw (d, execute_coordinated) at (rw (e, execute_coordinated) at h))))
              | inl a ↦
                  rw (e, execute_coordinated)
                    (rw (d, execute_coordinated)
                      (rw (a, run_locked)
                        (finish-world op.id acquired.0.0 (op.execute acquired.1).1 (
                          body acquired.1 (
                            rw (a, run_locked) at
                              (rw (d, execute_coordinated) at
                                (rw (e, execute_coordinated) at h)))))))
            ]
          ]
        ]
    where
      some_none : {x : String} → some x ≡ none → ⊥
      some_none p = cc

      checked : CoordinationManager × W
      checked = others (cleanup_step now ctx others s)

      ready : CoordinationManager × W
      ready = others checked

      acquired : (List String × Bool) × (CoordinationManager × W)
      acquired =
          acquire_all now ctx others op.operation_type op.id op.timeout op.resource_ids [] ready
