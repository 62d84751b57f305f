-- ===== src/Controller/Coordination/Execute.antt =====
-- What `ExecuteCoordinated` guarantees, whatever other operations do between its calls.
use aws_multi_eni_controller.Prelude.{
  ℕ, ◌≡◌, refl, String, Bool, true, false, List, [], ◌∷◌, ◌++◌, Option, ◌⊎◌, inl, inr, arith,
  str_eq, eq_iff, contains_string, contains_string-append, Bool-cases,
}
use aws_multi_eni_controller.Prelude.State.{Result-cases, err}
use aws_multi_eni_controller.Controller.Coordination.{
  CoordinationManager, CoordinatedOperation, is_held, is_empty, get_resource_conflicts,
  check_dependencies, complete_dependency, acquire_step, acquire_all, release_step, release_all,
  complete_step, run_locked, cleanup_step, execute_coordinated,
}
use aws_multi_eni_controller.Controller.Coordination.Locks.{
  lock_of, is_owned, acquire_lock_lem, release_lock_lem, cleanup_stale_locks_lem,
}

-- The manager has no lock of the operation on the resource.
abbrev pub NotOwned : {W : Type 0} → String → String → CoordinationManager × W → Type 0
NotOwned id r s = is_owned id (lock_of r s.0) ≡ false

complete_dependency-locks :
    (id r : String) (cm : CoordinationManager)
    → lock_of r (complete_dependency id cm) ≡ lock_of r cm
unfolding complete_dependency
complete_dependency-locks id r cm = refl

module _ {W : Type 0} (now : W → ℕ) (ctx : Option ℕ)
    (others : CoordinationManager × W → CoordinationManager × W) (id r : String)
    (quiet : (s : CoordinationManager × W) → NotOwned id r s → NotOwned id r (others s)) where
  acquire_step-NotOwned :
      (kind q : String) (timeout : ℕ) (s : CoordinationManager × W)
      → NotOwned id r s
      → (str_eq q r ≡ false)
        ⊎ ((e : String) × ((acquire_step now ctx others kind id timeout q s).0 ≡ err e))
      → NotOwned id r (acquire_step now ctx others kind id timeout q s).1
  unfolding acquire_step
  acquire_step-NotOwned kind q timeout s free other =
      let v = others s in
      let laws = acquire_lock_lem (now v.1) ctx q kind id timeout v.0 in
      elim (Bool-cases (is_held (now v.1) (lock_of q v.0))) [
        | inl held ↦ rw (laws.0 held) (quiet s free)
        | inr open_now ↦ elim other [
          | inl differ ↦ rw ((laws.1 open_now).1 r) (rw differ (quiet s free))
          | inr (e, refused) ↦ ground (arith, (laws.1 open_now).0)
        ]
      ]

  -- After the loop, a lock that the operation has is on the list of those taken.
  acquire_all-NotOwned :
      (kind : String) (timeout : ℕ) (rs taken : List String) (s : CoordinationManager × W)
      → (contains_string taken r ≡ false → NotOwned id r s)
      → contains_string (acquire_all now ctx others kind id timeout rs taken s).0.0 r ≡ false
      → NotOwned id r (acquire_all now ctx others kind id timeout rs taken s).1
  unfolding acquire_all
  acquire_all-NotOwned kind timeout [] taken s h m = h m
  acquire_all-NotOwned kind timeout (q ∷ rs) taken s h m =
      elim (Result-cases (acquire_step now ctx others kind id timeout q s).0) [
        | inl (l, e) ↦
            rw (e, acquire_all)
              (acquire_all-NotOwned kind timeout rs (taken ++ q ∷ []) _ later
                (rw (e, acquire_all) at m))
        | inr (x, e) ↦
            rw (e, acquire_all)
              (acquire_step-NotOwned kind q timeout s (h (rw (e, acquire_all) at m)) (inr (x, e)))
      ]
    where
      later :
          contains_string (taken ++ q ∷ []) r ≡ false
          → NotOwned id r (acquire_step now ctx others kind id timeout q s).1
      later k =
          let split = contains_string-append taken (q ∷ []) r in
          acquire_step-NotOwned kind q timeout s (h (ground arith)) (inl (ground arith))

  release_step-NotOwned :
      (q : String) (s : CoordinationManager × W)
      → (str_eq q r ≡ false → NotOwned id r s)
      → NotOwned id r (release_step now ctx others id q s)
  unfolding release_step
  release_step-NotOwned q s h = elim (Bool-cases (str_eq q r)) [
    | inl e ↦ ground (arith, (release_lock_lem q id (others s).0).1 r, eq_iff q r)
    | inr e ↦ ground (arith, (release_lock_lem q id (others s).0).1 r, quiet s (h e))
  ]

  release_all-NotOwned :
      (taken : List String) (s : CoordinationManager × W)
      → (contains_string taken r ≡ false → NotOwned id r s)
      → NotOwned id r (release_all now ctx others id taken s)
  unfolding release_all
  release_all-NotOwned [] s h = h refl
  release_all-NotOwned (q ∷ taken) s h =
      release_all-NotOwned taken _ (λ m. release_step-NotOwned q s (λ e. h (ground arith)))

  complete_step-NotOwned :
      (s : CoordinationManager × W)
      → NotOwned id r s
      → NotOwned id r (complete_step now ctx others id s)
  unfolding complete_step
  complete_step-NotOwned s h = rw (complete_dependency-locks id r (others s).0) (quiet s h)

  cleanup_step-NotOwned :
      (s : CoordinationManager × W)
      → NotOwned id r s
      → NotOwned id r (cleanup_step now ctx others s)
  unfolding cleanup_step
  cleanup_step-NotOwned s h =
      ground (arith, cleanup_stale_locks_lem (now (others s).1) (others s).0 r, quiet s h)

module _ {W : Type 0} (now : W → ℕ) (ctx : Option ℕ)
    (others : CoordinationManager × W → CoordinationManager × W)
    (op : CoordinatedOperation (CoordinationManager × W)) (r : String) where
  run_locked-NotOwned :
      (taken : List String) (all_taken : Bool) (s : CoordinationManager × W)
      → ((t : CoordinationManager × W) → NotOwned op.id r t → NotOwned op.id r (others t))
      → ((t : CoordinationManager × W)
          → (contains_string taken r ≡ false → NotOwned op.id r t)
          → contains_string taken r ≡ false
          → NotOwned op.id r (op.execute t).1)
      → (contains_string taken r ≡ false → NotOwned op.id r s)
      → NotOwned op.id r (run_locked now ctx others op ((taken, all_taken), s)).1
  unfolding run_locked
  run_locked-NotOwned taken true s quiet body h =
      complete_step-NotOwned now ctx others op.id r quiet _
        (release_all-NotOwned now ctx others op.id r quiet taken _ (body s h))
  run_locked-NotOwned taken false s quiet body h =
      release_all-NotOwned now ctx others op.id r quiet taken s h

  -- An operation leaves no lock behind: if it has no lock on a resource at the start, and neither
  -- the others nor the operation's own body take one in its name, then it has none at the end. That
  -- holds on every path: a conflict, an open dependency, a lock refused half way, a body that fails.
  pub execute_coordinated-NotOwned :
      (s : CoordinationManager × W)
      → ((t : CoordinationManager × W) → NotOwned op.id r t → NotOwned op.id r (others t))
      → ((t : CoordinationManager × W) → NotOwned op.id r t → NotOwned op.id r (op.execute t).1)
      → NotOwned op.id r s
      → NotOwned op.id r (execute_coordinated now ctx others op s).1
  unfolding execute_coordinated
  execute_coordinated-NotOwned s quiet body h =
      elim (Bool-cases
        (is_empty (get_resource_conflicts (now checked.1) op.resource_ids checked.0))) [
          | inr e ↦ rw (e, execute_coordinated) checked_free
          | inl e ↦ elim (Bool-cases (check_dependencies op.id ready.0).0) [
            | inr d ↦ rw (e, execute_coordinated) (rw (d, execute_coordinated) ready_free)
            | inl d ↦
                rw (e, execute_coordinated)
                  (rw (d, execute_coordinated)
                    (run_locked-NotOwned acquired.0.0 acquired.0.1 acquired.1 quiet
                      (λ t k m. body t (k m))
                      (acquire_all-NotOwned now ctx others op.id r quiet op.operation_type
                        op.timeout op.resource_ids [] ready (λ _m. ready_free))))
          ]
        ]
    where
      checked : CoordinationManager × W
      checked = others (cleanup_step now ctx others s)

      ready : CoordinationManager × W
      ready = others checked

      acquired : (List String × Bool) × (CoordinationManager × W)
      acquired =
          acquire_all now ctx others op.operation_type op.id op.timeout op.resource_ids [] ready

      checked_free : NotOwned op.id r checked
      checked_free = quiet _ (cleanup_step-NotOwned now ctx others op.id r quiet s h)

      ready_free : NotOwned op.id r ready
      ready_free = quiet checked checked_free
