-- ===== src/Controller/Coordination.antt =====
-- Locks on resources (pkg/controller/coordination.go). The manager's mutex makes each method one
-- step, so a method is a function of the manager's state and of the time.
-- A lock's context is the time at which it is done: its deadline, or when the caller's context ends,
-- if that is sooner. `Cancel` is called only where the lock leaves the map.
pub mod Locks
pub mod Execute
pub mod Exclusion
pub mod Bodies
mod Tests
use aws_multi_eni_controller.Prelude.{
  ℕ, ◌+◌, String, Bool, true, false, ◌||◌, not, List, [], ◌∷◌, ◌++◌, Option, none, some,
  if◌then◌else◌, str_eq, ltb, leb, is_some,
}
use aws_multi_eni_controller.Prelude.Maps.{Dict, lookup, insert, delete, has_key}
use aws_multi_eni_controller.Prelude.State.{Call, Result, ok, err}

pub record ResourceLock : Type 0 where
  pub resource_id : String
  pub resource_type : String
  pub locked_at : ℕ
  pub locked_by : String
  pub done_at : ℕ

pub record OperationDependency : Type 0 where
  pub operation_id : String
  pub depends_on : List String
  pub resource_ids : List String
  pub priority : ℕ

pub record CoordinationManager : Type 0 where
  pub locks : Dict ResourceLock
  pub dependencies : Dict OperationDependency

unfoldable pub new_coordination_manager : CoordinationManager
new_coordination_manager = record { locks = []; dependencies = [] }

-- `<-lock.Context.Done()` is ready.
abbrev pub is_done : ℕ → ResourceLock → Bool
is_done now l = leb l.done_at now

-- `context.WithTimeout`: the caller's context may end first.
abbrev pub deadline : Option ℕ → ℕ → ℕ
deadline none t = t
deadline (some p) t = if ltb p t then p else t

abbrev pub new_lock : ℕ → Option ℕ → String → String → String → ℕ → ResourceLock
new_lock now ctx resource_id resource_type operation_id timeout = record {
  resource_id = resource_id;
  resource_type = resource_type;
  locked_at = now;
  locked_by = operation_id;
  done_at = deadline ctx (now + timeout);
}

-- The lock is still active.
abbrev pub is_held : ℕ → Option ResourceLock → Bool
is_held now none = false
is_held now (some l) = not (is_done now l)

unfoldable pub acquire_lock :
    ℕ
    → Option ℕ
    → String
    → String
    → String
    → ℕ
    → CoordinationManager
    → Result ResourceLock × CoordinationManager
acquire_lock now ctx resource_id resource_type operation_id timeout cm =
    let lock = new_lock now ctx resource_id resource_type operation_id timeout in
    if is_held now (lookup resource_id cm.locks)
    then (err "resource is already locked", cm)
    else (ok lock, record cm { locks = insert resource_id lock (delete resource_id cm.locks) })

release_found :
    String
    → String
    → Option ResourceLock
    → CoordinationManager
    → Option String × CoordinationManager
release_found resource_id operation_id none cm = (some "no lock found for resource", cm)
release_found resource_id operation_id (some l) cm =
    if str_eq l.locked_by operation_id
    then (none, record cm { locks = delete resource_id cm.locks })
    else (some "resource is locked by another operation", cm)

unfoldable pub release_lock :
    String → String → CoordinationManager → Option String × CoordinationManager
unfolding release_found
release_lock resource_id operation_id cm =
    release_found resource_id operation_id (lookup resource_id cm.locks) cm

unfoldable pub register_dependency :
    String → List String → List String → ℕ → CoordinationManager → CoordinationManager
register_dependency operation_id depends_on resource_ids priority cm = record cm {
  dependencies =
      insert operation_id
        (record {
          operation_id = operation_id;
          depends_on = depends_on;
          resource_ids = resource_ids;
          priority = priority;
        })
        cm.dependencies;
}

-- The dependencies that are still registered.
unsatisfied : List String → Dict OperationDependency → List String
unsatisfied [] deps = []
unsatisfied (d ∷ ds) deps = if has_key d deps then d ∷ unsatisfied ds deps else unsatisfied ds deps

abbrev is_empty : {A : Type 0} → List A → Bool
is_empty [] = true
is_empty (x ∷ xs) = false

check_found : Option OperationDependency → Dict OperationDependency → Bool × List String
check_found none deps = (true, [])
check_found (some d) deps =
    (is_empty (unsatisfied d.depends_on deps), unsatisfied d.depends_on deps)

unfoldable pub check_dependencies : String → CoordinationManager → Bool × List String
unfolding check_found unsatisfied
check_dependencies operation_id cm =
    check_found (lookup operation_id cm.dependencies) cm.dependencies

unfoldable pub complete_dependency : String → CoordinationManager → CoordinationManager
complete_dependency operation_id cm = record cm {
  dependencies = delete operation_id cm.dependencies;
}

-- The resources in conflict; the source adds the owner to each text.
conflicts_of : ℕ → List String → Dict ResourceLock → List String
conflicts_of now [] locks = []
conflicts_of now (r ∷ rs) locks =
    if is_held now (lookup r locks)
    then r ∷ conflicts_of now rs locks
    else conflicts_of now rs locks

unfoldable pub get_resource_conflicts : ℕ → List String → CoordinationManager → List String
unfolding conflicts_of
get_resource_conflicts now resource_ids cm = conflicts_of now resource_ids cm.locks

-- 30 minutes in nanoseconds.
abbrev pub max_lock_age : ℕ
max_lock_age = 1_800_000_000_000

-- Done, or too old.
abbrev pub is_stale : ℕ → Option ResourceLock → Bool
is_stale now none = false
is_stale now (some l) = is_done now l || ltb (l.locked_at + max_lock_age) now

-- The keys of the second argument whose lock in the first is stale.
stale_keys : ℕ → Dict ResourceLock → Dict ResourceLock → List String
stale_keys now locks [] = []
stale_keys now locks ((k, _) ∷ rest) =
    if is_stale now (lookup k locks)
    then k ∷ stale_keys now locks rest
    else stale_keys now locks rest

delete_keys : List String → Dict ResourceLock → Dict ResourceLock
delete_keys [] locks = locks
delete_keys (k ∷ ks) locks = delete_keys ks (delete k locks)

unfoldable pub cleanup_stale_locks : ℕ → CoordinationManager → CoordinationManager
unfolding stale_keys delete_keys
cleanup_stale_locks now cm = record cm {
  locks = delete_keys (stale_keys now cm.locks cm.locks) cm.locks;
}

pub record CoordinatedOperation (S : Type 0) : Type 0 where
  pub id : String
  pub operation_type : String
  pub resource_ids : List String
  pub timeout : ℕ
  pub execute : Call S (Option String)

-- The state is the manager and the rest of the world. Before each call of a method other operations
-- may act, and time passes: that is `others`. What `execute` does includes what they do meanwhile.
module _ {W : Type 0} (now : W → ℕ) (ctx : Option ℕ)
    (others : CoordinationManager × W → CoordinationManager × W) where
  abbrev Shared : Type 0
  Shared = CoordinationManager × W

  acquire_step : String → String → ℕ → String → Shared → Result ResourceLock × Shared
  acquire_step kind id timeout r s =
      let v = others s in
      let a = acquire_lock (now v.1) ctx r kind id timeout v.0 in (a.0, (a.1, v.1))

  -- The loop that takes the locks and stops at the first refusal: the locks taken, and whether all
  -- were.
  acquire_all :
      String → String → ℕ → List String → List String → Shared → (List String × Bool) × Shared
  acquire_all kind id timeout [] taken s = ((taken, true), s)
  acquire_all kind id timeout (r ∷ rs) taken s =
      let a = acquire_step kind id timeout r s in
      let rest = acquire_all kind id timeout rs (taken ++ r ∷ []) a.1 in
      elim a.0 [ ok l ↦ rest | err e ↦ ((taken, false), a.1) ]

  release_step : String → String → Shared → Shared
  release_step id r s = let v = others s in ((release_lock r id v.0).1, v.1)

  pub release_all : String → List String → Shared → Shared
  release_all id [] s = s
  release_all id (r ∷ rs) s = release_all id rs (release_step id r s)

  pub complete_step : String → Shared → Shared
  complete_step id s = let v = others s in (complete_dependency id v.0, v.1)

  run_locked : CoordinatedOperation Shared → (List String × Bool) × Shared → Option String × Shared
  run_locked op ((taken, all_taken), s) =
      if all_taken
      then (let r = op.execute s in (r.0, complete_step op.id (release_all op.id taken r.1)))
      else (some "failed to acquire all locks", release_all op.id taken s)

  pub cleanup_step : Shared → Shared
  cleanup_step s = let v = others s in (cleanup_stale_locks (now v.1) v.0, v.1)

  unfoldable pub execute_coordinated : CoordinatedOperation Shared → Shared → Option String × Shared
  unfolding run_locked acquire_all acquire_step release_all release_step complete_step cleanup_step
  execute_coordinated op s =
      let checked = others (cleanup_step s) in
      let ready = others checked in
      if not (is_empty (get_resource_conflicts (now checked.1) op.resource_ids checked.0))
      then (some "resource conflicts detected", checked)
      else if not (check_dependencies op.id ready.0).0
      then (some "dependencies not satisfied", ready)
      else run_locked op (acquire_all op.operation_type op.id op.timeout op.resource_ids [] ready)
