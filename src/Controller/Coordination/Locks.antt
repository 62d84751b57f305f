-- ===== src/Controller/Coordination/Locks.antt =====
-- What each method does to the lock of every resource.
use aws_multi_eni_controller.Prelude.{
  ℕ, ◌≡◌, refl, String, Bool, true, false, ◌&&◌, not, List, [], ◌∷◌, Option, none, some, arith,
  if◌then◌else◌, str_eq, eq_iff, is_some, contains_string,
}
use aws_multi_eni_controller.Prelude.Maps.{
  Dict, lookup, insert, delete, has_key, lookup-insert, lookup-delete,
}
use aws_multi_eni_controller.Prelude.State.{ok, err}
use aws_multi_eni_controller.Controller.Coordination.{
  ResourceLock, CoordinationManager, new_lock, is_held, is_stale, acquire_lock, release_lock,
  conflicts_of, get_resource_conflicts, stale_keys, delete_keys, cleanup_stale_locks, is_empty,
}

-- The manager's lock on a resource.
abbrev pub lock_of : String → CoordinationManager → Option ResourceLock
lock_of r cm = lookup r cm.locks

-- `AcquireLock` fails exactly on a resource that is held, and then changes nothing. Otherwise the
-- resource has the new lock, and no other resource is touched.
pub acquire_lock_lem :
    (now : ℕ) (ctx : Option ℕ) (r kind id : String) (timeout : ℕ) (cm : CoordinationManager)
    → (is_held now (lock_of r cm) ≡ true
        → acquire_lock now ctx r kind id timeout cm ≡ (err "resource is already locked", cm))
      × (is_held now (lock_of r cm) ≡ false
          → ((acquire_lock now ctx r kind id timeout cm).0
              ≡ ok (new_lock now ctx r kind id timeout))
            × ((j : String)
                → lock_of j (acquire_lock now ctx r kind id timeout cm).1 ≡ (
                    if str_eq r j
                    then some (new_lock now ctx r kind id timeout)
                    else lock_of j cm)))
unfolding acquire_lock
acquire_lock_lem now ctx r kind id timeout cm = ((λ h. rw h), (λ h. rw h (refl, λ j. locked j)))
  where
    locked :
        (j : String)
        → lookup j (insert r (new_lock now ctx r kind id timeout) (delete r cm.locks))
          ≡ (if str_eq r j then some (new_lock now ctx r kind id timeout) else lookup j cm.locks)
    locked j = ground (
      arith,
      lookup-insert r j (new_lock now ctx r kind id timeout) (delete r cm.locks),
      lookup-delete r j cm.locks,
    )

-- The lock is the operation's.
abbrev pub is_owned : String → Option ResourceLock → Bool
is_owned id none = false
is_owned id (some l) = str_eq l.locked_by id

-- `ReleaseLock` removes the lock of its owner, and nothing else; to anyone else it fails and changes
-- nothing.
pub release_lock_lem :
    (r id : String) (cm : CoordinationManager)
    → (is_some (release_lock r id cm).0 ≡ not (is_owned id (lock_of r cm)))
      × ((j : String)
          → lock_of j (release_lock r id cm).1
            ≡ (if str_eq r j && is_owned id (lock_of r cm) then none else lock_of j cm))
unfolding release_lock
release_lock_lem r id cm = (ground arith, λ j. ground (arith, lookup-delete r j cm.locks))

conflicts_of-empty :
    (now : ℕ) (rs : List String) (locks : Dict ResourceLock) (r : String)
    → is_empty (conflicts_of now rs locks) ≡ true
    → contains_string rs r ≡ true
    → is_held now (lookup r locks) ≡ false
unfolding conflicts_of
conflicts_of-empty now [] locks r h m = cc
conflicts_of-empty now (q ∷ rs) locks r h m =
    ground (arith, conflicts_of-empty now rs locks r, eq_iff q r)

-- If no conflict is reported, no resource of the list is held.
pub get_resource_conflicts-empty :
    (now : ℕ) (rs : List String) (cm : CoordinationManager) (r : String)
    → is_empty (get_resource_conflicts now rs cm) ≡ true
    → contains_string rs r ≡ true
    → is_held now (lock_of r cm) ≡ false
unfolding get_resource_conflicts
get_resource_conflicts-empty now rs cm r h m = conflicts_of-empty now rs cm.locks r h m

contains-stale_keys :
    (now : ℕ) (locks entries : Dict ResourceLock) (k : String)
    → contains_string (stale_keys now locks entries) k
      ≡ (has_key k entries && is_stale now (lookup k locks))
unfolding stale_keys lookup
contains-stale_keys now locks [] k = refl
contains-stale_keys now locks ((j, l) ∷ rest) k =
    ground (arith, contains-stale_keys now locks rest k, eq_iff j k)

lookup-delete_keys :
    (ks : List String) (locks : Dict ResourceLock) (j : String)
    → lookup j (delete_keys ks locks) ≡ (if contains_string ks j then none else lookup j locks)
unfolding delete_keys
lookup-delete_keys [] locks j = refl
lookup-delete_keys (k ∷ ks) locks j =
    ground (arith, lookup-delete_keys ks (delete k locks) j, lookup-delete k j locks)

-- `CleanupStaleLocks` removes exactly the locks that are done or older than 30 minutes.
pub cleanup_stale_locks_lem :
    (now : ℕ) (cm : CoordinationManager) (j : String)
    → lock_of j (cleanup_stale_locks now cm)
      ≡ (if is_stale now (lock_of j cm) then none else lock_of j cm)
unfolding cleanup_stale_locks
cleanup_stale_locks_lem now cm j = ground (
  arith,
  lookup-delete_keys (stale_keys now cm.locks cm.locks) cm.locks j,
  contains-stale_keys now cm.locks cm.locks j,
)
