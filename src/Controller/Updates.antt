-- ===== src/Controller/Updates.antt =====
-- Writing a NodeENI back: `updateNodeENIWithRetry`, `updateNodeENIStatusWithRetry` and the finalizer
-- of pkg/controller/nodeeni_controller.go.
pub mod Kept
pub mod Results
pub mod Memory
mod Tests
use aws_multi_eni_controller.Prelude.{
  ℕ, String, Bool, true, false, List, [], ◌∷◌, ◌++◌, Option, none, some, ◌⊎◌, inl, inr,
  if◌then◌else◌, str_eq, contains_string, remove_string,
}
use aws_multi_eni_controller.Prelude.Maps.{Dict, lookup, insert, delete, has_key}
use aws_multi_eni_controller.Prelude.State.{Call}
use aws_multi_eni_controller.Types.{NodeEni}
use aws_multi_eni_controller.Cluster.{Cluster, ApiError, conflict, not_found, other}
use aws_multi_eni_controller.Wait.{Verdict, done, again, fail, Exit, finished, failed, timed_out}

abbrev pub node_eni_finalizer : String
node_eni_finalizer = "nodeeni.networking.k8s.aws/finalizer"

abbrev pub cleanup_start_time_annotation : String
cleanup_start_time_annotation = "aws-multi-eni-controller/cleanup-start-time"

-- `for key, value := range from { into[key] = value }`
pub insert_all : Dict String → Dict String → Dict String
insert_all [] into = into
insert_all ((k, v) ∷ rest) into = insert_all rest (insert k v into)

-- Go's map, a nil one read as empty.
abbrev pub entries : Option (Dict String) → Dict String
entries none = []
entries (some m) = m

-- The annotations of the object that is tried next: those of the latest version, with ours written
-- over them, and without the cleanup time if ours has none.
pub merge_annotations : Option (Dict String) → Option (Dict String) → Option (Dict String)
merge_annotations none latest = latest
merge_annotations (some ours) latest =
    let merged = insert_all ours (entries latest) in
    some (
      if has_key cleanup_start_time_annotation ours
      then merged
      else delete cleanup_start_time_annotation merged)

abbrev pub update_steps : ℕ
update_steps = 5

-- What the loop carries from attempt to attempt: the object, `lastErr` and the world.
pub record Attempt (W : Type 0) : Type 0 where
  pub object : NodeEni
  pub last_err : Option ApiError
  pub world : W

-- The result of `client.Result{}, err` with the object in memory: Go's caller holds a pointer to it.
abbrev pub Written : Type 0 → Type 0
Written W = Option ApiError × (NodeEni × W)

-- `if err != nil { return lastErr }`
abbrev pub written : {W : Type 0} → Exit ApiError × Attempt W → Written W
written (finished, a) = (none, (a.object, a.world))
written (failed e, a) = (a.last_err, (a.object, a.world))
written (timed_out, a) = (a.last_err, (a.object, a.world))

-- The latest version with our finalizers and annotations.
pub merge_metadata : NodeEni → NodeEni → NodeEni
merge_metadata ours latest = record latest {
  finalizers = ours.finalizers;
  annotations = merge_annotations ours.annotations latest.annotations;
}

pub merge_status : NodeEni → NodeEni → NodeEni
merge_status ours latest = record latest { attachments = ours.attachments }

pub without_start_time : Option (Dict String) → Option (Dict String)
without_start_time none = none
without_start_time (some m) = some (delete cleanup_start_time_annotation m)

module _ (c : Cluster) where
  open c use {
    World, backoff, get_node_eni, update_node_eni, update_node_eni_status, with_finalizer,
    without_finalizer,
  }

  -- After a conflict: the latest version with our changes, or the error of fetching it.
  retry_with :
      (NodeEni → NodeEni → NodeEni)
      → NodeEni
      → (ApiError ⊎ NodeEni) × World
      → Verdict ApiError × Attempt World
  retry_with merge ours (inl e, w) =
      (fail e, record { object = ours; last_err = some e; world = w })
  retry_with merge ours (inr latest, w) =
      (again, record { object = merge ours latest; last_err = some conflict; world = w })

  -- One attempt: the write, and the fetch if it conflicts.
  write_once :
      (NodeEni → Call World (ApiError ⊎ NodeEni))
      → (NodeEni → NodeEni → NodeEni)
      → Option ApiError
      → NodeEni
      → (ApiError ⊎ NodeEni) × World
      → Verdict ApiError × Attempt World
  write_once write merge last n (inr accepted, w) =
      (done, record { object = accepted; last_err = last; world = w })
  write_once write merge last n (inl conflict, w) = retry_with merge n (get_node_eni n.name w)
  write_once write merge last n (inl not_found, w) =
      (fail not_found, record { object = n; last_err = some not_found; world = w })
  write_once write merge last n (inl other, w) =
      (fail other, record { object = n; last_err = some other; world = w })

  pub write_with_retry :
      (NodeEni → Call World (ApiError ⊎ NodeEni))
      → (NodeEni → NodeEni → NodeEni)
      → NodeEni
      → World
      → Written World
  unfolding write_once retry_with
  write_with_retry write merge n w = written (
      backoff.run (Attempt World) ApiError update_steps
        (λ a. write_once write merge a.last_err a.object (write a.object a.world))
        (record { object = n; last_err = none; world = w }))

  pub update_node_eni_with_retry : NodeEni → World → Written World
  unfolding write_with_retry merge_metadata
  update_node_eni_with_retry n w = write_with_retry update_node_eni merge_metadata n w

  pub update_node_eni_status_with_retry : NodeEni → World → Written World
  unfolding write_with_retry merge_status
  update_node_eni_status_with_retry n w = write_with_retry update_node_eni_status merge_status n w

  pub add_finalizer : NodeEni → World → Written World
  add_finalizer n w =
      update_node_eni_with_retry
        (record n { finalizers = with_finalizer n.finalizers node_eni_finalizer }) w

  pub remove_finalizer : NodeEni → World → Written World
  unfolding without_start_time
  remove_finalizer n w =
      update_node_eni_with_retry
        (record n {
          finalizers = without_finalizer n.finalizers node_eni_finalizer;
          annotations = without_start_time n.annotations;
        })
        w
