-- ===== src/Controller/Deletion.antt =====
-- Deleting a NodeENI: `handleDeletion`, `isCleanupTimedOut` and `setCleanupStartTime` of
-- pkg/controller/nodeeni_controller.go. The object in memory is passed on as the calls return it.
pub mod Finalizer
mod Tests
use aws_multi_eni_controller.Prelude.{
  ℕ, ◌+◌, String, Bool, true, false, not, Option, none, some, if◌then◌else◌, ltb,
}
use aws_multi_eni_controller.Prelude.Maps.{Dict, lookup, insert}
use aws_multi_eni_controller.Prelude.State.{Call}
use aws_multi_eni_controller.Types.{NodeEni}
use aws_multi_eni_controller.Cluster.{Cluster, Config, ApiError}
use aws_multi_eni_controller.Controller.Coordination.{CoordinationManager}
use aws_multi_eni_controller.Controller.Coordinated.{Surroundings, parallel_cleanup_enis}
use aws_multi_eni_controller.Controller.Updates.{
  node_eni_finalizer, cleanup_start_time_annotation, entries, Written, update_node_eni_with_retry,
  remove_finalizer,
}

-- `ctrl.Result{}, nil`, `ctrl.Result{RequeueAfter: …}, nil` and `ctrl.Result{}, err`.
pub data Outcome : Type 0 where
  finished : Outcome
  requeue_after : ℕ → Outcome
  failed : ApiError → Outcome

abbrev pub outcome_of : Option ApiError → Outcome
outcome_of none = finished
outcome_of (some e) = failed e

-- The start time is known, and longer ago than the limit.
abbrev pub is_overdue : ℕ → ℕ → Option ℕ → Bool
is_overdue now limit none = false
is_overdue now limit (some t) = ltb (t + limit) now

module _ (c : Cluster) (config : Config) (env : Surroundings c) where
  abbrev Shared : Type 0
  Shared = CoordinationManager × c.World

  parse_start : Option String → Option ℕ
  parse_start none = none
  parse_start (some text) = c.parse_time text

  pub is_cleanup_timed_out : NodeEni → c.World → Bool
  unfolding parse_start
  is_cleanup_timed_out n w =
      is_overdue (c.now w) config.max_cleanup_duration
        (parse_start (lookup cleanup_start_time_annotation (entries n.annotations)))

  -- With a start time, the object is only given a map; without one, the time is written.
  start_time_of : NodeEni → Option String → c.World → Written c.World
  start_time_of n (some text) w =
      (none, (record n { annotations = some (entries n.annotations) }, w))
  start_time_of n none w =
      update_node_eni_with_retry c
        (record n {
          annotations = some (
              insert cleanup_start_time_annotation (c.format_time (c.now w))
                (entries n.annotations));
        })
        w

  pub set_cleanup_start_time : NodeEni → c.World → Written c.World
  unfolding start_time_of
  set_cleanup_start_time n w =
      start_time_of n (lookup cleanup_start_time_annotation (entries n.annotations)) w

  -- The end of `handleDeletion`: the finalizer goes only after a cleanup that succeeded.
  finish_deletion : NodeEni → Bool → Shared → Outcome × Shared
  finish_deletion n false s = (requeue_after config.detachment_timeout, s)
  finish_deletion n true (cm, w) = let r = remove_finalizer c n w in (outcome_of r.0, (cm, r.1.1))

  clean_up : CoordinationManager → Written c.World → Outcome × Shared
  clean_up cm (some e, (n, w)) = (requeue_after config.detachment_timeout, (cm, w))
  clean_up cm (none, (n, w)) =
      let r = parallel_cleanup_enis c config env n n.attachments (cm, w) in
      finish_deletion n r.0 r.1

  force_removal : NodeEni → Shared → Outcome × Shared
  force_removal n (cm, w) =
      let r =
        update_node_eni_with_retry c
          (record n { finalizers = c.without_finalizer n.finalizers node_eni_finalizer }) w in
      (outcome_of r.0, (cm, r.1.1))

  pub handle_deletion : NodeEni → Shared → Outcome × Shared
  unfolding clean_up finish_deletion force_removal
  handle_deletion n (cm, w) =
      if not (c.contains_finalizer n.finalizers node_eni_finalizer)
      then (finished, (cm, w))
      else if is_cleanup_timed_out n w
      then force_removal n (cm, w)
      else clean_up cm (set_cleanup_start_time n w)
