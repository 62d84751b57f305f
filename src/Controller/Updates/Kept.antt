-- ===== src/Controller/Updates/Kept.antt =====
-- What the writes with retry keep.
use aws_multi_eni_controller.Prelude.{◌≡◌, refl, String, Option, none, some, ◌⊎◌, inl, inr}
use aws_multi_eni_controller.Types.{NodeEni}
use aws_multi_eni_controller.Cluster.{Cluster, ApiError, conflict, not_found, other}
use aws_multi_eni_controller.Wait.{
  Verdict, Exit, finished, failed, timed_out, Attempted, attempt_lem, run_inv,
}
use aws_multi_eni_controller.Controller.Updates.{
  node_eni_finalizer, add_finalizer, remove_finalizer, merge_annotations, Attempt, written,
  retry_with, write_once, write_with_retry, merge_metadata, update_node_eni_with_retry,
}

module _ (c : Cluster) (write : NodeEni → c.World → (ApiError ⊎ NodeEni) × c.World)
    (merge : NodeEni → NodeEni → NodeEni) (I : NodeEni → c.World → Type 0)
    (Q : Option ApiError → NodeEni → c.World → Type 0)
    (accepted : (n m : NodeEni) (w : c.World)
      → (write n w).0 ≡ inr m
      → I n w
      → Q none m (write n w).1)
    (refused : (n : NodeEni) (e : ApiError) (w : c.World)
      → (write n w).0 ≡ inl e
      → I n w
      → Q (some e) n (write n w).1)
    (fetched : (n m : NodeEni) (w : c.World)
      → (write n w).0 ≡ inl conflict
      → (c.get_node_eni n.name (write n w).1).0 ≡ inr m
      → I n w
      → I (merge n m) (c.get_node_eni n.name (write n w).1).1)
    (lost : (n : NodeEni) (e : ApiError) (w : c.World)
      → (write n w).0 ≡ inl conflict
      → (c.get_node_eni n.name (write n w).1).0 ≡ inl e
      → I n w
      → Q (some e) n (c.get_node_eni n.name (write n w).1).1)
    (exhausted : (n : NodeEni) (w : c.World) → I n w → Q (some conflict) n w) where
  Going : Attempt c.World → Type 0
  Going a = I a.object a.world × (a.last_err ≡ some conflict)

  abbrev Over : Exit ApiError → Attempt c.World → Type 0
  Over e a = Q (written (e, a)).0 a.object a.world

  retry_with-step :
      (n : NodeEni) (w : c.World) (r : ApiError ⊎ NodeEni)
      → (write n w).0 ≡ inl conflict
      → (c.get_node_eni n.name (write n w).1).0 ≡ r
      → I n w
      → Attempted Going Over (retry_with c merge n (r, (c.get_node_eni n.name (write n w).1).1))
  unfolding retry_with Going
  retry_with-step n w (inl e) x g h = lost n e w x g h
  retry_with-step n w (inr m) x g h = (fetched n m w x g h, refl)

  write_once-step :
      (last : Option ApiError) (n : NodeEni) (w : c.World) (r : ApiError ⊎ NodeEni)
      → (write n w).0 ≡ r
      → I n w
      → Attempted Going Over (write_once c write merge last n (r, (write n w).1))
  unfolding write_once
  write_once-step last n w (inr m) x h = accepted n m w x h
  write_once-step last n w (inl conflict) x h =
      retry_with-step n w (c.get_node_eni n.name (write n w).1).0 x refl h
  write_once-step last n w (inl not_found) x h = refused n not_found w x h
  write_once-step last n w (inl other) x h = refused n other w x h

  exhausted_step : (a : Attempt c.World) → Going a → Over timed_out a
  unfolding Going
  exhausted_step a h = rw (h.1) (exhausted a.object a.world h.0)

  written_lem :
      (r : Exit ApiError × Attempt c.World)
      → Over r.0 r.1
      → Q (written r).0 (written r).1.0 (written r).1.1
  written_lem (finished, a) h = h
  written_lem (failed e, a) h = h
  written_lem (timed_out, a) h = h

  -- The rule of the write loops: an invariant of the object that is tried, with the world.
  pub write_with_retry_inv :
      (n : NodeEni) (w : c.World)
      → I n w
      → let r = write_with_retry c write merge n w in Q r.0 r.1.0 r.1.1
  unfolding write_with_retry
  write_with_retry_inv n w h = written_lem (c.backoff.run (Attempt c.World) ApiError 5 try start) (
      rw (c.backoff.run_suc (Attempt c.World) ApiError 4 try start) (
        attempt_lem c.backoff Going Over (try start)
          (c.backoff.run (Attempt c.World) ApiError 4 try)
          (write_once-step none n w (write n w).0 refl h)
          (λ a k. run_inv c.backoff Going Over try step exhausted_step 4 a k)))
    where
      try : Attempt c.World → Verdict ApiError × Attempt c.World
      try a = write_once c write merge a.last_err a.object (write a.object a.world)

      start : Attempt c.World
      start = record { object = n; last_err = none; world = w }

      step : (a : Attempt c.World) → Going a → Attempted Going Over (try a)
      step a k =
          write_once-step a.last_err a.object a.world (write a.object a.world).0 refl
            (unfold Going in k.0)

-- The rule for `updateNodeENIWithRetry`.
pub update_node_eni_with_retry_inv :
    (c : Cluster) (I : NodeEni → c.World → Type 0)
    (Q : Option ApiError → NodeEni → c.World → Type 0)
    → ((n m : NodeEni) (w : c.World)
        → (c.update_node_eni n w).0 ≡ inr m
        → I n w
        → Q none m (c.update_node_eni n w).1)
    → ((n : NodeEni) (e : ApiError) (w : c.World)
        → (c.update_node_eni n w).0 ≡ inl e
        → I n w
        → Q (some e) n (c.update_node_eni n w).1)
    → ((n m : NodeEni) (w : c.World)
        → (c.update_node_eni n w).0 ≡ inl conflict
        → (c.get_node_eni n.name (c.update_node_eni n w).1).0 ≡ inr m
        → I n w
        → I
            (record m {
              finalizers = n.finalizers;
              annotations = merge_annotations n.annotations m.annotations;
            })
            (c.get_node_eni n.name (c.update_node_eni n w).1).1)
    → ((n : NodeEni) (e : ApiError) (w : c.World)
        → (c.update_node_eni n w).0 ≡ inl conflict
        → (c.get_node_eni n.name (c.update_node_eni n w).1).0 ≡ inl e
        → I n w
        → Q (some e) n (c.get_node_eni n.name (c.update_node_eni n w).1).1)
    → ((n : NodeEni) (w : c.World) → I n w → Q (some conflict) n w)
    → (n : NodeEni) (w : c.World) → I n w
    → Q
        (update_node_eni_with_retry c n w).0
        (update_node_eni_with_retry c n w).1.0
        (update_node_eni_with_retry c n w).1.1
unfolding update_node_eni_with_retry merge_metadata
update_node_eni_with_retry_inv c I Q accepted refused fetched lost exhausted n w h =
    write_with_retry_inv c c.update_node_eni merge_metadata I Q accepted refused fetched lost
      exhausted n w h

-- A fact that the API keeps is kept by the removal of the finalizer.
pub remove_finalizer-keeps :
    (c : Cluster) (P : c.World → Type 0) (n : NodeEni) (w : c.World)
    → ((name : String) (v : c.World) → P v → P (c.get_node_eni name v).1)
    → ((o : NodeEni) (v : c.World) → P v → P (c.update_node_eni o v).1)
    → P w
    → P (remove_finalizer c n w).1.1
unfolding remove_finalizer
remove_finalizer-keeps c P n w by_get by_update h =
    update_node_eni_with_retry_inv c (λ o v. P v) (λ x o v. P v) (λ o m v e k. by_update o v k)
      (λ o x v e k. by_update o v k) (λ o m v e g k. by_get o.name _ (by_update o v k))
      (λ o x v e g k. by_get o.name _ (by_update o v k)) (λ o v k. k) _ w h

-- A fact of the world through a metadata write with retry, if every write of an object with these
-- finalizers keeps it.
pub update_node_eni_with_retry-keeps :
    (c : Cluster) (P : c.World → Type 0) (n : NodeEni) (w : c.World)
    → ((name : String) (v : c.World) → P v → P (c.get_node_eni name v).1)
    → ((o : NodeEni) (v : c.World)
        → o.finalizers ≡ n.finalizers
        → P v
        → P (c.update_node_eni o v).1)
    → P w
    → P (update_node_eni_with_retry c n w).1.1
update_node_eni_with_retry-keeps c P n w by_get by_update h =
    update_node_eni_with_retry_inv c (λ o v. (o.finalizers ≡ n.finalizers) × P v) (λ x o v. P v)
      (λ o m v e k. by_update o v k.0 k.1) (λ o x v e k. by_update o v k.0 k.1)
      (λ o m v e g k. (k.0, by_get o.name _ (by_update o v k.0 k.1)))
      (λ o x v e g k. by_get o.name _ (by_update o v k.0 k.1)) (λ o v k. k.1) n w (refl, h)

-- The same for the write that adds the finalizer.
pub add_finalizer-keeps :
    (c : Cluster) (P : c.World → Type 0) (n : NodeEni) (w : c.World)
    → ((name : String) (v : c.World) → P v → P (c.get_node_eni name v).1)
    → ((o : NodeEni) (v : c.World)
        → o.finalizers ≡ c.with_finalizer n.finalizers node_eni_finalizer
        → P v
        → P (c.update_node_eni o v).1)
    → P w
    → P (add_finalizer c n w).1.1
unfolding add_finalizer
add_finalizer-keeps c P n w by_get by_update h =
    update_node_eni_with_retry-keeps c P _ w by_get by_update h
