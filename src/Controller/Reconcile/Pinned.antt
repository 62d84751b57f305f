-- ===== src/Controller/Reconcile/Pinned.antt =====
-- What a whole reconciliation does to the finalizer.
use aws_multi_eni_controller.Prelude.{
  String, true, false, ◌≡◌, refl, ◌⊎◌, inl, inr, is_some, Bool-cases, List,
}
use aws_multi_eni_controller.Types.{NodeEni, EniAttachment}
use aws_multi_eni_controller.Cluster.{Cluster, Config, ApiError, conflict, not_found, other}
use aws_multi_eni_controller.Controller.Calls.{IsKept}
use aws_multi_eni_controller.Controller.Cleanup.Laws.{EniLaws}
use aws_multi_eni_controller.Controller.Coordination.{CoordinationManager}
use aws_multi_eni_controller.Controller.Coordinated.{Surroundings}
use aws_multi_eni_controller.Controller.Updates.{node_eni_finalizer, add_finalizer}
use aws_multi_eni_controller.Controller.Updates.Kept.{add_finalizer-keeps}
use aws_multi_eni_controller.Controller.Deletion.{is_cleanup_timed_out}
use aws_multi_eni_controller.Controller.Deletion.Finalizer.{
  IsPinned, KeptByApi, AllGone, KeepsStatus, handle_deletion-safe,
}
use aws_multi_eni_controller.Controller.Reconcile.Effects.{process_node_eni-keeps}
use aws_multi_eni_controller.Controller.Reconcile.{reconcile_object, reconcile_fetched, reconcile}

-- The cleanup of the object has run out of time, or the ENI of each of its attachments is gone.
abbrev pub TimedOutOrGone :
    (c : Cluster)
    → Config
    → Surroundings c
    → (String → c.World → Type 0)
    → NodeEni
    → c.World
    → c.World
    → Type 0
TimedOutOrGone c config env IsGone n w v =
    (is_cleanup_timed_out c config env n w ≡ true) ⊎ AllGone IsGone n v

module _ (c : Cluster) (config : Config) (env : Surroundings c) (Pinned : c.World → Type 0)
    (laws : IsPinned c Pinned) (kept : IsKept c Pinned)
    (adds : (fs : List String)
      → c.contains_finalizer (c.with_finalizer fs node_eni_finalizer) node_eni_finalizer ≡ true)
    (others_pinned : (s : CoordinationManager × c.World) → Pinned s.1 → Pinned (env.others s).1)
    (IsGone : String → c.World → Type 0) (eni_laws : EniLaws c IsGone)
    (gone_laws : (id : String) → KeptByApi c (IsGone id))
    (others_gone : (id : String) (s : CoordinationManager × c.World)
      → IsGone id s.1
      → IsGone id (env.others s).1)
    (running : (t : CoordinationManager × c.World) → env.is_cancelled t ≡ false) (name : String)
    (attachments : List EniAttachment) (Recorded : c.World → Type 0)
    (status : KeepsStatus c name attachments Recorded) where
  add_finalizer-Pinned : (n : NodeEni) (w : c.World) → Pinned w → Pinned (add_finalizer c n w).1.1
  add_finalizer-Pinned n w h =
      add_finalizer-keeps c Pinned n w laws.by_get
        (λ o v e k. laws.by_update o v (rw (e) (adds n.finalizers)) k) h

  -- Only an object that is marked as deleted loses the finalizer.
  abbrev Outcomes : NodeEni → c.World → c.World → Type 0
  Outcomes n w v =
      Pinned v ⊎ ((is_some n.deletion_timestamp ≡ true) × TimedOutOrGone c config env IsGone n w v)

  reconcile_object-safe :
      (n : NodeEni) (s : CoordinationManager × c.World)
      → n.name ≡ name
      → n.attachments ≡ attachments
      → Recorded s.1
      → Pinned s.1
      → Outcomes n s.1 (reconcile_object c config env n s).1.1
  unfolding reconcile_object
  reconcile_object-safe n (cm, w) e q there h = elim (Bool-cases (is_some n.deletion_timestamp)) [
    | inl t ↦
        elim (handle_deletion-safe c config env Pinned laws others_pinned IsGone eni_laws gone_laws
          others_gone running name attachments Recorded status n (cm, w) e q there h) [
            | inl p ↦ inl (rw (t, reconcile_object) p)
            | inr g ↦ inr (t, rw (t, reconcile_object) g)
          ]
    | inr f ↦ inl (elim (Bool-cases (c.contains_finalizer n.finalizers node_eni_finalizer)) [
      | inl t ↦
          rw (f, t, reconcile_object)
            (process_node_eni-keeps c config env Pinned kept others_pinned n (cm, w) h)
      | inr g ↦ rw (f, g, reconcile_object) (add_finalizer-Pinned n w h)
    ])
  ]

  reconcile_fetched-safe :
      (cm : CoordinationManager) (r : (ApiError ⊎ NodeEni) × c.World)
      → ((n : NodeEni) → r.0 ≡ inr n → (n.name ≡ name) × (n.attachments ≡ attachments))
      → Recorded r.1
      → Pinned r.1
      → Pinned (reconcile_fetched c config env cm r).1.1
        ⊎ ((n : NodeEni) × ((r.0 ≡ inr n)
              × ((is_some n.deletion_timestamp ≡ true)
                  × TimedOutOrGone c config env IsGone n r.1
                      (reconcile_fetched c config env cm r).1.1)))
  unfolding reconcile_fetched
  reconcile_fetched-safe cm (inl conflict, w) same there h = inl h
  reconcile_fetched-safe cm (inl not_found, w) same there h = inl h
  reconcile_fetched-safe cm (inl other, w) same there h = inl h
  reconcile_fetched-safe cm (inr n, w) same there h =
      elim (reconcile_object-safe n (cm, w) (same n refl).0 (same n refl).1 there h) [
        | inl p ↦ inl p
        | inr g ↦ inr (n, (refl, g))
      ]

  -- If the object has the finalizer on the server, then after a whole `Reconcile` it still has it
  -- there, or the object that was fetched was marked as deleted and its cleanup had run out of time, or
  -- it was marked as deleted and the ENI of each of its attachments, which are those of the server's
  -- copy, is gone from EC2. (A write of the metadata leaves the status of the server's copy as it is.
  -- The context is not done, the others do not remove the finalizer, a write of an object with the
  -- finalizer leaves it there, and an ENI that is gone does not come back.)
  pub reconcile-safe :
      (s : CoordinationManager × c.World)
      → Recorded s.1
      → Pinned s.1
      → Pinned (reconcile c config env name s).1.1
        ⊎ ((n : NodeEni) × (((c.get_node_eni name s.1).0 ≡ inr n)
              × ((is_some n.deletion_timestamp ≡ true)
                  × ((n.attachments ≡ attachments)
                      × TimedOutOrGone c config env IsGone n
                          (c.get_node_eni name s.1).1
                          (reconcile c config env name s).1.1))))
  unfolding reconcile
  reconcile-safe (cm, w) there h =
      elim (reconcile_fetched-safe cm (c.get_node_eni name w) (λ n e. status.fetched n w e there)
        (status.recorded_get name w there) (laws.by_get name w h)) [
          | inl p ↦ inl p
          | inr (n, (e, (deleted, g))) ↦
              inr (n, (e, (deleted, ((status.fetched n w e there).1, g))))
        ]
