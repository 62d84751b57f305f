-- ===== src/Controller/Deletion/Finalizer.antt =====
-- When the finalizer of a NodeENI goes.
use aws_multi_eni_controller.Prelude.{
  ◌≡◌, refl, String, Bool, true, false, Option, none, some, ◌⊎◌, inl, inr, Bool-cases, List, ap,
  sym, subst, ◌∙◌,
}
use aws_multi_eni_controller.Types.{NodeEni, EniAttachment}
use aws_multi_eni_controller.Cluster.{Cluster, Config}
use aws_multi_eni_controller.Controller.Cleanup.Laws.{IsStable, EniLaws}
use aws_multi_eni_controller.Controller.Coordination.{CoordinationManager}
use aws_multi_eni_controller.Controller.Parallel.Outcome.{In}
use aws_multi_eni_controller.Controller.Coordinated.{Surroundings, parallel_cleanup_enis}
use aws_multi_eni_controller.Controller.Coordinated.Guarantee.{
  parallel_cleanup_enis-gone, parallel_cleanup_enis-keeps,
}
use aws_multi_eni_controller.Controller.Updates.{
  node_eni_finalizer, Written, update_node_eni_with_retry, remove_finalizer,
}
use aws_multi_eni_controller.Controller.Updates.Kept.{
  update_node_eni_with_retry-keeps, remove_finalizer-keeps, update_node_eni_with_retry_inv,
}
use aws_multi_eni_controller.Controller.Deletion.{
  is_cleanup_timed_out, start_time_of, set_cleanup_start_time, finish_deletion, clean_up,
  handle_deletion,
}

-- The object on the server has the finalizer: a fact that a write takes away only by an object
-- without it.
pub record IsPinned (c : Cluster) (Pinned : c.World → Type 0) : Type 0 where
  pub pinned_stable : IsStable c Pinned
  pub by_get : (name : String) (w : c.World) → Pinned w → Pinned (c.get_node_eni name w).1
  pub by_update :
      (n : NodeEni) (w : c.World)
      → c.contains_finalizer n.finalizers node_eni_finalizer ≡ true
      → Pinned w
      → Pinned (c.update_node_eni n w).1

-- A fact of the world that the Kubernetes API keeps.
pub record KeptByApi (c : Cluster) (P : c.World → Type 0) : Type 0 where
  pub got : (name : String) (w : c.World) → P w → P (c.get_node_eni name w).1
  pub updated : (n : NodeEni) (w : c.World) → P w → P (c.update_node_eni n w).1

-- The server's copy of the object of that name has these attachments in its status. Whoever fetches the
-- object gets them, and since the status is a subresource, a write of the metadata neither changes
-- them nor heeds those that it sends: it is answered with the server's.
pub record KeepsStatus (c : Cluster) (name : String) (attachments : List EniAttachment)
    (Recorded : c.World → Type 0) : Type 0 where
  pub fetched :
      (m : NodeEni) (w : c.World)
      → (c.get_node_eni name w).0 ≡ inr m
      → Recorded w
      → (m.name ≡ name) × (m.attachments ≡ attachments)
  pub answered :
      (n m : NodeEni) (w : c.World)
      → n.name ≡ name
      → (c.update_node_eni n w).0 ≡ inr m
      → Recorded w
      → m.attachments ≡ attachments
  pub recorded_get :
      (other : String) (w : c.World) → Recorded w → Recorded (c.get_node_eni other w).1
  pub recorded_update :
      (n : NodeEni) (w : c.World) → Recorded w → Recorded (c.update_node_eni n w).1

-- The ENI of each of its attachments is gone.
abbrev pub AllGone : {W : Type 0} → (String → W → Type 0) → NodeEni → W → Type 0
AllGone IsGone n w = (a : EniAttachment) → In a n.attachments → IsGone a.eni_id w

some_is_not_none : {A : Type 0} {a : A} → some a ≡ none → ⊥
some_is_not_none h = cc

-- The controller may still be deleting: who else may have acted keeps the facts below.
module _ (c : Cluster) (config : Config) (env : Surroundings c) (Pinned : c.World → Type 0)
    (laws : IsPinned c Pinned)
    (others_pinned : (s : CoordinationManager × c.World) → Pinned s.1 → Pinned (env.others s).1)
    (IsGone : String → c.World → Type 0) (eni_laws : EniLaws c IsGone)
    (gone_laws : (id : String) → KeptByApi c (IsGone id))
    (others_gone : (id : String) (s : CoordinationManager × c.World)
      → IsGone id s.1
      → IsGone id (env.others s).1)
    (running : (t : CoordinationManager × c.World) → env.is_cancelled t ≡ false) (name : String)
    (attachments : List EniAttachment) (Recorded : c.World → Type 0)
    (status : KeepsStatus c name attachments Recorded) where
  -- The object that a write of the start time without an error leaves in memory has the attachments of
  -- the server's copy.
  start_time_of-attachments :
      (n : NodeEni) (t : Option String) (w : c.World)
      → n.name ≡ name
      → n.attachments ≡ attachments
      → Recorded w
      → (start_time_of c config env n t w).0 ≡ none
      → (start_time_of c config env n t w).1.0.attachments ≡ n.attachments
  unfolding start_time_of
  start_time_of-attachments n (some text) w e q h k = refl
  start_time_of-attachments n none w e q h k =
      update_node_eni_with_retry_inv c (λ o v. (o.name ≡ name) × Recorded v)
        (λ x o v. x ≡ none → o.attachments ≡ attachments)
        (λ o m v answer i x. status.answered o m v i.0 answer i.1)
        (λ o x v answer i y. absurd (some_is_not_none y))
        (λ o m v answer fetch i.
          let there = status.recorded_update o v i.1 in
          let fetch' = ap (λ f. (c.get_node_eni f (c.update_node_eni o v).1).0) (sym i.0) ∙ fetch in
          ((status.fetched m _ fetch' there).0, status.recorded_get o.name _ there))
        (λ o x v answer fetch i y. absurd (some_is_not_none y))
        (λ o v i y. absurd (some_is_not_none y)) _ w (e, h) k
      ∙ sym q

  update-Pinned :
      (n : NodeEni) (w : c.World)
      → c.contains_finalizer n.finalizers node_eni_finalizer ≡ true
      → Pinned w
      → Pinned (update_node_eni_with_retry c n w).1.1
  update-Pinned n w f h =
      update_node_eni_with_retry-keeps c Pinned n w laws.by_get
        (λ o v e k. laws.by_update o v (rw e f) k) h

  start_time_of-Pinned :
      (n : NodeEni) (t : Option String) (w : c.World)
      → c.contains_finalizer n.finalizers node_eni_finalizer ≡ true
      → Pinned w
      → Pinned (start_time_of c config env n t w).1.1
  unfolding start_time_of
  start_time_of-Pinned n (some text) w f h = h
  start_time_of-Pinned n none w f h = update-Pinned _ w f h

  remove_finalizer-keeps_gone :
      (id : String) (n : NodeEni) (w : c.World)
      → IsGone id w
      → IsGone id (remove_finalizer c n w).1.1
  remove_finalizer-keeps_gone id n w h =
      remove_finalizer-keeps c (IsGone id) n w (gone_laws id).got
        (λ o v k. (gone_laws id).updated o v k) h

  finish_deletion-safe :
      (n : NodeEni) (success : Bool) (s : CoordinationManager × c.World)
      → Pinned s.1
      → (success ≡ true → AllGone IsGone n s.1)
      → Pinned (finish_deletion c config env n success s).1.1
        ⊎ AllGone IsGone n (finish_deletion c config env n success s).1.1
  unfolding finish_deletion
  finish_deletion-safe n false s h g = inl h
  finish_deletion-safe n true s h g =
      inr (λ a m. remove_finalizer-keeps_gone a.eni_id n s.1 (g refl a m))

  clean_up-safe :
      (n : NodeEni) (cm : CoordinationManager) (r : Written c.World)
      → Pinned r.1.1
      → (r.0 ≡ none → r.1.0.attachments ≡ n.attachments)
      → Pinned (clean_up c config env cm r).1.1 ⊎ AllGone IsGone n (clean_up c config env cm r).1.1
  unfolding clean_up
  clean_up-safe n cm (some e, (o, w)) h same = inl h
  clean_up-safe n cm (none, (o, w)) h same =
      elim (finish_deletion-safe o (parallel_cleanup_enis c config env o o.attachments (cm, w)).0
        (parallel_cleanup_enis c config env o o.attachments (cm, w)).1
        (parallel_cleanup_enis-keeps c config env Pinned laws.pinned_stable others_pinned o
          o.attachments (cm, w) h)
        (λ success a m.
          parallel_cleanup_enis-gone c config env IsGone eni_laws others_gone o o.attachments
            (cm, w) a running success m)) [
              | inl p ↦ inl p
              | inr g ↦ inr (λ a m. g a (subst (In a) (sym (same refl)) m))
            ]

  -- The finalizer goes for one of two reasons only. If the object has it on the server before
  -- `handleDeletion`, then afterwards it still has it there, or the cleanup had run out of time, or
  -- the ENI of every attachment of the object is gone from EC2. (The object in memory has the name and
  -- the attachments of the server's copy, whose status a write of the metadata leaves as it is. The
  -- context is not done, the others do not remove the finalizer, a write of an object with the
  -- finalizer leaves it there, and an ENI that is gone does not come back.)
  pub handle_deletion-safe :
      (n : NodeEni) (s : CoordinationManager × c.World)
      → n.name ≡ name
      → n.attachments ≡ attachments
      → Recorded s.1
      → Pinned s.1
      → Pinned (handle_deletion c config env n s).1.1
        ⊎ ((is_cleanup_timed_out c config env n s.1 ≡ true)
            ⊎ AllGone IsGone n (handle_deletion c config env n s).1.1)
  unfolding handle_deletion set_cleanup_start_time
  handle_deletion-safe n (cm, w) e q there h =
      elim (Bool-cases (c.contains_finalizer n.finalizers node_eni_finalizer)) [
        | inr absent ↦ inl (rw (absent, handle_deletion) h)
        | inl present ↦ elim (Bool-cases (is_cleanup_timed_out c config env n w)) [
          | inl late ↦ inr (inl late)
          | inr early ↦
              elim (clean_up-safe n cm (set_cleanup_start_time c config env n w)
                (start_time_of-Pinned n _ w present h)
                (start_time_of-attachments n _ w e q there)) [
                  | inl p ↦ inl (rw (present, handle_deletion) (rw (early, handle_deletion) p))
                  | inr g ↦ inr (
                      inr (λ a m.
                        rw (present, handle_deletion) (rw (early, handle_deletion) (g a m))))
                ]
        ]
      ]
