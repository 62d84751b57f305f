-- ===== src/Controller/Updates/Results.antt =====
-- What a successful write with retry has stored.
use aws_multi_eni_controller.Prelude.{
  ◌≡◌, ◌∙◌, refl, String, true, List, [], ◌∷◌, Option, none, some, inr, eq_iff, is_some, eq_refl,
  false≢true, arith,
}
use aws_multi_eni_controller.Prelude.Maps.{Dict, lookup, insert, lookup-insert, lookup-delete}
use aws_multi_eni_controller.Types.{NodeEni}
use aws_multi_eni_controller.Cluster.{Cluster, ApiError}
use aws_multi_eni_controller.Controller.Updates.{
  remove_finalizer, without_start_time, node_eni_finalizer, cleanup_start_time_annotation,
  insert_all, entries, merge_annotations, merge_metadata, merge_status, update_node_eni_with_retry,
  update_node_eni_status_with_retry,
}
use aws_multi_eni_controller.Controller.Updates.Kept.{write_with_retry_inv}

-- Our entry wins, and a key that we do not have keeps the latest value.
lookup-insert_all :
    (ours latest : Dict String) (k : String)
    → (lookup k ours ≡ none → lookup k (insert_all ours latest) ≡ lookup k latest)
unfolding insert_all lookup
lookup-insert_all [] latest k h = refl
lookup-insert_all ((j, v) ∷ rest) latest k h =
    ground
      (arith, lookup-insert_all rest (insert j v latest) k, lookup-insert j k v latest, eq_iff j k)

-- The API server stores what it accepts: the object that comes back has the finalizers and
-- annotations (or the attachments) of the one that was sent.
pub record Stores (c : Cluster) : Type 0 where
  pub finalizers_stored :
      (n m : NodeEni) (w : c.World)
      → (c.update_node_eni n w).0 ≡ inr m
      → (m.finalizers ≡ n.finalizers) × (m.annotations ≡ n.annotations)
  pub attachments_stored :
      (n m : NodeEni) (w : c.World)
      → (c.update_node_eni_status n w).0 ≡ inr m
      → m.attachments ≡ n.attachments

-- A value in case of success.
abbrev IfOk : Option ApiError → Type 0 → Type 0
IfOk none P = P
IfOk (some e) P = Unit

of_ok : (e : Option ApiError) (P : Type 0) → IfOk e P → e ≡ none → P
of_ok none P h k = h
of_ok (some e) P h k = absurd (some_none k)
  where
    some_none : some e ≡ none → ⊥
    some_none p = cc

-- The finalizers are ours, our annotations have no start time.
abbrev Cleared : List String → NodeEni → Type 0
Cleared fs o =
    (o.finalizers ≡ fs)
    × (is_some o.annotations ≡ true)
    × (lookup cleanup_start_time_annotation (entries o.annotations) ≡ none)

merge-no_start :
    (ours latest : Option (Dict String))
    → is_some ours ≡ true
    → lookup cleanup_start_time_annotation (entries ours) ≡ none
    → (is_some (merge_annotations ours latest) ≡ true)
      × (lookup cleanup_start_time_annotation (entries (merge_annotations ours latest)) ≡ none)
unfolding merge_annotations
merge-no_start none latest h k = absurd (false≢true h)
merge-no_start (some m) latest h k = (
  refl,
  ground (
    arith,
    lookup-delete cleanup_start_time_annotation cleanup_start_time_annotation
        (insert_all m (entries latest)),
    lookup-insert_all m (entries latest) cleanup_start_time_annotation k,
    eq_refl cleanup_start_time_annotation,
  ),
)

-- If `removeFinalizer` reports success for an object with annotations, then the accepted object has
-- our finalizers without the controller's, and no cleanup start time, however many conflicts there
-- were and whatever the versions in between held.
pub remove_finalizer_lem :
    (c : Cluster) (stores : Stores c) (n : NodeEni) (w : c.World) (m : Dict String)
    → n.annotations ≡ some m
    → (remove_finalizer c n w).0 ≡ none
    → ((remove_finalizer c n w).1.0.finalizers
        ≡ c.without_finalizer n.finalizers node_eni_finalizer)
      × (lookup cleanup_start_time_annotation (entries (remove_finalizer c n w).1.0.annotations)
          ≡ none)
unfolding remove_finalizer update_node_eni_with_retry merge_metadata
remove_finalizer_lem c stores n w m e h = (result.0, result.2)
  where
    fs : List String
    fs = c.without_finalizer n.finalizers node_eni_finalizer

    sent : NodeEni
    sent = record n { finalizers = fs; annotations = without_start_time n.annotations }

    start : Cleared fs sent
    start = (
      refl,
      rw (e, without_start_time),
      rw (e, without_start_time)
          (ground (
            arith,
            lookup-delete cleanup_start_time_annotation cleanup_start_time_annotation m,
            eq_refl cleanup_start_time_annotation,
          )),
    )

    result : Cleared fs (remove_finalizer c n w).1.0
    result =
        of_ok (remove_finalizer c n w).0 (Cleared fs (remove_finalizer c n w).1.0)
          (write_with_retry_inv c c.update_node_eni merge_metadata (λ o v. Cleared fs o)
            (λ x o v. IfOk x (Cleared fs o))
            (λ o a v k i.
              let stored = stores.finalizers_stored o a v k in
              (stored.0 ∙ i.0, rw (stored.1) (i.1), rw (stored.1) (i.2)))
            (λ o x v k i. tt)
            (λ o a v k g i.
              let merged = merge-no_start o.annotations a.annotations i.1 i.2 in
              (i.0, merged.0, merged.1))
            (λ o x v k g i. tt) (λ o v i. tt) sent w start)
          h

-- If the status write reports success, the accepted status has the attachments that the caller had,
-- however many conflicts there were.
pub update_node_eni_status-attachments :
    (c : Cluster) (stores : Stores c) (n : NodeEni) (w : c.World)
    → (update_node_eni_status_with_retry c n w).0 ≡ none
    → (update_node_eni_status_with_retry c n w).1.0.attachments ≡ n.attachments
unfolding update_node_eni_status_with_retry merge_status
update_node_eni_status-attachments c stores n w h =
    of_ok (update_node_eni_status_with_retry c n w).0 _
      (write_with_retry_inv c c.update_node_eni_status merge_status
        (λ o v. o.attachments ≡ n.attachments) (λ x o v. IfOk x (o.attachments ≡ n.attachments))
        (λ o a v k i. stores.attachments_stored o a v k ∙ i) (λ o x v k i. tt) (λ o a v k g i. i)
        (λ o x v k g i. tt) (λ o v i. tt) n w refl)
      h
