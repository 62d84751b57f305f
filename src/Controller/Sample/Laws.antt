-- ===== src/Controller/Sample/Laws.antt =====
-- What holds in the sample cluster.
use aws_multi_eni_controller.Prelude.{
  String, Bool, true, false, if◌then◌else◌, List, ◌≡◌, refl, ◌⊎◌, inl, inr, contains_string,
  Bool-cases, eq_refl, arith,
}
use aws_multi_eni_controller.Controller.Updates.{node_eni_finalizer}
use aws_multi_eni_controller.Types.{NodeEni}
use aws_multi_eni_controller.Cluster.{ApiError, not_found}
use aws_multi_eni_controller.Controller.Calls.{IsKept}
use aws_multi_eni_controller.Controller.Updates.Results.{Stores}
use aws_multi_eni_controller.Controller.Deletion.Finalizer.{IsPinned, KeptByApi, KeepsStatus}
use aws_multi_eni_controller.Controller.Sample.{Place, place_cluster, IsGoneHere, place_laws, demo}

stored_same :
    (n m : NodeEni) (r : ApiError ⊎ NodeEni)
    → r ≡ inr n
    → r ≡ inr m
    → (m.finalizers ≡ n.finalizers)
      × (m.annotations ≡ n.annotations)
      × (m.attachments ≡ n.attachments)
stored_same n m r e h = (cc, cc, cc)

pub place_stores : Stores place_cluster
place_stores = record {
  finalizers_stored =
      λ n m w h. let same = stored_same (answer n) m (inr (answer n)) refl h in (same.0, same.1);
  attachments_stored = λ n m w h. (stored_same n m (inr n) refl h).2;
}
  where
    answer : NodeEni → NodeEni
    answer n = record n { attachments = demo.attachments }

abbrev pub HasFinalizer : Place → Type 0
HasFinalizer w = w.pinned ≡ true

pub pinned_laws : IsPinned place_cluster HasFinalizer
pinned_laws = record {
  pinned_stable = record {
    by_describe = λ other w h. h;
    by_detach = λ other force w h. h;
    by_wait = λ other t w h. h;
    by_delete = λ other w h. h;
    by_capture = λ a w h. h;
    by_unbind = λ a s w h. h;
    by_rollback = λ a s w h. h;
    by_sleep = λ t w h. h;
  };
  by_get = λ name w h. h;
  by_update = λ n w f h. f;
}

pub kept_by_api : (id : String) → KeptByApi place_cluster (IsGoneHere id)
kept_by_api id = record { got = λ name w h. h; updated = λ n w h. h }

pub gone_kept : (id : String) → IsKept place_cluster (IsGoneHere id)
gone_kept id = record {
  in_cleanup = place_laws.stable id;
  by_create = λ a b c d w h. h;
  by_attach = λ a b c d w h. h;
  by_instance = λ a w h. h;
  by_enis = λ a w h. h;
  by_subnet = λ a w h. h;
  by_cidr = λ a w h. h;
  by_group = λ a w h. h;
  by_list = λ a w h. h;
  by_get = λ a w h. h;
  by_status = λ a w h. h;
}

pub pinned_kept : IsKept place_cluster HasFinalizer
pinned_kept = record {
  in_cleanup = pinned_laws.pinned_stable;
  by_create = λ a b c d w h. h;
  by_attach = λ a b c d w h. h;
  by_instance = λ a w h. h;
  by_enis = λ a w h. h;
  by_subnet = λ a w h. h;
  by_cidr = λ a w h. h;
  by_group = λ a w h. h;
  by_list = λ a w h. h;
  by_get = λ a w h. h;
  by_status = λ a w h. h;
}

pub finalizer_added :
    (fs : List String)
    → place_cluster.contains_finalizer
        (place_cluster.with_finalizer fs node_eni_finalizer)
        node_eni_finalizer
      ≡ true
finalizer_added fs = elim (Bool-cases (contains_string fs node_eni_finalizer)) [
  | inl t ↦ rw (t) t
  | inr f ↦ rw (f) (ground (arith, eq_refl node_eni_finalizer))
]

-- The server's copy has the two attachments of `demo`, always.
abbrev pub HasDemo : Place → Type 0
HasDemo w = Unit

fetched_demo :
    (b : Bool) (m : NodeEni)
    → (if b then inr demo else inl not_found) ≡ inr m
    → (m.name ≡ "demo") × (m.attachments ≡ demo.attachments)
fetched_demo true m h = (cc, cc)
fetched_demo false m h = absurd cc

pub demo_status : KeepsStatus place_cluster "demo" demo.attachments HasDemo
demo_status = record {
  fetched = λ m w h there. fetched_demo w.pinned m h;
  answered = λ n m w e h there. (stored_same (answer n) m (inr (answer n)) refl h).2;
  recorded_get = λ other w h. tt;
  recorded_update = λ n w h. tt;
}
  where
    answer : NodeEni → NodeEni
    answer n = record n { attachments = demo.attachments }
