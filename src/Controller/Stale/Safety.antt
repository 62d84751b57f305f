-- ===== src/Controller/Stale/Safety.antt =====
-- An attachment leaves the status only when its ENI is gone.
use aws_multi_eni_controller.Prelude.{
  String, Bool, true, false, ◌≡◌, refl, sym, subst, List, [], ◌∷◌, ◌++◌, ◌⊎◌, inl, inr, arith,
  if◌then◌else◌, Bool-cases,
}
use aws_multi_eni_controller.Types.{NodeEni, EniAttachment}
use aws_multi_eni_controller.Cluster.{Cluster, Config}
use aws_multi_eni_controller.Controller.Cleanup.{exists_of}
use aws_multi_eni_controller.Controller.Cleanup.Laws.{EniLaws}
use aws_multi_eni_controller.Controller.Cleanup.Deleted.{
  described_gone, cleanup_eni_attachment-gone,
}
use aws_multi_eni_controller.Controller.Coordination.{CoordinationManager}
use aws_multi_eni_controller.Controller.Parallel.Outcome.{In}
use aws_multi_eni_controller.Controller.Coordinated.{Surroundings, parallel_cleanup_enis}
use aws_multi_eni_controller.Controller.Coordinated.Guarantee.{parallel_cleanup_enis-gone}
use aws_multi_eni_controller.Controller.Stale.{
  sorted_in, is_stale, separate, handle_described, handle_stale_attachment, check_each,
  after_parallel, clean_stale, remove_stale_attachments,
}

In-left : (a : EniAttachment) (xs ys : List EniAttachment) → In a xs → In a (xs ++ ys)
In-left a [] ys h = absurd h
In-left a (x ∷ xs) ys (inl e) = inl e
In-left a (x ∷ xs) ys (inr h) = inr (In-left a xs ys h)

In-right : (a : EniAttachment) (xs ys : List EniAttachment) → In a ys → In a (xs ++ ys)
In-right a [] ys h = h
In-right a (x ∷ xs) ys h = inr (In-right a xs ys h)

In-joined : (a : EniAttachment) (xs ys : List EniAttachment) → In a xs ⊎ In a ys → In a (xs ++ ys)
In-joined a xs ys (inl h) = In-left a xs ys h
In-joined a xs ys (inr h) = In-right a xs ys h

-- Sorting one attachment in loses none.
sorted_in-new :
    (stale : Bool) (a b : EniAttachment) (r : List EniAttachment × List EniAttachment)
    → a ≡ b
    → In a (sorted_in stale b r).0 ⊎ In a (sorted_in stale b r).1
sorted_in-new true a b r e = inr (inl e)
sorted_in-new false a b r e = inl (inl e)

sorted_in-old :
    (stale : Bool) (a b : EniAttachment) (r : List EniAttachment × List EniAttachment)
    → In a r.0 ⊎ In a r.1
    → In a (sorted_in stale b r).0 ⊎ In a (sorted_in stale b r).1
sorted_in-old true a b r (inl h) = inl h
sorted_in-old true a b r (inr h) = inr (inr h)
sorted_in-old false a b r (inl h) = inl (inr h)
sorted_in-old false a b r (inr h) = inr h

In-if :
    (t : Bool) (a b : EniAttachment) (xs : List EniAttachment)
    → In a xs
    → In a (if t then b ∷ xs else xs)
In-if true a b xs h = inr h
In-if false a b xs h = h

module _ (c : Cluster) (config : Config) (env : Surroundings c) (IsGone : String → c.World → Type 0)
    (laws : EniLaws c IsGone)
    (others_keep : (id : String) (s : CoordinationManager × c.World)
      → IsGone id s.1
      → IsGone id (env.others s).1)
    (running : (t : CoordinationManager × c.World) → env.is_cancelled t ≡ false) where
  separate-In :
      (current : List String) (attachments : List EniAttachment) (w : c.World) (a : EniAttachment)
      → In a attachments
      → In a (separate c config env current attachments w).0.0
        ⊎ In a (separate c config env current attachments w).0.1
  unfolding separate
  separate-In current [] w a h = absurd h
  separate-In current (b ∷ rest) w a (inl e) =
      let r = is_stale c config env current b w in
      sorted_in-new r.0 a b (separate c config env current rest r.1).0 e
  separate-In current (b ∷ rest) w a (inr h) =
      let r = is_stale c config env current b w in
      sorted_in-old r.0 a b (separate c config env current rest r.1).0
        (separate-In current rest r.1 a h)

  check_each-keeps :
      (id : String) (stale : List EniAttachment) (w : c.World)
      → IsGone id w
      → IsGone id (check_each c config env stale w).1
  unfolding check_each
  check_each-keeps id [] w h = h
  check_each-keeps id (a ∷ rest) w h =
      check_each-keeps id rest (c.describe_eni a.eni_id w).1
        ((laws.stable id).by_describe a.eni_id w h)

  check_each-In :
      (stale : List EniAttachment) (w : c.World) (a : EniAttachment)
      → In a stale
      → In a (check_each c config env stale w).0
        ⊎ IsGone a.eni_id (check_each c config env stale w).1
  unfolding check_each
  check_each-In [] w a h = absurd h
  check_each-In (b ∷ rest) w a (inl e) =
      let r = c.describe_eni b.eni_id w in
      elim (Bool-cases (exists_of r.0)) [
        | inl t ↦ inl (rw (t, check_each) (inl e))
        | inr f ↦ inr (
            subst (λ x. IsGone x.eni_id (check_each c config env rest r.1).1) (sym e)
              (check_each-keeps b.eni_id rest r.1
                (described_gone c config IsGone laws b.eni_id w r.0 refl f)))
      ]
  check_each-In (b ∷ rest) w a (inr h) =
      let r = c.describe_eni b.eni_id w in
      elim (check_each-In rest r.1 a h) [
        | inl k ↦ inl (In-if (exists_of r.0) a b (check_each c config env rest r.1).0 k)
        | inr g ↦ inr g
      ]

  handle_described-gone :
      (n : NodeEni) (a : EniAttachment) (w : c.World)
      → (handle_described c config env n a true w).0 ≡ false
      → IsGone a.eni_id (handle_described c config env n a true w).1
  unfolding handle_described
  handle_described-gone n a w h =
      cleanup_eni_attachment-gone c config IsGone laws n a w (ground arith)

  handle_stale_attachment-gone :
      (n : NodeEni) (a : EniAttachment) (w : c.World)
      → (handle_stale_attachment c config env n a w).0 ≡ false
      → IsGone a.eni_id (handle_stale_attachment c config env n a w).1
  unfolding handle_stale_attachment
  handle_stale_attachment-gone n a w h =
      let r = c.describe_eni a.eni_id w in
      elim (Bool-cases (exists_of r.0)) [
        | inl t ↦
            rw (t, handle_stale_attachment)
              (handle_described-gone n a r.1 (rw (t, handle_stale_attachment) at h))
        | inr f ↦
            rw (f, handle_stale_attachment)
              (described_gone c config IsGone laws a.eni_id w r.0 refl f)
      ]

  clean_one-safe :
      (n : NodeEni) (kept : List EniAttachment) (b : EniAttachment) (cm : CoordinationManager)
      (w : c.World) (a : EniAttachment)
      → In a kept ⊎ In a (b ∷ [])
      → In a (clean_stale c config env n kept (b ∷ []) (cm, w)).0
        ⊎ IsGone a.eni_id (clean_stale c config env n kept (b ∷ []) (cm, w)).1.1
  unfolding clean_stale
  clean_one-safe n kept b cm w a h =
      let r = handle_stale_attachment c config env n b w in
      elim (Bool-cases r.0) [
        | inl t ↦ inl (rw (t, clean_stale) (In-joined a kept (b ∷ []) h))
        | inr f ↦ elim h [
          | inl k ↦ inl (rw (f, clean_stale) k)
          | inr (inl e) ↦
              inr (subst (λ x. IsGone x.eni_id r.1) (sym e) (handle_stale_attachment-gone n b w f))
          | inr (inr z) ↦ absurd z
        ]
      ]

  after_parallel-safe :
      (kept stale : List EniAttachment) (success : Bool) (s : CoordinationManager × c.World)
      (a : EniAttachment)
      → In a kept ⊎ (In a stale × (success ≡ true → IsGone a.eni_id s.1))
      → In a (after_parallel c config env kept stale success s).0
        ⊎ IsGone a.eni_id (after_parallel c config env kept stale success s).1.1
  unfolding after_parallel
  after_parallel-safe kept stale true s a (inl h) = inl h
  after_parallel-safe kept stale true s a (inr h) = inr (h.1 refl)
  after_parallel-safe kept stale false (cm, w) a (inl h) =
      inl (In-left a kept (check_each c config env stale w).0 h)
  after_parallel-safe kept stale false (cm, w) a (inr h) = elim (check_each-In stale w a h.0) [
    | inl k ↦ inl (In-right a kept (check_each c config env stale w).0 k)
    | inr g ↦ inr g
  ]

  clean_stale-safe :
      (n : NodeEni) (kept stale : List EniAttachment) (s : CoordinationManager × c.World)
      (a : EniAttachment)
      → In a kept ⊎ In a stale
      → In a (clean_stale c config env n kept stale s).0
        ⊎ IsGone a.eni_id (clean_stale c config env n kept stale s).1.1
  unfolding clean_stale
  clean_stale-safe n kept [] s a (inl h) = inl h
  clean_stale-safe n kept [] s a (inr h) = absurd h
  clean_stale-safe n kept (b ∷ []) (cm, w) a h = clean_one-safe n kept b cm w a h
  clean_stale-safe n kept (b ∷ d ∷ rest) s a h =
      let r = parallel_cleanup_enis c config env n (b ∷ d ∷ rest) s in
      after_parallel-safe kept (b ∷ d ∷ rest) r.0 r.1 a (elim h [
        | inl k ↦ inl k
        | inr m ↦ inr (
          m,
          λ success.
              parallel_cleanup_enis-gone c config env IsGone laws others_keep n (b ∷ d ∷ rest) s a
                running success m,
        )
      ])

  -- After removeStaleAttachments, each attachment of the object is kept in the result, or its ENI is
  -- gone from EC2, whatever the calls answered and however many were stale. (The context is not done,
  -- and an ENI that is gone does not come back.)
  pub remove_stale_attachments-safe :
      (n : NodeEni) (current : List String) (s : CoordinationManager × c.World) (a : EniAttachment)
      → In a n.attachments
      → In a (remove_stale_attachments c config env n current s).0
        ⊎ IsGone a.eni_id (remove_stale_attachments c config env n current s).1.1
  unfolding remove_stale_attachments
  remove_stale_attachments-safe n current (cm, w) a h =
      let r = separate c config env current n.attachments w in
      clean_stale-safe n r.0.0 r.0.1 (cm, r.1) a (separate-In current n.attachments w a h)
