-- ===== src/Controller/Subnets/Laws.antt =====
-- The subnets of a NodeENI: what the list has, and what looking it up keeps.
use aws_multi_eni_controller.Prelude.{
  String, true, false, ◌≡◌, refl, sym, ◌∙◌, subst, List, [], ◌∷◌, ◌++◌, contains_string-append,
  eq_iff, inl, inr, arith, contains_string, Bool-cases,
}
use aws_multi_eni_controller.Prelude.State.{Result, ok, err, Result-cases}
use aws_multi_eni_controller.Types.{NodeEniSpec}
use aws_multi_eni_controller.Cluster.{Cluster}
use aws_multi_eni_controller.Controller.Calls.{IsKept}
use aws_multi_eni_controller.Controller.Subnets.{
  add_new, given_ids, given_names, some_subnet, add_named, get_all_subnet_ids,
}

-- No text twice.
abbrev pub NoRepeat : List String → Type 0
NoRepeat [] = Unit
NoRepeat (x ∷ xs) = (contains_string xs x ≡ false) × NoRepeat xs

module _ (c : Cluster) (P : c.World → Type 0) (kept : IsKept c P) where
  add_named-keeps : (names ids : List String) (w : c.World) → P w → P (add_named c names ids w).1
  unfolding add_named
  add_named-keeps [] ids w h = h
  add_named-keeps (name ∷ names) ids w h =
      let r = c.get_subnet_id_by_name name w in
      elim (Result-cases r.0) [
        | inl (x, q) ↦
            rw (q, add_named) (add_named-keeps names (add_new ids x) r.1 (kept.by_subnet name w h))
        | inr (e, q) ↦ rw (q, add_named) (kept.by_subnet name w h)
      ]

  pub get_all_subnet_ids-keeps :
      (spec : NodeEniSpec) (w : c.World) → P w → P (get_all_subnet_ids c spec w).1
  unfolding get_all_subnet_ids
  get_all_subnet_ids-keeps spec w h = add_named-keeps (given_names spec) (given_ids spec) w h

NoRepeat-append :
    (ids : List String) (x : String)
    → NoRepeat ids
    → contains_string ids x ≡ false
    → NoRepeat (ids ++ x ∷ [])
NoRepeat-append [] x h f = (refl, tt)
NoRepeat-append (y ∷ ids) x h f = (
  ground (arith, contains_string-append ids (x ∷ []) y, eq_iff x y, eq_iff y x),
  NoRepeat-append ids x h.1 (ground arith),
)

NoRepeat-add_new : (ids : List String) (x : String) → NoRepeat ids → NoRepeat (add_new ids x)
NoRepeat-add_new ids x h = elim (Bool-cases (contains_string ids x)) [
  | inl t ↦ rw (t) h
  | inr f ↦ rw (f) (NoRepeat-append ids x h f)
]

contains_string-add_new :
    (ids : List String) (x y : String)
    → contains_string ids y ≡ true
    → contains_string (add_new ids x) y ≡ true
contains_string-add_new ids x y h = ground (arith, contains_string-append ids (x ∷ []) y)

ok_injective : {A : Type 0} {a b : A} → ok a ≡ ok b → a ≡ b
ok_injective h = cc

err_not_ok : {A : Type 0} {a : A} {e : String} → err e ≡ ok a → ⊥
err_not_ok h = cc

some_subnet-ok :
    (r : Result (List String)) (ids : List String)
    → some_subnet r ≡ ok ids
    → (r ≡ ok ids) × (ids ≡ [] → ⊥)
some_subnet-ok (err e) ids h = absurd (err_not_ok h)
some_subnet-ok (ok []) ids h = absurd (err_not_ok h)
some_subnet-ok (ok (x ∷ xs)) ids h = (h, λ e. cons_not_nil (ok_injective h ∙ e))
  where
    cons_not_nil : x ∷ xs ≡ [] → ⊥
    cons_not_nil e = cc

module _ (c : Cluster) where
  add_named_lem :
      (names ids found : List String) (w : c.World)
      → (add_named c names ids w).0 ≡ ok found
      → ((x : String) → contains_string ids x ≡ true → contains_string found x ≡ true)
        × (NoRepeat ids → NoRepeat found)
  unfolding add_named
  add_named_lem [] ids found w h =
      let e = ok_injective h in (λ x k. rw (sym e) k, λ k. subst NoRepeat e k)
  add_named_lem (name ∷ names) ids found w h =
      let r = c.get_subnet_id_by_name name w in
      elim (Result-cases r.0) [
        | inl (x, q) ↦
            let rest = add_named_lem names (add_new ids x) found r.1 (rw (q, add_named) at h) in
            (
              λ y k. rest.0 y (contains_string-add_new ids x y k),
              λ k. rest.1 (NoRepeat-add_new ids x k),
            )
        | inr (e, q) ↦ absurd (err_not_ok (rw (q, add_named) at h))
      ]

  -- If getAllSubnetIDs succeeds, then there is a subnet, every ID that the spec gives is in the list,
  -- and if the spec gives no ID twice then the list has none twice, whatever the names resolve to.
  pub get_all_subnet_ids_lem :
      (spec : NodeEniSpec) (w : c.World) (ids : List String)
      → (get_all_subnet_ids c spec w).0 ≡ ok ids
      → (ids ≡ [] → ⊥)
        × ((x : String) → contains_string (given_ids spec) x ≡ true → contains_string ids x ≡ true)
        × (NoRepeat (given_ids spec) → NoRepeat ids)
  unfolding get_all_subnet_ids
  get_all_subnet_ids_lem spec w ids h =
      let found = some_subnet-ok (add_named c (given_names spec) (given_ids spec) w).0 ids h in
      let laws = add_named_lem (given_names spec) (given_ids spec) ids w found.0 in
      (found.1, laws.0, laws.1)
