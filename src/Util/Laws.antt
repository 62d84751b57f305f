-- ===== src/Util/Laws.antt =====
-- Instance IDs out of provider IDs.
use Prim.Native.Char.{Char, code}
use Prim.Native.String.append.{nil, cons}
use aws_multi_eni_controller.Prelude.{
  String, ◌<>◌, Bool, false, ◌||◌, ◌≡◌, refl, sym, ap, ◌∙◌, subst, List, [], ◌∷◌, inl, inr, arith,
  ◌==◌, if◌then◌else◌, Bool-cases, length, ltb,
}
use aws_multi_eni_controller.Util.{put_first, split_slash, last, get_instance_id_from_provider_id}

abbrev pub has_slash : String → Bool
has_slash String.[] = false
has_slash (String.◌∷◌ c s) = code c == 47 || has_slash s

split_slash-no_slash : (s : String) → has_slash s ≡ false → split_slash s ≡ s ∷ []
unfolding split_slash
split_slash-no_slash String.[] h = refl
split_slash-no_slash (String.◌∷◌ c s) h = elim (Bool-cases (code c == 47)) [
  | inl t ↦ absurd (ground arith)
  | inr f ↦ rw (f, split_slash) (rw (split_slash-no_slash s (ground arith)) refl)
]

-- At least two parts, the last of which is the text.
abbrev EndsIn : String → List String → Type 0
EndsIn id [] = ⊥
EndsIn id (x ∷ []) = ⊥
EndsIn id (x ∷ y ∷ ps) = last (y ∷ ps) ≡ id

EndsIn-empty : (id : String) (ps : List String) → EndsIn id ps → EndsIn id ("" ∷ ps)
EndsIn-empty id [] h = absurd h
EndsIn-empty id (x ∷ []) h = absurd h
EndsIn-empty id (x ∷ y ∷ ps) h = h

EndsIn-put_first :
    (c : Char) (id : String) (ps : List String) → EndsIn id ps → EndsIn id (put_first c ps)
EndsIn-put_first c id [] h = absurd h
EndsIn-put_first c id (x ∷ []) h = absurd h
EndsIn-put_first c id (x ∷ y ∷ ps) h = h

slash_then : (id : String) → "" <> ("/" <> id) ≡ String.◌∷◌ "/" id
slash_then id = nil ("/" <> id) ∙ (cons "/" "" id ∙ ap (String.◌∷◌ "/") (nil id))

split_slash-EndsIn :
    (prefix id : String) → has_slash id ≡ false → EndsIn id (split_slash (prefix <> ("/" <> id)))
unfolding split_slash
split_slash-EndsIn String.[] id h =
    subst (λ s. EndsIn id (split_slash s)) (sym (slash_then id))
      (subst (λ ps. EndsIn id ("" ∷ ps)) (sym (split_slash-no_slash id h)) refl)
split_slash-EndsIn (String.◌∷◌ c prefix) id h =
    let parts = split_slash (prefix <> ("/" <> id)) in
    let rest = split_slash-EndsIn prefix id h in
    subst (λ s. EndsIn id (split_slash s)) (sym (cons c prefix ("/" <> id)))
      (elim (Bool-cases (code c == 47)) [
        | inl t ↦ rw (t, split_slash) (EndsIn-empty id parts rest)
        | inr f ↦ rw (f, split_slash) (EndsIn-put_first c id parts rest)
      ])

EndsIn-last :
    (id : String) (ps : List String)
    → EndsIn id ps
    → (if ltb (length ps) 2 then "" else last ps) ≡ id
EndsIn-last id [] h = absurd h
EndsIn-last id (x ∷ []) h = absurd h
EndsIn-last id (x ∷ y ∷ ps) h = ground arith

-- The instance ID comes back out of a provider ID: of a text that ends in a slash and an ID with no
-- slash, GetInstanceIDFromProviderID gives that ID, whatever stands in front.
pub get_instance_id-provider_id :
    (prefix id : String)
    → has_slash id ≡ false
    → get_instance_id_from_provider_id (prefix <> ("/" <> id)) ≡ id
unfolding get_instance_id_from_provider_id
get_instance_id-provider_id prefix id h =
    EndsIn-last id (split_slash (prefix <> ("/" <> id))) (split_slash-EndsIn prefix id h)
