-- ===== src/Controller/DeviceIndex/Maps.antt =====
-- What the maps of `buildAttachmentMaps` and `mergeDeviceIndices` hold.
use aws_multi_eni_controller.Prelude.{
  ℕ, ◌+◌, ◌≡◌, ◌≢◌, refl, String, Bool, true, false, ◌&&◌, ◌||◌, not, List, [], ◌∷◌, none, some,
  arith, if◌then◌else◌, str_eq, eq_iff, All, ap, sym, subst, ◌∙◌, inl, inr, eq_refl, Option-cases,
  Bool-cases, contains_string, Option, ◌⊎◌,
}
use aws_multi_eni_controller.Prelude.Int.{
  ℤ, pos, ◌+ℤ◌, ◌≤ℤ◌, ◌<ℤ◌, ltb_ℤ, eq_ℤ, contains_int, eq_ℤ-iff, eq_of_parts, +ℤ_parts,
}
use aws_multi_eni_controller.Prelude.Maps.{Dict, lookup, insert, lookup-insert}
use aws_multi_eni_controller.Types.{EniAttachment}
use aws_multi_eni_controller.Controller.DeviceIndex.{
  AttachmentMaps, empty_maps, note_attachment, note_attachments, build_attachment_maps, add_missing,
  merge_device_indices, determine_device_index,
}
use aws_multi_eni_controller.Controller.DeviceIndex.Search.{
  find_available-free, find_available-next,
}

contains_int-eq : (ks : List ℤ) (i j : ℤ) → eq_ℤ i j ≡ true → contains_int ks i ≡ contains_int ks j
contains_int-eq ks i j h = ap (contains_int ks) ((eq_ℤ-iff i j).0 h)

contains_int-add_missing :
    (is merged : List ℤ) (i : ℤ)
    → contains_int (add_missing is merged) i ≡ (contains_int is i || contains_int merged i)
unfolding add_missing
contains_int-add_missing [] merged i = refl
contains_int-add_missing (k ∷ ks) merged i = ground (
  arith,
  contains_int-add_missing ks (if contains_int merged k then merged else k ∷ merged) i,
  contains_int-eq merged k i,
)

-- The merged set is the union: an index counts atts used if the status or AWS says so.
pub contains_int-merge :
    (internal aws : List ℤ) (i : ℤ)
    → contains_int (merge_device_indices internal aws) i
      ≡ (contains_int internal i || contains_int aws i)
unfolding merge_device_indices
contains_int-merge internal aws i = contains_int-add_missing internal aws i

-- An attachment on the node holds the index, if the index is positive.
abbrev pub holds_index : String → List EniAttachment → ℤ → Bool
holds_index node_name [] i = false
holds_index node_name (a ∷ rest) i =
    str_eq a.node_id node_name && ltb_ℤ (pos 0) a.device_index && eq_ℤ a.device_index i
    || holds_index node_name rest i

-- An attachment on the node lies in the subnet.
abbrev pub holds_subnet : String → List EniAttachment → String → Bool
holds_subnet node_name [] s = false
holds_subnet node_name (a ∷ rest) s =
    str_eq a.node_id node_name && not (str_eq a.subnet_id "") && str_eq a.subnet_id s
    || holds_subnet node_name rest s

used-note_attachments :
    (node_name : String) (atts : List EniAttachment) (m : AttachmentMaps) (i : ℤ)
    → contains_int (note_attachments node_name atts m).used_device_indices i
      ≡ (holds_index node_name atts i || contains_int m.used_device_indices i)
unfolding note_attachments note_attachment
used-note_attachments n [] m i = refl
used-note_attachments n (a ∷ rest) m i =
    ground (arith, used-note_attachments n rest (note_attachment n a m) i)

subnets-note_attachments :
    (node_name : String) (atts : List EniAttachment) (m : AttachmentMaps) (s : String)
    → contains_string (note_attachments node_name atts m).existing_subnets s
      ≡ (holds_subnet node_name atts s || contains_string m.existing_subnets s)
unfolding note_attachments note_attachment
subnets-note_attachments n [] m s = refl
subnets-note_attachments n (a ∷ rest) m s =
    ground (arith, subnets-note_attachments n rest (note_attachment n a m) s)

-- The sets for a node: an index is used exactly when an attachment of the node holds it and it is
-- positive, and a subnet is present exactly when an attachment of the node lies in it.
pub build_attachment_maps_lem :
    (attachments : List EniAttachment) (node_name : String) (i : ℤ) (s : String)
    → (contains_int (build_attachment_maps attachments node_name).used_device_indices i
        ≡ holds_index node_name attachments i)
      × (contains_string (build_attachment_maps attachments node_name).existing_subnets s
          ≡ holds_subnet node_name attachments s)
unfolding build_attachment_maps
build_attachment_maps_lem attachments n i s = (
  ground (arith, used-note_attachments n attachments empty_maps i),
  ground (arith, subnets-note_attachments n attachments empty_maps s),
)

abbrev mapping_of : AttachmentMaps → Dict ℤ
mapping_of m = m.subnet_to_device_index

-- A stored index falls or stays when another attachment is noted.
note_attachment-le :
    (n : String) (a : EniAttachment) (m : AttachmentMaps) (s : String) (i j : ℤ)
    → lookup s (mapping_of (note_attachment n a m)) ≡ some i
    → lookup s (mapping_of m) ≡ some j
    → i ≤ℤ j
unfolding note_attachment
note_attachment-le n a m s i j h k =
    ground (arith, lookup-insert a.subnet_id s a.device_index (mapping_of m), eq_iff a.subnet_id s)

-- The index is at most that of each attachment in the subnet.
abbrev pub IsLowerBound : String → ℤ → List EniAttachment → Type 0
IsLowerBound s i = All (λ a. a.subnet_id ≡ s → pos 0 <ℤ a.device_index → i ≤ℤ a.device_index)

note_attachment-bounded :
    (n : String) (a : EniAttachment) (m : AttachmentMaps)
    → a.subnet_id ≢ ""
    → pos 0 <ℤ a.device_index
    → (j : ℤ) × (lookup a.subnet_id (mapping_of (note_attachment n a m)) ≡ some j)
      × (j ≤ℤ a.device_index)
unfolding note_attachment
note_attachment-bounded n a m nonempty positive =
    elim (Option-cases (lookup a.subnet_id (mapping_of m))) [
      | inl e ↦ (
        a.device_index,
        ground (arith, stored, eq_iff a.subnet_id "", eq_refl a.subnet_id),
        omega arith,
      )
      | inr (j, e) ↦ elim (Bool-cases (ltb_ℤ a.device_index j)) [
        | inl lower ↦ (
          a.device_index,
          ground (arith, stored, eq_iff a.subnet_id "", eq_refl a.subnet_id),
          omega arith,
        )
        | inr kept ↦
            (j, ground (arith, stored, eq_iff a.subnet_id "", eq_refl a.subnet_id), ground arith)
      ]
    ]
  where
    stored : lookup a.subnet_id (insert a.subnet_id a.device_index (mapping_of m)) ≡ (
        if str_eq a.subnet_id a.subnet_id
        then some a.device_index
        else lookup a.subnet_id (mapping_of m))
    stored = lookup-insert a.subnet_id a.subnet_id a.device_index (mapping_of m)

-- An attachment in the subnet bounds what the rest of the loop leaves.
bounded_head :
    (n : String) (a : EniAttachment) (m : AttachmentMaps) (s : String) (i : ℤ)
    → s ≢ ""
    → ((j : ℤ) → lookup s (mapping_of (note_attachment n a m)) ≡ some j → i ≤ℤ j)
    → a.subnet_id ≡ s
    → pos 0 <ℤ a.device_index
    → i ≤ℤ a.device_index
bounded_head n a m s i nonempty below e positive =
    let (j, found, le) = note_attachment-bounded n a m (λ p. nonempty (sym e ∙ p)) positive in
    omega
      (arith, below j (subst (λ t. lookup t (mapping_of (note_attachment n a m)) ≡ some j) e found))

note_attachment-keeps :
    (n : String) (a : EniAttachment) (m : AttachmentMaps) (s : String) (j : ℤ)
    → lookup s (mapping_of m) ≡ some j
    → (k : ℤ) × (lookup s (mapping_of (note_attachment n a m)) ≡ some k) × (k ≤ℤ j)
unfolding note_attachment
note_attachment-keeps n a m s j h =
    elim (Bool-cases (
      str_eq a.subnet_id s
      && not (str_eq a.subnet_id "")
      && ltb_ℤ (pos 0) a.device_index
      && ltb_ℤ a.device_index j)) [
        | inl e ↦ (a.device_index, ground (arith, stored, eq_iff a.subnet_id s), ground arith)
        | inr e ↦ (j, ground (arith, stored, eq_iff a.subnet_id s), omega arith)
      ]
  where
    stored :
        lookup s (insert a.subnet_id a.device_index (mapping_of m))
        ≡ (if str_eq a.subnet_id s then some a.device_index else lookup s (mapping_of m))
    stored = lookup-insert a.subnet_id s a.device_index (mapping_of m)

note_attachments-IsLowerBound :
    (n : String) (atts : List EniAttachment) (m : AttachmentMaps) (s : String) (i : ℤ)
    → s ≢ ""
    → lookup s (mapping_of (note_attachments n atts m)) ≡ some i
    → IsLowerBound s i atts × ((j : ℤ) → lookup s (mapping_of m) ≡ some j → i ≤ℤ j)
unfolding note_attachments
note_attachments-IsLowerBound n [] m s i nonempty h = (tt, λ j k. ground arith)
note_attachments-IsLowerBound n (a ∷ rest) m s i nonempty h =
    let (bound, below) =
      note_attachments-IsLowerBound n rest (note_attachment n a m) s i nonempty h in
    (
      (bounded_head n a m s i nonempty below, bound),
      λ j k.
          let (k', found, le) = note_attachment-keeps n a m s j k in omega (arith, below k' found),
    )

-- An attachment in the subnet, on any node, has the index, and the index is positive.
abbrev pub has_index : String → ℤ → List EniAttachment → Bool
has_index s i [] = false
has_index s i (a ∷ rest) =
    str_eq a.subnet_id s && ltb_ℤ (pos 0) a.device_index && eq_ℤ a.device_index i
    || has_index s i rest

-- A stored index is that of the attachment noted, or it was stored before.
note_attachment-from :
    (n : String) (a : EniAttachment) (m : AttachmentMaps) (s : String) (i : ℤ)
    → lookup s (mapping_of (note_attachment n a m)) ≡ some i
    → ((str_eq a.subnet_id s && ltb_ℤ (pos 0) a.device_index && eq_ℤ a.device_index i) ≡ true)
      ⊎ (lookup s (mapping_of m) ≡ some i)
unfolding note_attachment
note_attachment-from n a m s i h =
    elim (Bool-cases
      (str_eq a.subnet_id s && ltb_ℤ (pos 0) a.device_index && eq_ℤ a.device_index i)) [
        | inl t ↦ inl t
        | inr f ↦ inr (
            ground (
              arith,
              lookup-insert a.subnet_id s a.device_index (mapping_of m),
              eq_iff a.subnet_id s,
              eq_ℤ-iff a.device_index i,
            ))
      ]

note_attachments-from :
    (n : String) (atts : List EniAttachment) (m : AttachmentMaps) (s : String) (i : ℤ)
    → lookup s (mapping_of (note_attachments n atts m)) ≡ some i
    → (has_index s i atts ≡ true) ⊎ (lookup s (mapping_of m) ≡ some i)
unfolding note_attachments
note_attachments-from n [] m s i h = inr h
note_attachments-from n (a ∷ rest) m s i h =
    elim (note_attachments-from n rest (note_attachment n a m) s i h) [
      | inl t ↦ inl (ground arith)
      | inr k ↦ elim (note_attachment-from n a m s i k) [
        | inl t ↦ inl (ground arith)
        | inr o ↦ inr o
      ]
    ]

-- No attachment in the subnet has a positive index.
abbrev pub NoIndex : String → List EniAttachment → Type 0
NoIndex s = All (λ a. a.subnet_id ≡ s → ltb_ℤ (pos 0) a.device_index ≡ false)

some_is_not_none : {i : ℤ} → some i ≡ none → ⊥
some_is_not_none h = cc

no_head :
    (n : String) (a : EniAttachment) (m : AttachmentMaps) (s : String)
    → s ≢ ""
    → lookup s (mapping_of (note_attachment n a m)) ≡ none
    → a.subnet_id ≡ s
    → ltb_ℤ (pos 0) a.device_index ≡ false
no_head n a m s nonempty h e = elim (Bool-cases (ltb_ℤ (pos 0) a.device_index)) [
  | inr f ↦ f
  | inl t ↦
      let k = note_attachment-bounded n a m (λ p. nonempty (sym e ∙ p)) (ground arith) in
      absurd
        (some_is_not_none (sym k.1 ∙ ap (λ q. lookup q (mapping_of (note_attachment n a m))) e ∙ h))
]

note_attachments-NoIndex :
    (n : String) (atts : List EniAttachment) (m : AttachmentMaps) (s : String)
    → s ≢ ""
    → lookup s (mapping_of (note_attachments n atts m)) ≡ none
    → NoIndex s atts × (lookup s (mapping_of m) ≡ none)
unfolding note_attachments
note_attachments-NoIndex n [] m s nonempty h = (tt, h)
note_attachments-NoIndex n (a ∷ rest) m s nonempty h =
    let k = note_attachments-NoIndex n rest (note_attachment n a m) s nonempty h in
    (
      (no_head n a m s nonempty k.1, k.0),
      elim (Option-cases (lookup s (mapping_of m))) [
        | inl e ↦ e
        | inr (j, e) ↦ absurd (some_is_not_none (sym (note_attachment-keeps n a m s j e).1 ∙ k.1))
      ],
    )

-- The lowest of the positive indices of the attachments in the subnet, on any node, or `none` if there
-- is none.
abbrev pub IsLowest : String → List EniAttachment → Option ℤ → Type 0
IsLowest s atts none = NoIndex s atts
IsLowest s atts (some i) = (has_index s i atts ≡ true) × IsLowerBound s i atts

-- The index that the mapping gives a subnet with a nonempty ID is the lowest positive index of the
-- attachments in that subnet, on any node: one of them has it, and none has a lower one. The subnet has
-- no index in the mapping just when none of its attachments has a positive one.
pub build_attachment_maps-IsLowest :
    (attachments : List EniAttachment) (node_name s : String)
    → s ≢ ""
    → IsLowest s attachments
        (lookup s (build_attachment_maps attachments node_name).subnet_to_device_index)
unfolding build_attachment_maps lookup
build_attachment_maps-IsLowest attachments n s nonempty =
    elim (Option-cases (lookup s (mapping_of (note_attachments n attachments empty_maps)))) [
      | inl e ↦ rw (e) (note_attachments-NoIndex n attachments empty_maps s nonempty e).0
      | inr (i, e) ↦ rw (e) (
        elim (note_attachments-from n attachments empty_maps s i e) [
          | inl t ↦ t
          | inr k ↦ absurd (some_is_not_none (sym k))
        ],
        (note_attachments-IsLowerBound n attachments empty_maps s i nonempty e).0,
      )
    ]

-- Two subnets that have no index yet are handled in one pass, in positions `n` and `n + 1`, with the
-- same set of used indices and a positive index in the spec. If the first one's index is in use and the next one free, both get the
-- same index.
pub determine_device_index_clash :
    (spec_index default_index : ℤ) (s t : String) (n : ℕ) (mapping : Dict ℤ) (used : List ℤ)
    → s ≢ t
    → pos 0 <ℤ spec_index
    → lookup s mapping ≡ none
    → lookup t mapping ≡ none
    → contains_int used (spec_index +ℤ pos n) ≡ true
    → contains_int used (spec_index +ℤ pos n +ℤ pos 1) ≡ false
    → let first = determine_device_index spec_index default_index s n mapping used in
      first.0 ≡ (determine_device_index spec_index default_index t (n + 1) first.1 used).0
unfolding determine_device_index
determine_device_index_clash spec default s t n mapping used differ positive no_s no_t busy free =
    ground (
      arith,
      lookup-insert s t (spec +ℤ pos n) mapping,
      eq_iff s t,
      find_available-next (spec +ℤ pos n) used busy,
      find_available-free (spec +ℤ pos n +ℤ pos 1) used free,
      next_pos,
    )
  where
    next_pos : spec +ℤ pos n +ℤ pos 1 ≡ spec +ℤ pos (n + 1)
    next_pos = eq_of_parts _ _ (
        omega (
          arith,
          +ℤ_parts (spec +ℤ pos n) (pos 1),
          +ℤ_parts spec (pos n),
          +ℤ_parts spec (pos (n + 1)),
        ))
