-- ===== src/Controller/DeviceIndex.antt =====
-- Choice of device indices in pkg/controller/nodeeni_controller.go: `buildAttachmentMaps`,
-- `mergeDeviceIndices`, `findAvailableDeviceIndex`, `findNextAvailableDeviceIndex`,
-- `determineDeviceIndex`. A `map[int]bool` is the list of its keys.
pub mod Search
pub mod Maps
mod Tests
use aws_multi_eni_controller.Prelude.{
  ℕ, zero, suc, String, Bool, true, false, ◌&&◌, ◌||◌, not, List, [], ◌∷◌, ◌++◌, Option, none, some,
  if◌then◌else◌, str_eq, contains_string, length,
}
use aws_multi_eni_controller.Prelude.Int.{ℤ, pos, ◌+ℤ◌, leb_ℤ, ltb_ℤ, contains_int}
use aws_multi_eni_controller.Prelude.Maps.{Dict, lookup, insert}
use aws_multi_eni_controller.Types.{EniAttachment}

-- The loop `for used[deviceIndex] { deviceIndex++ }`, with fuel.
pub next_free : ℕ → ℤ → List ℤ → ℤ
next_free zero i used = i
next_free (suc fuel) i used = elim (contains_int used i) [
  | true ↦ next_free fuel (i +ℤ pos 1) used
  | false ↦ i
]

-- Each round passes one key, so as many rounds as there are keys are enough.
pub find_available_device_index : ℤ → List ℤ → ℤ
find_available_device_index start used = next_free (length used) start used

pub find_next_available_device_index : ℤ → List ℤ → ℤ
find_next_available_device_index start used = next_free (length used) start used

pub record AttachmentMaps : Type 0 where
  pub existing_subnets : List String
  pub used_device_indices : List ℤ
  pub subnet_to_device_index : Dict ℤ

-- `!exists || attachment.DeviceIndex < existingIndex`
prefer : Option ℤ → ℤ → Bool
prefer none i = true
prefer (some j) i = ltb_ℤ i j

-- The body of the loop of `buildAttachmentMaps`.
note_attachment : String → EniAttachment → AttachmentMaps → AttachmentMaps
unfolding prefer
note_attachment node_name a m = record {
  existing_subnets =
      if here && not (str_eq a.subnet_id "")
      then a.subnet_id ∷ m.existing_subnets
      else m.existing_subnets;
  used_device_indices =
      if here && ltb_ℤ (pos 0) a.device_index
      then a.device_index ∷ m.used_device_indices
      else m.used_device_indices;
  subnet_to_device_index =
      if not (str_eq a.subnet_id "")
        && ltb_ℤ (pos 0) a.device_index
        && prefer (lookup a.subnet_id m.subnet_to_device_index) a.device_index
      then insert a.subnet_id a.device_index m.subnet_to_device_index
      else m.subnet_to_device_index;
}
  where
    here : Bool
    here = str_eq a.node_id node_name

note_attachments : String → List EniAttachment → AttachmentMaps → AttachmentMaps
note_attachments node_name [] m = m
note_attachments node_name (a ∷ rest) m =
    note_attachments node_name rest (note_attachment node_name a m)

abbrev pub empty_maps : AttachmentMaps
empty_maps = record { existing_subnets = []; used_device_indices = []; subnet_to_device_index = [] }

pub build_attachment_maps : List EniAttachment → String → AttachmentMaps
unfolding note_attachments note_attachment
build_attachment_maps attachments node_name = note_attachments node_name attachments empty_maps

-- The loop of `mergeDeviceIndices` over the internal keys.
add_missing : List ℤ → List ℤ → List ℤ
add_missing [] merged = merged
add_missing (i ∷ rest) merged =
    add_missing rest (if contains_int merged i then merged else i ∷ merged)

pub merge_device_indices : List ℤ → List ℤ → List ℤ
unfolding add_missing
merge_device_indices internal aws = add_missing internal aws

-- The mapping is Go's map, which the call extends: it is returned with the index.
pub determine_device_index : ℤ → ℤ → String → ℕ → Dict ℤ → List ℤ → ℤ × Dict ℤ
determine_device_index spec_index default_index subnet_id subnet_number mapping used =
    elim (lookup subnet_id mapping) [
      | some i ↦ (find_available_device_index i used, mapping)
      | none ↦ (find_available_device_index fresh used, insert subnet_id fresh mapping)
    ]
  where
    base : ℤ
    base = if leb_ℤ spec_index (pos 0) then default_index else spec_index

    fresh : ℤ
    fresh = base +ℤ pos subnet_number
