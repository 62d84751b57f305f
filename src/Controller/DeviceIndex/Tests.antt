-- ===== src/Controller/DeviceIndex/Tests.antt =====
-- Device indices on concrete attachments.
use aws_multi_eni_controller.Prelude.{
  ◌+◌, true, false, List, [], ◌∷◌, some, ◌≡◌, refl, contains_string, eq_iff, arith,
}
use aws_multi_eni_controller.Prelude.Int.{ℤ, pos, ◌+ℤ◌, ◌≤ℤ◌, ◌<ℤ◌, contains_int}
use aws_multi_eni_controller.Prelude.Maps.{lookup, insert}
use aws_multi_eni_controller.Types.{EniAttachment}
use aws_multi_eni_controller.Controller.Sample.{attachment_of}
use aws_multi_eni_controller.Controller.DeviceIndex.{
  find_available_device_index, find_next_available_device_index, build_attachment_maps,
  determine_device_index,
}
use aws_multi_eni_controller.Controller.DeviceIndex.Search.{
  find_available_device_index_lem, find_next_available_device_index-unused,
}
use aws_multi_eni_controller.Controller.DeviceIndex.Maps.{
  holds_index, holds_subnet, IsLowest, build_attachment_maps_lem, build_attachment_maps-IsLowest,
  determine_device_index_clash,
}

abbrev used_two : List ℤ
used_two = pos 1 ∷ pos 2 ∷ []

find_available_device_index_example :
    (contains_int used_two (find_available_device_index (pos 1) used_two) ≡ false)
    × (pos 1 ≤ℤ find_available_device_index (pos 1) used_two)
    × ((k : ℤ)
        → pos 1 ≤ℤ k
        → k <ℤ find_available_device_index (pos 1) used_two
        → contains_int used_two k ≡ true)
find_available_device_index_example = find_available_device_index_lem (pos 1) used_two

find_next_available_device_index_example :
    contains_int used_two (find_next_available_device_index (pos 1) used_two) ≡ false
find_next_available_device_index_example = find_next_available_device_index-unused (pos 1) used_two

abbrev two_attachments : List EniAttachment
two_attachments =
    attachment_of "eni-1" ∷ record (attachment_of "eni-2") { device_index = pos 2 } ∷ []

build_attachment_maps_example :
    (contains_int (build_attachment_maps two_attachments "node-1").used_device_indices (pos 2)
      ≡ holds_index "node-1" two_attachments (pos 2))
    × (contains_string (build_attachment_maps two_attachments "node-1").existing_subnets "subnet-1"
        ≡ holds_subnet "node-1" two_attachments "subnet-1")
build_attachment_maps_example =
    build_attachment_maps_lem two_attachments "node-1" (pos 2) "subnet-1"

build_attachment_maps-IsLowest_example :
    IsLowest "subnet-1" two_attachments
      (lookup "subnet-1" (build_attachment_maps two_attachments "node-1").subnet_to_device_index)
build_attachment_maps-IsLowest_example =
    build_attachment_maps-IsLowest two_attachments "node-1" "subnet-1"
      (λ h. ground (arith, h, eq_iff "subnet-1" ""))

-- The first attachment has the lowest index.
mapped :
    lookup "subnet-1" (build_attachment_maps two_attachments "node-1").subnet_to_device_index
    ≡ some (pos 1)
unfolding build_attachment_maps lookup insert
mapped = refl

determine_device_index_clash_example :
    let first = determine_device_index (pos 1) (pos 1) "subnet-a" 0 [] (pos 1 ∷ []) in
    first.0 ≡ (determine_device_index (pos 1) (pos 1) "subnet-b" (0 + 1) first.1 (pos 1 ∷ [])).0
unfolding lookup ◌+ℤ◌
determine_device_index_clash_example =
    determine_device_index_clash (pos 1) (pos 1) "subnet-a" "subnet-b" 0 [] (pos 1 ∷ [])
      (λ h. ground (arith, h, eq_iff "subnet-a" "subnet-b")) (ground arith) refl refl refl refl
