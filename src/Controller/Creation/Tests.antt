-- ===== src/Controller/Creation/Tests.antt =====
-- The creation of an ENI in the sample cluster.
use aws_multi_eni_controller.Prelude.{◌≡◌, refl, ◌⊎◌, [], ◌∷◌}
use aws_multi_eni_controller.Prelude.Int.{pos}
use aws_multi_eni_controller.Types.{NodeEni}
use aws_multi_eni_controller.Controller.Sample.{
  place_cluster, short_config, IsGoneHere, place_laws, attachment_of, node_eni_of, place, node_two,
}
use aws_multi_eni_controller.Controller.Sample.Laws.{place_stores}
use aws_multi_eni_controller.Controller.Creation.{
  value, add_groups, last_eight, create_eni_in_subnet, create_and_attach_eni_for_subnet,
}
use aws_multi_eni_controller.Controller.Creation.Accounted.{
  HasEni, NotDeleted, create_and_attach-Accounted,
}

abbrev one : NodeEni
one = node_eni_of (attachment_of "eni-1" ∷ [])

created :
    (create_eni_in_subnet place_cluster short_config one node_two "subnet-1" place).0
    ≡ value "eni-new"
unfolding create_eni_in_subnet add_groups last_eight
created = refl

create_and_attach-Accounted_example :
    HasEni "eni-new"
      (create_and_attach_eni_for_subnet place_cluster short_config one node_two "i-2" "subnet-1"
        (pos 1)
        place).1.0.attachments
    ⊎ (IsGoneHere "eni-new"
          (create_and_attach_eni_for_subnet place_cluster short_config one node_two "i-2" "subnet-1"
            (pos 1)
            place).1.1
        ⊎ NotDeleted place_cluster short_config place_stores IsGoneHere place_laws "eni-new")
create_and_attach-Accounted_example =
    create_and_attach-Accounted place_cluster short_config place_stores IsGoneHere place_laws one
      node_two "i-2" "subnet-1" (pos 1) place "eni-new" created
