-- ===== src/Controller/Subnets/Tests.antt =====
-- Subnets in the sample cluster, where a name is its own ID.
use aws_multi_eni_controller.Prelude.{String, true, List, [], ◌∷◌, ◌≡◌, refl, contains_string}
use aws_multi_eni_controller.Prelude.State.{ok}
use aws_multi_eni_controller.Types.{NodeEniSpec}
use aws_multi_eni_controller.Controller.Sample.{place_cluster, place, spec}
use aws_multi_eni_controller.Controller.Subnets.{given_ids, add_named, get_all_subnet_ids}
use aws_multi_eni_controller.Controller.Subnets.Laws.{NoRepeat, get_all_subnet_ids_lem}

-- The name resolves to a subnet that the spec gives already, and to a new one.
abbrev named : NodeEniSpec
named = record spec { subnet_names = "subnet-1" ∷ "subnet-2" ∷ [] }

abbrev found_ids : List String
found_ids = "subnet-1" ∷ "subnet-2" ∷ []

looked_up : (get_all_subnet_ids place_cluster named place).0 ≡ ok found_ids
unfolding get_all_subnet_ids add_named
looked_up = refl

get_all_subnet_ids_example :
    (found_ids ≡ [] → ⊥)
    × ((x : String)
        → contains_string (given_ids named) x ≡ true
        → contains_string found_ids x ≡ true)
    × (NoRepeat (given_ids named) → NoRepeat found_ids)
get_all_subnet_ids_example = get_all_subnet_ids_lem place_cluster named place found_ids looked_up

-- An ID that the spec gives twice stays twice: only a name is compared with what is there.
abbrev repeated : NodeEniSpec
repeated = record spec { subnet_ids = "subnet-1" ∷ [] }

subnet_twice :
    (get_all_subnet_ids place_cluster repeated place).0 ≡ ok ("subnet-1" ∷ "subnet-1" ∷ [])
unfolding get_all_subnet_ids add_named
subnet_twice = refl
