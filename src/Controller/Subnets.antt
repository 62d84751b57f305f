-- ===== src/Controller/Subnets.antt =====
-- Which subnets a NodeENI names: getAllSubnetIDs and determineSubnetID of
-- pkg/controller/nodeeni_controller.go.
pub mod Laws
mod Tests
use aws_multi_eni_controller.Prelude.{
  String, ◌<>◌, Bool, List, [], ◌∷◌, ◌++◌, if◌then◌else◌, str_eq, contains_string,
}
use aws_multi_eni_controller.Prelude.State.{Call, pure, ◌>>=◌, Result, ok, err}
use aws_multi_eni_controller.Types.{NodeEniSpec}
use aws_multi_eni_controller.Cluster.{Cluster}

abbrev pub no_subnet : String
no_subnet = "no subnet information provided (subnetID, subnetIDs, subnetName, or subnetNames)"

-- Only if it is not in the list.
abbrev pub add_new : List String → String → List String
add_new ids id = if contains_string ids id then ids else ids ++ id ∷ []

-- The IDs that the spec gives itself.
abbrev pub given_ids : NodeEniSpec → List String
given_ids spec = (if str_eq spec.subnet_id "" then [] else spec.subnet_id ∷ []) ++ spec.subnet_ids

-- The names that it gives, in the order in which they are looked up.
abbrev pub given_names : NodeEniSpec → List String
given_names spec =
    (if str_eq spec.subnet_name "" then [] else spec.subnet_name ∷ []) ++ spec.subnet_names

abbrev pub some_subnet : Result (List String) → Result (List String)
some_subnet (err e) = err e
some_subnet (ok []) = err no_subnet
some_subnet (ok (id ∷ ids)) = ok (id ∷ ids)

abbrev pub first_of : List String → Result String
first_of [] = err no_subnet
first_of (x ∷ xs) = ok x

module _ (c : Cluster) where
  open c use {World, get_subnet_id_by_name}

  -- Look the names up and add what is new; the first failure ends it.
  unfoldable pub add_named : List String → List String → Call World (Result (List String))
  add_named [] ids w = (ok ids, w)
  add_named (name ∷ names) ids w =
      let r = get_subnet_id_by_name name w in
      elim r.0 [
        | err e ↦ (err ("failed to get subnet ID from name " <> (name <> (": " <> e))), r.1)
        | ok id ↦ add_named names (add_new ids id) r.1
      ]

  unfoldable pub get_all_subnet_ids : NodeEniSpec → Call World (Result (List String))
  get_all_subnet_ids spec w =
      let r = add_named (given_names spec) (given_ids spec) w in (some_subnet r.0, r.1)

  lookup_name : String → Call World (Result String)
  lookup_name name w =
      let r = get_subnet_id_by_name name w in
      elim r.0 [
        | err e ↦ (err ("failed to get subnet ID from name " <> (name <> (": " <> e))), r.1)
        | ok id ↦ (ok id, r.1)
      ]

  by_name : List String → Call World (Result String)
  by_name [] = pure (err no_subnet)
  by_name (name ∷ names) = lookup_name name

  by_id : List String → List String → Call World (Result String)
  by_id [] names = by_name names
  by_id (id ∷ ids) names = pure (ok id)

  -- The first that is given: an ID, or else a name.
  unfoldable pub determine_subnet_id : NodeEniSpec → Call World (Result String)
  unfolding by_id by_name lookup_name
  determine_subnet_id spec = by_id (given_ids spec) (given_names spec)
