-- ===== src/Util.antt =====
-- The helpers of pkg/util/aws.go that are not in `Prelude`.
pub mod Laws
mod Tests
use Prim.Native.Char.{Char, code}
use aws_multi_eni_controller.Prelude.{
  ℕ, String, Bool, List, [], ◌∷◌, if◌then◌else◌, ◌==◌, length, ltb,
}
use aws_multi_eni_controller.Prelude.Maps.{Dict, insert}

-- A character in front of the first part.
abbrev pub put_first : Char → List String → List String
put_first c [] = String.◌∷◌ c String.[] ∷ []
put_first c (p ∷ ps) = String.◌∷◌ c p ∷ ps

-- `strings.Split(s, "/")`
unfoldable pub split_slash : String → List String
split_slash String.[] = "" ∷ []
split_slash (String.◌∷◌ c s) =
    let rest = split_slash s in if code c == 47 then "" ∷ rest else put_first c rest

abbrev pub last : List String → String
last [] = ""
last (p ∷ []) = p
last (p ∷ q ∷ ps) = last (q ∷ ps)

-- A text with no slash has no instance ID.
unfoldable pub get_instance_id_from_provider_id : String → String
get_instance_id_from_provider_id provider_id =
    let parts = split_slash provider_id in if ltb (length parts) 2 then "" else last parts

-- `for k, v := range from { into[k] = v }`
unfoldable pub copy_all : Dict String → Dict String → Dict String
copy_all [] into = into
copy_all ((k, v) ∷ rest) into = copy_all rest (insert k v into)

pub merge_maps : Dict String → Dict String → Dict String
merge_maps m1 m2 = copy_all m2 (copy_all m1 [])
