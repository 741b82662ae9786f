-- ===== src/Json.antt =====
-- The JSON documents that the store writes and reads back (`serde_json::Value`). A string that
-- holds the canonical text of an identifier is an `ident`.
pub mod Laws
use coterie.Prelude.{
  ℕ, Bool, true, false, ◌&&◌, ◌||◌, Option, none, some, is_some, String, str_eq, ◌==◌, List, [],
  ◌∷◌, if◌then◌else◌,
}

mutual
  pub data Json : Type 0 where
    null : Json
    flag : Bool → Json
    num : ℕ → Json
    ident : ℕ → Json
    text : String → Json
    object : Members → Json

  pub data Members : Type 0 where
    end : Members
    member : String → Json → Members → Members

abbrev bool_eq : Bool → Bool → Bool
bool_eq true b = b
bool_eq false true = false
bool_eq false false = true

unfoldable pub get_member : String → Members → Option Json
get_member k end = none
get_member k (member j v r) = if str_eq j k then some v else get_member k r

-- An object is a map: of several members with one key it holds the first, and the equality of
-- `serde_json::Value` does not depend on the order.
abbrev pub is_key : String → List String → Bool
is_key k [] = false
is_key k (j ∷ js) = str_eq j k || is_key k js

-- Whether every key of the first object is a key of the second.
unfoldable pub keys_within : Members → Members → Bool
unfolding get_member
keys_within end n = true
keys_within (member k v r) n = is_some (get_member k n) && keys_within r n

unfoldable mutual
  unfolding get_member keys_within

  pub json_eq : Json → Json → Bool
  json_eq null null = true
  json_eq (flag a) (flag b) = bool_eq a b
  json_eq (num a) (num b) = a == b
  json_eq (ident a) (ident b) = a == b
  json_eq (text a) (text b) = str_eq a b
  json_eq (object a) (object b) = members_within a [] b && keys_within b a
  json_eq _ _ = false

  -- Whether each member whose key is not among `seen` is a member of the second object.
  pub members_within : Members → List String → Members → Bool
  members_within end seen n = true
  members_within (member k v r) seen n =
      (is_key k seen || elim (get_member k n) [ none ↦ false | some w ↦ json_eq v w ])
      && members_within r (k ∷ seen) n

-- `json_extract(document, '$.k')` and `value.get(k)`.
unfoldable pub get : String → Json → Option Json
unfolding get_member
get k (object m) = get_member k m
get k _ = none
