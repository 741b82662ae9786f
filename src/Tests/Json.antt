-- ===== src/Tests/Json.antt =====
-- Equality of documents.
use coterie.Prelude.{◌≡◌, refl, true, false}
use coterie.Json.{
  Json, num, text, object, end, member, get_member, keys_within, json_eq, members_within,
}

abbrev forwards : Json
forwards = object (member "a" (num 1) (member "b" (text "x") end))

abbrev backwards : Json
backwards = object (member "b" (text "x") (member "a" (num 1) end))

-- The order of the members does not count, and their number does.
json_reordered : json_eq forwards backwards ≡ true
unfolding json_eq members_within keys_within get_member
json_reordered = refl

json_shorter : json_eq (object (member "a" (num 1) end)) forwards ≡ false
unfolding json_eq members_within keys_within get_member
json_shorter = refl
