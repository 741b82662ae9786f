-- ===== src/Json/Laws.antt =====
-- Equality of JSON documents.
use package.text.Mathlib.TextPositions.{eq_refl}
use coterie.Prelude.{
  ◌≡◌, refl, true, false, some, is_some, String, List, [], ◌∷◌, arith, ==_refl, Bool-cases, inl,
  inr,
}
use coterie.Json.{
  Json, null, flag, num, ident, text, object, Members, end, member, get_member, is_key, keys_within,
  json_eq, members_within,
}

keys_within_mono :
    (m n : Members)
    → ((k : String) → is_some (get_member k m) ≡ true → is_some (get_member k n) ≡ true)
    → keys_within m n ≡ true
unfolding get_member keys_within
keys_within_mono end n h = refl
keys_within_mono (member k v r) n h =
    ground (
      arith,
      h k (ground (arith, eq_refl k)),
      keys_within_mono r n (λ j e. h j (ground (arith, e))),
    )

keys_within_refl : (m : Members) → keys_within m m ≡ true
keys_within_refl m = keys_within_mono m m (λ k e. e)

-- The members beyond the keys that were seen are looked up in the whole object.
abbrev IsRest : Members → List String → Members → Type 0
IsRest m seen whole = (k : String) → is_key k seen ≡ false → get_member k whole ≡ get_member k m

IsRest-member :
    (k : String) (v : Json) (r whole : Members) (seen : List String)
    → IsRest (member k v r) seen whole
    → IsRest r (k ∷ seen) whole
unfolding get_member
IsRest-member k v r whole seen rest j new = ground (arith, new, rest j (ground (arith, new)))

first_of :
    (k : String) (v : Json) (r whole : Members) (seen : List String)
    → IsRest (member k v r) seen whole
    → is_key k seen ≡ false
    → get_member k whole ≡ some v
unfolding get_member
first_of k v r whole seen rest new = ground (arith, rest k new, eq_refl k)

mutual
  unfolding json_eq members_within

  json_refl : (j : Json) → json_eq j j ≡ true
  json_refl null = refl
  json_refl (flag true) = refl
  json_refl (flag false) = refl
  json_refl (num n) = ==_refl n
  json_refl (ident n) = ==_refl n
  json_refl (text s) = eq_refl s
  json_refl (object m) = ground (arith, members_refl m [] m (λ k e. refl), keys_within_refl m)

  members_refl :
      (m : Members) (seen : List String) (whole : Members)
      → IsRest m seen whole
      → members_within m seen whole ≡ true
  members_refl end seen whole rest = refl
  members_refl (member k v r) seen whole rest =
      let tail = members_refl r (k ∷ seen) whole (IsRest-member k v r whole seen rest) in
      elim (Bool-cases (is_key k seen)) [
        | inl old ↦ ground (arith, old, tail)
        | inr new ↦ ground (arith, tail, json_refl v, first_of k v r whole seen rest new)
      ]

pub json_eq_refl : (j : Json) → json_eq j j ≡ true
json_eq_refl j = json_refl j
