-- ===== src/Redaction/Prefixes.antt =====
-- Prefixes of a text and of the same text continued. (src/redaction.rs)
use coterie.Prelude.{
  ℕ, zero, suc, ◌≤◌, ◌<◌, ◌≡◌, refl, ◌⊎◌, inl, inr, true, ◌&&◌, List, [], ◌∷◌, ◌++◌, length, take,
  drop, arith,
}
use coterie.Redaction.{starts_with, all_hex}

-- What a text starts with, it starts with when it is continued.
pub starts_with-append : (r s p : List ℕ) → starts_with r p ≡ true → starts_with (r ++ s) p ≡ true
unfolding starts_with
starts_with-append r s [] h = refl
starts_with-append [] s (p ∷ ps) h = cc
starts_with-append (x ∷ xs) s (p ∷ ps) h = ground (arith, starts_with-append xs s ps (ground arith))

-- A prefix of the continued text is one of the text, or continues the text.
pub starts_with-append_inv :
    (r s p : List ℕ)
    → starts_with (r ++ s) p ≡ true
    → (starts_with r p ≡ true) ⊎ ((length r < length p) × (starts_with p r ≡ true))
unfolding starts_with
starts_with-append_inv r s [] h = inl refl
starts_with-append_inv [] s (p ∷ ps) h = inr (omega arith, refl)
starts_with-append_inv (x ∷ xs) s (p ∷ ps) h =
    elim (starts_with-append_inv xs s ps (ground arith)) [
      | inl k ↦ inl (ground (arith, k))
      | inr (l, k) ↦ inr (omega (arith, l), ground (arith, k))
    ]

-- What starts with the continued text starts with the text.
pub starts_with-prefix : (p r s : List ℕ) → starts_with p (r ++ s) ≡ true → starts_with p r ≡ true
unfolding starts_with
starts_with-prefix p [] s h = refl
starts_with-prefix [] (x ∷ xs) s h = cc
starts_with-prefix (p ∷ ps) (x ∷ xs) s h = ground (arith, starts_with-prefix ps xs s (ground arith))

pub starts_with-length : (r p : List ℕ) → starts_with r p ≡ true → length p ≤ length r
unfolding starts_with
starts_with-length r [] h = omega arith
starts_with-length [] (p ∷ ps) h = absurd (cc)
starts_with-length (x ∷ xs) (p ∷ ps) h = omega (arith, starts_with-length xs ps (ground arith))

pub all_hex-append : (xs ys : List ℕ) → all_hex (xs ++ ys) ≡ (all_hex xs && all_hex ys)
unfolding all_hex
all_hex-append [] ys = refl
all_hex-append (x ∷ xs) ys = ground (arith, all_hex-append xs ys)

pub drop-append : (n : ℕ) (xs ys : List ℕ) → n ≤ length xs → drop n (xs ++ ys) ≡ drop n xs ++ ys
drop-append zero xs ys h = refl
drop-append (suc n) [] ys h = absurd (omega arith)
drop-append (suc n) (x ∷ xs) ys h = drop-append n xs ys (omega arith)

pub take-append : (n : ℕ) (xs ys : List ℕ) → n ≤ length xs → take n (xs ++ ys) ≡ take n xs
take-append zero xs ys h = refl
take-append (suc n) [] ys h = absurd (omega arith)
take-append (suc n) (x ∷ xs) ys h = ground (arith, take-append n xs ys (omega arith))

-- The hexadecimal digits at the start of a continued text include the short text.
pub all_hex-take :
    (n : ℕ) (xs ys : List ℕ)
    → length xs ≤ n
    → all_hex (take n (xs ++ ys)) ≡ true
    → all_hex xs ≡ true
unfolding all_hex
all_hex-take n [] ys l h = refl
all_hex-take zero (x ∷ xs) ys l h = absurd (omega arith)
all_hex-take (suc n) (x ∷ xs) ys l h =
    ground (arith, all_hex-take n xs ys (omega arith) (ground arith))
