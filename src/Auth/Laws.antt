-- ===== src/Auth/Laws.antt =====
-- The text of a token: parsing and printing, and what a redactor that holds nothing back makes of it.
-- (src/auth.rs, src/redaction.rs)
use coterie.Prelude.{
  zero, ℕ, suc, ◌+◌, ◌*◌, ◌/◌, ◌%◌, ◌≤◌, ◌<◌, ◌≡◌, ◌≢◌, refl, sym, ap, ◌∙◌, Bool, true, false, ◌&&◌,
  Option, none, some, List, [], ◌∷◌, ◌++◌, ltb, ◌==◌, if◌then◌else◌, length, drop, take, arith,
  Bool-cases, Option-cases, inl, inr,
}
use coterie.Redaction.{
  token_prefix, token_length, token_found, starts_with, hex_digit, all_hex, token_partial, partial,
  longest, exact, push, replacement,
}
use coterie.Sql.{exists_where}
use coterie.Redaction.Scan.{Scan, conceal, wait, IsClean, partial_nil}
use coterie.Redaction.Laws.{push-Scan}
use coterie.Auth.{
  token_bytes, encode_nibble, encode_bytes, expose_secret, decode_nibble, join_nibbles,
  decode_pairs, strip_prefix, parse_payload, parse_token,
}

-- A list of bytes.
unfoldable pub all_bytes : List ℕ → Bool
all_bytes [] = true
all_bytes (b ∷ bs) = ltb b 256 && all_bytes bs

decode_nibble-encode_nibble : (n : ℕ) → n < 16 → decode_nibble (encode_nibble n) ≡ some n
unfolding decode_nibble encode_nibble
decode_nibble-encode_nibble n l = ground arith

encode_nibble-decode_nibble :
    (c n : ℕ) → decode_nibble c ≡ some n → (n < 16) × (encode_nibble n ≡ c)
unfolding decode_nibble encode_nibble
encode_nibble-decode_nibble c n h = (ground arith, ground arith)

decode_pairs-encode_bytes :
    (bs : List ℕ) → all_bytes bs ≡ true → decode_pairs (encode_bytes bs) ≡ some bs
unfolding decode_pairs encode_bytes all_bytes
decode_pairs-encode_bytes [] h = refl
decode_pairs-encode_bytes (b ∷ bs) h =
    rw
      (
        decode_nibble-encode_nibble (b / 16) (ground arith),
        decode_nibble-encode_nibble (b % 16) (omega arith),
        decode_pairs-encode_bytes bs (ground arith),
      )
      (ap (λ (x : ℕ). some (x ∷ bs)) (omega arith))

length-encode_bytes : (bs : List ℕ) → length (encode_bytes bs) ≡ length bs * 2
unfolding encode_bytes
length-encode_bytes [] = refl
length-encode_bytes (b ∷ bs) = omega (arith, length-encode_bytes bs)

hex_digit-encode_nibble : (n : ℕ) → n < 16 → hex_digit (encode_nibble n) ≡ true
unfolding hex_digit encode_nibble
hex_digit-encode_nibble n l = ground arith

all_hex-encode_bytes : (bs : List ℕ) → all_bytes bs ≡ true → all_hex (encode_bytes bs) ≡ true
unfolding encode_bytes all_hex all_bytes
all_hex-encode_bytes [] h = refl
all_hex-encode_bytes (b ∷ bs) h =
    rw
      (
        hex_digit-encode_nibble (b / 16) (ground arith),
        hex_digit-encode_nibble (b % 16) (omega arith),
        all_hex-encode_bytes bs (ground arith),
      )
      refl

none-some : {A : Type 0} {a : A} → none ≢ some a
none-some h = cc

strip_prefix-append : (ps xs : List ℕ) → strip_prefix ps (ps ++ xs) ≡ some xs
unfolding strip_prefix
strip_prefix-append [] xs = refl
strip_prefix-append (p ∷ ps) xs = ground (arith, strip_prefix-append ps xs)

parse_payload_digits :
    (payload token : List ℕ)
    → length payload ≡ 64
    → decode_pairs payload ≡ some token
    → parse_payload (some payload) ≡ some token
parse_payload_digits payload token l e = rw (l, e) refl

eq_of : (a b : ℕ) → (a == b) ≡ true → a ≡ b
eq_of a b h = ground arith

parse_payload_parts :
    (payload token : List ℕ)
    → parse_payload (some payload) ≡ some token
    → (length payload ≡ 64) × (decode_pairs payload ≡ some token)
parse_payload_parts payload token h = elim (Bool-cases (length payload == 64)) [
  | inl e ↦
      (eq_of (length payload) 64 e, sym (ap (λ b. if b then decode_pairs payload else none) e) ∙ h)
  | inr e ↦ absurd (none-some (sym (ap (λ b. if b then decode_pairs payload else none) e) ∙ h))
]

-- The text of a token of 32 bytes reads back as that token.
pub parse_token-expose_secret :
    (token : List ℕ)
    → all_bytes token ≡ true
    → length token ≡ token_bytes
    → parse_token (expose_secret token) ≡ some token
unfolding parse_token expose_secret
parse_token-expose_secret token h l =
    ap parse_payload (strip_prefix-append token_prefix (encode_bytes token))
    ∙ parse_payload_digits (encode_bytes token) token (omega (arith, l, length-encode_bytes token))
        (decode_pairs-encode_bytes token h)

join_nibbles_parts :
    (high low : Option ℕ) (bytes : Option (List ℕ)) (token : List ℕ)
    → join_nibbles high low bytes ≡ some token
    → (h l : ℕ) × (bs : List ℕ) × (high ≡ some h)
      × (low ≡ some l)
      × (bytes ≡ some bs)
      × (token ≡ (h * 16 + l) ∷ bs)
join_nibbles_parts (some h) (some l) (some bs) token e = (h, l, bs, refl, refl, refl, ground arith)
join_nibbles_parts none low bytes token e = cc
join_nibbles_parts (some h) none bytes token e = cc
join_nibbles_parts (some h) (some l) none token e = cc

-- The byte of two digits has these two digits.
encode_pair :
    (c d h n : ℕ)
    → decode_nibble c ≡ some h
    → decode_nibble d ≡ some n
    → (encode_nibble ((h * 16 + n) / 16) ≡ c)
      × (encode_nibble ((h * 16 + n) % 16) ≡ d)
      × (h * 16 + n < 256)
encode_pair c d h n e1 e2 =
    let (l1, p1) = encode_nibble-decode_nibble c h e1 in
    let (l2, p2) = encode_nibble-decode_nibble d n e2 in
    let q1 : (h * 16 + n) / 16 ≡ h = omega (arith, l1, l2) in
    let q2 : (h * 16 + n) % 16 ≡ n = omega (arith, l1, l2) in
    (ap encode_nibble q1 ∙ p1, ap encode_nibble q2 ∙ p2, omega (arith, l1, l2))

-- Pairs of digits that read are the text of the bytes.
decode_pairs_sound :
    (half : ℕ) (payload token : List ℕ)
    → length payload ≡ half * 2
    → decode_pairs payload ≡ some token
    → (encode_bytes token ≡ payload) × (length token ≡ half) × (all_bytes token ≡ true)
unfolding decode_pairs encode_bytes all_bytes
decode_pairs_sound half [] token l e = ground arith
decode_pairs_sound half (c ∷ []) token l e = absurd (omega arith)
decode_pairs_sound zero (c ∷ d ∷ rest) token l e = absurd (omega arith)
decode_pairs_sound (suc half) (c ∷ d ∷ rest) token l e =
    let (h, n, bs, e1, e2, e3, e4) =
      join_nibbles_parts (decode_nibble c) (decode_nibble d) (decode_pairs rest) token e in
    let (p, q, r) = encode_pair c d h n e1 e2 in
    let (ih1, ih2, ih3) = decode_pairs_sound half rest bs (omega (arith, l)) e3 in
    (rw (e4, p, q, ih1) refl, rw e4 (omega (arith, ih2)), rw e4 (ground (arith, r, ih3)))

strip_prefix_sound : (ps xs rest : List ℕ) → strip_prefix ps xs ≡ some rest → xs ≡ ps ++ rest
unfolding strip_prefix
strip_prefix_sound [] xs rest e = ground arith
strip_prefix_sound (p ∷ ps) [] rest e = cc
strip_prefix_sound (p ∷ ps) (x ∷ xs) rest e =
    ground (arith, strip_prefix_sound ps xs rest (ground arith))

-- A text that reads as a token is the text of that token, which has 32 bytes.
pub parse_token_sound :
    (encoded token : List ℕ)
    → parse_token encoded ≡ some token
    → (encoded ≡ expose_secret token) × (length token ≡ token_bytes) × (all_bytes token ≡ true)
unfolding parse_token expose_secret
parse_token_sound encoded token h = elim (Option-cases (strip_prefix token_prefix encoded)) [
  | inl e ↦ absurd (none-some (sym (ap parse_payload e) ∙ h))
  | inr (payload, e) ↦
      let (l, d) = parse_payload_parts payload token (sym (ap parse_payload e) ∙ h) in
      let (p, q, r) = decode_pairs_sound token_bytes payload token l d in
      (
        strip_prefix_sound token_prefix encoded payload e ∙ ap (λ l. token_prefix ++ l) (sym p),
        q,
        r,
      )
]

drop_all : (n : ℕ) (xs : List ℕ) → length xs ≤ n → drop n xs ≡ []
drop_all zero [] l = refl
drop_all zero (x ∷ xs) l = absurd (omega arith)
drop_all (suc n) [] l = refl
drop_all (suc n) (x ∷ xs) l = drop_all n xs (omega arith)

take_all : (n : ℕ) (xs : List ℕ) → length xs ≤ n → take n xs ≡ xs
take_all zero [] l = refl
take_all zero (x ∷ xs) l = absurd (omega arith)
take_all (suc n) [] l = refl
take_all (suc n) (x ∷ xs) l = ap (λ t. x ∷ t) (take_all n xs (omega arith))

module _ (token : List ℕ) (bytes : all_bytes token ≡ true) (size : length token ≡ token_bytes) where
  digits_length : length (encode_bytes token) ≡ 64
  digits_length = omega (arith, size, length-encode_bytes token)

  partial-expose_secret : partial [] (expose_secret token) ≡ false
  unfolding partial token_partial expose_secret exists_where
  partial-expose_secret = rw digits_length refl

  longest-expose_secret : longest [] (expose_secret token) ≡ some token_length
  unfolding longest exact token_found expose_secret starts_with
  longest-expose_secret =
      rw
        (
          digits_length,
          take_all 64 (encode_bytes token) (omega (arith, digits_length)),
          all_hex-encode_bytes token bytes,
        )
        refl

  Scan-expose_secret : Scan [] (expose_secret token) replacement []
  unfolding expose_secret
  Scan-expose_secret =
      conceal token_length partial-expose_secret longest-expose_secret (
        rw (drop_all 64 (encode_bytes token) (omega (arith, digits_length)))
          (wait (partial_nil [])))

  -- A redactor without configured secrets that holds nothing back replaces the text of any token of
  -- 32 bytes, pushed in one piece, as a whole, and holds nothing back afterwards.
  pub push-expose_secret :
      push (record { secrets = []; pending = [] }) (expose_secret token)
      ≡ some (replacement, record { secrets = []; pending = [] })
  unfolding IsClean exists_where
  push-expose_secret =
      push-Scan (record { secrets = []; pending = [] }) (expose_secret token) refl
        Scan-expose_secret
