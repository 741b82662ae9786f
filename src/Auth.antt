-- ===== src/Auth.antt =====
-- src/auth.rs: the text of an agent's token, `cot1_` and 64 lower-case hexadecimal digits.
pub mod Laws
use coterie.Prelude.{
  ℕ, ◌+◌, ◌-◌, ◌*◌, ◌/◌, ◌%◌, Bool, true, false, ◌&&◌, Option, none, some, List, [], ◌∷◌, ◌++◌, ltb,
  leb, ◌==◌, if◌then◌else◌, length,
}
use coterie.Redaction.{token_prefix}

abbrev pub token_bytes : ℕ
token_bytes = 32

-- `b"0123456789abcdef"[nibble]`
unfoldable pub encode_nibble : ℕ → ℕ
encode_nibble n = if ltb n 10 then 48 + n else 87 + n

unfoldable pub encode_bytes : List ℕ → List ℕ
unfolding encode_nibble
encode_bytes [] = []
encode_bytes (b ∷ bs) = encode_nibble (b / 16) ∷ encode_nibble (b % 16) ∷ encode_bytes bs

unfoldable pub expose_secret : List ℕ → List ℕ
unfolding encode_bytes
expose_secret token = token_prefix ++ encode_bytes token

unfoldable pub decode_nibble : ℕ → Option ℕ
decode_nibble c =
    if leb 48 c && leb c 57
    then some (c - 48)
    else if leb 97 c && leb c 102
    then some (c - 97 + 10)
    else none

-- `high << 4 | low`
abbrev pub join_nibbles : Option ℕ → Option ℕ → Option (List ℕ) → Option (List ℕ)
join_nibbles (some high) (some low) (some bytes) = some ((high * 16 + low) ∷ bytes)
join_nibbles _ _ _ = none

-- The loop over the pairs of digits.
unfoldable pub decode_pairs : List ℕ → Option (List ℕ)
unfolding decode_nibble
decode_pairs [] = some []
decode_pairs (c ∷ []) = some []
decode_pairs (c ∷ d ∷ rest) = join_nibbles (decode_nibble c) (decode_nibble d) (decode_pairs rest)

unfoldable pub strip_prefix : List ℕ → List ℕ → Option (List ℕ)
strip_prefix [] xs = some xs
strip_prefix (p ∷ ps) [] = none
strip_prefix (p ∷ ps) (x ∷ xs) = let rest = strip_prefix ps xs in if x == p then rest else none

-- The part of `from_str` after the prefix.
abbrev pub parse_payload : Option (List ℕ) → Option (List ℕ)
parse_payload none = none
parse_payload (some payload) =
    let bytes = decode_pairs payload in if length payload == token_bytes * 2 then bytes else none

unfoldable pub parse_token : List ℕ → Option (List ℕ)
unfolding decode_pairs strip_prefix
parse_token encoded = parse_payload (strip_prefix token_prefix encoded)
