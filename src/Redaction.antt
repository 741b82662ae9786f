-- ===== src/Redaction.antt =====
-- src/redaction.rs: credentials are filtered out of a stream of bytes that arrives in chunks.
pub mod Prefixes
pub mod Stable
pub mod Scan
pub mod Laws
use coterie.Prelude.{
  ℕ, zero, suc, ◌+◌, Bool, true, false, not, ◌&&◌, ◌||◌, Option, none, some, List, [], ◌∷◌, ◌++◌,
  ltb, leb, ◌==◌, max, if◌then◌else◌, length, take, drop,
}
use coterie.Sql.{exists_where}

-- `text.starts_with(prefix)` on slices of bytes.
unfoldable pub starts_with : List ℕ → List ℕ → Bool
starts_with xs [] = true
starts_with [] (p ∷ ps) = false
starts_with (x ∷ xs) (p ∷ ps) = x == p && starts_with xs ps

-- `u8::is_ascii_hexdigit`
unfoldable pub hex_digit : ℕ → Bool
hex_digit b = (leb 48 b && leb b 57) || ((leb 65 b && leb b 70) || (leb 97 b && leb b 102))

unfoldable pub all_hex : List ℕ → Bool
unfolding hex_digit
all_hex [] = true
all_hex (b ∷ bs) = hex_digit b && all_hex bs

-- `[REDACTED]`
abbrev pub replacement : List ℕ
replacement = 91 ∷ 82 ∷ 69 ∷ 68 ∷ 65 ∷ 67 ∷ 84 ∷ 69 ∷ 68 ∷ 93 ∷ []

-- `cot1_`
abbrev pub token_prefix : List ℕ
token_prefix = 99 ∷ 111 ∷ 116 ∷ 49 ∷ 95 ∷ []

abbrev pub token_length : ℕ
token_length = 69

pub record Redactor : Type 0 where
  pub secrets : List (List ℕ)
  pub pending : List ℕ

unfoldable pub bytes_eq : List ℕ → List ℕ → Bool
bytes_eq [] [] = true
bytes_eq [] (y ∷ ys) = false
bytes_eq (x ∷ xs) [] = false
bytes_eq (x ∷ xs) (y ∷ ys) = x == y && bytes_eq xs ys

unfoldable pub add : Redactor → List ℕ → Redactor
unfolding bytes_eq
add r [] = r
add r (b ∷ bs) =
    if exists_where (λ s. bytes_eq s (b ∷ bs)) r.secrets
    then r
    else record r { secrets = r.secrets ++ (b ∷ bs) ∷ [] }

-- The bytes could be the start of a token.
unfoldable pub token_partial : List ℕ → Bool
token_partial r =
    ltb (length r) token_length
    && (starts_with token_prefix r || (starts_with r token_prefix && all_hex (drop 5 r)))

-- The bytes could be the start of a credential, so what to do with them is not decided yet.
unfoldable pub partial : List (List ℕ) → List ℕ → Bool
unfolding token_partial
partial secrets r =
    token_partial r || exists_where (λ s. ltb (length r) (length s) && starts_with s r) secrets

unfoldable pub token_found : List ℕ → Option ℕ
token_found r =
    if leb token_length (length r) && (starts_with r token_prefix && all_hex (take 64 (drop 5 r)))
    then some token_length
    else none

-- `max` on two options, where `none` is less than every number.
abbrev pub max_opt : Option ℕ → Option ℕ → Option ℕ
max_opt none b = b
max_opt (some a) none = some a
max_opt (some a) (some b) = some (if leb a b then b else a)

-- The length of the longest secret at the start of the bytes.
unfoldable pub exact : List (List ℕ) → List ℕ → Option ℕ
exact [] r = none
exact (s ∷ ss) r = if starts_with r s then max_opt (some (length s)) (exact ss r) else exact ss r

unfoldable pub longest : List (List ℕ) → List ℕ → Option ℕ
unfolding exact token_found
longest secrets r = max_opt (exact secrets r) (token_found r)

abbrev pub emit : List ℕ → Option (List ℕ × List ℕ) → Option (List ℕ × List ℕ)
emit xs none = none
emit xs (some (out, pending)) = some (xs ++ out, pending)

-- The loop of `drain` on the bytes from `offset` on; `none` is running out of fuel.
unfoldable pub drain_loop : ℕ → Bool → List (List ℕ) → List ℕ → Option (List ℕ × List ℕ)
unfolding partial longest
drain_loop fuel end_ secrets [] = some ([], [])
drain_loop zero end_ secrets (x ∷ xs) = none
drain_loop (suc fuel) end_ secrets (x ∷ xs) =
    if partial secrets (x ∷ xs)
    then some (if end_ then (replacement, []) else ([], x ∷ xs))
    else elim (longest secrets (x ∷ xs)) [
      | some n ↦ emit replacement (drain_loop fuel end_ secrets (drop n (x ∷ xs)))
      | none ↦ emit (x ∷ []) (drain_loop fuel end_ secrets xs)
    ]

abbrev pub with_pending : Redactor → Option (List ℕ × List ℕ) → Option (List ℕ × Redactor)
with_pending r none = none
with_pending r (some (out, pending)) = some (out, record r { pending = pending })

-- One step of the loop takes at least a byte, so its fuel is the number of bytes.
unfoldable pub drain : Bool → Redactor → Option (List ℕ × Redactor)
unfolding drain_loop
drain end_ r = with_pending r (drain_loop (length r.pending) end_ r.secrets r.pending)

unfoldable pub push : Redactor → List ℕ → Option (List ℕ × Redactor)
unfolding drain
push r bytes = drain false (record r { pending = r.pending ++ bytes })

unfoldable pub finish : Redactor → Option (List ℕ × Redactor)
unfolding drain
finish r = drain true r
