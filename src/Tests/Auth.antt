-- ===== src/Tests/Auth.antt =====
-- A sample token, and frames of one-byte messages.
use coterie.Prelude.{
  ℕ, ◌≡◌, refl, ◌<◌, true, Option, none, some, List, [], ◌∷◌, ◌++◌, length, take, arith,
}
use coterie.Redaction.{push, replacement}
use coterie.Auth.{token_bytes, expose_secret, parse_token}
use coterie.Auth.Laws.{all_bytes, parse_token-expose_secret, parse_token_sound, push-expose_secret}
use coterie.Protocol.{Format, ok, err, io, write_frame, read_frame, to_be_bytes}
use coterie.Protocol.Frames.{IsFaithful, read_frame-write_frame, read_frame_cut}

abbrev repeat_byte : ℕ → List ℕ → List ℕ
repeat_byte b rest = b ∷ b ∷ b ∷ b ∷ b ∷ b ∷ b ∷ b ∷ rest

abbrev sample_token : List ℕ
sample_token = repeat_byte 171 (repeat_byte 0 (repeat_byte 255 (repeat_byte 16 [])))

sample_token_bytes : all_bytes sample_token ≡ true
unfolding all_bytes
sample_token_bytes = refl

parse_token-expose_secret_example : parse_token (expose_secret sample_token) ≡ some sample_token
parse_token-expose_secret_example = parse_token-expose_secret sample_token sample_token_bytes refl

parse_token_sound_example :
    (expose_secret sample_token ≡ expose_secret sample_token)
    × (length sample_token ≡ token_bytes)
    × (all_bytes sample_token ≡ true)
parse_token_sound_example =
    parse_token_sound (expose_secret sample_token) sample_token
      (parse_token-expose_secret sample_token sample_token_bytes refl)

push-expose_secret_example :
    push (record { secrets = []; pending = [] }) (expose_secret sample_token)
    ≡ some (replacement, record { secrets = []; pending = [] })
push-expose_secret_example = push-expose_secret sample_token sample_token_bytes refl

abbrev only_byte : List ℕ → Option ℕ
only_byte (b ∷ []) = some b
only_byte _ = none

abbrev byte_format : Format ℕ
byte_format = record { to_vec = λ n. some (n ∷ []); from_slice = only_byte }

byte_format-IsFaithful : IsFaithful byte_format
byte_format-IsFaithful value encoded e = ground (arith, e)

byte_runs : write_frame byte_format 7 (1 ∷ []) ≡ ok (1 ∷ 0 ∷ 0 ∷ 0 ∷ 1 ∷ 7 ∷ [])
unfolding write_frame to_be_bytes
byte_runs = refl

read_frame-write_frame_example :
    (frame : List ℕ) × (1 ∷ 0 ∷ 0 ∷ 0 ∷ 1 ∷ 7 ∷ [] ≡ 1 ∷ [] ++ frame)
    × ((rest : List ℕ) → read_frame byte_format (frame ++ rest) ≡ ok (7, rest))
read_frame-write_frame_example =
    read_frame-write_frame byte_format 7 (1 ∷ []) byte_format-IsFaithful byte_runs

read_frame_cut_example :
    (frame : List ℕ) × (1 ∷ 0 ∷ 0 ∷ 0 ∷ 1 ∷ 7 ∷ [] ≡ 1 ∷ [] ++ frame)
    × ((n : ℕ) → n < length frame → read_frame byte_format (take n frame) ≡ err io)
read_frame_cut_example = read_frame_cut byte_format 7 (1 ∷ []) byte_runs
