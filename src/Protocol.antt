-- ===== src/Protocol.antt =====
-- src/protocol.rs: a message on the local socket is a frame, four bytes of its length and a payload.
pub mod Frames
use coterie.Prelude.{
  ℕ, ◌+◌, ◌*◌, ◌/◌, ◌%◌, ◌^◌, Bool, true, false, Option, none, some, List, [], ◌∷◌, ◌++◌, ltb, leb,
  if◌then◌else◌, length, take, drop,
}

abbrev pub maximum_frame_length : ℕ
maximum_frame_length = 1024 * 1024

-- The reasons for which `write_frame` and `read_frame` fail.
pub data FrameError : Type 0 where
  io : FrameError
  too_large : ℕ → ℕ → FrameError
  encode : FrameError
  decode : FrameError

pub data Framed (A : Type 0) : Type 0 where
  ok : A → Framed A
  err : FrameError → Framed A

-- `serde_json::to_vec` and `from_slice` on the messages of one type.
pub record Format (T : Type 0) : Type 0 where
  pub to_vec : T → Option (List ℕ)
  pub from_slice : List ℕ → Option T

-- `u32::to_be_bytes`
unfoldable pub to_be_bytes : ℕ → List ℕ
to_be_bytes n = n / 2 ^ 24 % 256 ∷ n / 2 ^ 16 % 256 ∷ n / 2 ^ 8 % 256 ∷ n % 256 ∷ []

-- `u32::from_be_bytes` on the four bytes of the header.
unfoldable pub from_be_bytes : List ℕ → ℕ
from_be_bytes (a ∷ b ∷ c ∷ d ∷ []) = a * 2 ^ 24 + b * 2 ^ 16 + c * 2 ^ 8 + d
from_be_bytes _ = 0

-- The part of `write_frame` after the encoding, on a writer that takes all bytes.
abbrev pub write_encoded : Option (List ℕ) → List ℕ → Framed (List ℕ)
write_encoded none out = err encode
write_encoded (some encoded) out =
    if ltb maximum_frame_length (length encoded)
    then err (too_large (length encoded) maximum_frame_length)
    else if leb (2 ^ 32) (length encoded)
    then err (too_large (length encoded) maximum_frame_length)
    else ok (out ++ (to_be_bytes (length encoded) ++ encoded))

-- The bytes that were written before come first.
unfoldable pub write_frame : {T : Type 0} → Format T → T → List ℕ → Framed (List ℕ)
write_frame format value out = write_encoded (format.to_vec value) out

-- `read_exact`: the bytes asked for and those that remain.
unfoldable pub read_exact : ℕ → List ℕ → Option (List ℕ × List ℕ)
read_exact n bytes = if leb n (length bytes) then some (take n bytes, drop n bytes) else none

abbrev pub decoded : {T : Type 0} → Format T → Option (List ℕ × List ℕ) → Framed (T × List ℕ)
decoded format none = err io
decoded format (some (encoded, rest)) = elim (format.from_slice encoded) [
  | none ↦ err decode
  | some value ↦ ok (value, rest)
]

-- The part of `read_frame` after the header.
abbrev pub read_payload : {T : Type 0} → Format T → ℕ → List ℕ → Framed (T × List ℕ)
read_payload format n bytes =
    if ltb maximum_frame_length n
    then err (too_large n maximum_frame_length)
    else decoded format (read_exact n bytes)

abbrev pub after_header : {T : Type 0} → Format T → Option (List ℕ × List ℕ) → Framed (T × List ℕ)
after_header format none = err io
after_header format (some (header, rest)) = read_payload format (from_be_bytes header) rest

unfoldable pub read_frame : {T : Type 0} → Format T → List ℕ → Framed (T × List ℕ)
unfolding read_exact from_be_bytes
read_frame format bytes = after_header format (read_exact 4 bytes)
