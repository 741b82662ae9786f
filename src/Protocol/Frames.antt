-- ===== src/Protocol/Frames.antt =====
-- Frames that are written and read back, whole and cut off. (`write_frame`, `read_frame` of
-- src/protocol.rs)
use coterie.Prelude.{
  ℕ, zero, suc, ◌+◌, ◌^◌, ◌≤◌, ◌<◌, ◌≡◌, refl, ap, ◌∙◌, true, false, some, List, [], ◌∷◌, ◌++◌, ltb,
  leb, length, length-append, length-take, append_assoc, take, drop, arith, Option-cases, inl, inr,
}
use coterie.Protocol.{
  maximum_frame_length, io, ok, err, Format, to_be_bytes, from_be_bytes, write_frame, read_exact,
  decoded, read_payload, after_header, read_frame,
}

from_be_bytes-to_be_bytes : (n : ℕ) → n < 2 ^ 32 → from_be_bytes (to_be_bytes n) ≡ n
unfolding from_be_bytes to_be_bytes
from_be_bytes-to_be_bytes n l = omega arith

take_front : (n : ℕ) (xs ys : List ℕ) → length xs ≡ n → take n (xs ++ ys) ≡ xs
take_front zero [] ys l = refl
take_front zero (x ∷ xs) ys l = absurd (omega arith)
take_front (suc n) [] ys l = absurd (omega arith)
take_front (suc n) (x ∷ xs) ys l = ap (λ t. x ∷ t) (take_front n xs ys (omega arith))

drop_front : (n : ℕ) (xs ys : List ℕ) → length xs ≡ n → drop n (xs ++ ys) ≡ ys
drop_front zero [] ys l = refl
drop_front zero (x ∷ xs) ys l = absurd (omega arith)
drop_front (suc n) [] ys l = absurd (omega arith)
drop_front (suc n) (x ∷ xs) ys l = drop_front n xs ys (omega arith)

enough : (xs ys : List ℕ) → leb (length xs) (length (xs ++ ys)) ≡ true
enough xs ys = ground (arith, length-append xs ys)

read_exact-append : (xs ys : List ℕ) → read_exact (length xs) (xs ++ ys) ≡ some (xs, ys)
unfolding read_exact
read_exact-append xs ys =
    rw (enough xs ys, take_front (length xs) xs ys refl, drop_front (length xs) xs ys refl) refl

within : (n : ℕ) → n ≤ maximum_frame_length → ltb maximum_frame_length n ≡ false
within n l = ground arith

frame_length :
    (encoded : List ℕ) (n : ℕ)
    → n < length (to_be_bytes (length encoded) ++ encoded)
    → n < 4 + length encoded
unfolding to_be_bytes
frame_length encoded n m = omega (arith, m)

-- What `to_vec` writes, `from_slice` reads back.
abbrev pub IsFaithful : {T : Type 0} → Format T → Type 0
IsFaithful {T} format =
    (value : T) (encoded : List ℕ)
    → format.to_vec value ≡ some encoded
    → format.from_slice encoded ≡ some value

module _ {T : Type 0} (format : Format T) where
  write_frame_parts :
      (value : T) (out written : List ℕ)
      → write_frame format value out ≡ ok written
      → (encoded : List ℕ) × (format.to_vec value ≡ some encoded)
        × (length encoded ≤ maximum_frame_length)
        × (written ≡ out ++ (to_be_bytes (length encoded) ++ encoded))
  unfolding write_frame
  write_frame_parts value out written h = elim (Option-cases (format.to_vec value)) [
    | inl e ↦ absurd (ground (arith, e))
    | inr (encoded, e) ↦ (encoded, e, ground (arith, e), ground (arith, e))
  ]

  read_payload-append :
      (encoded rest : List ℕ)
      → length encoded ≤ maximum_frame_length
      → read_payload format (length encoded) (encoded ++ rest)
        ≡ decoded format (some (encoded, rest))
  read_payload-append encoded rest l =
      rw (within (length encoded) l, read_exact-append encoded rest) refl

  read_frame-header :
      (n : ℕ) (rest : List ℕ)
      → n ≤ maximum_frame_length
      → read_frame format (to_be_bytes n ++ rest) ≡ read_payload format n rest
  unfolding read_frame to_be_bytes
  read_frame-header n rest l =
      ap (after_header format) (read_exact-append (to_be_bytes n) rest)
      ∙ ap (λ k. read_payload format k rest) (from_be_bytes-to_be_bytes n (omega arith))

  decoded-some :
      (encoded : List ℕ) (value : T) (rest : List ℕ)
      → format.from_slice encoded ≡ some value
      → decoded format (some (encoded, rest)) ≡ ok (value, rest)
  decoded-some encoded value rest e = ground (arith, e)

  -- A frame that was written reads back as its message, whatever bytes follow it, and those are left.
  pub read_frame-write_frame :
      (value : T) (out : List ℕ) {written : List ℕ}
      → IsFaithful format
      → write_frame format value out ≡ ok written
      → (frame : List ℕ) × (written ≡ out ++ frame)
        × ((rest : List ℕ) → read_frame format (frame ++ rest) ≡ ok (value, rest))
  read_frame-write_frame value out {written} faithful h =
      let (encoded, e, l, w) = write_frame_parts value out written h in
      (
        to_be_bytes (length encoded) ++ encoded,
        w,
        λ rest.
            ap (read_frame format) (append_assoc (to_be_bytes (length encoded)) encoded rest)
            ∙ read_frame-header (length encoded) (encoded ++ rest) l
            ∙ read_payload-append encoded rest l
            ∙ decoded-some encoded value rest (faithful value encoded e),
      )

  short_header : (bytes : List ℕ) → length bytes < 4 → read_frame format bytes ≡ err io
  unfolding read_frame read_exact
  short_header bytes l = ground arith

  cut_payload :
      (n k : ℕ) (encoded : List ℕ)
      → n ≡ length encoded
      → n ≤ maximum_frame_length
      → k < n
      → read_payload format n (take k encoded) ≡ err io
  unfolding read_exact
  cut_payload n k encoded e l m = ground (arith, length-take k encoded (omega (arith, e, m)))

  cut_frame :
      (n : ℕ) (encoded : List ℕ)
      → length encoded ≤ maximum_frame_length
      → n < 4 + length encoded
      → read_frame format (take n (to_be_bytes (length encoded) ++ encoded)) ≡ err io
  unfolding to_be_bytes
  cut_frame zero encoded l m = short_header [] (omega arith)
  cut_frame (suc zero) encoded l m = short_header _ (omega arith)
  cut_frame (suc (suc zero)) encoded l m = short_header _ (omega arith)
  cut_frame (suc (suc (suc zero))) encoded l m = short_header _ (omega arith)
  cut_frame (suc (suc (suc (suc k)))) encoded l m =
      read_frame-header (length encoded) (take k encoded) l
      ∙ cut_payload (length encoded) k encoded refl l (omega (arith, m))

  -- A frame that is cut off anywhere is reported as an input error, and never read as a message.
  pub read_frame_cut :
      (value : T) (out : List ℕ) {written : List ℕ}
      → write_frame format value out ≡ ok written
      → (frame : List ℕ) × (written ≡ out ++ frame)
        × ((n : ℕ) → n < length frame → read_frame format (take n frame) ≡ err io)
  read_frame_cut value out {written} h =
      let (encoded, e, l, w) = write_frame_parts value out written h in
      (
        to_be_bytes (length encoded) ++ encoded,
        w,
        λ n m. cut_frame n encoded l (frame_length encoded n m),
      )
