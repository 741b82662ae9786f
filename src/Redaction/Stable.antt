-- ===== src/Redaction/Stable.antt =====
-- The decisions of the redactor at a byte when more bytes arrive. (src/redaction.rs)
use coterie.Prelude.{
  ℕ, ◌≤◌, ◌<◌, ◌≡◌, refl, sym, ap, ◌∙◌, inl, inr, Bool, true, false, ◌&&◌, List, [], ◌∷◌, ◌++◌, ltb,
  leb, length, take, drop, length-append, length-drop, arith, Bool-cases,
}
use coterie.Sql.{exists_where}
use coterie.Redaction.{
  starts_with, all_hex, token_prefix, token_length, token_partial, partial, token_found, exact,
  longest,
}
use coterie.Redaction.Prefixes.{
  starts_with-append, starts_with-append_inv, starts_with-prefix, starts_with-length,
  all_hex-append, drop-append, take-append, all_hex-take,
}

-- Once the bytes are as long as the prefix, more of them do not matter.
starts_with-long : (r s p : List ℕ) → length p ≤ length r → starts_with (r ++ s) p ≡ starts_with r p
starts_with-long r s p l = elim (Bool-cases (starts_with (r ++ s) p)) [
  | inl e ↦ elim (starts_with-append_inv r s p e) [
    | inl k ↦ ground (arith, e, k)
    | inr (m, k) ↦ absurd (omega (arith, m, l))
  ]
  | inr e ↦ elim (Bool-cases (starts_with r p)) [
    | inl k ↦ absurd (ground (arith, e, starts_with-append r s p k))
    | inr k ↦ ground (arith, e, k)
  ]
]

-- Bytes shorter than the prefix that they start with start it.
starts_with-short :
    (r s p : List ℕ) → length r < length p → starts_with (r ++ s) p ≡ true → starts_with p r ≡ true
starts_with-short r s p l h = elim (starts_with-append_inv r s p h) [
  | inl k ↦ absurd (omega (arith, l, starts_with-length r p k))
  | inr (m, k) ↦ k
]

token_partial-append : (r s : List ℕ) → token_partial (r ++ s) ≡ true → token_partial r ≡ true
unfolding token_partial
token_partial-append r s h = elim (Bool-cases (leb 5 (length r))) [
  | inl long ↦ ground (
    arith,
    length-append r s,
    starts_with-long r s token_prefix (ground arith),
    drop-append 5 r s (ground arith),
    all_hex-append (drop 5 r) s,
    starts_with-prefix token_prefix r s,
  )
  | inr short ↦ ground (
    arith,
    short,
    starts_with-short r s token_prefix (ground arith),
    starts_with-prefix token_prefix r s,
  )
]

-- Bytes that become a token when more arrive could be the start of one.
token_start :
    (r s : List ℕ)
    → length r < token_length
    → starts_with (r ++ s) token_prefix ≡ true
    → all_hex (take 64 (drop 5 (r ++ s))) ≡ true
    → token_partial r ≡ true
unfolding token_partial
token_start r s l e k = elim (Bool-cases (leb 5 (length r))) [
  | inl long ↦
      let e1 = sym (starts_with-long r s token_prefix (ground arith)) ∙ e in
      let e2 =
        all_hex-take 64 (drop 5 r) s (omega (arith, length-drop 5 r))
          (ap (λ z. all_hex (take 64 z)) (sym (drop-append 5 r s (ground arith))) ∙ k) in
      ground (arith, e1, e2, l)
  | inr short ↦ ground (arith, l, starts_with-short r s token_prefix (ground arith) e)
]

still_long : (r s : List ℕ) → token_length ≤ length r → leb token_length (length (r ++ s)) ≡ true
still_long r s l = ground (arith, length-append r s)

token_found-append : (r s : List ℕ) → token_partial r ≡ false → token_found (r ++ s) ≡ token_found r
unfolding token_found token_partial
token_found-append r s h = elim (Bool-cases (leb token_length (length r))) [
  | inl long ↦
      rw
        (
          starts_with-long r s token_prefix (ground arith),
          drop-append 5 r s (ground arith),
          take-append 64 (drop 5 r) s (ground (arith, length-drop 5 r)),
          long,
          still_long r s (ground arith),
        )
        refl
  | inr short ↦ elim (Bool-cases (starts_with (r ++ s) token_prefix)) [
    | inl e ↦ elim (Bool-cases (all_hex (take 64 (drop 5 (r ++ s))))) [
      | inl k ↦ absurd (ground (arith, h, token_start r s (ground arith) e k))
      | inr k ↦ ground (arith, short, e, k)
    ]
    | inr e ↦ ground (arith, short, e)
  ]
]

abbrev awaited : List ℕ → List ℕ → Bool
awaited r secret = ltb (length r) (length secret) && starts_with secret r

awaited-append :
    (secrets : List (List ℕ)) (r s : List ℕ)
    → exists_where (awaited (r ++ s)) secrets ≡ true
    → exists_where (awaited r) secrets ≡ true
unfolding exists_where
awaited-append [] r s h = h
awaited-append (x ∷ xs) r s h =
    ground (arith, length-append r s, starts_with-prefix x r s, awaited-append xs r s)

-- Bytes that start no credential start none when more arrive.
pub partial-append :
    (secrets : List (List ℕ)) (r s : List ℕ)
    → partial secrets r ≡ false
    → partial secrets (r ++ s) ≡ false
unfolding partial
partial-append secrets r s h = ground (arith, token_partial-append r s, awaited-append secrets r s)

exact-append :
    (secrets : List (List ℕ)) (r s : List ℕ)
    → exists_where (awaited r) secrets ≡ false
    → exact secrets (r ++ s) ≡ exact secrets r
unfolding exact exists_where
exact-append [] r s h = refl
exact-append (x ∷ xs) r s h = elim (Bool-cases (starts_with r x)) [
  | inl e ↦ ground (arith, e, starts_with-append r s x e, exact-append xs r s (ground arith))
  | inr e ↦ elim (Bool-cases (starts_with (r ++ s) x)) [
    | inl k ↦ elim (starts_with-append_inv r s x k) [
      | inl y ↦ absurd (ground (arith, y, e))
      | inr (l, y) ↦ absurd (ground (arith, l, y))
    ]
    | inr k ↦ ground (arith, e, k, exact-append xs r s (ground arith))
  ]
]

-- The longest credential at the start is the same when more bytes arrive.
pub longest-append :
    (secrets : List (List ℕ)) (r s : List ℕ)
    → partial secrets r ≡ false
    → longest secrets (r ++ s) ≡ longest secrets r
unfolding longest partial
longest-append secrets r s h =
    rw (exact-append secrets r s (ground arith), token_found-append r s (ground arith)) refl
