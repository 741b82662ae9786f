-- ===== src/Redaction/Scan.antt =====
-- What `drain` computes, as a relation that has no fuel. (src/redaction.rs)
use coterie.Prelude.{
  ℕ, zero, suc, ◌≤◌, ◌<◌, ◌≡◌, refl, ◌∙◌, inl, inr, true, false, none, some, List, [], ◌∷◌, ◌++◌,
  ◌==◌, length, drop, length-drop, arith, Bool-cases, Option-cases,
}
use coterie.Sql.{exists_where}
use coterie.Redaction.{
  starts_with, replacement, token_partial, partial, token_found, exact, longest, drain_loop,
}
use coterie.Redaction.Prefixes.{starts_with-length, drop-append}
use coterie.Redaction.Stable.{partial-append, longest-append}

-- `Scan secrets bytes out pending`: the bytes are cut into credentials, which are concealed, and
-- bytes at which no credential starts, which are copied, up to the first place where a credential
-- may have started.
pub data Scan (secrets : List (List ℕ)) : List ℕ → List ℕ → List ℕ → Type 0 where
  wait : {r : List ℕ} → partial secrets r ≡ true → Scan secrets r [] r
  conceal :
      {r out pending : List ℕ} (n : ℕ)
      → partial secrets r ≡ false
      → longest secrets r ≡ some n
      → Scan secrets (drop n r) out pending
      → Scan secrets r (replacement ++ out) pending
  copy :
      {x : ℕ} {r out pending : List ℕ}
      → partial secrets (x ∷ r) ≡ false
      → longest secrets (x ∷ r) ≡ none
      → Scan secrets r out pending
      → Scan secrets (x ∷ r) (x ∷ out) pending

-- `Redactor::add` refuses the empty secret.
unfoldable pub IsClean : List (List ℕ) → Type 0
IsClean secrets = exists_where (λ s. length s == 0) secrets ≡ false

exact-bounds :
    (secrets : List (List ℕ)) (r : List ℕ) (n : ℕ) → exact secrets r ≡ some n → n ≤ length r
unfolding exact
exact-bounds [] r n h = cc
exact-bounds (s ∷ ss) r n h = elim (Option-cases (exact ss r)) [
  | inl e ↦ ground (arith, e, starts_with-length r s)
  | inr (k, e) ↦ ground (arith, e, starts_with-length r s, exact-bounds ss r k e)
]

exact-positive :
    (secrets : List (List ℕ)) (r : List ℕ) (n : ℕ)
    → exists_where (λ s. length s == 0) secrets ≡ false
    → exact secrets r ≡ some n
    → 0 < n
unfolding exact exists_where
exact-positive [] r n c h = cc
exact-positive (s ∷ ss) r n c h = elim (Option-cases (exact ss r)) [
  | inl e ↦ ground (arith, e)
  | inr (k, e) ↦ ground (arith, e, exact-positive ss r k (ground arith) e)
]

-- A credential that was found is no longer than the bytes.
pub longest-bounds :
    (secrets : List (List ℕ)) (r : List ℕ) (n : ℕ) → longest secrets r ≡ some n → n ≤ length r
unfolding longest token_found
longest-bounds secrets r n h = elim (Option-cases (exact secrets r)) [
  | inl e ↦ ground (arith, e)
  | inr (k, e) ↦ ground (arith, e, exact-bounds secrets r k e)
]

longest-positive :
    (secrets : List (List ℕ)) (r : List ℕ) (n : ℕ)
    → IsClean secrets
    → longest secrets r ≡ some n
    → 0 < n
unfolding longest token_found IsClean
longest-positive secrets r n c h = elim (Option-cases (exact secrets r)) [
  | inl e ↦ ground (arith, e)
  | inr (k, e) ↦ ground (arith, e, exact-positive secrets r k c e)
]

length_le_zero : (r : List ℕ) → length r ≤ 0 → r ≡ []
length_le_zero [] h = refl
length_le_zero (x ∷ xs) h = absurd (omega arith)

-- The empty list of bytes could be the start of a token.
pub partial_nil : (secrets : List (List ℕ)) → partial secrets [] ≡ true
unfolding partial token_partial starts_with
partial_nil secrets = refl

module _ (secrets : List (List ℕ)) (clean : IsClean secrets) where
  drain_loop-conceal :
      (fuel n : ℕ) (r : List ℕ) {out pending : List ℕ}
      → partial secrets r ≡ false
      → longest secrets r ≡ some n
      → drain_loop fuel false secrets (drop n r) ≡ some (out, pending)
      → drain_loop (suc fuel) false secrets r ≡ some (replacement ++ out, pending)
  unfolding drain_loop
  drain_loop-conceal fuel n [] p l h = absurd (ground (arith, p, partial_nil secrets))
  drain_loop-conceal fuel n (x ∷ xs) p l h = rw (p, l, h) refl

  drain_loop-copy :
      (fuel x : ℕ) (r : List ℕ) {out pending : List ℕ}
      → partial secrets (x ∷ r) ≡ false
      → longest secrets (x ∷ r) ≡ none
      → drain_loop fuel false secrets r ≡ some (out, pending)
      → drain_loop (suc fuel) false secrets (x ∷ r) ≡ some (x ∷ out, pending)
  unfolding drain_loop
  drain_loop-copy fuel x r p l h = rw (p, l, h) refl

  drain_loop-wait :
      (fuel : ℕ) (r : List ℕ)
      → length r ≤ fuel
      → partial secrets r ≡ true
      → drain_loop fuel false secrets r ≡ some ([], r)
  unfolding drain_loop
  drain_loop-wait fuel [] l p = refl
  drain_loop-wait zero (x ∷ xs) l p = absurd (omega arith)
  drain_loop-wait (suc fuel) (x ∷ xs) l p = rw p refl

  -- Fuel for every byte is enough for the loop to compute what the relation describes.
  pub drain_loop-Scan :
      (fuel : ℕ) (r : List ℕ) {out pending : List ℕ}
      → length r ≤ fuel
      → Scan secrets r out pending
      → drain_loop fuel false secrets r ≡ some (out, pending)
  drain_loop-Scan fuel r l (wait p) = drain_loop-wait fuel r l p
  drain_loop-Scan zero r l (conceal n p k s) =
      absurd (omega (arith, longest-positive secrets r n clean k, longest-bounds secrets r n k))
  drain_loop-Scan (suc fuel) r l (conceal n p k s) = drain_loop-conceal fuel n r p k (
      drain_loop-Scan fuel (drop n r)
        (omega (arith, length-drop n r, longest-positive secrets r n clean k)) s)
  drain_loop-Scan zero (x ∷ r) l (copy p k s) = absurd (omega arith)
  drain_loop-Scan (suc fuel) (x ∷ r) l (copy p k s) =
      drain_loop-copy fuel x r p k (drain_loop-Scan fuel r (omega arith) s)

  Scan-step :
      (fuel : ℕ)
      → ((r : List ℕ) → length r ≤ fuel → (out pending : List ℕ) × Scan secrets r out pending)
      → (r : List ℕ) → length r ≤ suc fuel
      → partial secrets r ≡ false
      → (out pending : List ℕ) × Scan secrets r out pending
  Scan-step fuel rec [] l p = absurd (ground (arith, p, partial_nil secrets))
  Scan-step fuel rec (x ∷ xs) l p = elim (Option-cases (longest secrets (x ∷ xs))) [
    | inl e ↦ let (out, pending, s) = rec xs (omega arith) in (x ∷ out, pending, copy p e s)
    | inr (n, e) ↦
        let (out, pending, s) =
          rec (drop n (x ∷ xs))
            (omega (arith, length-drop n (x ∷ xs), longest-positive secrets (x ∷ xs) n clean e)) in
        (replacement ++ out, pending, conceal n p e s)
  ]

  -- Every text has a scan.
  pub Scan-exists :
      (fuel : ℕ) (r : List ℕ)
      → length r ≤ fuel
      → (out pending : List ℕ) × Scan secrets r out pending
  Scan-exists zero [] l = ([], [], wait (partial_nil secrets))
  Scan-exists zero (x ∷ xs) l = absurd (omega arith)
  Scan-exists (suc fuel) r l = elim (Bool-cases (partial secrets r)) [
    | inl p ↦ ([], r, wait p)
    | inr p ↦ Scan-step fuel (Scan-exists fuel) r l p
  ]

  -- A scan goes on where it waited.
  pub Scan-append :
      {r out1 pending1 out2 pending2 : List ℕ} (s : List ℕ)
      → Scan secrets r out1 pending1
      → Scan secrets (pending1 ++ s) out2 pending2
      → Scan secrets (r ++ s) (out1 ++ out2) pending2
  Scan-append s (wait p) k = k
  Scan-append s (conceal {r} {out} n p e f) k =
      conceal n (partial-append secrets r s p) (longest-append secrets r s p ∙ e)
        (rw (drop-append n r s (longest-bounds secrets r n e)) (Scan-append s f k))
  Scan-append s (copy {x} {r} p e f) k =
      copy (partial-append secrets (x ∷ r) s p) (longest-append secrets (x ∷ r) s p ∙ e)
        (Scan-append s f k)
