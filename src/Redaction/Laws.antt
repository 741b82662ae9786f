-- ===== src/Redaction/Laws.antt =====
-- A redacted stream in chunks, and the bytes that are held back. (`Redactor` of src/redaction.rs)
use coterie.Prelude.{
  ℕ, ◌≡◌, refl, ap, subst, inl, inr, true, some, List, [], ◌∷◌, ◌++◌, length, append_assoc, arith,
  Bool-cases,
}
use coterie.Sql.{exists_where}
use coterie.Redaction.{
  replacement, bytes_eq, partial, Redactor, add, drain_loop, with_pending, push, finish,
}
use coterie.Redaction.Scan.{
  Scan, wait, conceal, copy, IsClean, drain_loop-Scan, Scan-exists, Scan-append,
}

IsClean-append :
    (ss : List (List ℕ)) (b : ℕ) (bs : List ℕ) → IsClean ss → IsClean (ss ++ (b ∷ bs) ∷ [])
unfolding IsClean exists_where
IsClean-append [] b bs h = ground arith
IsClean-append (s ∷ ss) b bs h = ground (arith, IsClean-append ss b bs (ground arith))

-- A redactor never holds the empty secret.
pub add-IsClean :
    (r : Redactor) (secret : List ℕ) → IsClean r.secrets → IsClean (add r secret).secrets
unfolding add
add-IsClean r [] h = h
add-IsClean r (b ∷ bs) h = elim (Bool-cases (exists_where (λ s. bytes_eq s (b ∷ bs)) r.secrets)) [
  | inl e ↦ rw e h
  | inr e ↦ rw e (IsClean-append r.secrets b bs h)
]

pub push-Scan :
    (r : Redactor) (bytes : List ℕ) {out pending : List ℕ}
    → IsClean r.secrets
    → Scan r.secrets (r.pending ++ bytes) out pending
    → push r bytes ≡ some (out, record r { pending = pending })
unfolding push
push-Scan r bytes c s =
    ap (with_pending r) (
      drain_loop-Scan r.secrets c (length (r.pending ++ bytes)) (r.pending ++ bytes) (omega arith)
        s)

-- What is held back is empty or the start of a credential.
Scan-pending :
    (secrets : List (List ℕ)) {r out pending : List ℕ}
    → Scan secrets r out pending
    → partial secrets pending ≡ true
Scan-pending secrets (wait p) = p
Scan-pending secrets (conceal n p e s) = Scan-pending secrets s
Scan-pending secrets (copy p e s) = Scan-pending secrets s

-- If no secret is empty, two chunks are redacted like the one chunk that they make up: the outputs
-- join to its output, and the same redactor is left; none of the three calls runs out of fuel.
pub push-append :
    (r : Redactor) (a b : List ℕ)
    → IsClean r.secrets
    → (out1 out2 : List ℕ) × (r1 r2 : Redactor) × (push r a ≡ some (out1, r1))
      × (push r1 b ≡ some (out2, r2))
      × (push r (a ++ b) ≡ some (out1 ++ out2, r2))
push-append r a b c =
    let (out1, pending1, s1) =
      Scan-exists r.secrets c (length (r.pending ++ a)) (r.pending ++ a) (omega arith) in
    let (out2, pending2, s2) =
      Scan-exists r.secrets c (length (pending1 ++ b)) (pending1 ++ b) (omega arith) in
    (
      out1,
      out2,
      record r { pending = pending1 },
      record r { pending = pending2 },
      push-Scan r a c s1,
      push-Scan (record r { pending = pending1 }) b c s2,
      push-Scan r (a ++ b) c (
          subst (λ l. Scan r.secrets l (out1 ++ out2) pending2) (append_assoc r.pending a b)
            (Scan-append r.secrets c b s1 s2)),
    )

abbrev pub concealed : List ℕ → List ℕ
concealed [] = []
concealed (b ∷ bs) = replacement

drain_loop-concealed :
    (secrets : List (List ℕ)) (bytes : List ℕ)
    → partial secrets bytes ≡ true
    → drain_loop (length bytes) true secrets bytes ≡ some (concealed bytes, [])
unfolding drain_loop
drain_loop-concealed secrets [] h = refl
drain_loop-concealed secrets (x ∷ xs) h = rw h refl

finish-partial :
    (r : Redactor)
    → partial r.secrets r.pending ≡ true
    → finish r ≡ some (concealed r.pending, record r { pending = [] })
unfolding finish
finish-partial r h = ap (with_pending r) (drain_loop-concealed r.secrets r.pending h)

-- A stream that ends after a chunk ends with `[REDACTED]` if the chunk left bytes held back, which
-- then are the start of a credential, and with nothing otherwise; nothing stays held back.
pub finish-push :
    (r : Redactor) (bytes : List ℕ) {out : List ℕ} {r1 : Redactor}
    → IsClean r.secrets
    → push r bytes ≡ some (out, r1)
    → (partial r.secrets r1.pending ≡ true)
      × (finish r1 ≡ some (concealed r1.pending, record r1 { pending = [] }))
finish-push r bytes {out} {r1} c h =
    let (out', pending, s) =
      Scan-exists r.secrets c (length (r.pending ++ bytes)) (r.pending ++ bytes) (omega arith) in
    let e : r1 ≡ record r { pending = pending } = ground (arith, h, push-Scan r bytes c s) in
    let p = Scan-pending r.secrets s in
    (rw e p, rw e (finish-partial (record r { pending = pending }) p))
