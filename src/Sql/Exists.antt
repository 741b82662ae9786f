-- ===== src/Sql/Exists.antt =====
-- How `EXISTS` acts on the other statements of `Sql`.
use coterie.Prelude.{
  ◌≡◌, ◌≤◌, ◌∙◌, not, ◌&&◌, refl, Bool, true, false, none, some, List, [], ◌∷◌, ◌++◌, ◌||◌,
  if◌then◌else◌, arith, Bool-cases, inl, inr,
}
use coterie.Sql.{select_first, exists_where, count_where, update_where}

module _ {ℓ} {A : Type ℓ} where
  pub exists_where-update_where :
      (q p : A → Bool) (f : A → A) (rs : List A)
      → exists_where q (update_where p f rs) ≡ exists_where (λ r. q (if p r then f r else r)) rs
  unfolding exists_where update_where
  exists_where-update_where q p f [] = refl
  exists_where-update_where q p f (r ∷ rs) = ground (arith, exists_where-update_where q p f rs)

  pub exists_where-append :
      (p : A → Bool) (xs ys : List A)
      → exists_where p (xs ++ ys) ≡ (exists_where p xs || exists_where p ys)
  unfolding exists_where
  exists_where-append p [] ys = refl
  exists_where-append p (x ∷ xs) ys = ground (arith, exists_where-append p xs ys)

  pub exists_where_congr :
      (p q : A → Bool) (rs : List A) → ((r : A) → p r ≡ q r) → exists_where p rs ≡ exists_where q rs
  unfolding exists_where
  exists_where_congr p q [] h = refl
  exists_where_congr p q (r ∷ rs) h = ground (arith, h r, exists_where_congr p q rs h)

  -- What exists under a narrower test exists under a wider one.
  pub exists_where_mono :
      (p q : A → Bool) (rs : List A)
      → ((r : A) → q r ≡ true → p r ≡ true)
      → exists_where q rs ≡ true
      → exists_where p rs ≡ true
  unfolding exists_where
  exists_where_mono p q [] h e = e
  exists_where_mono p q (r ∷ rs) h e = ground (arith, h r, exists_where_mono p q rs h)

  pub exists_where_witness :
      (p : A → Bool) (rs : List A) → exists_where p rs ≡ true → (a : A) × (p a ≡ true)
  unfolding exists_where
  exists_where_witness p [] e = absurd (ground (arith, e))
  exists_where_witness p (r ∷ rs) e = elim (Bool-cases (p r)) [
    | inl hit ↦ (r, hit)
    | inr miss ↦ exists_where_witness p rs (ground arith)
  ]

  -- A row that a test finds and that meets another test is one that meets both.
  pub exists_where-select_first :
      (p q : A → Bool) (rs : List A) (a : A)
      → select_first p rs ≡ some a
      → q a ≡ true
      → exists_where q rs ≡ true
  unfolding exists_where select_first
  exists_where-select_first p q [] a e h = absurd (ground (arith, e))
  exists_where-select_first p q (r ∷ rs) a e h = ground (arith, exists_where-select_first p q rs a)

  pub select_first-none :
      (p : A → Bool) (rs : List A) → exists_where p rs ≡ false → select_first p rs ≡ none
  unfolding exists_where select_first
  select_first-none p [] h = refl
  select_first-none p (r ∷ rs) h = ground (arith, select_first-none p rs)

  nothing_left :
      (p q : A → Bool) (rs : List A)
      → count_where p rs ≤ 0
      → exists_where (λ r. p r && not (q r)) rs ≡ false
  unfolding exists_where count_where
  nothing_left p q [] one = refl
  nothing_left p q (r ∷ rs) one = ground (arith, nothing_left p q rs)

  pub count_where-true :
      (p q : A → Bool) (rs : List A)
      → ((r : A) → q r ≡ true → p r ≡ true)
      → exists_where q rs ≡ true
      → 1 ≤ count_where p rs
  unfolding exists_where count_where
  count_where-true p q [] sub e = absurd (ground (arith, e))
  count_where-true p q (r ∷ rs) sub e = ground (arith, sub r, count_where-true p q rs sub)

  -- Where a key stands in one row at most and a row under a narrower test exists, every row of the
  -- key is such a row.
  pub exists_where_unique :
      (p q : A → Bool) (rs : List A)
      → ((r : A) → q r ≡ true → p r ≡ true)
      → count_where p rs ≤ 1
      → exists_where q rs ≡ true
      → exists_where (λ r. p r && not (q r)) rs ≡ false
  unfolding exists_where count_where
  exists_where_unique p q [] sub one e = refl
  exists_where_unique p q (r ∷ rs) sub one e = ground (
    arith,
    sub r,
    exists_where_unique p q rs sub,
    nothing_left p q rs,
    count_where-true p q rs sub,
  )

  pub exists_where_antitone :
      (p q : A → Bool) (rs : List A)
      → ((r : A) → q r ≡ true → p r ≡ true)
      → exists_where p rs ≡ false
      → exists_where q rs ≡ false
  exists_where_antitone p q rs sub e = elim (Bool-cases (exists_where q rs)) [
    | inr never ↦ never
    | inl found ↦ absurd (ground (arith, e, exists_where_mono p q rs sub found))
  ]

  -- A test that no updated row newly meets holds nowhere afterwards if it held nowhere before.
  pub exists_where-update_where_keeps :
      (q p : A → Bool) (f : A → A) (rs : List A)
      → ((r : A) → q (if p r then f r else r) ≡ true → q r ≡ true)
      → exists_where q rs ≡ false
      → exists_where q (update_where p f rs) ≡ false
  exists_where-update_where_keeps q p f rs sub e =
      exists_where-update_where q p f rs
      ∙ exists_where_antitone q (λ r. q (if p r then f r else r)) rs sub e

  pub exists_where-update_where_same :
      (q p : A → Bool) (f : A → A) (rs : List A)
      → ((r : A) → q (if p r then f r else r) ≡ q r)
      → exists_where q (update_where p f rs) ≡ exists_where q rs
  exists_where-update_where_same q p f rs same =
      exists_where-update_where q p f rs
      ∙ exists_where_congr (λ r. q (if p r then f r else r)) q rs same

  -- A test that one row does not meet holds of no more rows when the row is appended.
  pub exists_where-append_one :
      (q : A → Bool) (rs : List A) (a : A)
      → q a ≡ false
      → exists_where q (rs ++ a ∷ []) ≡ exists_where q rs
  unfolding exists_where
  exists_where-append_one q rs a e = ground (arith, exists_where-append q rs (a ∷ []), e)

  pub exists_where_never :
      (p : A → Bool) (rs : List A) → ((r : A) → p r ≡ false) → exists_where p rs ≡ false
  unfolding exists_where
  exists_where_never p [] h = refl
  exists_where_never p (r ∷ rs) h = ground (arith, h r, exists_where_never p rs h)

  pub exists_where-some :
      (p : A → Bool) (rs : List A) (a : A) → select_first p rs ≡ some a → exists_where p rs ≡ true
  unfolding exists_where select_first
  exists_where-some p [] a e = absurd (ground (arith, e))
  exists_where-some p (r ∷ rs) a e = ground (arith, exists_where-some p rs a)

  pub exists_where-none :
      (p : A → Bool) (rs : List A) → select_first p rs ≡ none → exists_where p rs ≡ false
  unfolding exists_where select_first
  exists_where-none p [] e = refl
  exists_where-none p (r ∷ rs) e = ground (arith, e, exists_where-none p rs)
