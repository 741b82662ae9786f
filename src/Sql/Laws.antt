-- ===== src/Sql/Laws.antt =====
-- How the statements of `Sql` act on one another.
use coterie.Prelude.{
  ◌+◌, ◌≤◌, ◌<◌, ◌≡◌, refl, Bool, true, false, none, some, List, [], ◌∷◌, ◌++◌, if◌then◌else◌,
  arith, Bool-cases, inl, inr,
}
use mathlib.Core.Option
use coterie.Sql.{select_first, exists_where, count_where, update_where}

module _ {ℓ} {A : Type ℓ} where
  -- A row found by a test that the update leaves alone is the updated row.
  pub select_first-update_where :
      (q p : A → Bool) (f : A → A) (rs : List A)
      → ((r : A) → q (f r) ≡ q r)
      → select_first q (update_where p f rs)
        ≡ Option.map (λ r. if p r then f r else r) (select_first q rs)
  unfolding select_first update_where
  select_first-update_where q p f [] h = refl
  select_first-update_where q p f (r ∷ rs) h =
      ground (arith, h r, select_first-update_where q p f rs h)

  pub count_where-update_where :
      (q p : A → Bool) (f : A → A) (rs : List A)
      → count_where q (update_where p f rs) ≡ count_where (λ r. q (if p r then f r else r)) rs
  unfolding count_where update_where
  count_where-update_where q p f [] = refl
  count_where-update_where q p f (r ∷ rs) = ground (arith, count_where-update_where q p f rs)

  pub count_where_congr :
      (p q : A → Bool) (rs : List A) → ((r : A) → p r ≡ q r) → count_where p rs ≡ count_where q rs
  unfolding count_where
  count_where_congr p q [] h = refl
  count_where_congr p q (r ∷ rs) h = ground (arith, h r, count_where_congr p q rs h)

  pub count_where-append :
      (p : A → Bool) (xs ys : List A)
      → count_where p (xs ++ ys) ≡ count_where p xs + count_where p ys
  unfolding count_where
  count_where-append p [] ys = omega arith
  count_where-append p (x ∷ xs) ys = ground (arith, count_where-append p xs ys)

  pub exists_where-false :
      (p : A → Bool) (rs : List A) → exists_where p rs ≡ false → count_where p rs ≡ 0
  unfolding exists_where count_where
  exists_where-false p [] h = refl
  exists_where-false p (r ∷ rs) h = ground (arith, exists_where-false p rs)

  pub count_where_zero :
      (p : A → Bool) (rs : List A) → count_where p rs ≡ 0 → exists_where p rs ≡ false
  unfolding exists_where count_where
  count_where_zero p [] h = refl
  count_where_zero p (r ∷ rs) h = ground (arith, count_where_zero p rs)

  pub count_where-none :
      (p : A → Bool) (rs : List A) → (select_first p rs ≡ none) → count_where p rs ≡ 0
  unfolding select_first count_where
  count_where-none p [] h = refl
  count_where-none p (r ∷ rs) h = ground (arith, count_where-none p rs)

  pub count_where-some :
      (p : A → Bool) (rs : List A) (a : A) → select_first p rs ≡ some a → 0 + 1 ≤ count_where p rs
  unfolding select_first count_where
  count_where-some p [] a h = ground arith
  count_where-some p (r ∷ rs) a h = ground (arith, count_where-some p rs a)

  pub select_first_test :
      (p : A → Bool) (rs : List A) (a : A) → select_first p rs ≡ some a → p a ≡ true
  unfolding select_first
  select_first_test p [] a h = ground arith
  select_first_test p (r ∷ rs) a h = ground (arith, select_first_test p rs a)

  pub select_first_of_count :
      (p : A → Bool) (rs : List A) → 0 < count_where p rs → (a : A) × (select_first p rs ≡ some a)
  unfolding select_first count_where
  select_first_of_count p [] h = absurd (omega arith)
  select_first_of_count p (r ∷ rs) h = elim (Bool-cases (p r)) [
    | inl hit ↦ (r, rw hit refl)
    | inr miss ↦ let (a, e) = select_first_of_count p rs (ground arith) in (a, rw miss e)
  ]

  pub count_where_mono :
      (p q : A → Bool) (rs : List A)
      → ((r : A) → q r ≡ true → p r ≡ true)
      → count_where q rs ≤ count_where p rs
  unfolding count_where
  count_where_mono p q [] h = omega arith
  count_where_mono p q (r ∷ rs) h = ground (arith, h r, count_where_mono p q rs h)

  -- Where a key stands in one row at most, a narrower test that holds somewhere holds of the row
  -- that the key finds.
  pub select_first_unique :
      (p q : A → Bool) (rs : List A) (a : A)
      → ((r : A) → q r ≡ true → p r ≡ true)
      → count_where p rs ≤ 1
      → 0 < count_where q rs
      → select_first p rs ≡ some a
      → q a ≡ true
  unfolding select_first count_where
  select_first_unique p q [] a sub one pos e = absurd (omega arith)
  select_first_unique p q (r ∷ rs) a sub one pos e =
      ground (arith, sub r, count_where_mono p q rs sub, select_first_unique p q rs a sub)

  -- A narrower test that holds of the first row of a wider one finds the same row.
  pub select_first_narrow :
      (p q : A → Bool) (rs : List A) (a : A)
      → ((r : A) → q r ≡ true → p r ≡ true)
      → select_first p rs ≡ some a
      → q a ≡ true
      → select_first q rs ≡ some a
  unfolding select_first
  select_first_narrow p q [] a sub e h = ground arith
  select_first_narrow p q (r ∷ rs) a sub e h =
      ground (arith, sub r, select_first_narrow p q rs a sub)

  pub count_where-false :
      (p : A → Bool) (rs : List A) → ((r : A) → p r ≡ false) → count_where p rs ≡ 0
  unfolding count_where
  count_where-false p [] h = refl
  count_where-false p (r ∷ rs) h = ground (arith, h r, count_where-false p rs h)

  pub select_first-append :
      (p : A → Bool) (xs ys : List A)
      → select_first p xs ≡ none
      → select_first p (xs ++ ys) ≡ select_first p ys
  unfolding select_first
  select_first-append p [] ys h = refl
  select_first-append p (x ∷ xs) ys h = ground (arith, select_first-append p xs ys)

  -- An update of the rows of a key that keeps the key finds the updated row.
  pub select_first-update_own :
      (p : A → Bool) (f : A → A) (rs : List A) (a : A)
      → ((r : A) → p (f r) ≡ p r)
      → select_first p rs ≡ some a
      → select_first p (update_where p f rs) ≡ some (f a)
  unfolding select_first update_where
  select_first-update_own p f [] a keep e = absurd (ground (arith, e))
  select_first-update_own p f (r ∷ rs) a keep e =
      ground (arith, e, keep r, select_first-update_own p f rs a keep)

  pub select_first_one : (p : A → Bool) (a : A) → p a ≡ true → select_first p (a ∷ []) ≡ some a
  unfolding select_first
  select_first_one p a h = ground (arith, h)

  pub count_where_one : (p : A → Bool) (a : A) → p a ≡ true → count_where p (a ∷ []) ≡ 1
  unfolding count_where
  count_where_one p a h = ground (arith, h)
