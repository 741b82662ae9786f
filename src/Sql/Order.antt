-- ===== src/Sql/Order.antt =====
-- `SELECT`s over tables that are in order already.
use coterie.Prelude.{
  ℕ, ◌<◌, ◌≤◌, ltb, false, ◌≡◌, refl, Bool, true, ◌&&◌, ◌||◌, ◌↔◌, List, [], ◌∷◌, ◌++◌, leb,
  if◌then◌else◌, arith, Bool-cases, inl, inr,
}
use coterie.Sql.{exists_where, count_where, select_all, max_where, insert_by, order_by}

or_swap : (a b c : Bool) → (a || (b || c)) ≡ (b || (a || c))
or_swap a b c = ground arith

module _ {A : Type 0} (f : A → ℕ) where
  -- Every row is at least as great as the one before it, and the first is at least `low`.
  unfoldable pub ascending : ℕ → List A → Bool
  ascending low [] = true
  ascending low (r ∷ rs) = leb low (f r) && ascending (f r) rs

  insert_by-ascending :
      (a : A) (rs : List A) → ascending (f a) rs ≡ true → insert_by f a rs ≡ a ∷ rs
  unfolding insert_by ascending
  insert_by-ascending a [] h = refl
  insert_by-ascending a (r ∷ rs) h = ground arith

  -- Sorting leaves rows in order as they are.
  pub order_by-ascending : (low : ℕ) (rs : List A) → ascending low rs ≡ true → order_by f rs ≡ rs
  unfolding order_by ascending
  order_by-ascending low [] h = refl
  order_by-ascending low (r ∷ rs) h =
      rw (order_by-ascending (f r) rs (ground arith)) (insert_by-ascending r rs (ground arith))

module _ {A : Type 0} where
  pub select_all-append :
      (p : A → Bool) (rs : List A) (a : A)
      → select_all p (rs ++ a ∷ []) ≡ select_all p rs ++ (if p a then a ∷ [] else [])
  unfolding select_all
  select_all-append p [] a = ground arith
  select_all-append p (r ∷ rs) a = elim (Bool-cases (p r)) [
    | inl e ↦ rw (e, select_all-append p rs a) refl
    | inr e ↦ rw (e, select_all-append p rs a) refl
  ]

  -- Two conditions select what the second selects of what the first selects.
  pub select_all-and :
      (p q : A → Bool) (rs : List A)
      → select_all (λ r. p r && q r) rs ≡ select_all q (select_all p rs)
  unfolding select_all
  select_all-and p q [] = refl
  select_all-and p q (r ∷ rs) = elim (Bool-cases (p r)) [
    | inl e ↦ rw (e, select_all-and p q rs) refl
    | inr e ↦ rw (e, select_all-and p q rs) refl
  ]

  pub max_where-select_all :
      (p : A → Bool) (f : A → ℕ) (rs : List A)
      → max_where p f rs ≡ max_where (λ r. true) f (select_all p rs)
  unfolding max_where select_all
  max_where-select_all p f [] = refl
  max_where-select_all p f (r ∷ rs) = elim (Bool-cases (p r)) [
    | inl e ↦ rw (e, max_where-select_all p f rs) refl
    | inr e ↦ rw (e, max_where-select_all p f rs) refl
  ]

  exists_where-insert_by :
      (p : A → Bool) (f : A → ℕ) (a : A) (rs : List A)
      → exists_where p (insert_by f a rs) ≡ (p a || exists_where p rs)
  unfolding exists_where insert_by
  exists_where-insert_by p f a [] = refl
  exists_where-insert_by p f a (r ∷ rs) = elim (Bool-cases (leb (f a) (f r))) [
    | inl e ↦ rw e refl
    | inr e ↦ rw (e, exists_where-insert_by p f a rs) (or_swap (p r) (p a) (exists_where p rs))
  ]

  -- Sorting does not change what exists.
  pub exists_where-order_by :
      (p : A → Bool) (f : A → ℕ) (rs : List A) → exists_where p (order_by f rs) ≡ exists_where p rs
  unfolding exists_where order_by
  exists_where-order_by p f [] = refl
  exists_where-order_by p f (r ∷ rs) =
      rw (exists_where-insert_by p f r (order_by f rs), exists_where-order_by p f rs) refl

  pub exists_where-select_all :
      (p q : A → Bool) (rs : List A)
      → exists_where q (select_all p rs) ≡ exists_where (λ r. p r && q r) rs
  unfolding exists_where select_all
  exists_where-select_all p q [] = refl
  exists_where-select_all p q (r ∷ rs) = elim (Bool-cases (p r)) [
    | inl e ↦ rw (e, exists_where-select_all p q rs) refl
    | inr e ↦ rw (e, exists_where-select_all p q rs) refl
  ]

  -- There are rows to update just if one exists, where both conditions agree up to a constant.
  pub count_where-exists :
      (p q : A → Bool) (b : Bool) (rs : List A)
      → ((r : A) → p r ≡ (q r && b))
      → (0 < count_where p rs) ↔ ((exists_where q rs && b) ≡ true)
  unfolding exists_where count_where
  count_where-exists p q b [] h = ground arith
  count_where-exists p q b (r ∷ rs) h = ground (arith, h r, count_where-exists p q b rs h)

  pub select_all_none :
      (p : A → Bool) (rs : List A) → exists_where p rs ≡ false → select_all p rs ≡ []
  unfolding exists_where select_all
  select_all_none p [] h = refl
  select_all_none p (r ∷ rs) h = ground (arith, h, select_all_none p rs)

  -- No row is beyond the maximum.
  pub max_where_exceeded :
      (p : A → Bool) (f : A → ℕ) (m : ℕ) (rs : List A)
      → max_where p f rs ≤ m
      → exists_where (λ r. p r && ltb m (f r)) rs ≡ false
  unfolding exists_where max_where
  max_where_exceeded p f m [] h = refl
  max_where_exceeded p f m (r ∷ rs) h = ground (arith, h, max_where_exceeded p f m rs)
