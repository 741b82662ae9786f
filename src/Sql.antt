-- ===== src/Sql.antt =====
-- The fragment of SQL that src/state.rs sends to SQLite, over a table as the list of its rows in
-- rowid order: an insert goes to the end.
use coterie.Prelude.{
  ℕ, suc, max, Bool, true, false, ◌||◌, Option, none, some, List, [], ◌∷◌, if◌then◌else◌, leb,
}
pub mod Laws
pub mod Exists
pub mod Order

module _ {ℓ} {A : Type ℓ} where
  -- `SELECT … WHERE p`, read with `query_row(…).optional()`.
  unfoldable pub select_first : (A → Bool) → List A → Option A
  select_first p [] = none
  select_first p (r ∷ rs) = if p r then some r else select_first p rs

  -- `SELECT … WHERE p` into a `Vec`.
  unfoldable pub select_all : (A → Bool) → List A → List A
  select_all p [] = []
  select_all p (r ∷ rs) = let rest = select_all p rs in if p r then r ∷ rest else rest

  -- `SELECT EXISTS (SELECT 1 … WHERE p)`.
  unfoldable pub exists_where : (A → Bool) → List A → Bool
  exists_where p [] = false
  exists_where p (r ∷ rs) = p r || exists_where p rs

  -- The number of rows that `UPDATE … WHERE p` changes.
  unfoldable pub count_where : (A → Bool) → List A → ℕ
  count_where p [] = 0
  count_where p (r ∷ rs) = let rest = count_where p rs in if p r then suc rest else rest

  -- `UPDATE … SET f WHERE p`.
  unfoldable pub update_where : (A → Bool) → (A → A) → List A → List A
  update_where p f [] = []
  update_where p f (r ∷ rs) = (if p r then f r else r) ∷ update_where p f rs

  -- `SELECT COALESCE(MAX(f), 0) … WHERE p`.
  unfoldable pub max_where : (A → Bool) → (A → ℕ) → List A → ℕ
  max_where p f [] = 0
  max_where p f (r ∷ rs) = let rest = max_where p f rs in if p r then max (f r) rest else rest

  insert_by : (A → ℕ) → A → List A → List A
  insert_by f a [] = a ∷ []
  insert_by f a (r ∷ rs) =
      let rest = insert_by f a rs in if leb (f a) (f r) then a ∷ r ∷ rs else r ∷ rest

  -- `SELECT … ORDER BY f, rowid`: a stable sort.
  unfoldable pub order_by : (A → ℕ) → List A → List A
  unfolding insert_by
  order_by f [] = []
  order_by f (r ∷ rs) = insert_by f r (order_by f rs)

  latest : (A → ℕ) → A → Option A → A
  latest f r none = r
  latest f r (some best) = if leb (f r) (f best) then best else r

  -- `SELECT … WHERE p ORDER BY f DESC, rowid DESC LIMIT 1`: of rows with one value of `f` the last.
  unfoldable pub select_latest : (A → Bool) → (A → ℕ) → List A → Option A
  unfolding latest
  select_latest p f [] = none
  select_latest p f (r ∷ rs) =
      let rest = select_latest p f rs in if p r then some (latest f r rest) else rest
