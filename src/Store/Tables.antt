-- ===== src/Store/Tables.antt =====
-- SELECT, UPDATE and DELETE with a WHERE clause, over a table as the list of its rows.
pub mod Laws
pub mod Counts
pub mod Sums
pub mod Every
pub mod Order
use aether_relay.Prelude.{ltb, if◌then◌else◌, ℕ, suc, Bool, Option, none, some, List, [], ◌∷◌, ◌++◌}

module _ {ℓ} {A : Type ℓ} where
  -- The row that `query_row` returns.
  unfoldable pub select_where : (A → Bool) → List A → Option A
  select_where p [] = none
  select_where p (x ∷ xs) = if p x then some x else select_where p xs

  unfoldable pub update_where : (A → Bool) → (A → A) → List A → List A
  update_where p f [] = []
  update_where p f (x ∷ xs) = (if p x then f x else x) ∷ update_where p f xs

  unfoldable pub delete_where : (A → Bool) → List A → List A
  delete_where p [] = []
  delete_where p (x ∷ xs) = let rest = delete_where p xs in if p x then rest else x ∷ rest

  unfoldable pub count_where : (A → Bool) → List A → ℕ
  count_where p [] = 0
  count_where p (x ∷ xs) = if p x then suc (count_where p xs) else count_where p xs

  -- INSERT puts a row at the end.
  abbrev pub insert : A → List A → List A
  insert x xs = xs ++ x ∷ []

  -- ORDER BY … LIMIT 1: of the rows that fit, the one that comes first.
  abbrev pub earlier : (A → A → Bool) → A → Option A → A
  earlier le x none = x
  earlier le x (some y) = if le x y then x else y

  unfoldable pub first_where : (A → A → Bool) → (A → Bool) → List A → Option A
  first_where le p [] = none
  first_where le p (x ∷ xs) =
      if p x then some (earlier le x (first_where le p xs)) else first_where le p xs

  -- ORDER BY … DESC. Rows with the same key stay in the order of the table.
  unfoldable pub insert_desc : (A → ℕ) → A → List A → List A
  insert_desc key x [] = x ∷ []
  insert_desc key x (y ∷ ys) =
      let rest = insert_desc key x ys in if ltb (key x) (key y) then y ∷ rest else x ∷ y ∷ ys

  unfoldable pub order_by_desc : (A → ℕ) → List A → List A
  order_by_desc key [] = []
  order_by_desc key (x ∷ xs) = insert_desc key x (order_by_desc key xs)
