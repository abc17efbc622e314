-- ===== src/Store/Tables/Order.antt =====
-- ORDER BY … DESC gives the rows of the table, the ones with the largest keys first.
use aether_relay.Prelude.{
  ltb, Bool-cases, All, All-map, ℕ, ◌≤◌, ◌≡◌, refl, inl, inr, Bool, List, [], ◌∷◌, arith,
}
use aether_relay.Store.Tables.{count_where, insert_desc, order_by_desc}

module _ {A : Type 0} (key : A → ℕ) where
  -- No row has a larger key than one before it.
  abbrev pub IsDescending : List A → Type 0
  IsDescending [] = Unit
  IsDescending (x ∷ xs) = All (λ y. key y ≤ key x) xs × IsDescending xs

  insert_desc-All :
      (n : ℕ) (x : A) (xs : List A)
      → key x ≤ n
      → All (λ y. key y ≤ n) xs
      → All (λ y. key y ≤ n) (insert_desc key x xs)
  unfolding insert_desc
  insert_desc-All n x [] h hs = (h, tt)
  insert_desc-All n x (y ∷ ys) h (hy, hs) = elim (Bool-cases (ltb (key x) (key y))) [
    | inl less ↦ rw less (hy, insert_desc-All n x ys h hs)
    | inr not_less ↦ rw not_less (h, (hy, hs))
  ]

  insert_desc-IsDescending :
      (x : A) (xs : List A) → IsDescending xs → IsDescending (insert_desc key x xs)
  unfolding insert_desc
  insert_desc-IsDescending x [] h = (tt, tt)
  insert_desc-IsDescending x (y ∷ ys) (first, rest) = elim (Bool-cases (ltb (key x) (key y))) [
    | inl less ↦
        rw less
          (insert_desc-All (key y) x ys (ground arith) first, insert_desc-IsDescending x ys rest)
    | inr not_less ↦ rw not_less (
      (
        ground arith,
        All-map (λ z. key z ≤ key y) (λ z. key z ≤ key x) ys (λ z h. ground arith) first,
      ),
      (first, rest),
    )
  ]

  pub order_by_desc-IsDescending : (xs : List A) → IsDescending (order_by_desc key xs)
  unfolding order_by_desc
  order_by_desc-IsDescending [] = tt
  order_by_desc-IsDescending (x ∷ xs) =
      insert_desc-IsDescending x (order_by_desc key xs) (order_by_desc-IsDescending xs)

  count_where-insert_desc :
      (q : A → Bool) (x : A) (xs : List A)
      → count_where q (insert_desc key x xs) ≡ count_where q (x ∷ xs)
  unfolding insert_desc count_where
  count_where-insert_desc q x [] = refl
  count_where-insert_desc q x (y ∷ ys) = ground (arith, count_where-insert_desc q x ys)

  pub count_where-order_by_desc :
      (q : A → Bool) (xs : List A) → count_where q (order_by_desc key xs) ≡ count_where q xs
  unfolding order_by_desc count_where
  count_where-order_by_desc q [] = refl
  count_where-order_by_desc q (x ∷ xs) =
      ground
        (arith, count_where-insert_desc q x (order_by_desc key xs), count_where-order_by_desc q xs)
