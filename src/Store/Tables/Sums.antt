-- ===== src/Store/Tables/Sums.antt =====
-- Sums over the rows that fit a test, for measures of a table.
use aether_relay.Prelude.{
  if◌then◌else◌, Bool-cases, ℕ, suc, ◌+◌, ◌*◌, ◌≤◌, ◌≡◌, refl, inl, inr, Bool, true, not, ◌&&◌,
  List, [], ◌∷◌, arith,
}
use aether_relay.Store.Tables.{update_where, count_where}

suc_times : (c n : ℕ) → n + c * n ≡ suc c * n
suc_times c n = grind arith

module _ {ℓ} {A : Type ℓ} where
  unfoldable pub sum_where : (A → Bool) → (A → ℕ) → List A → ℕ
  sum_where q g [] = 0
  sum_where q g (x ∷ xs) = (if q x then g x else 0) + sum_where q g xs

  -- The rows that fit `p`, and the others.
  pub sum_where_split :
      (p q : A → Bool) (g : A → ℕ) (xs : List A)
      → sum_where q g xs ≡ sum_where (λ x. q x && not (p x)) g xs + sum_where (λ x. q x && p x) g xs
  unfolding sum_where
  sum_where_split p q g [] = refl
  sum_where_split p q g (x ∷ xs) = ground (arith, sum_where_split p q g xs)

  pub sum_where_const :
      (q : A → Bool) (g : A → ℕ) (n : ℕ) (xs : List A)
      → ((x : A) → q x ≡ true → g x ≡ n)
      → sum_where q g xs ≡ count_where q xs * n
  unfolding sum_where count_where
  sum_where_const q g n [] h = omega arith
  sum_where_const q g n (x ∷ xs) h = elim (Bool-cases (q x)) [
    | inl fits ↦ rw (fits, h x fits, sum_where_const q g n xs h) (suc_times (count_where q xs) n)
    | inr other ↦ rw other (omega (arith, sum_where_const q g n xs h))
  ]

  pub sum_where_mono :
      (q : A → Bool) (g h : A → ℕ) (xs : List A)
      → ((x : A) → g x ≤ h x)
      → sum_where q g xs ≤ sum_where q h xs
  unfolding sum_where
  sum_where_mono q g h [] below = omega arith
  sum_where_mono q g h (x ∷ xs) below = ground (arith, below x, sum_where_mono q g h xs below)

  -- An update that leaves alone what the sum reads of the rows that it changes.
  pub sum_where-update_kept :
      (p q : A → Bool) (f : A → A) (g : A → ℕ) (xs : List A)
      → ((x : A) → p x ≡ true → q (f x) ≡ q x)
      → ((x : A) → g (f x) ≡ g x)
      → sum_where q g (update_where p f xs) ≡ sum_where q g xs
  unfolding sum_where update_where
  sum_where-update_kept p q f g [] h k = refl
  sum_where-update_kept p q f g (x ∷ xs) h k =
      ground (arith, h x, k x, sum_where-update_kept p q f g xs h k)
