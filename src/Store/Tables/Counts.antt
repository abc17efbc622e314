-- ===== src/Store/Tables/Counts.antt =====
-- Counting rows over INSERT and DELETE, for uniqueness and for foreign keys.
use aether_relay.Prelude.{
  Bool-cases, ◌≤◌, ◌≡◌, refl, inl, inr, Bool, true, false, List, [], ◌∷◌, arith,
}
use aether_relay.Store.Tables.{delete_where, count_where, insert}
use aether_relay.Store.Tables.Laws.{count_where-insert, count_where-delete-le}

module _ {ℓ} {A : Type ℓ} (q : A → Bool) where
  pub insert_unique :
      (x : A) (xs : List A)
      → (q x ≡ true → count_where q xs ≡ 0)
      → count_where q xs ≤ 1
      → count_where q (insert x xs) ≤ 1
  insert_unique x xs fresh h = elim (Bool-cases (q x)) [
    | inl fits ↦ rw (count_where-insert q x xs, fits, fresh fits) (omega arith)
    | inr other ↦ rw (count_where-insert q x xs, other) h
  ]

  pub insert_other :
      (x : A) (xs : List A) → q x ≡ false → count_where q xs ≡ 0 → count_where q (insert x xs) ≡ 0
  insert_other x xs other h = rw (count_where-insert q x xs, other) h

  pub before_insert : (x : A) (xs : List A) → count_where q (insert x xs) ≡ 0 → count_where q xs ≡ 0
  before_insert x xs h = elim (Bool-cases (q x)) [
    | inl fits ↦ ground (arith, count_where-insert q x xs)
    | inr other ↦ ground (arith, count_where-insert q x xs)
  ]

  pub delete_none :
      (p : A → Bool) (xs : List A) → count_where q xs ≡ 0 → count_where q (delete_where p xs) ≡ 0
  delete_none p xs h = omega (arith, count_where-delete-le p q xs)

  pub delete_unique :
      (p : A → Bool) (xs : List A) → count_where q xs ≤ 1 → count_where q (delete_where p xs) ≤ 1
  delete_unique p xs h = omega (arith, count_where-delete-le p q xs)

  pub delete_covered :
      (p : A → Bool) (xs : List A)
      → ((x : A) → q x ≡ true → p x ≡ true)
      → count_where q (delete_where p xs) ≡ 0
  unfolding count_where delete_where
  delete_covered p [] h = refl
  delete_covered p (x ∷ xs) h = ground (arith, h x, delete_covered p xs h)
