-- ===== src/Store/Tables/Every.antt =====
-- What holds of every row, over INSERT, DELETE and UPDATE.
use aether_relay.Prelude.{Bool-cases, All, inl, inr, Bool, List, [], ◌∷◌}
use aether_relay.Store.Tables.{update_where, delete_where, insert}

module _ {ℓ} {A : Type ℓ} (P : A → Type 0) where
  pub All-insert : (x : A) (xs : List A) → P x → All P xs → All P (insert x xs)
  All-insert x [] p h = (p, tt)
  All-insert x (y ∷ xs) p (q, h) = (q, All-insert x xs p h)

  pub All-delete : (p : A → Bool) (xs : List A) → All P xs → All P (delete_where p xs)
  unfolding delete_where
  All-delete p [] h = tt
  All-delete p (x ∷ xs) (q, h) = elim (Bool-cases (p x)) [
    | inl gone ↦ rw gone (All-delete p xs h)
    | inr kept ↦ rw kept (q, All-delete p xs h)
  ]

  pub All-update :
      (p : A → Bool) (f : A → A) (xs : List A)
      → ((x : A) → P (f x))
      → All P xs
      → All P (update_where p f xs)
  unfolding update_where
  All-update p f [] good h = tt
  All-update p f (x ∷ xs) good (q, h) = elim (Bool-cases (p x)) [
    | inl changed ↦ rw changed (good x, All-update p f xs good h)
    | inr kept ↦ rw kept (q, All-update p f xs good h)
  ]
