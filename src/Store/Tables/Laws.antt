-- ===== src/Store/Tables/Laws.antt =====
-- Counting, finding, updating and deleting rows.

use mathlib.Core.Option.{some-injective}
use aether_relay.Prelude.{
  if◌then◌else◌, Bool-cases, Option-cases, All, All-map, suc, ◌+◌, ◌≤◌, ◌<◌, ◌≡◌, refl, ap, subst,
  ◌↔◌, inl, inr, Bool, true, false, not, ◌&&◌, none, some, List, [], ◌∷◌, ◌++◌, arith,
}
use aether_relay.Store.Tables.{
  select_where, update_where, delete_where, count_where, insert, earlier, first_where,
}

module _ {ℓ} {A : Type ℓ} where
  pub count_where-insert :
      (p : A → Bool) (x : A) (xs : List A)
      → count_where p (insert x xs) ≡ (if p x then suc (count_where p xs) else count_where p xs)
  unfolding count_where
  count_where-insert p x [] = ground arith
  count_where-insert p x (y ∷ xs) = ground (arith, count_where-insert p x xs)

  pub count_where_of_select_none :
      (p : A → Bool) (xs : List A) → select_where p xs ≡ none → count_where p xs ≡ 0
  unfolding count_where select_where
  count_where_of_select_none p [] h = refl
  count_where_of_select_none p (x ∷ xs) h = ground (arith, count_where_of_select_none p xs)

  pub count_where_of_select_some :
      (p : A → Bool) (xs : List A) (y : A) → select_where p xs ≡ some y → 0 < count_where p xs
  unfolding count_where select_where
  count_where_of_select_some p [] y h = cc
  count_where_of_select_some p (x ∷ xs) y h = ground (arith, count_where_of_select_some p xs y)

  -- A row that is inserted is found by what no other row fits.
  pub select_where-insert :
      (p : A → Bool) (x : A) (xs : List A)
      → select_where p xs ≡ none
      → p x ≡ true
      → select_where p (insert x xs) ≡ some x
  unfolding select_where
  select_where-insert p x [] h k = ground arith
  select_where-insert p x (y ∷ xs) h k = ground (arith, select_where-insert p x xs)

  pub select_where_sound :
      (p : A → Bool) (xs : List A) (y : A) → select_where p xs ≡ some y → p y ≡ true
  unfolding select_where
  select_where_sound p [] y h = cc
  select_where_sound p (x ∷ xs) y h = ground (arith, select_where_sound p xs y)

  -- A row that is found with `p` is one of the rows that `q` counts, if it fits `q`.
  pub select_where_counted :
      (p q : A → Bool) (xs : List A) (y : A)
      → select_where p xs ≡ some y
      → q y ≡ true
      → 0 < count_where q xs
  unfolding select_where count_where
  select_where_counted p q [] y h k = cc
  select_where_counted p q (x ∷ xs) y h k = ground (arith, select_where_counted p q xs y)

  -- An update that does not change what `q` tests changes no count of `q`.
  pub count_where-update_same :
      (p q : A → Bool) (f : A → A) (xs : List A)
      → ((x : A) → q (f x) ≡ q x)
      → count_where q (update_where p f xs) ≡ count_where q xs
  unfolding count_where update_where
  count_where-update_same p q f [] h = refl
  count_where-update_same p q f (x ∷ xs) h = ground (arith, h x, count_where-update_same p q f xs h)

  -- It is enough that this holds of the rows that are updated.
  pub count_where-update_kept :
      (p q : A → Bool) (f : A → A) (xs : List A)
      → ((x : A) → p x ≡ true → q (f x) ≡ q x)
      → count_where q (update_where p f xs) ≡ count_where q xs
  unfolding count_where update_where
  count_where-update_kept p q f [] h = refl
  count_where-update_kept p q f (x ∷ xs) h = ground (arith, h x, count_where-update_kept p q f xs h)

  -- After the update of the rows that fit `p`, what fits `q` did so before, outside `p`.
  pub count_where-update_left :
      (p q : A → Bool) (f : A → A) (xs : List A)
      → ((x : A) → p x ≡ true → q (f x) ≡ false)
      → count_where q (update_where p f xs) ≡ count_where (λ x. q x && not (p x)) xs
  unfolding count_where update_where
  count_where-update_left p q f [] h = refl
  count_where-update_left p q f (x ∷ xs) h = ground (arith, h x, count_where-update_left p q f xs h)

  pub count_where-delete-le :
      (p q : A → Bool) (xs : List A) → count_where q (delete_where p xs) ≤ count_where q xs
  unfolding count_where delete_where
  count_where-delete-le p q [] = omega arith
  count_where-delete-le p q (x ∷ xs) = ground (arith, count_where-delete-le p q xs)

  -- Nothing that fits `p` is left.
  pub count_where-delete_self : (p : A → Bool) (xs : List A) → count_where p (delete_where p xs) ≡ 0
  unfolding count_where delete_where
  count_where-delete_self p [] = refl
  count_where-delete_self p (x ∷ xs) = ground (arith, count_where-delete_self p xs)

  -- What fits `q` and not `p` stays.
  pub count_where-delete_other :
      (p q : A → Bool) (xs : List A)
      → ((x : A) → q x ≡ true → p x ≡ false)
      → count_where q (delete_where p xs) ≡ count_where q xs
  unfolding count_where delete_where
  count_where-delete_other p q [] h = refl
  count_where-delete_other p q (x ∷ xs) h = ground (arith, h x, count_where-delete_other p q xs h)

  pub count_where_mono :
      (p q : A → Bool) (xs : List A)
      → ((x : A) → p x ≡ true → q x ≡ true)
      → count_where p xs ≤ count_where q xs
  unfolding count_where
  count_where_mono p q [] h = omega arith
  count_where_mono p q (x ∷ xs) h = ground (arith, h x, count_where_mono p q xs h)

  -- Where a row fits `q` it is left behind a deletion, or it fits both tests.
  pub count_where_split :
      (p q : A → Bool) (xs : List A)
      → count_where q xs ≡ count_where q (delete_where p xs) + count_where (λ x. p x && q x) xs
  unfolding count_where delete_where
  count_where_split p q [] = refl
  count_where_split p q (x ∷ xs) = ground (arith, count_where_split p q xs)

  -- An update after which no row that it changed fits `p` leaves none that does.
  pub count_where-update_out :
      (p : A → Bool) (f : A → A) (xs : List A)
      → ((x : A) → p (f x) ≡ false)
      → count_where p (update_where p f xs) ≡ 0
  unfolding count_where update_where
  count_where-update_out p f [] h = refl
  count_where-update_out p f (x ∷ xs) h = ground (arith, h x, count_where-update_out p f xs h)

  -- The same where `p` needs what the update tests.
  pub count_where-update_none :
      (p q : A → Bool) (f : A → A) (xs : List A)
      → ((x : A) → p x ≡ true → q (f x) ≡ false)
      → ((x : A) → p x ≡ false → q x ≡ false)
      → count_where q (update_where p f xs) ≡ 0
  unfolding count_where update_where
  count_where-update_none p q f [] h k = refl
  count_where-update_none p q f (x ∷ xs) h k =
      ground (arith, h x, k x, count_where-update_none p q f xs h k)

  pub first_where_counted :
      (le : A → A → Bool) (p q : A → Bool) (xs : List A) (y : A)
      → first_where le p xs ≡ some y
      → q y ≡ true
      → 0 < count_where (λ x. p x && q x) xs
  unfolding first_where count_where
  first_where_counted le p q [] y h k = cc
  first_where_counted le p q (x ∷ xs) y h k = ground (arith, first_where_counted le p q xs y)

module _ {ℓ} {A : Type ℓ} (le : A → A → Bool) (p : A → Bool) where
  pub first_where-none_iff : (xs : List A) → (first_where le p xs ≡ none) ↔ (count_where p xs ≡ 0)
  unfolding first_where count_where
  first_where-none_iff [] = ground arith
  first_where-none_iff (x ∷ xs) = ground (arith, first_where-none_iff xs)

  pub first_where_sound : (xs : List A) (y : A) → first_where le p xs ≡ some y → p y ≡ true
  unfolding first_where
  first_where_sound [] y h = cc
  first_where_sound (x ∷ xs) y h = ground (arith, first_where_sound xs y)

  -- The row is one of the table.
  abbrev pub StandsIn : A → List A → Type ℓ
  StandsIn y xs = (before : List A) × (after : List A) × (xs ≡ before ++ y ∷ after)

  behind : (x y : A) (xs : List A) → StandsIn y xs → StandsIn y (x ∷ xs)
  behind x y xs (before, after, same) = (x ∷ before, after, ap (λ (rest : List A). x ∷ rest) same)

  pub first_where_stands : (xs : List A) (y : A) → first_where le p xs ≡ some y → StandsIn y xs
  unfolding first_where
  first_where_stands [] y h = absurd (cc h)
  first_where_stands (x ∷ xs) y h = elim (Bool-cases (p x)) [
    | inl fits ↦ elim (Option-cases (first_where le p xs)) [
      | inl alone ↦
          let is_first : x ≡ y = some-injective _ _ (rw (fits, alone) at h) in
          subst (λ u. StandsIn u (x ∷ xs)) is_first ([], xs, refl)
      | inr (z, found) ↦ elim (Bool-cases (le x z)) [
        | inl first ↦
            let is_first : x ≡ y = some-injective _ _ (rw (fits, found, first) at h) in
            subst (λ u. StandsIn u (x ∷ xs)) is_first ([], xs, refl)
        | inr later ↦
            let is_later : z ≡ y = some-injective _ _ (rw (fits, found, later) at h) in
            behind x y xs (subst (λ u. StandsIn u xs) is_later (first_where_stands xs z found))
      ]
    ]
    | inr fails ↦ behind x y xs (first_where_stands xs y (rw fails at h))
  ]

  abbrev pub AllAfter : A → List A → Type 0
  AllAfter y xs = All (λ x. p x ≡ true → le y x ≡ true) xs

  first_where-none : (y : A) (xs : List A) → first_where le p xs ≡ none → AllAfter y xs
  unfolding first_where
  first_where-none y [] h = tt
  first_where-none y (x ∷ xs) h = elim (Bool-cases (p x)) [
    | inl fits ↦ absurd (cc (rw fits at h))
    | inr fails ↦ (λ fits. cc (fits, fails), first_where-none y xs (rw fails at h))
  ]

  module _ (total : (x y : A) → le x y ≡ false → le y x ≡ true)
      (trans : (x y z : A) → le x y ≡ true → le y z ≡ true → le x z ≡ true) where
    refl_of_total : (x : A) → le x x ≡ true
    refl_of_total x = elim (Bool-cases (le x x)) [ inl e ↦ e | inr e ↦ total x x e ]

    earlier_least :
        (x y z : A) (xs : List A) → AllAfter z xs → earlier le x (some z) ≡ y → AllAfter y (x ∷ xs)
    earlier_least x y z xs after h = elim (Bool-cases (le x z)) [
      | inl first ↦
          subst (λ u. AllAfter u (x ∷ xs)) (rw first at h)
            (
              λ _. refl_of_total x,
              All-map _ _ xs (λ u keeps fits. trans x z u first (keeps fits)) after,
            )
      | inr later ↦ subst (λ u. AllAfter u (x ∷ xs)) (rw later at h) (λ _. total x z later, after)
    ]

    -- The row that is found comes before every row that fits.
    pub first_where_least : (xs : List A) (y : A) → first_where le p xs ≡ some y → AllAfter y xs
    unfolding first_where
    first_where_least [] y h = tt
    first_where_least (x ∷ xs) y h = elim (Bool-cases (p x)) [
      | inl fits ↦ elim (Option-cases (first_where le p xs)) [
        | inl alone ↦
            let is_first : x ≡ y = some-injective _ _ (rw (fits, alone) at h) in
            subst (λ u. AllAfter u (x ∷ xs)) is_first
              (λ _. refl_of_total x, first_where-none x xs alone)
        | inr (z, found) ↦
            earlier_least x y z xs (first_where_least xs z found)
              (some-injective _ _ (rw (fits, found) at h))
      ]
      | inr fails ↦ (λ fits. cc (fits, fails), first_where_least xs y (rw fails at h))
    ]
