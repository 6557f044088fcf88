-- ===== src/Sql/Members.antt =====
-- The rows of a table as members of a list, through the queries.
use mathlib.Core.List.{reverse-cons}
use mathlib.Core.Path.{subst}
use claude_backup.Prelude.{
  ℕ, leb, ◌≡◌, refl, Bool, true, ◌⊎◌, inl, inr, List, [], ◌∷◌, ◌++◌, reverse, Bool-cases,
}
use claude_backup.Sql.{select}
use claude_backup.Sql.Order.{insert_sorted, order_by}

module _ {A : Type 0} where
  abbrev pub In : A → List A → Type 0
  In r [] = ⊥
  In r (x ∷ xs) = (r ≡ x) ⊎ In r xs

  pub In-append_left : (r : A) (xs ys : List A) → In r xs → In r (xs ++ ys)
  In-append_left r [] ys h = absurd h
  In-append_left r (x ∷ xs) ys (inl e) = inl e
  In-append_left r (x ∷ xs) ys (inr h) = inr (In-append_left r xs ys h)

  pub In-append_right : (r : A) (xs ys : List A) → In r ys → In r (xs ++ ys)
  In-append_right r [] ys h = h
  In-append_right r (x ∷ xs) ys h = inr (In-append_right r xs ys h)

  pub In-reverse : (r : A) (xs : List A) → In r xs → In r (reverse xs)
  In-reverse r [] h = absurd h
  In-reverse r (x ∷ xs) (inl e) =
      rw (reverse-cons x xs) (In-append_right r (reverse xs) (x ∷ []) (inl e))
  In-reverse r (x ∷ xs) (inr h) =
      rw (reverse-cons x xs) (In-append_left r (reverse xs) (x ∷ []) (In-reverse r xs h))

  pub In-select : (p : A → Bool) (r : A) (xs : List A) → p r ≡ true → In r xs → In r (select p xs)
  unfolding select
  In-select p r [] e h = h
  In-select p r (x ∷ xs) e (inl same) = rw (subst (λ y. p y ≡ true) same e) (inl same)
  In-select p r (x ∷ xs) e (inr h) = elim (Bool-cases (p x)) [
    | inl t ↦ rw t (inr (In-select p r xs e h))
    | inr f ↦ rw f (In-select p r xs e h)
  ]

  module _ (column : A → ℕ) where
    In-insert_sorted_self : (r : A) (xs : List A) → In r (insert_sorted column r xs)
    unfolding insert_sorted
    In-insert_sorted_self r [] = inl refl
    In-insert_sorted_self r (x ∷ xs) = elim (Bool-cases (leb (column r) (column x))) [
      | inl t ↦ rw t (inl refl)
      | inr f ↦ rw f (inr (In-insert_sorted_self r xs))
    ]

    In-insert_sorted : (r s : A) (xs : List A) → In r xs → In r (insert_sorted column s xs)
    unfolding insert_sorted
    In-insert_sorted r s [] h = absurd h
    In-insert_sorted r s (x ∷ xs) h = elim (Bool-cases (leb (column s) (column x))) [
      | inl t ↦ rw t (inr h)
      | inr f ↦ rw f (In-later r s x xs h (In-insert_sorted r s xs))
    ]
      where
        In-later :
            (r s x : A) (xs : List A)
            → In r (x ∷ xs)
            → (In r xs → In r (insert_sorted column s xs))
            → In r (x ∷ insert_sorted column s xs)
        In-later r s x xs (inl e) f = inl e
        In-later r s x xs (inr m) f = inr (f m)

    pub In-order_by : (r : A) (xs : List A) → In r xs → In r (order_by column xs)
    unfolding order_by
    In-order_by r [] h = h
    In-order_by r (x ∷ xs) (inl e) = rw e (In-insert_sorted_self x (order_by column xs))
    In-order_by r (x ∷ xs) (inr h) = In-insert_sorted r x (order_by column xs) (In-order_by r xs h)
