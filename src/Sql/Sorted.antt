-- ===== src/Sql/Sorted.antt =====
-- The keys of rows through a query that selects and sorts.
use mathlib.Core.List.{reverse-cons}
use claude_backup.Prelude.{
  Text, text_eq_comm, ℕ, leb, ◌≡◌, refl, Bool, false, none, List, [], ◌∷◌, reverse, arith,
  Bool-cases, inl, inr,
}
use claude_backup.Sql.{select, first}
use claude_backup.Sql.Keys.{Unique, Unique-insert, by, first-append-none}
use claude_backup.Sql.Order.{insert_sorted, order_by}

module _ {A : Type 0} (key : A → Text) where
  first-select-none :
      (k : Text) (p : A → Bool) (rows : List A)
      → first (by key k) rows ≡ none
      → first (by key k) (select p rows) ≡ none
  unfolding first select
  first-select-none k p [] h = refl
  first-select-none k p (x ∷ xs) h = ground (arith, first-select-none k p xs)

  pub Unique-select : (p : A → Bool) (rows : List A) → Unique key rows → Unique key (select p rows)
  unfolding select
  Unique-select p [] u = tt
  Unique-select p (x ∷ xs) u = elim (Bool-cases (p x)) [
    | inl e ↦ rw e (first-select-none (key x) p xs u.0, Unique-select p xs u.1)
    | inr e ↦ rw e (Unique-select p xs u.1)
  ]

  module _ (column : A → ℕ) where
    first-insert_sorted-none :
        (k : Text) (r : A) (rows : List A)
        → by key k r ≡ false
        → first (by key k) rows ≡ none
        → first (by key k) (insert_sorted column r rows) ≡ none
    unfolding first insert_sorted
    first-insert_sorted-none k r [] d h = ground arith
    first-insert_sorted-none k r (x ∷ xs) d h = ground (arith, first-insert_sorted-none k r xs)

    first-order_by-none :
        (k : Text) (rows : List A)
        → first (by key k) rows ≡ none
        → first (by key k) (order_by column rows) ≡ none
    unfolding first order_by
    first-order_by-none k [] h = refl
    first-order_by-none k (x ∷ xs) h =
        first-insert_sorted-none k x (order_by column xs) (ground arith)
          (first-order_by-none k xs (ground arith))

    Unique-insert_sorted :
        (r : A) (rows : List A)
        → first (by key (key r)) rows ≡ none
        → Unique key rows
        → Unique key (insert_sorted column r rows)
    unfolding insert_sorted first
    Unique-insert_sorted r [] h u = (refl, tt)
    Unique-insert_sorted r (x ∷ xs) h u = elim (Bool-cases (leb (column r) (column x))) [
      | inl e ↦ rw e (h, u)
      | inr e ↦ rw e (
        first-insert_sorted-none (key x) r xs (ground (arith, text_eq_comm (key r) (key x))) u.0,
        Unique-insert_sorted r xs (ground arith) u.1,
      )
    ]

    pub Unique-order_by : (rows : List A) → Unique key rows → Unique key (order_by column rows)
    unfolding order_by
    Unique-order_by [] u = tt
    Unique-order_by (x ∷ xs) u =
        Unique-insert_sorted x (order_by column xs) (first-order_by-none (key x) xs u.0)
          (Unique-order_by xs u.1)

  first-reverse-none :
      (k : Text) (rows : List A)
      → first (by key k) rows ≡ none
      → first (by key k) (reverse rows) ≡ none
  unfolding first
  first-reverse-none k [] h = refl
  first-reverse-none k (x ∷ xs) h = rw (reverse-cons x xs) (
      first-append-none key k (reverse xs) x (first-reverse-none k xs (ground arith))
        (ground arith))

  pub Unique-reverse : (rows : List A) → Unique key rows → Unique key (reverse rows)
  Unique-reverse [] u = tt
  Unique-reverse (x ∷ xs) u =
      rw (reverse-cons x xs) (
        Unique-insert key (reverse xs) x (Unique-reverse xs u.1)
          (first-reverse-none (key x) xs u.0))
