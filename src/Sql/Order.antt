-- ===== src/Sql/Order.antt =====
-- ORDER BY a number. Rows of equal numbers stay in the order of insertion.
use claude_backup.Prelude.{ℕ, List, [], ◌∷◌, leb, if◌then◌else◌}

module _ {ℓ} {A : Type ℓ} (column : A → ℕ) where
  unfoldable pub insert_sorted : A → List A → List A
  insert_sorted r [] = r ∷ []
  insert_sorted r (x ∷ xs) =
      let rest = insert_sorted r xs in if leb (column r) (column x) then r ∷ x ∷ xs else x ∷ rest

  unfoldable pub order_by : List A → List A
  unfolding insert_sorted
  order_by [] = []
  order_by (r ∷ rs) = insert_sorted r (order_by rs)
