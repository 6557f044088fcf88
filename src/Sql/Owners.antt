-- ===== src/Sql/Owners.antt =====
-- Rows that belong to an agent: what a statement on one agent's row does to the others' rows.
use claude_backup.Prelude.{Text, text_eq, ◌≡◌, Bool, true, not, some, List, arith}
use claude_backup.Sql.{select, first, modify, delete}
use claude_backup.Sql.Keys.{All, All-map, Unique, by, first-Unique, select-modify, select-delete}

abbrev pub foreign {ℓ} : {A : Type ℓ} → (A → Text) → Text → A → Bool
foreign owner a r = not (text_eq (owner r) a)

module _ {ℓ} {A : Type ℓ} (key owner : A → Text) where
  -- The row with a key belongs to the agent, if there is one.
  abbrev pub OwnedBy : Text → Text → List A → Type 0
  OwnedBy a k rows = All (λ r. by key k r ≡ true → text_eq (owner r) a ≡ true) rows

  pub first-OwnedBy :
      (a k : Text) (rows : List A) {r : A}
      → Unique key rows
      → first (by key k) rows ≡ some r
      → text_eq (owner r) a ≡ true
      → OwnedBy a k rows
  first-OwnedBy a k rows {r} u h o =
      All-map rows (λ x same m. cc (same m)) (first-Unique key k rows u h)

  pub foreign-modify :
      (a k : Text) (f : A → A) (rows : List A)
      → ((r : A) → owner (f r) ≡ owner r)
      → OwnedBy a k rows
      → select (foreign owner a) (modify (by key k) f rows) ≡ select (foreign owner a) rows
  foreign-modify a k f rows same o =
      select-modify (foreign owner a) (by key k) f rows
        (All-map rows (λ r own m. (ground (arith, own m), ground (arith, own m, same r))) o)

  pub foreign-delete :
      (a k : Text) (rows : List A)
      → OwnedBy a k rows
      → select (foreign owner a) (delete (by key k) rows) ≡ select (foreign owner a) rows
  foreign-delete a k rows o =
      select-delete (foreign owner a) (by key k) rows
        (All-map rows (λ r own m. ground (arith, own m)) o)

  -- An update that hands the agent's row to the agent again.
  pub foreign-modify_to :
      (a k : Text) (f : A → A) (rows : List A)
      → ((r : A) → text_eq (owner (f r)) a ≡ true)
      → OwnedBy a k rows
      → select (foreign owner a) (modify (by key k) f rows) ≡ select (foreign owner a) rows
  foreign-modify_to a k f rows mine o =
      select-modify (foreign owner a) (by key k) f rows
        (All-map rows (λ r own m. (ground (arith, own m), ground (arith, mine r))) o)
