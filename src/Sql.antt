-- ===== src/Sql.antt =====
-- The SQL statements that internal/server/store sends to its database, over a table as the list
-- of its rows in the order of their insertion (the order of `rowid`).
pub mod Keys
pub mod Sorted
pub mod Members
pub mod Owners
pub mod Order
use claude_backup.Prelude.{
  Text, text_eq, Bool, true, Option, none, some, List, [], ◌∷◌, if◌then◌else◌,
}

module _ {ℓ} {A : Type ℓ} where
  -- SELECT … WHERE p
  unfoldable pub select : (A → Bool) → List A → List A
  select p [] = []
  select p (r ∷ rs) = let rest = select p rs in if p r then r ∷ rest else rest

  -- The row that `QueryRow` scans; `none` is `sql.ErrNoRows`.
  unfoldable pub first : (A → Bool) → List A → Option A
  first p [] = none
  first p (r ∷ rs) = if p r then some r else first p rs

  -- UPDATE … SET f WHERE p
  unfoldable pub modify : (A → Bool) → (A → A) → List A → List A
  modify p f [] = []
  modify p f (r ∷ rs) = (if p r then f r else r) ∷ modify p f rs

  -- DELETE … WHERE p
  unfoldable pub delete : (A → Bool) → List A → List A
  delete p [] = []
  delete p (r ∷ rs) = let rest = delete p rs in if p r then rest else r ∷ rest

-- A condition `column = ?` that the query has only where the argument is not empty.
abbrev pub given : Text → Text → Bool
given [] column = true
given (c ∷ cs) column = text_eq column (c ∷ cs)
