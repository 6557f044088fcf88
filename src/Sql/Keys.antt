-- ===== src/Sql/Keys.antt =====
-- Tables with a primary key, and what a statement leaves alone.
use mathlib.Core.Option
use mathlib.Core.Path.{subst}
use claude_backup.Prelude.{
  Text, text_eq, text_eq_refl, text_eq_iff, text_eq_sound, text_eq_comm, ◌≡◌, refl, Bool, true,
  false, none, some, List, [], ◌∷◌, ◌++◌, arith, Bool-cases, inl, inr, if◌then◌else◌,
}
use claude_backup.Sql.{select, first, modify, delete}

abbrev pub All {ℓ κ} : {A : Type ℓ} → (A → Type κ) → List A → Type κ
All P [] = Unit
All P (x ∷ xs) = P x × All P xs

pub All-map {ℓ κ ι} :
    {A : Type ℓ} {P : A → Type κ} {Q : A → Type ι} (xs : List A)
    → ((x : A) → P x → Q x)
    → All P xs
    → All Q xs
All-map [] f h = tt
All-map (x ∷ xs) f h = (f x h.0, All-map xs f h.1)

pub All-snoc {ℓ κ} :
    {A : Type ℓ} (P : A → Type κ) (xs : List A) (x : A) → All P xs → P x → All P (xs ++ x ∷ [])
All-snoc P [] x h hx = (hx, tt)
All-snoc P (y ∷ ys) x h hx = (h.0, All-snoc P ys x h.1 hx)

pub All-delete {ℓ κ} :
    {A : Type ℓ} (P : A → Type κ) (p : A → Bool) (xs : List A) → All P xs → All P (delete p xs)
unfolding delete
All-delete P p [] h = tt
All-delete P p (x ∷ xs) h = elim (Bool-cases (p x)) [
  | inl e ↦ rw e (All-delete P p xs h.1)
  | inr e ↦ rw e (h.0, All-delete P p xs h.1)
]

module _ {ℓ} {A : Type ℓ} where
  -- An update that neither matches nor makes a selected row leaves the selection alone.
  pub select-modify :
      (q p : A → Bool) (f : A → A) (rows : List A)
      → All (λ r. p r ≡ true → (q r ≡ false) × (q (f r) ≡ false)) rows
      → select q (modify p f rows) ≡ select q rows
  unfolding select modify
  select-modify q p f [] h = refl
  select-modify q p f (r ∷ rs) h = ground (arith, select-modify q p f rs h.1)

  pub select-delete :
      (q p : A → Bool) (rows : List A)
      → All (λ r. p r ≡ true → q r ≡ false) rows
      → select q (delete p rows) ≡ select q rows
  unfolding select delete
  select-delete q p [] h = refl
  select-delete q p (r ∷ rs) h = ground (arith, select-delete q p rs h.1)

  pub select-append :
      (q : A → Bool) (xs ys : List A) → select q (xs ++ ys) ≡ select q xs ++ select q ys
  unfolding select
  select-append q [] ys = refl
  select-append q (r ∷ rs) ys = ground (arith, select-append q rs ys)

  -- A row that is inserted and not selected.
  pub select-insert :
      (q : A → Bool) (xs : List A) (r : A) → q r ≡ false → select q (xs ++ r ∷ []) ≡ select q xs
  unfolding select
  select-insert q [] r h = ground arith
  select-insert q (x ∷ xs) r h = ground (arith, select-insert q xs r h)

  pub first-holds : (p : A → Bool) (rows : List A) {r : A} → first p rows ≡ some r → p r ≡ true
  unfolding first
  first-holds p [] h = cc
  first-holds p (x ∷ xs) {r} h = ground (arith, first-holds p xs {r = r})

  -- A DELETE of other rows leaves the row that a query finds.
  pub first-delete_other :
      (q p : A → Bool) (rows : List A)
      → ((r : A) → p r ≡ true → q r ≡ false)
      → first q (delete p rows) ≡ first q rows
  unfolding first delete
  first-delete_other q p [] h = refl
  first-delete_other q p (x ∷ xs) h = ground (arith, h x, first-delete_other q p xs h)

  -- A DELETE of at least the rows that a query would find.
  pub first-delete_all :
      (p q : A → Bool) (rows : List A)
      → ((r : A) → q r ≡ true → p r ≡ true)
      → first q (delete p rows) ≡ none
  unfolding first delete
  first-delete_all p q [] h = refl
  first-delete_all p q (x ∷ xs) h = ground (arith, h x, first-delete_all p q xs h)

module _ {ℓ} {A : Type ℓ} (key : A → Text) where
  abbrev pub by : Text → A → Bool
  by k r = text_eq (key r) k

  -- PRIMARY KEY: no two rows have one key.
  abbrev pub Unique : List A → Type ℓ
  Unique [] = Unit
  Unique (r ∷ rs) = (first (by (key r)) rs ≡ none) × Unique rs

  first-none :
      (k : Text) (rows : List A) → first (by k) rows ≡ none → All (λ r. by k r ≡ false) rows
  unfolding first
  first-none k [] h = tt
  first-none k (x ∷ xs) h = ground (arith, first-none k xs)

  -- With a primary key, the row that a query finds is the only one that matches.
  pub first-Unique :
      (k : Text) (rows : List A) {r : A}
      → Unique rows
      → first (by k) rows ≡ some r
      → All (λ x. by k x ≡ true → x ≡ r) rows
  unfolding first
  first-Unique k [] u h = tt
  first-Unique k (x ∷ xs) {r} u h = elim (Bool-cases (by k x)) [
    | inl e ↦ (
      λ _. ground arith,
      All-map xs (λ y n m. cc) (first-none k xs (same (text_eq_sound (key x) k e) u.0)),
    )
    | inr e ↦ (λ m. cc, first-Unique k xs u.1 (ground arith))
  ]
    where
      same : key x ≡ k → first (by (key x)) xs ≡ none → first (by k) xs ≡ none
      same p = subst (λ j. first (by j) xs ≡ none) p

  -- A key that is not there is not there after a statement that changes no key.
  pub first-modify-none :
      (k : Text) (p : A → Bool) (f : A → A) (rows : List A)
      → ((r : A) → p r ≡ true → key (f r) ≡ key r)
      → first (by k) rows ≡ none
      → first (by k) (modify p f rows) ≡ none
  unfolding first modify
  first-modify-none k p f [] same h = refl
  first-modify-none k p f (x ∷ xs) same h = ground (arith, same x, first-modify-none k p f xs same)

  pub Unique-modify :
      (p : A → Bool) (f : A → A) (rows : List A)
      → ((r : A) → p r ≡ true → key (f r) ≡ key r)
      → Unique rows
      → Unique (modify p f rows)
  unfolding modify
  Unique-modify p f [] same u = tt
  Unique-modify p f (x ∷ xs) same u = (
    elim (Bool-cases (p x)) [
      | inl e ↦ rw (e, same x e) (first-modify-none (key x) p f xs same u.0)
      | inr e ↦ rw e (first-modify-none (key x) p f xs same u.0)
    ],
    Unique-modify p f xs same u.1,
  )

  pub first-delete-none :
      (k : Text) (p : A → Bool) (rows : List A)
      → first (by k) rows ≡ none
      → first (by k) (delete p rows) ≡ none
  unfolding first delete
  first-delete-none k p [] h = refl
  first-delete-none k p (x ∷ xs) h = ground (arith, first-delete-none k p xs)

  pub Unique-delete : (p : A → Bool) (rows : List A) → Unique rows → Unique (delete p rows)
  unfolding delete
  Unique-delete p [] u = tt
  Unique-delete p (x ∷ xs) u = elim (Bool-cases (p x)) [
    | inl e ↦ rw e (Unique-delete p xs u.1)
    | inr e ↦ rw e (first-delete-none (key x) p xs u.0, Unique-delete p xs u.1)
  ]

  pub first-append-none :
      (k : Text) (rows : List A) (r : A)
      → first (by k) rows ≡ none
      → text_eq (key r) k ≡ false
      → first (by k) (rows ++ r ∷ []) ≡ none
  unfolding first
  first-append-none k [] r h n = ground arith
  first-append-none k (x ∷ xs) r h n = ground (arith, first-append-none k xs r)

  -- An INSERT under a key that is not there.
  pub Unique-insert :
      (rows : List A) (r : A)
      → Unique rows
      → first (by (key r)) rows ≡ none
      → Unique (rows ++ r ∷ [])
  unfolding first
  Unique-insert [] r u h = (refl, tt)
  Unique-insert (x ∷ xs) r u h = (
    first-append-none (key x) xs r u.0 (ground (arith, text_eq_comm (key r) (key x))),
    Unique-insert xs r u.1 (ground arith),
  )

  -- What an UPDATE by key makes of the row, and of the others.
  pub first-modify :
      (j k : Text) (f : A → A) (rows : List A)
      → ((r : A) → by k r ≡ true → key (f r) ≡ key r)
      → first (by j) (modify (by k) f rows)
        ≡ (if text_eq j k then Option.map f (first (by j) rows) else first (by j) rows)
  unfolding first modify
  first-modify j k f [] same = ground arith
  first-modify j k f (x ∷ xs) same = ground (
    arith,
    same x,
    text_eq_iff (key x) j,
    text_eq_iff (key x) k,
    text_eq_iff j k,
    first-modify j k f xs same,
  )

  pub first-insert :
      (k : Text) (rows : List A) (r : A)
      → first (by (key r)) rows ≡ none
      → first (by k) (rows ++ r ∷ []) ≡ (if text_eq (key r) k then some r else first (by k) rows)
  unfolding first
  first-insert k [] r h = refl
  first-insert k (x ∷ xs) r h = ground (
    arith,
    text_eq_iff (key x) k,
    text_eq_iff (key r) k,
    text_eq_iff (key x) (key r),
    first-insert k xs r,
  )

  -- The row that was inserted is found.
  pub first-insert_self :
      (rows : List A) (r : A)
      → first (by (key r)) rows ≡ none
      → first (by (key r)) (rows ++ r ∷ []) ≡ some r
  first-insert_self rows r h = rw (first-insert (key r) rows r h, text_eq_refl (key r)) refl

  pub first-delete :
      (j k : Text) (rows : List A)
      → first (by j) (delete (by k) rows) ≡ (if text_eq j k then none else first (by j) rows)
  unfolding first delete
  first-delete j k [] = ground arith
  first-delete j k (x ∷ xs) =
      ground
        (arith, text_eq_iff (key x) j, text_eq_iff (key x) k, text_eq_iff j k, first-delete j k xs)
