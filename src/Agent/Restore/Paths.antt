-- ===== src/Agent/Restore/Paths.antt =====
-- internal/agent/restore.go: the filter of a restore, and the safety of where it writes.
use claude_backup.Prelude.{
  Text, codes, text_eq_iff, ℕ, ◌==◌, ◌≡◌, ◌≢◌, refl, false, some, List, [], ◌∷◌, ◌++◌, map, ap,
  trim_space, trim_slash, ◌||◌, trim_left_slash, remove_byte, arith, Bool-cases, inl, inr,
  if◌then◌else◌,
}
use claude_backup.Sql.Keys.{All}
use claude_backup.Agent.Restore.{
  is_under, any_prefix, under_prefix, any_trimmed_prefix, restore_match, has_dots, restore_target,
}

any_trimmed_prefix-any_prefix :
    (p : Text) (prefixes : List Text)
    → any_trimmed_prefix p prefixes ≡ any_prefix p (map trim_space prefixes)
unfolding any_prefix any_trimmed_prefix
any_trimmed_prefix-any_prefix p [] = refl
any_trimmed_prefix-any_prefix p (pre ∷ prefixes) =
    ap (λ b. is_under p (trim_slash (trim_space pre)) || b)
      (any_trimmed_prefix-any_prefix p prefixes)

-- The agent restores what the server's filter selects for the same prefixes without the white space
-- around them.
pub restore_match-under_prefix :
    (path : Text) (prefixes : List Text)
    → restore_match path prefixes ≡ under_prefix path (map trim_space prefixes)
unfolding restore_match under_prefix
restore_match-under_prefix path [] = refl
restore_match-under_prefix path (pre ∷ prefixes) =
    any_trimmed_prefix-any_prefix (trim_left_slash path) (pre ∷ prefixes)

-- The parts of a path between its slashes.
abbrev pub components_from : Text → Text → List Text
components_from part [] = part ∷ []
components_from part (c ∷ s) =
    if c == b'/' then part ∷ components_from [] s else components_from (part ++ c ∷ []) s

abbrev pub components : Text → List Text
components = components_from []

has_dots-append :
    (xs ys : Text) → has_dots (xs ++ ys) ≡ false → (has_dots xs ≡ false) × (has_dots ys ≡ false)
unfolding has_dots
has_dots-append [] ys h = (refl, h)
has_dots-append (x ∷ []) [] h = (refl, refl)
has_dots-append (x ∷ []) (y ∷ ys) h = (refl, ground arith)
has_dots-append (x ∷ x' ∷ xs) ys h =
    let rest = has_dots-append (x' ∷ xs) ys (ground arith) in (ground (arith, rest.0), rest.1)

no_dots : (part : Text) → has_dots part ≡ false → part ≢ codes ".."
unfolding has_dots
no_dots part h e = absurd (cc)

append_one : (xs ys : Text) (c : ℕ) → xs ++ (c ∷ ys) ≡ (xs ++ c ∷ []) ++ ys
append_one [] ys c = refl
append_one (x ∷ xs) ys c = ap (λ l. x ∷ l) (append_one xs ys c)

components-no_dots :
    (part s : Text)
    → has_dots (part ++ s) ≡ false
    → All (λ c. c ≢ codes "..") (components_from part s)
components-no_dots part [] h = (no_dots part (has_dots-append part [] h).0, tt)
components-no_dots part (c ∷ s) h = elim (Bool-cases (c == b'/')) [
  | inl e ↦ rw e (
    no_dots part (has_dots-append part (c ∷ s) h).0,
    components-no_dots [] s (has_dots-append (part ++ c ∷ []) s (rw (append_one part s c) at h)).1,
  )
  | inr e ↦ rw e (components-no_dots (part ++ c ∷ []) s (rw (append_one part s c) at h))
]

-- A target below a directory, by a path that does not climb.
pub record Below (from_slash : Text → Text) (join : Text → Text → Text) (dir target : Text)
    : Type 0 where
  pub rel : Text
  pub joined : target ≡ join dir (from_slash rel)
  pub named : rel ≢ []
  pub safe : All (λ c. c ≢ codes "..") (components rel)

-- With a target directory, an entry that is not refused is written under that directory joined with a
-- path that is not empty, and of which no component is "..".
pub restore_target-Below :
    (from_slash : Text → Text) (join : Text → Text → Text) (path dir target : Text)
    → dir ≢ []
    → restore_target from_slash join path dir ≡ some target
    → Below from_slash join dir target
unfolding restore_target
restore_target-Below from_slash join path [] target n h = absurd (n refl)
restore_target-Below from_slash join path (c ∷ dir) target n h =
    let rel = remove_byte b':' (trim_left_slash path) in
    record {
      rel = rel;
      joined = ground arith;
      named = λ e. ground (arith, text_eq_iff rel []);
      safe = components-no_dots [] rel (ground arith);
    }
