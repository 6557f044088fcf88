-- ===== src/Prelude/Strings.antt =====
-- What the program uses of Go's packages `strings` and `path`, over bytes.
use Prim.Native.Nat.{ℕ, ◌+◌}
use mathlib.Core.Bool.{Bool, true, false, ◌&&◌, ◌||◌}
use mathlib.Core.List.{[], ◌∷◌, reverse, map}
use claude_backup.Prelude.Tests.{◌==◌, leb, if◌then◌else◌}
use claude_backup.Prelude.Bytes.{Text}

-- unicode.IsSpace on the UTF-8 of a character, of one byte, of two or of three
abbrev pub is_space : ℕ → Bool
is_space c = c == 32 || (leb 9 c && leb c 13)

abbrev is_space_of_two : ℕ → ℕ → Bool
is_space_of_two c d = c == 0xC2 && (d == 0x85 || d == 0xA0)

abbrev is_space_of_three : ℕ → ℕ → ℕ → Bool
is_space_of_three c d e =
    (c == 0xE1 && d == 0x9A && e == 0x80)
    || (c == 0xE2 && d == 0x80 && (leb 0x80 e && leb e 0x8A || e == 0xA8 || e == 0xA9 || e == 0xAF))
    || (c == 0xE2 && d == 0x81 && e == 0x9F)
    || (c == 0xE3 && d == 0x80 && e == 0x80)

-- unicode.ToLower, for ASCII
abbrev pub lower : ℕ → ℕ
lower c = if leb b'A' c && leb c b'Z' then c + 32 else c

abbrev pub slash : ℕ
slash = b'/'

unfoldable pub drop_while : (ℕ → Bool) → Text → Text
drop_while p [] = []
drop_while p (c ∷ s) = let rest = drop_while p s in if p c then rest else c ∷ s

-- Without the blanks in front, where `two` and `three` are the tests on two and on three bytes.
unfoldable pub drop_spaces : (ℕ → ℕ → Bool) → (ℕ → ℕ → ℕ → Bool) → Text → Text
drop_spaces two three [] = []
drop_spaces two three (c ∷ []) = if is_space c then [] else c ∷ []
drop_spaces two three (c ∷ d ∷ []) = elim (is_space c) [
  | true ↦ drop_spaces two three (d ∷ [])
  | false ↦ if two c d then [] else c ∷ d ∷ []
]
drop_spaces two three (c ∷ d ∷ e ∷ s) = elim (is_space c) [
  | true ↦ drop_spaces two three (d ∷ e ∷ s)
  | false ↦ elim (two c d) [
    | true ↦ drop_spaces two three (e ∷ s)
    | false ↦ elim (three c d e) [ true ↦ drop_spaces two three s | false ↦ c ∷ d ∷ e ∷ s ]
  ]
]

-- strings.TrimSpace: the blanks at the end are met with their bytes reversed.
unfoldable pub trim_space : Text → Text
unfolding drop_spaces
trim_space s = reverse (
    drop_spaces (λ d c. is_space_of_two c d) (λ e d c. is_space_of_three c d e)
      (reverse (drop_spaces is_space_of_two is_space_of_three s)))

-- strings.TrimLeft(s, "/")
unfoldable pub trim_left_slash : Text → Text
unfolding drop_while
trim_left_slash s = drop_while (λ c. c == slash) s

-- strings.Trim(s, "/")
unfoldable pub trim_slash : Text → Text
unfolding trim_left_slash
trim_slash s = reverse (trim_left_slash (reverse (trim_left_slash s)))

-- strings.HasPrefix(s, p), its arguments in that order
unfoldable pub has_prefix : Text → Text → Bool
has_prefix s [] = true
has_prefix [] (d ∷ p) = false
has_prefix (c ∷ s) (d ∷ p) = c == d && has_prefix s p

-- strings.ReplaceAll of one byte by another
unfoldable pub replace_byte : ℕ → ℕ → Text → Text
replace_byte old new s = map (λ c. if c == old then new else c) s

-- strings.ReplaceAll of one byte by the empty string
unfoldable pub remove_byte : ℕ → Text → Text
remove_byte old [] = []
remove_byte old (c ∷ s) = let rest = remove_byte old s in if c == old then rest else c ∷ rest

-- The text after the last slash, given what stands behind an earlier one.
unfoldable pub after_last_slash : Text → Text → Text
after_last_slash found [] = reverse found
after_last_slash found (c ∷ s) = after_last_slash (if c == slash then [] else c ∷ found) s

-- path.Base
unfoldable pub path_base : Text → Text
unfolding drop_while after_last_slash
path_base [] = b'.' ∷ []
path_base (c ∷ s) = elim (reverse (drop_while (λ d. d == slash) (reverse (c ∷ s)))) [
  | [] ↦ slash ∷ []
  | d ∷ t ↦ after_last_slash [] (d ∷ t)
]
