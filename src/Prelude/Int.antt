-- ===== src/Prelude/Int.antt =====
-- Go's signed integers, with the comparisons and sums that the program makes. A sum that may leave
-- `int64` is wrapped around by `int64`; a counter of rows or of entries in memory never does.
use Prim.Native.Nat.{ℕ, zero, suc, ◌+◌, ◌-◌, ◌%◌, ◌^◌}
use mathlib.Core.Path.{◌≡◌, ap}
use mathlib.Core.Bool.{Bool, true, false}
use native.Mathlib.Omega.{arith}
use claude_backup.Prelude.Tests.{ltb, leb, ◌==◌, if◌then◌else◌}

-- `negsuc n` is -(n + 1).
pub data ℤ : Type 0 where
  pos : ℕ → ℤ
  negsuc : ℕ → ℤ

-- a < b
abbrev pub ltz : ℤ → ℤ → Bool
ltz (pos a) (pos b) = ltb a b
ltz (pos a) (negsuc b) = false
ltz (negsuc a) (pos b) = true
ltz (negsuc a) (negsuc b) = ltb b a

-- 0 < a
abbrev pub is_pos : ℤ → Bool
is_pos (pos zero) = false
is_pos (pos (suc n)) = true
is_pos (negsuc n) = false

abbrev pub is_zero : ℤ → Bool
is_zero (pos zero) = true
is_zero (pos (suc n)) = false
is_zero (negsuc n) = false

-- The number, where it is not negative.
abbrev pub to_ℕ : ℤ → ℕ
to_ℕ (pos n) = n
to_ℕ (negsuc n) = 0

-- m - n
abbrev pub difference : ℕ → ℕ → ℤ
difference m n = if leb n m then pos (m - n) else negsuc (n - m - 1)

infixl 65 ◌+ℤ◌ ◌-ℤ◌
abbrev pub ◌+ℤ◌ : ℤ → ℤ → ℤ
pos a +ℤ pos b = pos (a + b)
pos a +ℤ negsuc b = difference a (suc b)
negsuc a +ℤ pos b = difference b (suc a)
negsuc a +ℤ negsuc b = negsuc (suc (a + b))

abbrev pub negate : ℤ → ℤ
negate (pos zero) = pos 0
negate (pos (suc n)) = negsuc n
negate (negsuc n) = pos (suc n)

abbrev pub ◌-ℤ◌ : ℤ → ℤ → ℤ
a -ℤ b = a +ℤ negate b

-- The residue modulo 2 ^ 64 that a variable of type `int64` holds.
abbrev pub int64 : ℤ → ℤ
int64 (pos n) = let r = n % 2 ^ 64 in if ltb r (2 ^ 63) then pos r else negsuc (2 ^ 64 - 1 - r)
int64 (negsuc n) = let r = n % 2 ^ 64 in if ltb r (2 ^ 63) then negsuc r else pos (2 ^ 64 - 1 - r)

-- a == b
abbrev pub eqz : ℤ → ℤ → Bool
eqz (pos a) (pos b) = a == b
eqz (pos a) (negsuc b) = false
eqz (negsuc a) (pos b) = false
eqz (negsuc a) (negsuc b) = a == b

pub eqz_sound : (a b : ℤ) → eqz a b ≡ true → a ≡ b
eqz_sound (pos a) (pos b) h = ap pos (ground arith)
eqz_sound (pos a) (negsuc b) h = absurd (ground arith)
eqz_sound (negsuc a) (pos b) h = absurd (ground arith)
eqz_sound (negsuc a) (negsuc b) h = ap negsuc (ground arith)

-- A counter goes up by one, and down again.
pub pos_up : (n : ℕ) → pos n +ℤ pos 1 ≡ pos (suc n)
pos_up n = ap pos (omega arith)

pub pos_down : (n : ℕ) → pos (suc n) -ℤ pos 1 ≡ pos n
pos_down n = ground arith

-- The integers of the type `int64` below its greatest one.
abbrev pub has_next : ℤ → Bool
has_next (pos n) = ltb n (2 ^ 63 - 1)
has_next (negsuc n) = ltb n (2 ^ 63)

-- Such an integer has a successor that does not wrap around.
pub int64_next : (a : ℤ) → has_next a ≡ true → int64 (a +ℤ pos 1) ≡ a +ℤ pos 1
int64_next (pos n) h = ground arith
int64_next (negsuc zero) h = ground arith
int64_next (negsuc (suc n)) h = ground arith
