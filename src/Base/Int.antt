-- ===== src/Base/Int.antt =====
-- The C integers of the bridge, as the numbers that they stand for.
use Prim.Native.Nat.{ℕ, zero, suc, ◌+◌, ◌-◌, ◌%◌, ◌^◌, ◌≤◌, ◌<◌}
use mathlib.Core.Path.{◌≡◌, refl}
use mathlib.Core.Bool.{Bool, true, false}
use native.Mathlib.Omega.{arith}
use my_stest.Base.Tests.{ltb, ◌==◌, if◌then◌else◌}

-- `negsuc n` is -(n + 1).
pub data ℤ : Type 0 where
  pos : ℕ → ℤ
  negsuc : ℕ → ℤ

-- `x < 0`
abbrev pub is_negative : ℤ → Bool
is_negative (pos n) = false
is_negative (negsuc n) = true

-- `x == code`, for a code that is no negative number
abbrev pub is_code : ℤ → ℕ → Bool
is_code (pos n) code = n == code
is_code (negsuc n) code = false

-- `-x` on a 32-bit `int`: the least number has no opposite, and wraps to itself.
unfoldable pub neg_int : ℤ → ℤ
neg_int (pos zero) = pos 0
neg_int (pos (suc n)) = negsuc n
neg_int (negsuc n) = if n == 2 ^ 31 - 1 then negsuc n else pos (n + 1)

-- The bit pattern of a number in 32 bits, and the signed number that a pattern stands for.
unfoldable pub to_word : ℤ → ℕ
to_word (pos n) = n % 2 ^ 32
to_word (negsuc n) = 2 ^ 32 - 1 - n % 2 ^ 32

unfoldable pub of_word : ℕ → ℤ
of_word w = if ltb w (2 ^ 31) then pos w else negsuc (2 ^ 32 - 1 - w)

-- A conversion to a signed 32-bit type.
unfoldable pub to_int32 : ℤ → ℤ
unfolding to_word of_word
to_int32 x = of_word (to_word x)

-- A conversion to a signed 64-bit type.
unfoldable pub to_int64 : ℤ → ℤ
to_int64 (pos n) = let w = n % 2 ^ 64 in if ltb w (2 ^ 63) then pos w else negsuc (2 ^ 64 - 1 - w)
to_int64 (negsuc n) =
    let w = n % 2 ^ 64 in if ltb w (2 ^ 63) then negsuc w else pos (2 ^ 64 - 1 - w)

-- `-x` on a `jlong`.
unfoldable pub neg_long : ℤ → ℤ
neg_long (pos zero) = pos 0
neg_long (pos (suc n)) = negsuc n
neg_long (negsuc n) = if n == 2 ^ 63 - 1 then negsuc n else pos (n + 1)

abbrev pub IsInt32 : ℤ → Type 0
IsInt32 (pos n) = n < 2 ^ 31
IsInt32 (negsuc n) = n < 2 ^ 31

-- A number from 1 on that fits an `int`.
abbrev pub IsPositive : ℤ → Type 0
IsPositive (pos n) = (0 < n) × (n < 2 ^ 31)
IsPositive (negsuc n) = ⊥

pub neg_int-negative : (x : ℤ) → IsPositive x → is_negative (neg_int x) ≡ true
unfolding neg_int
neg_int-negative (pos zero) h = absurd (omega arith)
neg_int-negative (pos (suc n)) h = refl
neg_int-negative (negsuc n) h = absurd h

pub neg_int-neg_int : (x : ℤ) → IsPositive x → neg_int (neg_int x) ≡ x
unfolding neg_int
neg_int-neg_int (pos zero) h = absurd (omega arith)
neg_int-neg_int (pos (suc n)) h = ground arith
neg_int-neg_int (negsuc n) h = absurd h

pub to_int32_lem : (x : ℤ) → IsInt32 x → to_int32 x ≡ x
unfolding to_int32
to_int32_lem (pos n) h = ground arith
to_int32_lem (negsuc n) h = ground arith

-- Minus the number, narrowed to an `int`, is the opposite of minus the number.
pub to_int32-neg_int-neg_int : (x : ℤ) → IsPositive x → to_int32 (neg_int (neg_int x)) ≡ x
unfolding to_int32 neg_int
to_int32-neg_int-neg_int (pos zero) h = absurd (omega arith)
to_int32-neg_int-neg_int (pos (suc n)) h = ground arith
to_int32-neg_int-neg_int (negsuc n) h = absurd h

pub to_int32-neg_long-neg_int : (x : ℤ) → IsPositive x → to_int32 (neg_long (neg_int x)) ≡ x
unfolding to_int32 neg_int neg_long
to_int32-neg_long-neg_int (pos zero) h = absurd (omega arith)
to_int32-neg_long-neg_int (pos (suc n)) h = ground arith
to_int32-neg_long-neg_int (negsuc n) h = absurd h

-- `-x`, `x + y`, `x - y` and `x < y` without a width.
abbrev opposite : ℤ → ℤ
opposite (pos zero) = pos 0
opposite (pos (suc n)) = negsuc n
opposite (negsuc n) = pos (suc n)

infixl 60 ◌+ℤ◌ ◌-ℤ◌
unfoldable pub ◌+ℤ◌ : ℤ → ℤ → ℤ
pos a +ℤ pos b = pos (a + b)
pos a +ℤ negsuc b = if ltb b a then pos (a - (b + 1)) else negsuc (b - a)
negsuc a +ℤ pos b = if ltb a b then pos (b - (a + 1)) else negsuc (a - b)
negsuc a +ℤ negsuc b = negsuc (a + b + 1)

unfoldable pub ◌-ℤ◌ : ℤ → ℤ → ℤ
unfolding ◌+ℤ◌
a -ℤ b = a +ℤ opposite b

unfoldable pub lt_int : ℤ → ℤ → Bool
unfolding ◌-ℤ◌
lt_int a b = is_negative (a -ℤ b)

-- Of two `int`s from 0 on.
pub sub_int : (a b : ℕ) → b ≤ a → a < 2 ^ 31 → to_int32 (pos a -ℤ pos b) ≡ pos (a - b)
unfolding to_int32 ◌-ℤ◌
sub_int a zero h k = ground arith
sub_int a (suc b) h k = ground arith

pub add_int : (a b : ℕ) → a + b < 2 ^ 31 → to_int32 (pos a +ℤ pos b) ≡ pos (a + b)
unfolding to_int32 ◌+ℤ◌
add_int a b h = ground arith

pub lt_int_lem : (a b : ℕ) → lt_int (pos a) (pos b) ≡ ltb a b
unfolding lt_int
lt_int_lem a zero = ground arith
lt_int_lem a (suc b) = ground arith
