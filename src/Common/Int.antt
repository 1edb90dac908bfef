-- ===== src/Common/Int.antt =====
-- Signed integers over the native numbers, the wrap-around of `int64`, and decimal text.
use Prim.Native.Nat.{ℕ, zero, suc, ◌+◌, ◌-◌, ◌*◌, ◌/◌, ◌%◌, ◌^◌, ◌≤◌}
use Prim.Native.String.{String, ◌++◌}
use mathlib.Core.Path.{◌≡◌, refl}
use mathlib.Core.Bool.{Bool}
use mathlib.Core.List.{List, [], ◌∷◌}
use semvi_btp.Common.Tests.{ltb, leb, if◌then◌else◌}

-- `negsuc n` is -(n + 1).
pub data ℤ : Type 0 where
  pos : ℕ → ℤ
  negsuc : ℕ → ℤ

abbrev pub pos_part : ℤ → ℕ
pos_part (pos n) = n
pos_part (negsuc n) = 0

abbrev pub neg_part : ℤ → ℕ
neg_part (pos n) = 0
neg_part (negsuc n) = suc n

-- a - b, as an integer.
abbrev pub sub_ℕ : ℕ → ℕ → ℤ
sub_ℕ a b = if leb b a then pos (a - b) else negsuc (b - a - 1)

infixl 70 ◌*ℤ◌
infix 50 ◌≤ℤ◌
unfoldable pub ◌*ℤ◌ : ℤ → ℤ → ℤ
a *ℤ b =
    sub_ℕ (pos_part a * pos_part b + neg_part a * neg_part b)
      (pos_part a * neg_part b + neg_part a * pos_part b)

abbrev pub ◌≤ℤ◌ : ℤ → ℤ → Type 0
a ≤ℤ b = pos_part a + neg_part b ≤ pos_part b + neg_part a

-- a < b, as Go's test.
abbrev pub ltb_ℤ : ℤ → ℤ → Bool
ltb_ℤ a b = ltb (pos_part a + neg_part b) (pos_part b + neg_part a)

-- The integer of a 64-bit pattern.
abbrev of_bits : ℕ → ℤ
of_bits b = if ltb b (2 ^ 63) then pos b else negsuc (2 ^ 64 - 1 - b)

-- The int64 that an integer is congruent to, modulo 2^64.
unfoldable pub wrap64 : ℤ → ℤ
wrap64 (pos n) = of_bits (n % 2 ^ 64)
wrap64 (negsuc n) = of_bits (2 ^ 64 - 1 - n % 2 ^ 64)

-- The text at a position of a list, "" past its end.
abbrev text_at_position : List String → ℕ → String
text_at_position [] n = ""
text_at_position (t ∷ ts) zero = t
text_at_position (t ∷ ts) (suc n) = text_at_position ts n

abbrev decimal_digit : ℕ → String
decimal_digit = text_at_position ("0" ∷ "1" ∷ "2" ∷ "3" ∷ "4" ∷ "5" ∷ "6" ∷ "7" ∷ "8" ∷ "9" ∷ [])

-- The decimal text in front of `tail`. Each unit of fuel is a division by ten, so that a fuel of the
-- number's own size leaves nothing undone.
abbrev decimal_before : (fuel : ℕ) → ℕ → String → String
decimal_before zero n tail = decimal_digit n ++ tail
decimal_before (suc fuel) n tail =
    let front = decimal_before fuel (n / 10) (decimal_digit (n % 10) ++ tail) in
    if leb 10 n then front else decimal_digit n ++ tail

-- strconv.FormatInt(n, 10), strconv.Itoa(n)
unfoldable pub format_int : ℤ → String
format_int (pos n) = decimal_before n n ""
format_int (negsuc n) = "-" ++ decimal_before (suc n) (suc n) ""

format_int_runs : format_int (negsuc 1206) ≡ "-1207"
unfolding format_int
format_int_runs = refl
