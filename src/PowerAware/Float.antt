-- ===== src/PowerAware/Float.antt =====
-- float64 as the plugin uses it: the operations, and the facts that single theorems rest on.
use semvi_btp.Common.{ℕ, ◌≤◌, ◌≡◌, Bool, true, false}
use semvi_btp.Common.Int.{ℤ, pos}

pub record Float : Type 1 where
  pub F : Type 0
  pub of_int : ℤ → F
  pub add : F → F → F
  pub sub : F → F → F
  pub mul : F → F → F
  pub div : F → F → F
  pub neg : F → F
  pub lt : F → F → Bool
  pub le : F → F → Bool
  -- math.Sqrt, math.Exp, math.Pow, math.Min, math.Round
  pub sqrt : F → F
  pub exp : F → F
  pub pow : F → F → F
  pub min : F → F → F
  pub round : F → F
  -- int64(x)
  pub to_int : F → ℤ
  -- the literal 1e-9
  pub nano : F

module _ (R : Float) where
  open R use {F, of_int, add, sub, mul, div, lt, sqrt, pow, round, to_int, nano}

  -- The test `a < b` is a strict weak order on the numbers, and fails at other values, as it does on
  -- float64 with the values that are no NaN as the numbers.
  pub record IsOrdered (IsNumber : F → Type 0) : Type 0 where
    pub irreflexive : (a : F) → lt a a ≡ false
    pub asymmetric : (a b : F) → lt a b ≡ true → lt b a ≡ false
    pub negatively_transitive :
        (a b c : F) → IsNumber b → lt a b ≡ false → lt b c ≡ false → lt a c ≡ false

  abbrev pub zero_float : F
  zero_float = of_int (pos 0)

  abbrev pub two : F
  two = of_int (pos 2)

  abbrev pub hundred : F
  hundred = of_int (pos 100)

  -- The whole numbers of a score are exact.
  pub record IsScaled : Type 0 where
    pub zero_percent : mul zero_float hundred ≡ zero_float
    pub full_percent : mul (of_int (pos 1)) hundred ≡ hundred
    pub to_int-round : (n : ℕ) → n ≤ 100 → to_int (round (of_int (pos n))) ≡ pos n

  -- Facts of the arithmetic of finite values.
  pub record IsExact (Finite : F → Type 0) : Type 0 where
    pub sub_self : (a : F) → Finite a → sub a a ≡ zero_float
    pub pow-zero : pow zero_float two ≡ zero_float
    pub zero-add : (a : F) → Finite a → add zero_float a ≡ a
    pub add-zero : (a : F) → Finite a → add a zero_float ≡ a
    pub zero-Finite : Finite zero_float
    pub sqrt-zero : sqrt zero_float ≡ zero_float
    pub div_self : (a : F) → Finite a → lt nano a ≡ true → div a a ≡ of_int (pos 1)
    pub zero-div : (a : F) → Finite a → lt nano a ≡ true → div zero_float a ≡ zero_float

  -- A value that every operation passes on and no comparison holds of, as NaN.
  pub record IsNan (n : F) : Type 0 where
    pub add_left : (a : F) → add n a ≡ n
    pub add_right : (a : F) → add a n ≡ n
    pub sub_left : (a : F) → sub n a ≡ n
    pub mul_left : (a : F) → mul n a ≡ n
    pub div_right : (a : F) → div a n ≡ n
    pub sqrt_nan : sqrt n ≡ n
    pub pow_nan : pow n two ≡ n
    pub lt_right : (a : F) → lt a n ≡ false
