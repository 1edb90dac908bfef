-- ===== src/PowerAware/Samples.antt =====
-- Two float types to run the plugin on: natural numbers, and natural numbers or no number.
use semvi_btp.Common.{
  ℕ, zero, suc, ◌+◌, ◌-◌, ◌*◌, ◌/◌, ◌^◌, ◌≡◌, refl, String, Bool, true, false, Option, none, some,
  List, ◌∷◌, ltb, leb, eqb, arith, if◌then◌else◌, ◌==◌,
}
use semvi_btp.Common.Int.{ℤ, pos, negsuc, pos_part}
use semvi_btp.PowerAware.Float.{Float, IsOrdered, IsScaled, IsExact, IsNan}
use semvi_btp.PowerAware.Criteria.{NodeInfo, CriteriaConfig, PowerAwareArgs, PowerAware, new_plugin}
use semvi_btp.PowerAware.Keys.{Visits}
use semvi_btp.PowerAware.Plugin.{Table, CycleState, pre_score, score}

-- The greatest number up to `k` whose square is at most `n`.
abbrev root : ℕ → ℕ → ℕ
root zero n = 0
root (suc k) n = let rest = root k n in if leb (suc k * suc k) n then suc k else rest

-- The quotient, written so that its two easy cases are clauses.
abbrev quotient : ℕ → ℕ → ℕ
quotient a b = if eqb a b then 1 else if ltb a b then 0 else a / b

abbrev pub naturals : Float
naturals = record {
  F = ℕ;
  of_int = pos_part;
  add = λ a b. a + b;
  sub = λ a b. a - b;
  mul = λ a b. a * b;
  div = quotient;
  neg = λ a. 0;
  lt = ltb;
  le = leb;
  sqrt = λ a. root 10 a;
  exp = λ a. 1;
  pow = λ a b. a ^ b;
  min = λ a b. if ltb a b then a else b;
  round = λ a. a;
  to_int = pos;
  nano = 0;
}

abbrev Number : Type 0
Number = Option ℕ

abbrev lift : (ℕ → ℕ → Number) → Number → Number → Number
lift f none b = none
lift f (some a) none = none
lift f (some a) (some b) = f a b

abbrev test : (ℕ → ℕ → Bool) → Number → Number → Bool
test f none b = false
test f (some a) none = false
test f (some a) (some b) = f a b

abbrev lift_one : (ℕ → ℕ) → Number → Number
lift_one f none = none
lift_one f (some a) = some (f a)

abbrev or_least : Number → ℤ
or_least none = negsuc 0
or_least (some a) = pos a

-- No number is 0 / 0, and what is computed from it.
abbrev pub naturals_or_nan : Float
naturals_or_nan = record {
  F = Number;
  of_int = λ n. some (pos_part n);
  add = lift (λ a b. some (a + b));
  sub = lift (λ a b. some (a - b));
  mul = lift (λ a b. some (a * b));
  div = lift (λ a b. elim b [ zero ↦ none | suc c ↦ some (a / suc c) ]);
  neg = lift_one (λ a. 0);
  lt = test ltb;
  le = test leb;
  sqrt = lift_one (root 10);
  exp = lift_one (λ a. 1);
  pow = lift (λ a b. some (a ^ b));
  min = lift (λ a b. some (if ltb a b then a else b));
  round = λ a. a;
  to_int = or_least;
  nano = some 0;
}

-- The numbers among them.
abbrev pub IsSome : Number → Type 0
IsSome none = ⊥
IsSome (some a) = Unit

or_nan-irreflexive : (a : Number) → naturals_or_nan.lt a a ≡ false
or_nan-irreflexive none = refl
or_nan-irreflexive (some a) = ground arith

or_nan-asymmetric : (a b : Number) → naturals_or_nan.lt a b ≡ true → naturals_or_nan.lt b a ≡ false
or_nan-asymmetric none none h = refl
or_nan-asymmetric none (some b) h = refl
or_nan-asymmetric (some a) none h = refl
or_nan-asymmetric (some a) (some b) h = ground arith

or_nan-negatively_transitive :
    (a b c : Number)
    → IsSome b
    → naturals_or_nan.lt a b ≡ false
    → naturals_or_nan.lt b c ≡ false
    → naturals_or_nan.lt a c ≡ false
or_nan-negatively_transitive a none c n h g = absurd n
or_nan-negatively_transitive none (some b) c n h g = refl
or_nan-negatively_transitive (some a) (some b) none n h g = refl
or_nan-negatively_transitive (some a) (some b) (some c) n h g = ground arith

pub naturals_or_nan-IsOrdered : IsOrdered naturals_or_nan IsSome
naturals_or_nan-IsOrdered = record {
  irreflexive = or_nan-irreflexive;
  asymmetric = or_nan-asymmetric;
  negatively_transitive = or_nan-negatively_transitive;
}

pub naturals-IsScaled : IsScaled naturals
naturals-IsScaled = record { zero_percent = refl; full_percent = refl; to_int-round = λ n h. refl }

pub naturals-IsExact : IsExact naturals (λ a. Unit {0})
naturals-IsExact = record {
  sub_self = λ a u. omega arith;
  pow-zero = refl;
  zero-add = λ a u. omega arith;
  add-zero = λ a u. omega arith;
  zero-Finite = tt;
  sqrt-zero = refl;
  div_self = λ a u h. ground arith;
  zero-div = λ a u h. ground arith;
}

lift-none : (f : ℕ → ℕ → Number) (a : Number) → lift f a none ≡ none
lift-none f none = refl
lift-none f (some a) = refl

test-none : (f : ℕ → ℕ → Bool) (a : Number) → test f a none ≡ false
test-none f none = refl
test-none f (some a) = refl

pub none-IsNan : IsNan naturals_or_nan none
none-IsNan = record {
  add_left = λ a. refl;
  add_right = λ a. lift-none _ a;
  sub_left = λ a. refl;
  mul_left = λ a. refl;
  div_right = λ a. lift-none _ a;
  sqrt_nan = refl;
  pow_nan = refl;
  lt_right = λ a. test-none ltb a;
}

pub naturals_or_nan-IsScaled : IsScaled naturals_or_nan
naturals_or_nan-IsScaled = record {
  zero_percent = refl;
  full_percent = refl;
  to_int-round = λ n h. refl;
}

abbrev pub cell : CycleState
cell = record { State = Option (Table ℤ); write = λ s t. some t; read = λ s. s }

pub cell_reads : (s : Option (Table ℤ)) (t : Table ℤ) → cell.read (cell.write s t) ≡ some t
cell_reads s t = refl

abbrev pub in_order : {V : Type 0} → Table V → Table V
in_order l = l

pub in_order-Visits : {V : Type 0} → Visits (in_order {V = V})
in_order-Visits l e = (λ h. h, λ h. h)

abbrev criterion : (R : Float) → String → CriteriaConfig R
criterion R t = record { weight = R.of_int (pos 1); criteria_type = t }

abbrev sample_args : (R : Float) → String → PowerAwareArgs R
sample_args R t = record {
  pod_load_balancing_criteria = criterion R t;
  cpu_criteria = criterion R "Benefit";
  mem_criteria = criterion R "Benefit";
  power_criteria = criterion R "Cost";
  power_model = record { k0 = R.of_int (pos 1); k1 = R.of_int (pos 1); k2 = R.of_int (pos 1) };
}

abbrev pub benefit : (R : Float) → PowerAware R
benefit R = new_plugin R (λ a b. a == b) (sample_args R "Benefit")

abbrev pub cost : (R : Float) → PowerAware R
cost R = new_plugin R (λ a b. a == b) (sample_args R "Cost")

abbrev pub busy : NodeInfo
busy = record {
  name = "busy";
  pods = 219;
  requested_milli_cpu = pos 0;
  requested_memory = pos 0;
  allocatable_milli_cpu = pos 1000;
  allocatable_memory = pos 100;
}

abbrev pub idle : NodeInfo
idle = record busy { name = "idle"; pods = 109 }

abbrev pub broken : NodeInfo
broken = record idle { name = "broken"; allocatable_milli_cpu = pos 0 }

abbrev pub read_score : (R : Float) → PowerAware R → List NodeInfo → NodeInfo → String → ℤ
read_score R pl ns n k = score cell (pre_score R in_order in_order cell pl none (n ∷ ns)) k
