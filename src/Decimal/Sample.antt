-- ===== src/Decimal/Sample.antt =====
-- The hypotheses about decimals can be met: whole numbers, with `none` for `decimal.Decimal{}`.
use native.Mathlib.Nat.{add_comm, add_assoc, mul_comm, mul_assoc}
use terracost.Prelude.{
  ℕ, ◌+◌, ◌-◌, ◌*◌, ◌/◌, ◌≡◌, refl, ◌≢◌, ◌↔◌, Bool, true, false, Option, none, some, arith, ltb,
  eqb,
}
use terracost.Decimal.Defs.{Decimal, Numbers, IsExact}

abbrev pub Whole : Type 0
Whole = Option ℕ

abbrev pub whole : Whole → ℕ
whole none = 0
whole (some n) = n

abbrev same_whole : Whole → Whole → Bool
same_whole none none = true
same_whole (some a) (some b) = eqb a b
same_whole _ _ = false

-- a quotient rounded to a whole number, half up
abbrev divide : Whole → Whole → ℕ → Whole
divide a b places = some ((2 * whole a + whole b) / (2 * whole b))

instance abbrev pub whole_decimal : Decimal Whole
whole_decimal = record {
  blank = none;
  same = same_whole;
  is_zero = λ a. eqb (whole a) 0;
  add = λ a b. some (whole a + whole b);
  mul = λ a b. some (whole a * whole b);
  div_round = divide;
  of_int = some;
}

pub times-plus_lem : (a b c : ℕ) → a * (b + c) ≡ a * b + a * c
times-plus_lem a b c = omega arith

pub zero_times : (a : ℕ) → 0 * a ≡ 0
zero_times a = omega arith

pub zero_plus : (a : ℕ) → 0 + a ≡ a
zero_plus a = omega arith

instance abbrev pub ℕ_numbers : Numbers ℕ
ℕ_numbers = record {
  nought = 0;
  plus = ◌+◌;
  times = ◌*◌;
  plus_comm = add_comm;
  plus_assoc = add_assoc;
  nought-plus = zero_plus;
  times_comm = mul_comm;
  times_assoc = mul_assoc;
  nought-times = zero_times;
  times-plus = times-plus_lem;
}

same_whole_iff : (a b : Whole) → (same_whole a b ≡ true) ↔ (a ≡ b)
same_whole_iff none none = ground arith
same_whole_iff none (some b) = ground arith
same_whole_iff (some a) none = ground arith
same_whole_iff (some a) (some b) = ground arith

rounded : (q b : ℕ) → b ≢ 0 → (2 * (q * b) + b) / (2 * b) ≡ q
rounded q b h = grind arith

divide_exact :
    (a b : Whole) (q places : ℕ)
    → whole b ≢ 0
    → whole a ≡ q * whole b
    → whole (divide a b places) ≡ q
divide_exact a b q places h e = rw e (rounded q (whole b) h)

pub Whole-IsExact : IsExact Whole ℕ
Whole-IsExact = record {
  num = whole;
  Fits = λ _ _. Unit;
  same_iff = same_whole_iff;
  is_zero_iff = λ a. ground arith;
  num-blank = refl;
  num-add = λ a b. refl;
  num-mul = λ a b. refl;
  of_int_ne_zero = λ k h. h;
  div_round_exact = λ a b q places h e _. divide_exact a b q places h e;
}

pub num-whole : (a : Whole) → Whole-IsExact.num a ≡ whole a
unfolding Whole-IsExact
num-whole a = refl

-- Whole numbers have few enough places for every rounding.
pub whole_fits : (a : Whole) (places : ℕ) → Whole-IsExact.Fits places (Whole-IsExact.num a)
unfolding Whole-IsExact
whole_fits a places = tt

abbrev pub above : Whole → Whole → Bool
above a b = ltb (whole b) (whole a)

abbrev pub minus : Whole → Whole → Whole
minus a b = some (whole a - whole b)

pub whole_of_int : (k : ℕ) → Whole-IsExact.num (whole_decimal.of_int k) ≡ k
unfolding Whole-IsExact
whole_of_int k = refl

pub whole_minus :
    (a b : Whole)
    → above a b ≡ true
    → Whole-IsExact.num (minus a b) + Whole-IsExact.num b ≡ Whole-IsExact.num a
unfolding Whole-IsExact
whole_minus a b h = ground arith
