-- ===== src/Double.antt =====
-- The `double` of the program: its comparisons, its arithmetic and the conversions are the
-- machine's, so they are parameters. A literal is a number of thousandths, which covers every
-- literal in the sources. NaN is the value that is not `<=` itself.
pub mod Fixed
use betterconn.Prelude.{ℕ, ◌^◌, ◌≤◌, ◌<◌, ◌≡◌, Bool, true, false, ◌&&◌, if◌then◌else◌, Option, Text}

pub record Double : Type 1 where
  pub Real : Type 0
  pub lt : Real → Real → Bool
  pub le : Real → Real → Bool
  pub add : Real → Real → Real
  pub sub : Real → Real → Real
  pub mul : Real → Real → Real
  pub div : Real → Real → Real
  pub neg : Real → Real
  pub exp : Real → Real
  -- `static_cast<double>` of an unsigned integer, and back
  pub of_ℕ : ℕ → Real
  pub to_u64 : Real → ℕ
  -- `std::stod`, with `none` for the exception, and `stream >> x` for a `double`: what is read with
  -- the rest of the text, or `none` where the stream then fails
  pub stod : Text → Option Real
  pub read_double : Text → Option (Real × Text)
  -- the literal `n / 1000`
  pub milli : ℕ → Real

module _ ⦃d : Double⦄ where
  open d use {Real, lt, le, milli, neg}

  -- `std::max` and `std::min`, which return their first argument when the two are unordered
  abbrev pub real_max : Real → Real → Real
  real_max a b = if lt a b then b else a

  abbrev pub real_min : Real → Real → Real
  real_min a b = if lt b a then b else a

  -- `x > 0.0`
  abbrev pub positive : Real → Bool
  positive x = lt (milli 0) x

  -- `a == b`, which holds of no NaN
  abbrev pub real_eq : Real → Real → Bool
  real_eq a b = le a b && le b a

  -- the literal `-1.0`
  abbrev pub minus_one_real : Real
  minus_one_real = neg (milli 1000)

-- What IEEE 754 says of comparisons, of literals with few digits, and of sums with a
-- non-negative number.
pub record IsOrdered (d : Double) : Type 0 where
  pub le_of_lt : (a b : d.Real) → d.lt a b ≡ true → d.le a b ≡ true
  pub le_trans : (a b c : d.Real) → d.le a b ≡ true → d.le b c ≡ true → d.le a c ≡ true
  pub lt_le_trans : (a b c : d.Real) → d.lt a b ≡ true → d.le b c ≡ true → d.lt a c ≡ true
  pub lt-not_le : (a b : d.Real) → d.lt a b ≡ true → d.le b a ≡ false
  pub lt_of_not_le :
      (a b : d.Real) → d.le a a ≡ true → d.le b b ≡ true → d.le a b ≡ false → d.lt b a ≡ true
  pub milli_le : (a b : ℕ) → a ≤ b → d.le (d.milli a) (d.milli b) ≡ true
  pub milli_lt : (a b : ℕ) → a < b → b < 10 ^ 12 → d.lt (d.milli a) (d.milli b) ≡ true
  pub le-add :
      (a b : d.Real) → d.le (d.milli 0) b ≡ true → d.le a a ≡ true → d.le a (d.add a b) ≡ true
  pub sub-le :
      (a b : d.Real) → d.le (d.milli 0) b ≡ true → d.le a a ≡ true → d.le (d.sub a b) a ≡ true
