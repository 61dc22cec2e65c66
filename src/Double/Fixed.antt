-- ===== src/Double/Fixed.antt =====
-- A value for the parameter: whole thousandths of either sign, read as whole numbers. It shows that the laws can be
-- met, and lets the definitions run.
use mathlib.Core.Option
use betterconn.Prelude.{Option, none, some, Text, ◌+◌, ◌*◌, ◌/◌, arith}
use betterconn.Prelude.Int.{ℤ, pos, pos_part, neg_part, sub_ℕ, ltb_ℤ, leb_ℤ}
use betterconn.Text.Stream.{read_int}
use betterconn.Double.{Double, IsOrdered}

abbrev product : ℤ → ℤ → ℤ
product a b =
    sub_ℕ ((pos_part a * pos_part b + neg_part a * neg_part b) / 1000)
      ((pos_part a * neg_part b + neg_part a * pos_part b) / 1000)

abbrev quotient : ℤ → ℤ → ℤ
quotient a b =
    let size = pos_part b + neg_part b in
    sub_ℕ ((pos_part a * pos_part b + neg_part a * neg_part b) * 1000 / (size * size))
      ((pos_part a * neg_part b + neg_part a * pos_part b) * 1000 / (size * size))

-- A falling function from 1 at 0 towards 0, in place of the exponential.
abbrev falling : ℤ → ℤ
falling a = pos (1000000 / (1000 + neg_part a))

abbrev thousandths : ℤ → ℤ
thousandths a = sub_ℕ (pos_part a * 1000) (neg_part a * 1000)

abbrev read_whole : Option (ℤ × Text) → Option (ℤ × Text)
read_whole none = none
read_whole (some (n, rest)) = some (thousandths n, rest)

instance abbrev pub fixed : Double
fixed = record {
  Real = ℤ;
  lt = ltb_ℤ;
  le = leb_ℤ;
  add = λ a b. sub_ℕ (pos_part a + pos_part b) (neg_part a + neg_part b);
  sub = λ a b. sub_ℕ (pos_part a + neg_part b) (neg_part a + pos_part b);
  mul = product;
  div = quotient;
  neg = λ a. sub_ℕ (neg_part a) (pos_part a);
  exp = falling;
  of_ℕ = λ n. pos (n * 1000);
  to_u64 = λ a. pos_part a / 1000;
  stod = λ s. Option.map (λ r. r.0) (read_whole (read_int s));
  read_double = λ s. read_whole (read_int s);
  milli = pos;
}

pub fixed-IsOrdered : IsOrdered fixed
fixed-IsOrdered = record {
  le_of_lt = λ a b h. ground arith;
  le_trans = λ a b c h k. ground arith;
  lt_le_trans = λ a b c h k. ground arith;
  lt-not_le = λ a b h. ground arith;
  lt_of_not_le = λ a b h k e. ground arith;
  milli_le = λ a b h. ground arith;
  milli_lt = λ a b h k. ground arith;
  le-add = λ a b h k. ground arith;
  sub-le = λ a b h k. ground arith;
}
