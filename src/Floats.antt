-- ===== src/Floats.antt =====
-- The floating-point numbers of the program, as a parameter: their operations, and the laws of
-- comparison that the ranking code relies on. No computation on floats is given a meaning here.
use antminer_chip_tuner.Prelude.{ℕ, ◌≡◌, Bool, true, false, not, arith}
use antminer_chip_tuner.Prelude.Int.{ℤ, pos, ◌+ℤ◌, ◌-ℤ◌, ◌*ℤ◌, ◌/ℤ◌, ltb_ℤ, leb_ℤ}

pub record Floats : Type 1 where
  pub Num : Type 0
  pub of_ℕ : ℕ → Num
  pub neg : Num → Num
  pub add : Num → Num → Num
  pub sub : Num → Num → Num
  pub mul : Num → Num → Num
  pub div : Num → Num → Num
  pub ltb : Num → Num → Bool
  pub leb : Num → Num → Bool

-- IEEE 754 comparison of values that are no NaN: `<` is a strict weak order, `<=` its complement
-- with the sides exchanged, and negation reverses it.
pub record IsOrdered (fl : Floats) : Type 0 where
  pub irrefl : (a : fl.Num) → fl.ltb a a ≡ false
  pub trans : (a b c : fl.Num) → fl.ltb a b ≡ true → fl.ltb b c ≡ true → fl.ltb a c ≡ true
  pub weak : (a b c : fl.Num) → fl.ltb a b ≡ false → fl.ltb b c ≡ false → fl.ltb a c ≡ false
  pub neg_ltb : (a b : fl.Num) → fl.ltb (fl.neg a) (fl.neg b) ≡ fl.ltb b a
  pub leb_not : (a b : fl.Num) → fl.leb a b ≡ not (fl.ltb b a)

-- The integers, for tests: every law above holds of them.
abbrev pub int_floats : Floats
int_floats = record {
  Num = ℤ;
  of_ℕ = pos;
  neg = λ a. pos 0 -ℤ a;
  add = λ a b. a +ℤ b;
  sub = λ a b. a -ℤ b;
  mul = λ a b. a *ℤ b;
  div = λ a b. a /ℤ b;
  ltb = ltb_ℤ;
  leb = leb_ℤ;
}

pub int_floats-IsOrdered : IsOrdered int_floats
int_floats-IsOrdered = record {
  irrefl = λ a. ground arith;
  trans = λ a b c h k. ground arith;
  weak = λ a b c h k. ground arith;
  neg_ltb = λ a b. ground arith;
  leb_not = λ a b. ground arith;
}
