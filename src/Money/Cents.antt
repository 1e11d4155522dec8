-- ===== src/Money/Cents.antt =====
-- A decimal with two places, which meets the laws: whole cents, products and quotients cut off.
use edgelord.Common.{◌+◌, ◌*◌, ◌/◌, ◌^◌, refl, arith}
use edgelord.Common.Int.{ℤ, pos, negsuc, pos_part, neg_part, sub_ℕ, ◌+ℤ◌, ◌-ℤ◌, ltb_ℤ}
use edgelord.Money.Defs.{Decimal, IsExact, ◌≼◌}

abbrev pub mul_cents : ℤ → ℤ → ℤ
mul_cents a b =
    sub_ℕ ((pos_part a * pos_part b + neg_part a * neg_part b) / 100)
      ((pos_part a * neg_part b + neg_part a * pos_part b) / 100)

abbrev pub div_cents : ℤ → ℤ → ℤ
div_cents a b =
    sub_ℕ
      ((pos_part a * pos_part b + neg_part a * neg_part b) * 100 / ((pos_part b + neg_part b) ^ 2))
      ((pos_part a * neg_part b + neg_part a * pos_part b) * 100 / ((pos_part b + neg_part b) ^ 2))

instance abbrev pub cents : Decimal ℤ
cents = record {
  nought = pos 0;
  one = pos 100;
  largest = pos (10 ^ 30);
  scaled = λ n s. pos (n * 100 / (10 ^ s));
  add = ◌+ℤ◌;
  sub = ◌-ℤ◌;
  mul = mul_cents;
  div = div_cents;
  lt = ltb_ℤ;
}

pub mul_cents_nonneg : (a b : ℤ) → pos 0 ≼ a → pos 0 ≼ b → pos 0 ≼ mul_cents a b
mul_cents_nonneg (pos m) (pos n) h k = ground arith
mul_cents_nonneg (negsuc m) b h k = ground arith
mul_cents_nonneg (pos m) (negsuc n) h k = ground arith

instance abbrev pub cents-IsExact : IsExact ℤ
cents-IsExact = record {
  value = λ a. a;
  value-nought = refl;
  value-add = λ a b. refl;
  value-sub = λ a b. refl;
  lt_lem = λ a b. refl;
  value_injective = λ a b e. e;
  mul_nonneg = mul_cents_nonneg;
}
