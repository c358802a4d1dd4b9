-- ===== src/Decimal/Order.antt =====
-- The order of decimals by cross multiplication.
use native.Mathlib.Nat.{
  one-le-pow, lt_of_mul-lt-mul_right, mul-lt-mul_of_pos_right, mul-le-mul_right,
}
use hungrx_agent.Prelude.{
  ℕ, ◌*◌, ◌^◌, ◌<◌, ◌≤◌, ◌≡◌, true, false, ◌&&◌, arith, ltb→lt, ltb→ge, lt→ltb, ge→ltb,
}
use hungrx_agent.Decimal.{Decimal, less, greatest}

cross_trans : (a b c x y z : ℕ) → 0 < x → a * y ≤ b * x → b * z < c * y → a * z < c * x
cross_trans a b c x y z hx h k =
    lt_of_mul-lt-mul_right y (omega (arith, mul-le-mul_right z h, mul-lt-mul_of_pos_right k hx))

ten-pow_pos : (n : ℕ) → 0 < 10 ^ n
ten-pow_pos n = one-le-pow n 10 (omega arith)

pub less_trans : (a b c : Decimal) → less b a ≡ false → less b c ≡ true → less a c ≡ true
unfolding less
less_trans a b c h k = lt→ltb _ _ (
    cross_trans a.coefficient b.coefficient c.coefficient _ _ _ (ten-pow_pos a.exponent)
      (ltb→ge _ _ h) (ltb→lt _ _ k))

pub less_asymm : (a b : Decimal) → less a b ≡ true → less b a ≡ false
unfolding less
less_asymm a b h = ge→ltb _ _ (omega (arith, ltb→lt _ _ h))

-- A bound exceeds the greater of two values when it exceeds both.
pub less-greatest : (a b c : Decimal) → less (greatest a b) c ≡ (less a c && less b c)
unfolding greatest
less-greatest a b c = ground (arith, less_asymm a b, less_trans a b c, less_trans b a c)
