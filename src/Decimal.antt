-- ===== src/Decimal.antt =====
-- Python's `decimal.Decimal`, for the finite values at least 0 that the schemas admit: the value is
-- `coefficient / 10 ^ exponent`. Sums and products are exact, as Python's are up to 28 digits.
pub mod Order
use hungrx_agent.Prelude.{ℕ, ◌+◌, ◌-◌, ◌*◌, ◌^◌, Bool, ltb, ◌==◌, if◌then◌else◌}

pub record Decimal : Type 0 where
  pub coefficient : ℕ
  pub exponent : ℕ

abbrev pub decimal : ℕ → Decimal
decimal n = record { coefficient = n; exponent = 0 }

-- The coefficient of the first when both are written over the product of the two powers of ten.
abbrev pub aligned : Decimal → Decimal → ℕ
aligned a b = a.coefficient * 10 ^ b.exponent

-- `a < b`
unfoldable pub less : Decimal → Decimal → Bool
less a b = ltb (aligned a b) (aligned b a)

unfoldable pub is_zero : Decimal → Bool
is_zero a = a.coefficient == 0

unfoldable pub add : Decimal → Decimal → Decimal
add a b = record { coefficient = aligned a b + aligned b a; exponent = a.exponent + b.exponent }

unfoldable pub mul : Decimal → Decimal → Decimal
mul a b = record { coefficient = a.coefficient * b.coefficient; exponent = a.exponent + b.exponent }

-- `abs(a - b)`: of the two differences that stop at 0, one is the distance and the other is 0.
unfoldable pub distance : Decimal → Decimal → Decimal
distance a b = record {
  coefficient = (aligned a b - aligned b a) + (aligned b a - aligned a b);
  exponent = a.exponent + b.exponent;
}

-- `max(a, b)`: the first, unless the second is greater
unfoldable pub greatest : Decimal → Decimal → Decimal
unfolding less
greatest a b = if less a b then b else a
