-- ===== src/Portability/Exact.antt =====
-- What the checked operations of src/portability.h promise: the test is exact.
use native.Mathlib.Nat.{le-div_iff_mul-le, mul_comm}
use native.Mathlib.Decide.{dec_le}
use space_captain.Common.{
  ℕ, zero, suc, ◌+◌, ◌-◌, ◌*◌, ◌/◌, ◌≤◌, ◌<◌, ◌≡◌, ◌⊎◌, inl, inr, ◌↔◌, true, false, arith, size_mod,
  size_max,
}
use space_captain.Portability.{mul_overflow, add_overflow, sub_overflow}

-- The checked multiplication of two size_t reports an overflow exactly if the product does not
-- fit; then *result keeps its value, and else it holds the product.
pub mul_overflow_exact :
    (a b old : ℕ)
    → a < size_mod
    → b < size_mod
    → ((a * b < size_mod) × (mul_overflow a b old ≡ (false, a * b)))
      ⊎ ((size_mod ≤ a * b) × (mul_overflow a b old ≡ (true, old)))
unfolding mul_overflow
mul_overflow_exact zero b old ha hb = inl (omega arith, ground arith)
mul_overflow_exact (suc a) b old ha hb = elim (dec_le b (size_max / suc a)) [
  | yes h ↦ inl (omega (arith, fits h), ground (arith, fits h))
  | no h ↦ inr (omega (arith, spills h), ground arith)
]
  where
    law : (b ≤ size_max / suc a) ↔ (b * suc a ≤ size_max)
    law = le-div_iff_mul-le (omega arith)

    fits : b ≤ size_max / suc a → suc a * b ≤ size_max
    fits h = omega (arith, law.0 h, mul_comm b (suc a))

    spills : ¬ (b ≤ size_max / suc a) → size_max < suc a * b
    spills h = elim (dec_le (suc a * b) size_max) [
      | yes g ↦ absurd (h (law.1 (omega (arith, mul_comm b (suc a)))))
      | no g ↦ omega arith
    ]

-- The checked addition of two size_t reports an overflow exactly if the sum does not fit; then
-- *result keeps its value, and else it holds the sum.
add_overflow_exact :
    (a b old : ℕ)
    → a < size_mod
    → b < size_mod
    → ((a + b < size_mod) × (add_overflow a b old ≡ (false, a + b)))
      ⊎ ((size_mod ≤ a + b) × (add_overflow a b old ≡ (true, old)))
unfolding add_overflow
add_overflow_exact a b old ha hb = ground arith

-- The checked subtraction of two size_t reports an underflow exactly if the second is greater;
-- then *result keeps its value, and else it holds the difference.
sub_overflow_exact :
    (a b old : ℕ)
    → a < size_mod
    → b < size_mod
    → ((b ≤ a) × (sub_overflow a b old ≡ (false, a - b)))
      ⊎ ((a < b) × (sub_overflow a b old ≡ (true, old)))
unfolding sub_overflow
sub_overflow_exact a b old ha hb = ground arith

-- The checked multiplication, addition and subtraction of two size_t report an overflow exactly if
-- the product or the sum does not fit, or the second number is greater; then *result keeps its
-- value, and else it holds the exact result.
pub checked_exact :
    (a b old : ℕ)
    → a < size_mod
    → b < size_mod
    → (((a * b < size_mod) × (mul_overflow a b old ≡ (false, a * b)))
        ⊎ ((size_mod ≤ a * b) × (mul_overflow a b old ≡ (true, old))))
      × (((a + b < size_mod) × (add_overflow a b old ≡ (false, a + b)))
          ⊎ ((size_mod ≤ a + b) × (add_overflow a b old ≡ (true, old))))
      × (((b ≤ a) × (sub_overflow a b old ≡ (false, a - b)))
          ⊎ ((a < b) × (sub_overflow a b old ≡ (true, old))))
checked_exact a b old ha hb = (
  mul_overflow_exact a b old ha hb,
  add_overflow_exact a b old ha hb,
  sub_overflow_exact a b old ha hb,
)
