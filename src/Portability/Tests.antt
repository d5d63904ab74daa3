-- ===== src/Portability/Tests.antt =====
-- The checked arithmetic of src/portability.h at concrete inputs.
use space_captain.Common.{
  ◌≡◌, refl, ◌*◌, ◌+◌, ◌-◌, ◌<◌, ◌≤◌, ◌⊎◌, true, false, arith, size_mod, size_max, ◌^◌,
}
use space_captain.Portability.{mul_overflow, add_overflow, sub_overflow}
use space_captain.Portability.Exact.{checked_exact}

mul_overflow_limits :
    (mul_overflow (2 ^ 60) 8 7 ≡ (false, 2 ^ 63)) × (mul_overflow (2 ^ 61) 8 7 ≡ (true, 7))
unfolding mul_overflow
mul_overflow_limits = (refl, refl)

checked_exact_example :
    (((size_max * 8 < size_mod) × (mul_overflow size_max 8 7 ≡ (false, size_max * 8)))
      ⊎ ((size_mod ≤ size_max * 8) × (mul_overflow size_max 8 7 ≡ (true, 7))))
    × (((size_max + 8 < size_mod) × (add_overflow size_max 8 7 ≡ (false, size_max + 8)))
        ⊎ ((size_mod ≤ size_max + 8) × (add_overflow size_max 8 7 ≡ (true, 7))))
    × (((8 ≤ size_max) × (sub_overflow size_max 8 7 ≡ (false, size_max - 8)))
        ⊎ ((size_max < 8) × (sub_overflow size_max 8 7 ≡ (true, 7))))
checked_exact_example = checked_exact size_max 8 7 (omega arith) (omega arith)
