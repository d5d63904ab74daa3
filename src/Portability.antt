-- ===== src/Portability.antt =====
-- src/portability.h: the overflow-checked arithmetic on `size_t`, as written for compilers without
-- the built-in functions. Each function returns whether the operation overflows, with the value
-- that `*result` then holds: `old` is what it held before.
pub mod Exact
mod Tests
use space_captain.Common.{
  ℕ, ◌+◌, ◌-◌, ◌*◌, ◌/◌, ◌%◌, Bool, true, false, not, ◌&&◌, ltb, ◌==◌, if◌then◌else◌, size_mod,
  size_max,
}

unfoldable pub mul_overflow : ℕ → ℕ → ℕ → Bool × ℕ
mul_overflow a b old =
    if not (a == 0) && ltb (size_max / a) b then (true, old) else (false, a * b % size_mod)

unfoldable pub add_overflow : ℕ → ℕ → ℕ → Bool × ℕ
add_overflow a b old = if ltb (size_max - a) b then (true, old) else (false, (a + b) % size_mod)

unfoldable pub sub_overflow : ℕ → ℕ → ℕ → Bool × ℕ
sub_overflow a b old = if ltb a b then (true, old) else (false, (a + size_mod - b) % size_mod)
