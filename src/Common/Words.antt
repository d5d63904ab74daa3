-- ===== src/Common/Words.antt =====
-- `size_t` of a 64-bit target: a number below 2 ^ 64, with wrap-around written out.
use Prim.Native.Nat.{ℕ, ◌+◌, ◌-◌, ◌%◌, ◌^◌}

abbrev pub size_mod : ℕ
size_mod = 2 ^ 64

abbrev pub size_max : ℕ
size_max = 2 ^ 64 - 1

abbrev pub inc_size : ℕ → ℕ
inc_size a = (a + 1) % size_mod

abbrev pub dec_size : ℕ → ℕ
dec_size a = (a + size_mod - 1) % size_mod
