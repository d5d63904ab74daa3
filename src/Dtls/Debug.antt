-- ===== src/Dtls/Debug.antt =====
-- The callback of src/dtls.c for the debug messages of Mbed TLS.
use Prim.Native.String.{◌++◌ as push_str}
use space_captain.Common.{
  ℕ, ℤ, pos, negsuc, ◌≡◌, Bool, true, List, [], String, leb, arith, if◌then◌else◌,
}
use space_captain.Log.{Print, log_debug}

abbrev is_at_most_3 : ℤ → Bool
is_at_most_3 (pos n) = leb n 3
is_at_most_3 (negsuc n) = true

-- `debug_callback`, over `LOG_LEVEL` and the time
unfoldable debug_callback : ℕ → String → ℤ → String → List Print
unfolding log_debug
debug_callback log_level time_buf level str =
    if leb 5 log_level
    then (if is_at_most_3 level
        then log_debug log_level time_buf (push_str "mbedtls: " str)
        else [])
    else []

-- The test of `LOG_LEVEL` adds nothing to that of the macro.
debug_callback_lem :
    (log_level : ℕ) (time_buf : String) (level : ℤ) (str : String)
    → debug_callback log_level time_buf level str
      ≡ (if is_at_most_3 level then log_debug log_level time_buf (push_str "mbedtls: " str) else [])
unfolding debug_callback
debug_callback_lem log_level time_buf level str = ground arith
