-- ===== src/Log/Tests.antt =====
-- Logging at concrete levels.
use space_captain.Common.{◌≡◌, refl, [], ◌∷◌}
use space_captain.Log.{stderr, log_error, log_warn}

error_line : log_error 2 "2025-01-01 00:00:01" "no socket" ≡ (
    record { stream = stderr; text = "2025-01-01 00:00:01 " }
    ∷ record { stream = stderr; text = "\u{1b}[31mERROR: \u{1b}[0mno socket\n" }
    ∷ [])
unfolding log_error
error_line = refl

no_warning : log_warn 2 "2025-01-01 00:00:01" "no socket" ≡ []
unfolding log_warn
no_warning = refl
