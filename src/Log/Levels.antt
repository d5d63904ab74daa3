-- ===== src/Log/Levels.antt =====
-- What a level lets through, over any sequence of calls of the logging macros.
use space_captain.Common.{
  ℕ, ◌≡◌, refl, ◌∙◌, Bool, true, false, List, [], ◌∷◌, ◌++◌, String, leb, arith, if◌then◌else◌,
}
use space_captain.Log.{
  Stream, stdout, stderr, Print, log_fatal, log_error, log_warn, log_info, log_debug,
}

pub data Severity : Type 0 where
  fatal error warn info debug : Severity

-- A call of one of the macros.
pub record Call : Type 0 where
  pub severity : Severity
  pub time_buf : String
  pub message : String

-- What a call writes.
abbrev log : ℕ → Severity → String → String → List Print
log level fatal = log_fatal level
log level error = log_error level
log level warn = log_warn level
log level info = log_info level
log level debug = log_debug level

-- What the calls of a program write, in their order.
abbrev pub log_all : ℕ → List Call → List Print
log_all level [] = []
log_all level (c ∷ cs) = log level c.severity c.time_buf c.message ++ log_all level cs

abbrev rank : Severity → ℕ
rank fatal = 1
rank error = 2
rank warn = 3
rank info = 4
rank debug = 5

-- The calls up to a rank.
abbrev pub up_to : ℕ → List Call → List Call
up_to n [] = []
up_to n (c ∷ cs) = if leb (rank c.severity) n then c ∷ up_to n cs else up_to n cs

abbrev is_stderr : Stream → Bool
is_stderr stdout = false
is_stderr stderr = true

-- What goes to the error stream.
abbrev pub to_stderr : List Print → List Print
to_stderr [] = []
to_stderr (p ∷ ps) = if is_stderr p.stream then p ∷ to_stderr ps else to_stderr ps

to_stderr-append : (xs ys : List Print) → to_stderr (xs ++ ys) ≡ to_stderr xs ++ to_stderr ys
to_stderr-append [] ys = refl
to_stderr-append (p ∷ xs) ys = let rest = to_stderr-append xs ys in ground arith

log-levels :
    (level : ℕ) (s : Severity) (t m : String)
    → log level s t m ≡ (if leb (rank s) level then log 5 s t m else [])
unfolding log_fatal log_error log_warn log_info log_debug
log-levels level fatal t m = ground arith
log-levels level error t m = ground arith
log-levels level warn t m = ground arith
log-levels level info t m = ground arith
log-levels level debug t m = ground arith

log-streams :
    (level : ℕ) (s : Severity) (t m : String)
    → to_stderr (log level s t m) ≡ (if leb (rank s) 2 then log level s t m else [])
unfolding log_fatal log_error log_warn log_info log_debug
log-streams level fatal t m = ground arith
log-streams level error t m = ground arith
log-streams level warn t m = ground arith
log-streams level info t m = ground arith
log-streams level debug t m = ground arith

log_all-if :
    (b : Bool) (level : ℕ) (c : Call) (cs : List Call)
    → (if b then log level c.severity c.time_buf c.message else []) ++ log_all level cs
      ≡ log_all level (if b then c ∷ cs else cs)
log_all-if true level c cs = refl
log_all-if false level c cs = refl

-- Over any sequence of calls of the logging macros, what is written at a LOG_LEVEL is what the
-- same program with only the calls up to that level writes at the highest level, and what goes to
-- the error stream is what it writes with only its fatal and error calls.
log_all-Filters :
    (level : ℕ) (cs : List Call)
    → (log_all level cs ≡ log_all 5 (up_to level cs))
      × (to_stderr (log_all level cs) ≡ log_all level (up_to 2 cs))
log_all-Filters level [] = (refl, refl)
log_all-Filters level (c ∷ cs) =
    let (all, errors) = log_all-Filters level cs in
    (
      rw (log-levels level c.severity c.time_buf c.message, all)
          (log_all-if (leb (rank c.severity) level) 5 c (up_to level cs)),
      to_stderr-append (log level c.severity c.time_buf c.message) (log_all level cs)
          ∙ rw (log-streams level c.severity c.time_buf c.message, errors)
              (log_all-if (leb (rank c.severity) 2) level c (up_to 2 cs)),
    )
