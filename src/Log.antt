-- ===== src/Log.antt =====
-- The logging macros of src/log.h. `LOG_LEVEL` is an argument, and so are what `strftime` leaves in
-- the buffer for the time and what the format of a message and its arguments give.
pub mod Levels
mod Tests
use Prim.Native.String.{◌++◌ as push_str}
use space_captain.Common.{ℕ, List, [], ◌∷◌, ◌++◌, String, leb, if◌then◌else◌}

abbrev log_level_none : ℕ
log_level_none = 0

abbrev log_level_fatal : ℕ
log_level_fatal = 1

abbrev log_level_error : ℕ
log_level_error = 2

abbrev log_level_warn : ℕ
log_level_warn = 3

abbrev log_level_info : ℕ
log_level_info = 4

abbrev log_level_debug : ℕ
log_level_debug = 5

-- The colours of the terminal.
abbrev knrm : String
knrm = "\u{1b}[0m"

abbrev kred : String
kred = "\u{1b}[31m"

abbrev kgrn : String
kgrn = "\u{1b}[32m"

abbrev kyel : String
kyel = "\u{1b}[33m"

abbrev kblu : String
kblu = "\u{1b}[34m"

pub data Stream : Type 0 where
  stdout stderr : Stream

-- What a call of `fprintf` writes.
pub record Print : Type 0 where
  pub stream : Stream
  pub text : String

-- `log_timestamp`
unfoldable log_timestamp : Stream → String → List Print
log_timestamp stream time_buf = record { stream = stream; text = push_str time_buf " " } ∷ []

-- `log_base`
unfoldable log_base : String → String → Stream → String → String → List Print
unfolding log_timestamp
log_base level color stream time_buf message =
    log_timestamp stream time_buf
    ++ (record {
      stream = stream;
      text =
          push_str color (push_str level (push_str ": " (push_str knrm (push_str message "\n"))));
    }
        ∷ [])

-- `log_fatal`, over `LOG_LEVEL`, the time and the message
unfoldable pub log_fatal : ℕ → String → String → List Print
unfolding log_base
log_fatal level time_buf message =
    if leb log_level_fatal level then log_base "FATAL" kred stderr time_buf message else []

-- `log_error`, over `LOG_LEVEL`, the time and the message
unfoldable pub log_error : ℕ → String → String → List Print
unfolding log_base
log_error level time_buf message =
    if leb log_level_error level then log_base "ERROR" kred stderr time_buf message else []

-- `log_warn`, over `LOG_LEVEL`, the time and the message
unfoldable pub log_warn : ℕ → String → String → List Print
unfolding log_base
log_warn level time_buf message =
    if leb log_level_warn level then log_base "WARN " kyel stdout time_buf message else []

-- `log_info`, over `LOG_LEVEL`, the time and the message
unfoldable pub log_info : ℕ → String → String → List Print
unfolding log_base
log_info level time_buf message =
    if leb log_level_info level then log_base "INFO " kgrn stdout time_buf message else []

-- `log_debug`, over `LOG_LEVEL`, the time and the message
unfoldable pub log_debug : ℕ → String → String → List Print
unfolding log_base
log_debug level time_buf message =
    if leb log_level_debug level then log_base "DEBUG" kblu stdout time_buf message else []
