-- ===== src/Dtls/Io.antt =====
-- Handshake, read, write and close of src/dtls.c. What the call of Mbed TLS returns is an argument;
-- a session that is NULL is `none`.
pub mod Results
use space_captain.Common.{
  ℕ, ℤ, pos, negsuc, ◌==ℤ◌, is_positive, Bool, true, false, ◌||◌, Option, none, some, if◌then◌else◌,
}
use space_captain.Dtls.{Mbed}
use space_captain.Dtls.Codes.{
  Result, ok, error_handshake, error_handshake_timeout, error_read, error_write, error_would_block,
  error_peer_closed, error_invalid_params, error_cert_verify,
}
use space_captain.Dtls.Session.{Session}

-- The number of bytes in a positive answer.
abbrev pub byte_count : ℤ → ℕ
byte_count (pos n) = n
byte_count (negsuc n) = 0

module _ (m : Mbed) where
  open m use {want_read, want_write, ssl_timeout, peer_close_notify, cert_verify_failed}

  abbrev pub wants_more : ℤ → Bool
  wants_more ret = (ret ==ℤ want_read) || (ret ==ℤ want_write)

  -- `sc_dtls_handshake`: the result, and the session afterwards
  unfoldable pub handshake : Option Session → ℤ → Result × Option Session
  handshake none ret = (error_invalid_params, none)
  handshake (some session) ret =
      if ret ==ℤ pos 0
      then (ok, some (record session { handshake_complete = true }))
      else if wants_more ret
      then (error_would_block, some session)
      else if ret ==ℤ ssl_timeout
      then (error_handshake_timeout, some session)
      else if ret ==ℤ cert_verify_failed
      then (error_cert_verify, some session)
      else (error_handshake, some session)

  -- `sc_dtls_read`: the result and `*bytes_read`, `none` if that is NULL. `has_buf` says that
  -- `buf` is not NULL.
  unfoldable pub read : Option Session → Bool → Option ℕ → ℤ → Result × Option ℕ
  read none has_buf bytes_read ret = (error_invalid_params, bytes_read)
  read (some session) false bytes_read ret = (error_invalid_params, bytes_read)
  read (some session) true none ret = (error_invalid_params, none)
  read (some session) true (some old) ret =
      if is_positive ret
      then (ok, some (byte_count ret))
      else if wants_more ret
      then (error_would_block, some 0)
      else if ret ==ℤ peer_close_notify
      then (error_peer_closed, some 0)
      else (error_read, some 0)

  -- `sc_dtls_write`, in the same way
  unfoldable pub write : Option Session → Bool → Option ℕ → ℤ → Result × Option ℕ
  write none has_buf bytes_written ret = (error_invalid_params, bytes_written)
  write (some session) false bytes_written ret = (error_invalid_params, bytes_written)
  write (some session) true none ret = (error_invalid_params, none)
  write (some session) true (some old) ret =
      if is_positive ret
      then (ok, some (byte_count ret))
      else if wants_more ret
      then (error_would_block, some 0)
      else (error_write, some 0)

-- `sc_dtls_close`: whether a close notification is sent
unfoldable pub close : Option Session → Bool
close none = false
close (some session) = true
