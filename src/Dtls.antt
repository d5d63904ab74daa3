-- ===== src/Dtls.antt =====
-- src/dtls.h and src/dtls.c: DTLS over Mbed TLS. The library is not part of the program: what its
-- calls return is an argument here, and its error numbers are a record. The children hold the
-- contexts, the sessions, the callbacks, and the proofs.
pub mod Codes
pub mod Context
pub mod Session
pub mod Io
pub mod Transport
pub mod Verify
pub mod Inputs
mod Debug
mod Tests
use space_captain.Common.{ℤ, Bool, true, false, List, ℕ, Option, ◌≡◌, ◌≢◌, is_negative}
use Codes.{Result, ok}

-- The error numbers of Mbed TLS that the program compares with.
pub record Mbed : Type 0 where
  pub want_read : ℤ
  pub want_write : ℤ
  pub ssl_timeout : ℤ
  pub peer_close_notify : ℤ
  pub cert_verify_failed : ℤ
  pub net_send_failed : ℤ
  pub net_recv_failed : ℤ
  pub badcert_not_trusted : ℕ

-- What the headers of Mbed TLS document of them: they are negative, and all different.
pub record IsMbed (m : Mbed) : Type 0 where
  pub want_read_negative : is_negative m.want_read ≡ true
  pub want_write_negative : is_negative m.want_write ≡ true
  pub ssl_timeout_negative : is_negative m.ssl_timeout ≡ true
  pub peer_close_negative : is_negative m.peer_close_notify ≡ true
  pub verify_failed_negative : is_negative m.cert_verify_failed ≡ true
  pub send_failed_negative : is_negative m.net_send_failed ≡ true
  pub recv_failed_negative : is_negative m.net_recv_failed ≡ true
  pub timeout_want_read : m.ssl_timeout ≢ m.want_read
  pub timeout_want_write : m.ssl_timeout ≢ m.want_write
  pub close_want_read : m.peer_close_notify ≢ m.want_read
  pub close_want_write : m.peer_close_notify ≢ m.want_write
  pub verify_want_read : m.cert_verify_failed ≢ m.want_read
  pub verify_want_write : m.cert_verify_failed ≢ m.want_write
  pub verify_timeout : m.cert_verify_failed ≢ m.ssl_timeout
  pub recv_want_read : m.net_recv_failed ≢ m.want_read
  pub recv_timeout : m.net_recv_failed ≢ m.ssl_timeout
  pub send_want_write : m.net_send_failed ≢ m.want_write

-- `dtls_role_t`
pub data Role : Type 0 where
  client server : Role

abbrev pub is_client : Role → Bool
is_client client = true
is_client server = false

abbrev pub is_server : Role → Bool
is_server client = false
is_server server = true

-- `sc_dtls_init`: the flag `g_dtls_initialized` afterwards, and the result
unfoldable pub init : Bool → Bool × Result
init true = (true, ok)
init false = (true, ok)

-- `sc_dtls_cleanup`: the flag afterwards
unfoldable pub cleanup : Bool → Bool
cleanup initialized = false
