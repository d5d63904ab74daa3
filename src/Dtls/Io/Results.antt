-- ===== src/Dtls/Io/Results.antt =====
-- The results of the calls on a session tell the answers of Mbed TLS apart.
use space_captain.Common.{
  if◌then◌else◌, ℕ, ℤ, pos, ==ℤ_iff, is_positive, ◌≡◌, ◌↔◌, ◌⊎◌, true, some, arith,
}
use space_captain.Dtls.{Mbed, IsMbed}
use space_captain.Dtls.Codes.{
  ok, error_handshake_timeout, error_would_block, error_peer_closed, error_cert_verify,
}
use space_captain.Dtls.Session.{Session, is_handshake_complete}
use space_captain.Dtls.Io.{handshake, read, write, byte_count}

module _ (m : Mbed) (known : IsMbed m) (s : Session) (ret : ℤ) where
  open m use {want_read, want_write, ssl_timeout, peer_close_notify, cert_verify_failed}

  -- With the error numbers of Mbed TLS, sc_dtls_handshake on a session returns ok, would-block,
  -- timeout and a certificate error exactly for their answers of the library, and the session's
  -- handshake counts as complete afterwards exactly if the answer is 0 or it was complete before.
  pub handshake_results :
      (((handshake m (some s) ret).0 ≡ ok) ↔ (ret ≡ pos 0))
      × (((handshake m (some s) ret).0 ≡ error_would_block)
          ↔ ((ret ≡ want_read) ⊎ (ret ≡ want_write)))
      × (((handshake m (some s) ret).0 ≡ error_handshake_timeout) ↔ (ret ≡ ssl_timeout))
      × (((handshake m (some s) ret).0 ≡ error_cert_verify) ↔ (ret ≡ cert_verify_failed))
      × ((is_handshake_complete (handshake m (some s) ret).1 ≡ true)
          ↔ ((ret ≡ pos 0) ⊎ (s.handshake_complete ≡ true)))
  unfolding handshake is_handshake_complete
  handshake_results = ground (
    arith,
    known,
    ==ℤ_iff ret (pos 0),
    ==ℤ_iff ret want_read,
    ==ℤ_iff ret want_write,
    ==ℤ_iff ret ssl_timeout,
    ==ℤ_iff ret cert_verify_failed,
  )

  -- With the error numbers of Mbed TLS and every pointer given, sc_dtls_read and sc_dtls_write
  -- return ok exactly for a positive answer and would-block exactly if the library wants to read
  -- or write, the read returns peer-closed exactly for a close notification, and the number of
  -- bytes is the positive answer or 0.
  pub io_results :
      (old : ℕ)
      → let r = read m (some s) true (some old) ret in
        let w = write m (some s) true (some old) ret in
        ((r.0 ≡ ok) ↔ (is_positive ret ≡ true))
        × ((r.0 ≡ error_would_block) ↔ ((ret ≡ want_read) ⊎ (ret ≡ want_write)))
        × ((r.0 ≡ error_peer_closed) ↔ (ret ≡ peer_close_notify))
        × (r.1 ≡ some (if is_positive ret then byte_count ret else 0))
        × ((w.0 ≡ ok) ↔ (is_positive ret ≡ true))
        × ((w.0 ≡ error_would_block) ↔ ((ret ≡ want_read) ⊎ (ret ≡ want_write)))
        × (w.1 ≡ some (if is_positive ret then byte_count ret else 0))
  unfolding read write
  io_results old =
      ground
        (arith, known, ==ℤ_iff ret want_read, ==ℤ_iff ret want_write, ==ℤ_iff ret peer_close_notify)
