-- ===== src/Dtls/Codes/Messages.antt =====
-- The texts of `sc_dtls_error_string` tell the results apart.
use text.Mathlib.Text.{◌==◌ as str_eq}
use space_captain.Common.{
  ℤ, ◌==ℤ◌, ==ℤ_iff, if◌then◌else◌, String, ◌≡◌, ◌≢◌, ◌↔◌, refl, sym, ap, ◌∙◌, Option, none, some,
  false, inl, inr, Bool-cases,
}
use space_captain.Dtls.Codes.{
  Result, ok, error_init, error_handshake, error_handshake_timeout, error_read, error_write,
  error_would_block, error_peer_closed, error_invalid_params, error_memory, error_cert_verify, code,
  error_string,
}

read_text : String → Option Result
read_text s =
    if str_eq s "Success"
    then some ok
    else if str_eq s "Initialization failed"
    then some error_init
    else if str_eq s "Handshake failed"
    then some error_handshake
    else if str_eq s "Handshake timeout"
    then some error_handshake_timeout
    else if str_eq s "Read failed"
    then some error_read
    else if str_eq s "Write failed"
    then some error_write
    else if str_eq s "Operation would block"
    then some error_would_block
    else if str_eq s "Peer closed connection"
    then some error_peer_closed
    else if str_eq s "Invalid parameters"
    then some error_invalid_params
    else if str_eq s "Memory allocation failed"
    then some error_memory
    else if str_eq s "Certificate verification failed"
    then some error_cert_verify
    else none

read_text-error_string : (r : Result) → read_text (error_string (code r)) ≡ some r
unfolding read_text error_string code
read_text-error_string ok = refl
read_text-error_string error_init = refl
read_text-error_string error_handshake = refl
read_text-error_string error_handshake_timeout = refl
read_text-error_string error_read = refl
read_text-error_string error_write = refl
read_text-error_string error_would_block = refl
read_text-error_string error_peer_closed = refl
read_text-error_string error_invalid_params = refl
read_text-error_string error_memory = refl
read_text-error_string error_cert_verify = refl

known : (r : Result) → error_string (code r) ≢ "Unknown error"
unfolding read_text
known r h = cc (read_text-error_string r, ap read_text h)

miss : (z : ℤ) (r : Result) → code r ≢ z → (z ==ℤ code r) ≡ false
miss z r h = elim (Bool-cases (z ==ℤ code r)) [
  | inl hit ↦ absurd (h (sym ((==ℤ_iff z (code r)).0 hit)))
  | inr m ↦ m
]

unknown : (z : ℤ) → ((r : Result) → code r ≢ z) → error_string z ≡ "Unknown error"
unfolding error_string
unknown z h = rw (
  error_string,
  miss z ok (h ok),
  miss z error_init (h error_init),
  miss z error_handshake (h error_handshake),
  miss z error_handshake_timeout (h error_handshake_timeout),
  miss z error_read (h error_read),
  miss z error_write (h error_write),
  miss z error_would_block (h error_would_block),
  miss z error_peer_closed (h error_peer_closed),
  miss z error_invalid_params (h error_invalid_params),
  miss z error_memory (h error_memory),
  miss z error_cert_verify (h error_cert_verify),
)

-- The results of the DTLS layer have the same text exactly if they are the same, and the text for
-- a number is "Unknown error" exactly if the number is no result.
error_string_tells :
    (q r : Result) (z : ℤ)
    → ((error_string (code q) ≡ error_string (code r)) ↔ (q ≡ r))
      × ((error_string z ≡ "Unknown error") ↔ ((s : Result) → code s ≢ z))
error_string_tells q r z = (
  (
    λ h. cc (read_text-error_string q, read_text-error_string r, ap read_text h),
    λ e. ap (λ s. error_string (code s)) e,
  ),
  (λ h s p. known s (ap error_string p ∙ h), unknown z),
)
