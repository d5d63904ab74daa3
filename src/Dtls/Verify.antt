-- ===== src/Dtls/Verify.antt =====
-- The certificate callback of src/dtls.c, and the hash of a certificate file. SHA-256 of Mbed TLS
-- is a parameter.
pub mod Pinning
pub mod File
use Prim.Native.Nat.{bit_or}
use space_captain.Common.{
  ℕ, ℤ, pos, ◌==ℤ◌, Bool, true, false, not, ◌&&◌, ◌||◌, Option, none, some, List, ◌==◌,
  if◌then◌else◌, take, String,
}
use space_captain.Dtls.{Mbed, is_client}
use space_captain.Dtls.Codes.{Result, ok, error_init, error_invalid_params}
use space_captain.Dtls.Context.{is_pinned}
use space_captain.Dtls.Session.{Session}
use space_captain.Dtls.Transport.{same_bytes}

module _ (m : Mbed) (sha256 : List ℕ → List ℕ) where
  open m use {cert_verify_failed, badcert_not_trusted}

  -- The comparison with a pinned hash: what is returned, and `*flags` afterwards.
  unfoldable pub compare_pin : List ℕ → ℕ → List ℕ → ℕ → ℤ × ℕ
  compare_pin hash len raw flags =
      if not (same_bytes (take len (sha256 raw)) (take len hash))
      then (cert_verify_failed, bit_or flags badcert_not_trusted)
      else (pos 0, 0)

  -- `cert_verify_callback`, over the raw certificate
  unfoldable pub cert_verify_callback : Session → List ℕ → ℕ → ℕ → ℤ × ℕ
  cert_verify_callback session raw depth flags = elim session.ctx.pinned_cert_hash [
    | none ↦ (pos 0, flags)
    | some hash ↦
        if not (is_client session.ctx.role) || not (depth == 0)
        then (pos 0, flags)
        else compare_pin hash session.ctx.pinned_cert_hash_len raw flags
  ]

  -- `sc_dtls_cert_hash`: the result, and the array that `hash` points to, `none` for NULL. `parsed`
  -- is what reading the file gives: an error, or the raw certificate.
  unfoldable pub cert_hash : Option String → Option (List ℕ) → ℤ → List ℕ → Result × Option (List ℕ)
  cert_hash none hash ret raw = (error_invalid_params, hash)
  cert_hash (some cert_path) none ret raw = (error_invalid_params, none)
  cert_hash (some cert_path) (some old) ret raw =
      if not (ret ==ℤ pos 0) then (error_init, some old) else (ok, some (sha256 raw))
