-- ===== src/Dtls/Verify/Pinning.antt =====
-- A client with a pinned hash accepts one certificate only.
use Prim.Native.Nat.{bit_or}
use space_captain.Common.{
  ℕ, ℤ, pos, is_negative, ◌≡◌, ◌≢◌, ◌↔◌, ◌⊎◌, true, some, List, [], ◌∷◌, arith, refl, ap, take,
  length, suc, zero,
}
use space_captain.Dtls.{Mbed, IsMbed, client}
use space_captain.Dtls.Session.{Session}
use space_captain.Dtls.Transport.Source.{same_bytes_iff}
use space_captain.Dtls.Verify.{compare_pin, cert_verify_callback}

pub take_all {ℓ} : {A : Type ℓ} (n : ℕ) (xs : List A) → length xs ≡ n → take n xs ≡ xs
take_all zero [] h = refl
take_all zero (x ∷ xs) h = absurd (omega arith)
take_all (suc n) [] h = refl
take_all (suc n) (x ∷ xs) h = ap (◌∷◌ x) (take_all n xs (omega arith))

-- The verdict on a certificate: accepted with the flags cleared, or refused with one flag more.
abbrev pub Verdict : Mbed → (List ℕ → List ℕ) → List ℕ → List ℕ → ℕ → ℤ × ℕ → Type 0
Verdict m sha256 hash raw flags r =
    ((r.0 ≡ pos 0) ↔ (sha256 raw ≡ hash))
    × (((sha256 raw ≡ hash) × (r ≡ (pos 0, 0)))
        ⊎ ((sha256 raw ≢ hash) × (r ≡ (m.cert_verify_failed, bit_or flags m.badcert_not_trusted))))

compare_pin-Verdict :
    (m : Mbed) (sha256 : List ℕ → List ℕ) (hash raw : List ℕ) (flags : ℕ)
    → is_negative m.cert_verify_failed ≡ true
    → length hash ≡ 32
    → length (sha256 raw) ≡ 32
    → Verdict m sha256 hash raw flags (compare_pin m sha256 hash 32 raw flags)
unfolding compare_pin
compare_pin-Verdict m sha256 hash raw flags negative hh hs =
    rw (take_all 32 hash hh, take_all 32 (sha256 raw) hs)
      (ground (arith, same_bytes_iff (sha256 raw) hash))

callback_compares :
    (m : Mbed) (sha256 : List ℕ → List ℕ) (s : Session) (hash raw : List ℕ) (flags : ℕ)
    → s.ctx.role ≡ client
    → s.ctx.pinned_cert_hash ≡ some hash
    → s.ctx.pinned_cert_hash_len ≡ 32
    → cert_verify_callback m sha256 s raw 0 flags ≡ compare_pin m sha256 hash 32 raw flags
unfolding cert_verify_callback
callback_compares m sha256 s hash raw flags r p l = ground arith

-- With the error numbers of Mbed TLS, for a client's session with a pinned hash of 32 bytes and a
-- SHA-256 that gives 32 bytes here, the certificate callback returns 0 for the peer's own
-- certificate (depth 0) exactly if the hash of the certificate is the pinned one, and clears the
-- flags then; otherwise it returns the verification error and adds the flag of an untrusted
-- certificate.
pub pinned_accepts :
    (m : Mbed) (sha256 : List ℕ → List ℕ) (s : Session) (hash raw : List ℕ) (flags : ℕ)
    → IsMbed m
    → s.ctx.role ≡ client
    → s.ctx.pinned_cert_hash ≡ some hash
    → s.ctx.pinned_cert_hash_len ≡ 32
    → length hash ≡ 32
    → length (sha256 raw) ≡ 32
    → Verdict m sha256 hash raw flags (cert_verify_callback m sha256 s raw 0 flags)
pinned_accepts m sha256 s hash raw flags known r p l hh hs =
    rw (callback_compares m sha256 s hash raw flags r p l)
      (compare_pin-Verdict m sha256 hash raw flags known.verify_failed_negative hh hs)
