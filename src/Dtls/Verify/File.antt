-- ===== src/Dtls/Verify/File.antt =====
-- A client that pins the hash of a certificate file: `sc_dtls_cert_hash`, the creation of the
-- context
-- and of a session, and the callback on certificates together.
use space_captain.Common.{
  ℕ, ℤ, pos, ◌≡◌, true, Option, some, List, String, ap, ◌∙◌, subst, arith, length,
}
use space_captain.Dtls.{Mbed, IsMbed, client}
use space_captain.Dtls.Context.{Context, ContextEnv, context_create}
use space_captain.Dtls.Context.Settings.{HasSettings, Settles, context_create-Settles}
use space_captain.Dtls.Session.{SockAddr, Session, SessionEnv, session_create, new_session}
use space_captain.Dtls.Session.Create.{created}
use space_captain.Dtls.Verify.{cert_hash, cert_verify_callback}
use space_captain.Dtls.Verify.Pinning.{Verdict, pinned_accepts, take_all}

-- The context of a client that gives a hash of 32 bytes.
pinning :
    (cert_path key_path : Option String) (hash : List ℕ) (env : ContextEnv) (ctx : Context)
    → (context_create true client cert_path key_path (some hash) 32 env).context ≡ some ctx
    → HasSettings client (some hash) 32 ctx
pinning cert_path key_path hash env ctx h =
    subst (Settles client (some hash) 32) h
      (context_create-Settles true client cert_path key_path (some hash) 32 env).0

module _ (m : Mbed) (sha256 : List ℕ → List ℕ) where
  -- With the error numbers of Mbed TLS and a SHA-256 that gives 32 bytes for the two certificates,
  -- if a client pins what sc_dtls_cert_hash computes for a certificate file, and gets its context
  -- and a session of it, then the session checks certificates, and the callback accepts the peer's
  -- own certificate (depth 0), with the flags cleared, exactly if it has the hash of the one in
  -- the file, and refuses it with the flag of an untrusted certificate otherwise.
  pub pinned_file :
      (path : String) (old certificate raw : List ℕ) (cert_path key_path : Option String)
      (env : ContextEnv) (ctx : Context) (fd : ℤ) (addr : Option SockAddr)
      (session_env : SessionEnv) (s : Session) (flags : ℕ)
      → IsMbed m
      → length (sha256 certificate) ≡ 32
      → length (sha256 raw) ≡ 32
      → (let hash = (cert_hash m sha256 (some path) (some old) (pos 0) certificate).1 in
          (context_create true client cert_path key_path hash 32 env).context ≡ some ctx)
      → (session_create (some ctx) fd addr session_env).session ≡ some s
      → (s.verifies ≡ true)
        × Verdict m sha256
            (sha256 certificate)
            raw
            flags
            (cert_verify_callback m sha256 s raw 0 flags)
  unfolding cert_hash
  pinned_file path old certificate raw cert_path key_path env ctx fd addr session_env s flags known
        hc hr made op =
      let settings = pinning cert_path key_path (sha256 certificate) env ctx made in
      let hash : ctx.pinned_cert_hash ≡ some (sha256 certificate) =
        settings.pinned ∙ ap some (take_all 32 (sha256 certificate) hc) in
      subst
        (λ s.
          (s.verifies ≡ true)
          × Verdict m sha256 (sha256 certificate) raw flags
              (cert_verify_callback m sha256 s raw 0 flags))
        (created ctx fd addr session_env s op)
        (
          ground (arith, settings.of_role, hash),
          pinned_accepts m sha256 (new_session ctx fd addr) (sha256 certificate) raw flags known
              settings.of_role hash settings.pinned_len hc hr,
        )
