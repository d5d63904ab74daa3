-- ===== src/Dtls/Context/Owns.antt =====
-- A DTLS context owns what its flags say, and nothing is lost on the way to `error`.
use space_captain.Common
use space_captain.Common.{
  ℕ, ℤ, pos, ◌≡◌, ◌≢◌, ◌↔◌, ◌⊎◌, inl, inr, Bool, true, false, not, ◌&&◌, Option, none, some, List,
  [], ◌∷◌, ◌++◌, String, arith, refl, Event, acquire, release, Bool-cases, ◌==ℤ◌, if◌then◌else◌,
  take, ◌==◌,
}
use space_captain.Dtls.{Role, client, server}
use space_captain.Dtls.Context.{
  Resource, context_block, entropy, ctr_drbg, conf, cert, pkey, cookie, pinned_hash, Context,
  ContextEnv, Build, Step, ◌>>=◌, fails, finish, is_pinned, destroy_events, context_destroy, blank,
  build, seed_rng, configure, set_up_server, load_files, pin, context_destroy, release_if, check,
  context_create,
}

abbrev same : Resource → Resource → Bool
same context_block context_block = true
same entropy entropy = true
same ctr_drbg ctr_drbg = true
same conf conf = true
same cert cert = true
same pkey pkey = true
same cookie cookie = true
same pinned_hash pinned_hash = true
same _ _ = false

pub owned : Option (List Resource) → List (Event Resource) → Option (List Resource)
unfolding Common.own_all
owned = Common.own_all same context_block

abbrev keep_if : Bool → List Resource → List Resource
keep_if false rs = []
keep_if true rs = rs

-- What a context owns by its flags, the last acquired first.
abbrev pub live : Context → List Resource
live ctx =
    keep_if (is_pinned ctx) (pinned_hash ∷ [])
    ++ (keep_if ctx.cookie_initialized (cookie ∷ [])
        ++ (keep_if ctx.pkey_initialized (pkey ∷ [])
            ++ (keep_if ctx.cert_initialized (cert ∷ [])
                ++ (keep_if ctx.config_initialized (conf ∷ [])
                    ++ (keep_if ctx.rng_initialized (ctr_drbg ∷ entropy ∷ [])
                        ++ (context_block ∷ []))))))

-- Every combination of the flags, in the order of `destroy_events`.
release_table :
    (config certs keys cookies rng pinned : Bool)
    → owned
        (some (
          keep_if pinned (pinned_hash ∷ [])
          ++ (keep_if cookies (cookie ∷ [])
              ++ (keep_if keys (pkey ∷ [])
                  ++ (keep_if certs (cert ∷ [])
                      ++ (keep_if config (conf ∷ [])
                          ++ (keep_if rng (ctr_drbg ∷ entropy ∷ []) ++ (context_block ∷ []))))))))
        (release_if config (conf ∷ [])
          ++ (release_if certs (cert ∷ [])
              ++ (release_if keys (pkey ∷ [])
                  ++ (release_if cookies (cookie ∷ [])
                      ++ (release_if rng (ctr_drbg ∷ entropy ∷ [])
                          ++ (release_if pinned (pinned_hash ∷ [])
                              ++ (release context_block ∷ [])))))))
      ≡ some []
unfolding owned
release_table config certs keys cookies rng pinned = ground arith

-- For every combination of its flags, the destruction releases what the context owns.
destroy_releases : (ctx : Context) → owned (some (live ctx)) (context_destroy (some ctx)) ≡ some []
unfolding context_destroy
destroy_releases ctx =
    release_table ctx.config_initialized ctx.cert_initialized ctx.pkey_initialized
      ctx.cookie_initialized ctx.rng_initialized (is_pinned ctx)

-- What is owned when a context, or NULL, is returned.
abbrev Holds : Option Context → List (Event Resource) → Type 0
Holds none es = owned (some []) es ≡ some []
Holds (some ctx) es = owned (some []) es ≡ some (live ctx)

abbrev IsClean : Step → Type 0
IsClean s = Holds (finish s).context (finish s).events

-- Both ways on from the test of a call.
pub check_cases {ℓ} :
    (P : Step → Type ℓ) (ret : ℤ) (b : Build) (f : Build → Step)
    → P (fails b)
    → P (f b)
    → P (check ret b >>= f)
check_cases P ret b f failed went = elim (Bool-cases (ret ==ℤ pos 0)) [
  | inl e ↦ rw e went
  | inr e ↦ rw e failed
]

-- A server or a client that gets to the last stage.
last_server :
    (hash : Option (List ℕ)) (len : ℕ) (env : ContextEnv) (b : Build)
    → b.ctx.role ≡ server
    → owned (some []) b.events ≡ some (live b.ctx)
    → IsClean (pin env hash len b)
unfolding pin
last_server none len env b r h = h
last_server (some x) len env b r h = rw r h

-- A client's context when only the pin is left to do.
abbrev pub configured_client : Build
configured_client = record {
  ctx = record ((blank client).ctx) { rng_initialized = true; config_initialized = true };
  events = acquire context_block ∷ acquire entropy ∷ acquire ctr_drbg ∷ acquire conf ∷ [];
}

last_client :
    (hash : Option (List ℕ)) (len : ℕ) (env : ContextEnv)
    → IsClean (pin env hash len configured_client)
unfolding pin owned destroy_events
last_client none len env = refl
last_client (some x) len env = elim (Bool-cases (len == 32)) [
  | inl e ↦ elim (Bool-cases env.pin_memory) [ inl m ↦ rw (e, m) refl | inr m ↦ rw (e, m) refl ]
  | inr e ↦ rw e refl
]

-- Whatever Mbed TLS and the allocator answer, the steps lose nothing.
build-IsClean :
    (role : Role) (cert_path key_path : Option String) (hash : Option (List ℕ)) (len : ℕ)
    (env : ContextEnv)
    → IsClean (build role cert_path key_path hash len env)
unfolding build seed_rng configure set_up_server load_files pin destroy_events owned
build-IsClean server (some cert_path) (some key_path) hash len env =
    check_cases IsClean env.seed _ _ refl (
      check_cases IsClean env.config_defaults _ _ refl (
        check_cases behind env.crt_parse _ _ refl (
          check_cases behind env.pk_parse _ _ refl (
            check_cases behind env.own_cert _ _ refl (
              check_cases IsClean env.cookie_setup _ _ refl
                (last_server hash len env _ refl refl))))))
  where
    behind : Step → Type 0
    behind s = IsClean (s >>= pin env hash len)
build-IsClean server none key_path hash len env =
    check_cases IsClean env.seed _ _ refl (check_cases IsClean env.config_defaults _ _ refl refl)
build-IsClean server (some cert_path) none hash len env =
    check_cases IsClean env.seed _ _ refl (check_cases IsClean env.config_defaults _ _ refl refl)
build-IsClean client cert_path key_path hash len env =
    check_cases IsClean env.seed _ _ refl
      (check_cases IsClean env.config_defaults _ _ refl (last_client hash len env))

context_create-Holds :
    (initialized : Bool) (role : Role) (cert_path key_path : Option String) (hash : Option (List ℕ))
    (len : ℕ) (env : ContextEnv)
    → let r = context_create initialized role cert_path key_path hash len env in
      Holds r.context r.events
unfolding context_create owned
context_create-Holds false role cert_path key_path hash len env = refl
context_create-Holds true role cert_path key_path hash len env = elim (Bool-cases env.memory) [
  | inl m ↦ simp m (build-IsClean role cert_path key_path hash len env)
  | inr m ↦ simp m refl
]

-- NULL with nothing owned, or a context with what its flags say, all of which its destruction
-- releases.
abbrev pub IsOwner : Option Context → List (Event Resource) → Type 0
IsOwner none es = owned (some []) es ≡ some []
IsOwner (some ctx) es =
    (owned (some []) es ≡ some (live ctx))
    × (owned (some (live ctx)) (context_destroy (some ctx)) ≡ some [])

with_destroy : (c : Option Context) (es : List (Event Resource)) → Holds c es → IsOwner c es
with_destroy none es h = h
with_destroy (some ctx) es h = (h, destroy_releases ctx)

-- Whatever Mbed TLS and the allocator answer, sc_dtls_context_create returns NULL and has given
-- back all that it took, each once, or it returns a context that owns exactly what its flags say,
-- and sc_dtls_context_destroy releases exactly that, each once and the context's block last.
pub context_create-IsOwner :
    (initialized : Bool) (role : Role) (cert_path key_path : Option String) (hash : Option (List ℕ))
    (len : ℕ) (env : ContextEnv)
    → let r = context_create initialized role cert_path key_path hash len env in
      IsOwner r.context r.events
context_create-IsOwner initialized role cert_path key_path hash len env =
    let r = context_create initialized role cert_path key_path hash len env in
    with_destroy r.context r.events
      (context_create-Holds initialized role cert_path key_path hash len env)
