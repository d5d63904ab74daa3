-- ===== src/Dtls/Context.antt =====
-- `sc_dtls_context_create` and `sc_dtls_context_destroy` of src/dtls.c. What the allocator and Mbed
-- TLS answer is an argument; what is acquired and released is recorded in its order. Of the
-- configuration the model keeps the authentication mode and the read timeout; the calls that only
-- hand constants or callbacks to Mbed TLS leave no trace.
pub mod Owns
pub mod Settings
use space_captain.Common.{
  ℕ, ℤ, pos, ◌==ℤ◌, Bool, true, false, not, ◌&&◌, ◌||◌, Option, none, some, List, [], ◌∷◌, ◌++◌,
  String, ◌==◌, if◌then◌else◌, length, take, Event, acquire, release,
}
use space_captain.Dtls.{Role, client, server, is_client, is_server}

pub data Resource : Type 0 where
  context_block entropy ctr_drbg conf cert pkey cookie pinned_hash : Resource

-- The modes of `mbedtls_ssl_conf_authmode` that the program uses.
pub data AuthMode : Type 0 where
  verify_none verify_optional : AuthMode

-- `struct dtls_context`, with the two settings of its configuration that are modelled. The pinned
-- hash is `none` for NULL.
pub record Context : Type 0 where
  pub role : Role
  pub authmode : AuthMode
  pub read_timeout : ℕ
  pub pinned_cert_hash : Option (List ℕ)
  pub pinned_cert_hash_len : ℕ
  pub initialized : Bool
  pub rng_initialized : Bool
  pub config_initialized : Bool
  pub cert_initialized : Bool
  pub pkey_initialized : Bool
  pub cookie_initialized : Bool

-- Whether the two allocations succeed, and what the calls of Mbed TLS return.
pub record ContextEnv : Type 0 where
  pub memory : Bool
  pub seed : ℤ
  pub config_defaults : ℤ
  pub crt_parse : ℤ
  pub pk_parse : ℤ
  pub own_cert : ℤ
  pub cookie_setup : ℤ
  pub pin_memory : Bool

-- The events of a flag's resource.
abbrev pub release_if : Bool → List Resource → List (Event Resource)
release_if false rs = []
release_if true [] = []
release_if true (r ∷ rs) = release r ∷ release_if true rs

abbrev pub is_pinned : Context → Bool
is_pinned ctx = elim ctx.pinned_cert_hash [ none ↦ false | some hash ↦ true ]

-- `sc_dtls_context_destroy`, for a context that is not NULL. `free(NULL)` releases nothing.
unfoldable pub destroy_events : Context → List (Event Resource)
destroy_events ctx =
    release_if ctx.config_initialized (conf ∷ [])
    ++ (release_if ctx.cert_initialized (cert ∷ [])
        ++ (release_if ctx.pkey_initialized (pkey ∷ [])
            ++ (release_if ctx.cookie_initialized (cookie ∷ [])
                ++ (release_if ctx.rng_initialized (ctr_drbg ∷ entropy ∷ [])
                    ++ (release_if (is_pinned ctx) (pinned_hash ∷ [])
                        ++ (release context_block ∷ []))))))

-- `sc_dtls_context_destroy`
unfoldable pub context_destroy : Option Context → List (Event Resource)
unfolding destroy_events
context_destroy none = []
context_destroy (some ctx) = destroy_events ctx

-- A context under construction, with what was acquired so far.
pub record Build : Type 0 where
  pub ctx : Context
  pub events : List (Event Resource)

-- `fails` is the jump to the label `error`.
pub data Step : Type 0 where
  goes fails : Build → Step

infixl 5 ◌>>=◌
abbrev pub ◌>>=◌ : Step → (Build → Step) → Step
goes b >>= f = f b
fails b >>= f = fails b

-- The test of `ret` after a call of Mbed TLS.
abbrev pub check : ℤ → Build → Step
check ret b = if ret ==ℤ pos 0 then goes b else fails b

-- After `calloc` and the assignment of the role.
abbrev pub blank : Role → Build
blank role = record {
  ctx = record {
    role = role;
    authmode = verify_none;
    read_timeout = 0;
    pinned_cert_hash = none;
    pinned_cert_hash_len = 0;
    initialized = false;
    rng_initialized = false;
    config_initialized = false;
    cert_initialized = false;
    pkey_initialized = false;
    cookie_initialized = false;
  };
  events = acquire context_block ∷ [];
}

unfoldable pub seed_rng : ContextEnv → Build → Step
seed_rng env b = check env.seed (record {
  ctx = record (b.ctx) { rng_initialized = true };
  events = b.events ++ (acquire entropy ∷ acquire ctr_drbg ∷ []);
})

unfoldable pub configure : ContextEnv → Build → Step
configure env b = check env.config_defaults (record {
  ctx = record (b.ctx) { config_initialized = true };
  events = b.events ++ (acquire conf ∷ []);
})

-- The files and the cookies of a server, with both paths given.
unfoldable pub load_files : ContextEnv → Build → Step
load_files env b = do
  b ← check env.crt_parse (record {
    ctx = record (b.ctx) { cert_initialized = true; pkey_initialized = true };
    events = b.events ++ (acquire cert ∷ acquire pkey ∷ []);
  })
  b ← check env.pk_parse b
  b ← check env.own_cert b
  check env.cookie_setup (record {
    ctx = record (b.ctx) { cookie_initialized = true };
    events = b.events ++ (acquire cookie ∷ []);
  })

unfoldable pub need_paths : ContextEnv → Option String → Option String → Build → Step
unfolding load_files
need_paths env none key_path b = fails b
need_paths env (some cert_path) none b = fails b
need_paths env (some cert_path) (some key_path) b = load_files env b

unfoldable pub set_up_server : ContextEnv → Option String → Option String → Build → Step
unfolding need_paths
set_up_server env cert_path key_path b =
    if is_server b.ctx.role then need_paths env cert_path key_path b else goes b

unfoldable pub pin : ContextEnv → Option (List ℕ) → ℕ → Build → Step
pin env none len b = goes (record b { ctx = record (b.ctx) { authmode = verify_none } })
pin env (some hash) len b =
    if is_client b.ctx.role && len == 32
    then (if env.pin_memory
        then goes (record {
          ctx = record (b.ctx) {
            pinned_cert_hash = some (take 32 hash);
            pinned_cert_hash_len = 32;
            authmode = verify_optional;
          };
          events = b.events ++ (acquire pinned_hash ∷ []);
        })
        else fails b)
    else goes (record b { ctx = record (b.ctx) { authmode = verify_none } })

pub record Created : Type 0 where
  pub context : Option Context
  pub events : List (Event Resource)

abbrev pub finish : Step → Created
finish (goes b) = record {
  context = some (record (b.ctx) { read_timeout = 30000; initialized = true });
  events = b.events;
}
finish (fails b) = record { context = none; events = b.events ++ destroy_events b.ctx }

unfoldable pub build :
    Role → Option String → Option String → Option (List ℕ) → ℕ → ContextEnv → Step
build role cert_path key_path hash len env = do
  b ← seed_rng env (blank role)
  b ← configure env b
  b ← set_up_server env cert_path key_path b
  pin env hash len b

-- `sc_dtls_context_create`. The first argument is `g_dtls_initialized`.
unfoldable pub context_create :
    Bool → Role → Option String → Option String → Option (List ℕ) → ℕ → ContextEnv → Created
context_create initialized role cert_path key_path hash len env =
    if not initialized
    then record { context = none; events = [] }
    else if not env.memory
    then record { context = none; events = [] }
    else finish (build role cert_path key_path hash len env)
