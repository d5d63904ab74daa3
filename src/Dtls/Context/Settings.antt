-- ===== src/Dtls/Context/Settings.antt =====
-- The settings of a context that `sc_dtls_context_create` returns.
use space_captain.Common.{
  ℕ, ap, sym, ◌∙◌, arith, pos, ◌==ℤ◌, ◌&&◌, ◌≡◌, Bool, true, false, Option, none, some, List,
  String, refl, Bool-cases, inl, inr, ◌==◌, if◌then◌else◌, take,
}
use space_captain.Dtls.{Role, client, server, is_server, is_client}
use space_captain.Dtls.Context.{
  AuthMode, verify_none, verify_optional, Context, ContextEnv, Build, Step, ◌>>=◌, finish, build,
  seed_rng, configure, set_up_server, need_paths, load_files, pin, context_create,
}
use space_captain.Dtls.Context.Owns.{check_cases, configured_client}

-- The hash that a context of a role pins: a client's, if it is 32 bytes long.
abbrev pub expected_pin : Role → Option (List ℕ) → ℕ → Option (List ℕ)
expected_pin role none len = none
expected_pin server (some hash) len = none
expected_pin client (some hash) len = if len == 32 then some (take 32 hash) else none

-- Certificates are looked at only where a hash is pinned.
abbrev pub expected_mode : Option (List ℕ) → AuthMode
expected_mode none = verify_none
expected_mode (some hash) = verify_optional

-- The length that is kept with the hash.
abbrev pub expected_len : Option (List ℕ) → ℕ
expected_len none = 0
expected_len (some hash) = 32

pub record HasSettings (role : Role) (hash : Option (List ℕ)) (len : ℕ) (ctx : Context)
    : Type 0 where
  pub of_role : ctx.role ≡ role
  pub initialized : ctx.initialized ≡ true
  pub certificates : ctx.cert_initialized ≡ is_server role
  pub cookies : ctx.cookie_initialized ≡ is_server role
  pub pinned : ctx.pinned_cert_hash ≡ expected_pin role hash len
  pub pinned_len : ctx.pinned_cert_hash_len ≡ expected_len (expected_pin role hash len)
  pub mode : ctx.authmode ≡ expected_mode (expected_pin role hash len)

abbrev pub Settles : Role → Option (List ℕ) → ℕ → Option Context → Type 0
Settles role hash len none = Unit
Settles role hash len (some ctx) = HasSettings role hash len ctx

module _ (hash : Option (List ℕ)) (len : ℕ) (env : ContextEnv) where
  abbrev Ends : Role → Step → Type 0
  Ends role s = Settles role hash len (finish s).context

last_server :
    (hash : Option (List ℕ)) (len : ℕ) (env : ContextEnv) (b : Build)
    → b.ctx.role ≡ server
    → b.ctx.pinned_cert_hash ≡ none
    → b.ctx.pinned_cert_hash_len ≡ 0
    → b.ctx.cert_initialized ≡ true
    → b.ctx.cookie_initialized ≡ true
    → Ends hash len env server (pin env hash len b)
unfolding pin
last_server none len env b r p l c k = record {
  of_role = r;
  initialized = refl;
  certificates = c;
  cookies = k;
  pinned = p;
  pinned_len = l;
  mode = refl;
}
last_server (some x) len env b r p l c k =
    let f : is_client b.ctx.role ≡ false = ap is_client r in
    rw f (record {
      of_role = r;
      initialized = refl;
      certificates = c;
      cookies = k;
      pinned = p;
      pinned_len = l;
      mode = refl;
    })

last_client :
    (hash : Option (List ℕ)) (len : ℕ) (env : ContextEnv)
    → Ends hash len env client (pin env hash len configured_client)
unfolding pin
last_client none len env = record {
  of_role = refl;
  initialized = refl;
  certificates = refl;
  cookies = refl;
  pinned = refl;
  pinned_len = refl;
  mode = refl;
}
last_client (some x) len env = elim (Bool-cases (len == 32)) [
  | inl e ↦ elim (Bool-cases env.pin_memory) [
    | inl m ↦
        rw (e, m)
          (record {
            of_role = refl;
            initialized = refl;
            certificates = refl;
            cookies = refl;
            pinned = rw e;
            pinned_len = rw e;
            mode = rw e;
          })
    | inr m ↦ rw (e, m) tt
  ]
  | inr e ↦ rw e (record {
    of_role = refl;
    initialized = refl;
    certificates = refl;
    cookies = refl;
    pinned = rw e;
    pinned_len = rw e;
    mode = rw e;
  })
]

build-Settles :
    (role : Role) (cert_path key_path : Option String) (hash : Option (List ℕ)) (len : ℕ)
    (env : ContextEnv)
    → Ends hash len env role (build role cert_path key_path hash len env)
unfolding build seed_rng configure set_up_server load_files
build-Settles server (some cert_path) (some key_path) hash len env =
    check_cases (Ends hash len env server) env.seed _ _ tt (
      check_cases (Ends hash len env server) env.config_defaults _ _ tt (
        check_cases behind env.crt_parse _ _ tt (
          check_cases behind env.pk_parse _ _ tt (
            check_cases behind env.own_cert _ _ tt (
              check_cases (Ends hash len env server) env.cookie_setup _ _ tt
                (last_server hash len env _ refl refl refl refl refl))))))
  where
    behind : Step → Type 0
    behind s = Ends hash len env server (s >>= pin env hash len)
build-Settles server none key_path hash len env =
    check_cases (Ends hash len env server) env.seed _ _ tt
      (check_cases (Ends hash len env server) env.config_defaults _ _ tt tt)
build-Settles server (some cert_path) none hash len env =
    check_cases (Ends hash len env server) env.seed _ _ tt
      (check_cases (Ends hash len env server) env.config_defaults _ _ tt tt)
build-Settles client cert_path key_path hash len env =
    check_cases (Ends hash len env client) env.seed _ _ tt
      (check_cases (Ends hash len env client) env.config_defaults _ _ tt (last_client hash len env))

-- The memory for a hash is asked for only where one is pinned.
abbrev pub can_pin : ContextEnv → Option (List ℕ) → Bool
can_pin env none = true
can_pin env (some hash) = env.pin_memory

-- Every call of Mbed TLS that the role needs returns 0, and a server has both paths.
abbrev pub all_succeed : Role → Option String → Option String → ContextEnv → Bool
all_succeed client cert_path key_path env = env.seed ==ℤ pos 0 && env.config_defaults ==ℤ pos 0
all_succeed server (some cert_path) (some key_path) env =
    env.seed ==ℤ pos 0
    && env.config_defaults ==ℤ pos 0
    && env.crt_parse ==ℤ pos 0
    && env.pk_parse ==ℤ pos 0
    && env.own_cert ==ℤ pos 0
    && env.cookie_setup ==ℤ pos 0
all_succeed server cert_path key_path env = false

and_true : (b : Bool) → (b && true) ≡ b
and_true b = ground arith

abbrev pub is_made : Option Context → Bool
is_made none = false
is_made (some ctx) = true

made_server :
    (cert_path key_path : Option String) (hash : Option (List ℕ)) (len : ℕ) (env : ContextEnv)
    → is_made (finish (build server cert_path key_path hash len env)).context
      ≡ all_succeed server cert_path key_path env
unfolding build seed_rng configure set_up_server need_paths load_files pin
made_server (some cert_path) (some key_path) none len env = ground arith
made_server (some cert_path) (some key_path) (some hash) len env = ground arith
made_server (some cert_path) none hash len env = ground arith
made_server none key_path hash len env = ground arith

made_client :
    (cert_path key_path : Option String) (hash : Option (List ℕ)) (len : ℕ) (env : ContextEnv)
    → is_made (finish (build client cert_path key_path hash len env)).context
      ≡ all_succeed client cert_path key_path env && can_pin env (expected_pin client hash len)
unfolding build seed_rng configure set_up_server pin
made_client cert_path key_path none len env = ground arith
made_client cert_path key_path (some hash) len env = ground arith

build-is_made :
    (role : Role) (cert_path key_path : Option String) (hash : Option (List ℕ)) (len : ℕ)
    (env : ContextEnv)
    → is_made (finish (build role cert_path key_path hash len env)).context
      ≡ all_succeed role cert_path key_path env && can_pin env (expected_pin role hash len)
build-is_made client cert_path key_path hash len env = made_client cert_path key_path hash len env
build-is_made server cert_path key_path none len env =
    made_server cert_path key_path none len env ∙ sym (and_true _)
build-is_made server cert_path key_path (some hash) len env =
    made_server cert_path key_path (some hash) len env ∙ sym (and_true _)

-- Sc_dtls_context_create returns a context exactly if the layer is initialized, there is memory
-- for it, the calls of Mbed TLS that the role needs return 0, a server has both paths, and there
-- is memory for a hash where one is pinned, which is a client's hash with a length of 32. The
-- context has the role asked for, and has certificates and cookies exactly if it is a server's; a
-- client's pins the caller's hash, and checks certificates, exactly if a hash is given with a
-- length of 32, so that a hash of any other length, or given to a server, is left out without an
-- error and nothing is checked.
pub context_create-Settles :
    (initialized : Bool) (role : Role) (cert_path key_path : Option String) (hash : Option (List ℕ))
    (len : ℕ) (env : ContextEnv)
    → let made = (context_create initialized role cert_path key_path hash len env).context in
      Settles role hash len made
      × (is_made made
          ≡ initialized
            && env.memory
            && all_succeed role cert_path key_path env
            && can_pin env (expected_pin role hash len))
unfolding context_create
context_create-Settles false role cert_path key_path hash len env = (tt, refl)
context_create-Settles true role cert_path key_path hash len env = elim (Bool-cases env.memory) [
  | inl m ↦ (
    simp m (build-Settles role cert_path key_path hash len env),
    simp m (build-is_made role cert_path key_path hash len env),
  )
  | inr m ↦ (simp m tt, simp m refl)
]
