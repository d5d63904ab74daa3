-- ===== src/Dtls/Tests.antt =====
-- The DTLS layer at concrete inputs.
use space_captain.Common.{
  ℕ, pos, neg, is_positive, ◌⊎◌, ◌≡◌, ◌↔◌, refl, true, false, none, some, List, [], ◌∷◌, arith,
  length, replicate,
}
use space_captain.Dtls.{client, server}
use space_captain.Dtls.Codes.{
  ok, error_handshake_timeout, error_cert_verify, error_would_block, error_peer_closed,
}
use space_captain.Dtls.Context.{
  Context, ContextEnv, verify_optional, verify_none, context_create, build, seed_rng, configure,
  set_up_server, pin,
}
use space_captain.Dtls.Context.Owns.{IsOwner, context_create-IsOwner}
use space_captain.Dtls.Context.Settings.{Settles, is_made, context_create-Settles}
use space_captain.Dtls.Session.{
  SockAddr, Session, SessionEnv, session_create, is_handshake_complete,
}
use space_captain.Dtls.Session.Create.{IsOpened, session_create-IsOpened}
use space_captain.Dtls.Inputs.{mbed, mbed-IsMbed}
use space_captain.Dtls.Io.{handshake, read, write}
use space_captain.Dtls.Io.Results.{handshake_results, io_results}
use space_captain.Dtls.Transport.{eagain, not_sent}
use space_captain.Dtls.Transport.Peer.{TalksTo, session_create-TalksTo}
use space_captain.Dtls.Verify.{cert_hash, cert_verify_callback}
use space_captain.Dtls.Verify.File.{pinned_file}
use space_captain.Dtls.Verify.Pinning.{Verdict}

-- Everything succeeds.
abbrev env : ContextEnv
env = record {
  memory = true;
  seed = pos 0;
  config_defaults = pos 0;
  crt_parse = pos 0;
  pk_parse = pos 0;
  own_cert = pos 0;
  cookie_setup = pos 0;
  pin_memory = true;
}

abbrev hash : List ℕ
hash = replicate 32 7

abbrev context : Context
context = record {
  role = client;
  authmode = verify_optional;
  read_timeout = 30000;
  pinned_cert_hash = some hash;
  pinned_cert_hash_len = 32;
  initialized = true;
  rng_initialized = true;
  config_initialized = true;
  cert_initialized = false;
  pkey_initialized = false;
  cookie_initialized = false;
}

abbrev server_context : Context
server_context = record context {
  role = server;
  authmode = verify_none;
  pinned_cert_hash = none;
  pinned_cert_hash_len = 0;
  cert_initialized = true;
  pkey_initialized = true;
  cookie_initialized = true;
}

abbrev address : SockAddr
address = record { bytes = 2 ∷ 0 ∷ 77 ∷ 128 ∷ 10 ∷ 0 ∷ 0 ∷ 7 ∷ []; addr_len = 8 }

abbrev session : Session
session = record {
  ctx = context;
  fd = pos 3;
  client_addr = none;
  handshake_complete = false;
  verifies = true;
}

abbrev server_session : Session
server_session = record {
  ctx = server_context;
  fd = pos 3;
  client_addr = some address;
  handshake_complete = false;
  verifies = false;
}

abbrev ping : List ℕ
ping = 0 ∷ 1 ∷ 0 ∷ 6 ∷ []

abbrev session_env : SessionEnv
session_env = record {
  memory = true;
  ssl_setup = pos 0;
  transport_id = pos 0;
  get_flags = pos 2;
  set_flags = pos 0;
}

context_create-IsOwner_example :
    let r = context_create true server (some "cert.pem") (some "key.pem") none 0 env in
    IsOwner r.context r.events
context_create-IsOwner_example =
    context_create-IsOwner true server (some "cert.pem") (some "key.pem") none 0 env

context_create-Settles_example :
    let made = (context_create true client none none (some hash) 31 env).context in
    Settles client (some hash) 31 made × (is_made made ≡ true)
context_create-Settles_example = context_create-Settles true client none none (some hash) 31 env

session_create-IsOpened_example :
    IsOpened
      (some server_context)
      (pos 3)
      (some address)
      (session_create (some server_context) (pos 3) (some address) session_env)
session_create-IsOpened_example =
    session_create-IsOpened (some server_context) (pos 3) (some address) session_env

session_create-TalksTo_example :
    TalksTo mbed (pos 3) address server_session ping (not_sent eagain) address ping
unfolding session_create
session_create-TalksTo_example =
    session_create-TalksTo mbed server_context (pos 3) address session_env server_session ping
      (not_sent eagain) address ping mbed-IsMbed refl (omega arith) refl

-- A function in the place of SHA-256, of the same length.
abbrev sum_up : List ℕ → List ℕ
sum_up [] = replicate 32 0
sum_up (x ∷ xs) = replicate 32 x

sum_up-length : length (sum_up (7 ∷ 1 ∷ [])) ≡ 32
unfolding replicate
sum_up-length = refl

handshake_results_example :
    let r = handshake mbed (some session) (pos 0) in
    ((r.0 ≡ ok) ↔ (pos 0 ≡ pos 0))
    × ((r.0 ≡ error_would_block) ↔ ((pos 0 ≡ neg 0x6900) ⊎ (pos 0 ≡ neg 0x6880)))
    × ((r.0 ≡ error_handshake_timeout) ↔ (pos 0 ≡ neg 0x6800))
    × ((r.0 ≡ error_cert_verify) ↔ (pos 0 ≡ neg 0x2700))
    × ((is_handshake_complete r.1 ≡ true) ↔ ((pos 0 ≡ pos 0) ⊎ (session.handshake_complete ≡ true)))
handshake_results_example = handshake_results mbed mbed-IsMbed session (pos 0)

io_results_example :
    let r = read mbed (some session) true (some 9) (pos 20) in
    let w = write mbed (some session) true (some 9) (pos 20) in
    ((r.0 ≡ ok) ↔ (is_positive (pos 20) ≡ true))
    × ((r.0 ≡ error_would_block) ↔ ((pos 20 ≡ neg 0x6900) ⊎ (pos 20 ≡ neg 0x6880)))
    × ((r.0 ≡ error_peer_closed) ↔ (pos 20 ≡ neg 0x7880))
    × (r.1 ≡ some 20)
    × ((w.0 ≡ ok) ↔ (is_positive (pos 20) ≡ true))
    × ((w.0 ≡ error_would_block) ↔ ((pos 20 ≡ neg 0x6900) ⊎ (pos 20 ≡ neg 0x6880)))
    × (w.1 ≡ some 20)
io_results_example = io_results mbed mbed-IsMbed session (pos 20) 9

-- The client pins the hash of a file, and the server shows another certificate with that hash.
pinned_file_example :
    (session.verifies ≡ true)
    × Verdict mbed sum_up
        (sum_up (7 ∷ 1 ∷ []))
        (7 ∷ 2 ∷ [])
        4
        (cert_verify_callback mbed sum_up session (7 ∷ 2 ∷ []) 0 4)
unfolding replicate context_create build seed_rng configure set_up_server pin cert_hash
    session_create
pinned_file_example =
    pinned_file mbed sum_up "server.crt" [] (7 ∷ 1 ∷ []) (7 ∷ 2 ∷ []) none none env context (pos 3)
      none session_env session 4 mbed-IsMbed refl refl refl refl
