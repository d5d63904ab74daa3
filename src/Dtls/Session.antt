-- ===== src/Dtls/Session.antt =====
-- `struct dtls_session` of src/dtls.c: creation, destruction and the getters.
pub mod Create
use space_captain.Common.{
  ℕ, ℤ, pos, negsuc, ◌==ℤ◌, is_negative, Bool, true, false, not, ◌&&◌, ◌||◌, Option, none, some,
  List, [], ◌∷◌, ◌++◌, ltb, if◌then◌else◌, Event, acquire, release,
}
use space_captain.Dtls.{Role, is_client, is_server}
use space_captain.Dtls.Context.{Context, is_pinned}

-- A socket address: the bytes of a `struct sockaddr`, with their number.
pub record SockAddr : Type 0 where
  pub bytes : List ℕ
  pub addr_len : ℕ

-- The address is that of the client, `none` until one is stored. `verifies` says that the
-- certificate callback is set.
pub record Session : Type 0 where
  pub ctx : Context
  pub fd : ℤ
  pub client_addr : Option SockAddr
  pub handshake_complete : Bool
  pub verifies : Bool

pub data Resource : Type 0 where
  session_block ssl : Resource

-- Whether `calloc` succeeds, and what the other calls return.
pub record SessionEnv : Type 0 where
  pub memory : Bool
  pub ssl_setup : ℤ
  pub transport_id : ℤ
  pub get_flags : ℤ
  pub set_flags : ℤ

pub record Opened : Type 0 where
  pub session : Option Session
  pub events : List (Event Resource)

-- `sc_dtls_session_destroy`
unfoldable pub session_destroy : Option Session → List (Event Resource)
session_destroy none = []
session_destroy (some session) = release ssl ∷ release session_block ∷ []

-- The address that the session stores: one that is given, with a positive length.
abbrev pub stored_addr : Option SockAddr → Option SockAddr
stored_addr none = none
stored_addr (some addr) = if ltb 0 addr.addr_len then some addr else none

-- `client_addr` is not NULL.
abbrev pub is_given : Option SockAddr → Bool
is_given none = false
is_given (some addr) = true

abbrev pub new_session : Context → ℤ → Option SockAddr → Session
new_session ctx fd client_addr = record {
  ctx = ctx;
  fd = fd;
  client_addr = stored_addr client_addr;
  handshake_complete = false;
  verifies = is_client ctx.role && is_pinned ctx;
}

abbrev pub taken : List (Event Resource)
taken = acquire session_block ∷ acquire ssl ∷ []

-- After an error behind the initialisation of the SSL context.
abbrev pub give_up : Session → Opened
give_up session = record { session = none; events = taken ++ session_destroy (some session) }

-- `sc_dtls_session_create`
unfoldable pub session_create : Option Context → ℤ → Option SockAddr → SessionEnv → Opened
unfolding session_destroy
session_create none fd client_addr env = record { session = none; events = [] }
session_create (some ctx) fd client_addr env =
    let session = new_session ctx fd client_addr in
    if is_negative fd
    then record { session = none; events = [] }
    else if not env.memory
    then record { session = none; events = [] }
    else if not (env.ssl_setup ==ℤ pos 0)
    then give_up session
    else if is_server ctx.role && is_given client_addr && not (env.transport_id ==ℤ pos 0)
    then give_up session
    else if is_negative env.get_flags || is_negative env.set_flags
    then give_up session
    else record { session = some session; events = taken }

-- `sc_dtls_get_fd`
unfoldable pub get_fd : Option Session → ℤ
get_fd none = negsuc 0
get_fd (some session) = session.fd

-- `sc_dtls_get_client_addr`: the storage of the address, `none` for NULL; zeroed storage is `some
-- none`
unfoldable pub get_client_addr : Option Session → Option (Option SockAddr)
get_client_addr none = none
get_client_addr (some session) = some session.client_addr

-- `sc_dtls_get_client_addr_len`
unfoldable pub get_client_addr_len : Option Session → ℕ
get_client_addr_len none = 0
get_client_addr_len (some session) = elim session.client_addr [
  | none ↦ 0
  | some addr ↦ addr.addr_len
]

-- `sc_dtls_is_handshake_complete`
unfoldable pub is_handshake_complete : Option Session → Bool
is_handshake_complete none = false
is_handshake_complete (some session) = session.handshake_complete
