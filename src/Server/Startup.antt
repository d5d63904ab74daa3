-- ===== src/Server/Startup.antt =====
-- The start of the server in src/server.c: the paths of the certificate, the UDP socket, and `main`
-- up to its event loop and behind it. What the system calls return is an argument, and -1 is an
-- error; what is acquired and released is recorded in its order. Calls that only hand constants to
-- the kernel leave no trace.
pub mod Owns
pub mod Paths
mod Tests
use space_captain.Common.{
  ℕ, ℤ, pos, negsuc, ◌==ℤ◌, is_negative, is_positive, Bool, true, false, not, ◌&&◌, ◌||◌, Option,
  none, some, List, [], ◌∷◌, ◌++◌, String, if◌then◌else◌, Event, acquire, release,
}
use space_captain.Dtls.{server}
use space_captain.Dtls
use space_captain.Dtls.Codes.{Result, ok}
use space_captain.Dtls.Context.{Context, ContextEnv, context_create}

-- The descriptor that stands for an error.
abbrev pub minus_one : ℤ
minus_one = negsuc 0

-- `set_nonblocking`, over what the two calls of `fcntl` return
unfoldable pub set_nonblocking : ℤ → ℤ → ℤ
set_nonblocking flags set = if flags ==ℤ minus_one then minus_one else set

pub data Resource : Type 0 where
  dtls dtls_context epoll udp_socket : Resource

-- What the calls of `create_udp_socket` return.
pub record SocketEnv : Type 0 where
  pub socket : ℤ
  pub reuse_address : ℤ
  pub address : ℤ
  pub bind : ℤ
  pub get_flags : ℤ
  pub set_flags : ℤ

pub record Socket : Type 0 where
  pub fd : ℤ
  pub events : List (Event Resource)

abbrev pub no_socket : List (Event Resource) → Socket
no_socket events = record { fd = minus_one; events = events }

abbrev pub closed_socket : Socket
closed_socket = no_socket (acquire udp_socket ∷ release udp_socket ∷ [])

-- `create_udp_socket`. An error of the buffer sizes is only logged; `inet_pton` fails with 0, too.
unfoldable pub create_udp_socket : SocketEnv → Socket
unfolding set_nonblocking
create_udp_socket env =
    if is_negative env.socket
    then no_socket []
    else if is_negative env.reuse_address
    then closed_socket
    else if not (is_positive env.address)
    then closed_socket
    else if is_negative env.bind
    then closed_socket
    else if is_negative (set_nonblocking env.get_flags env.set_flags)
    then closed_socket
    else record { fd = env.socket; events = acquire udp_socket ∷ [] }

abbrev pub default_paths : String × String
default_paths = ("/etc/space-captain/server.crt", "/etc/space-captain/server.key")

abbrev pub local_paths : String × String
local_paths = (".secrets/certs/server.crt", ".secrets/certs/server.key")

abbrev pub path_or : String → Option String → String
path_or default none = default
path_or default (some path) = path

abbrev pub is_set : Option String → Bool
is_set none = false
is_set (some path) = true

-- The paths of certificate and key in `main`, by the two environment variables. `exists` says
-- whether `stat` finds a file.
unfoldable pub choose_paths : (String → Bool) → Option String → Option String → String × String
choose_paths exists crt key =
    let paths : String × String = (path_or default_paths.0 crt, path_or default_paths.1 key) in
    if not (is_set crt) || not (is_set key)
    then (if not (exists paths.0) || not (exists paths.1) then local_paths else paths)
    else paths

-- The environment of `main`: the variables, the files, whether a handler is not set, and what the
-- calls return.
pub record MainEnv : Type 0 where
  pub crt : Option String
  pub key : Option String
  pub exists : String → Bool
  pub context : ContextEnv
  pub sigint : ℤ
  pub sigterm : ℤ
  pub epoll_create : ℤ
  pub udp : SocketEnv
  pub epoll_ctl : ℤ

-- The server when `main` has come to its event loop, or has returned with a number.
pub data Started : Type 0 where
  returned : ℕ → Started
  running : Context → ℤ → ℤ → Started

pub record Start : Type 0 where
  pub started : Started
  pub events : List (Event Resource)

abbrev pub exits : List (Event Resource) → Start
exits events = record { started = returned 1; events = events }

-- `main` from the creation of the epoll instance on, with what was acquired so far.
unfoldable pub open_socket : MainEnv → Context → List (Event Resource) → Start
unfolding create_udp_socket
open_socket env ctx events =
    let udp = create_udp_socket env.udp in
    let behind = events ++ (acquire epoll ∷ udp.events) in
    if is_negative env.epoll_create
    then exits events
    else if is_negative udp.fd
    then exits (behind ++ (release epoll ∷ []))
    else if is_negative env.epoll_ctl
    then exits (behind ++ (release udp_socket ∷ release epoll ∷ []))
    else record { started = running ctx env.epoll_create udp.fd; events = behind }

-- `main` from the creation of the DTLS context on.
unfoldable pub with_context : MainEnv → Option Context → Start
unfolding open_socket
with_context env none = exits (acquire dtls ∷ release dtls ∷ [])
with_context env (some ctx) =
    let events = acquire dtls ∷ acquire dtls_context ∷ [] in
    if is_negative env.sigint || is_negative env.sigterm
    then exits (events ++ (release dtls_context ∷ release dtls ∷ []))
    else open_socket env ctx events

abbrev pub is_ok : Result → Bool
is_ok ok = true
is_ok _ = false

-- `main` up to the event loop.
unfoldable pub start_up : MainEnv → Start
unfolding choose_paths with_context Dtls.init
start_up env =
    let (initialized, result) = Dtls.init false in
    let (cert_path, key_path) = choose_paths env.exists env.crt env.key in
    if not (is_ok result)
    then exits []
    else with_context env
        (context_create initialized server (some cert_path) (some key_path) none 0
          env.context).context

-- `main` behind the event loop, after the clean-up of the clients.
unfoldable pub clean_up : Context → List (Event Resource)
clean_up ctx = release udp_socket ∷ release epoll ∷ release dtls_context ∷ release dtls ∷ []
