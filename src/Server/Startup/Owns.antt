-- ===== src/Server/Startup/Owns.antt =====
-- What the server owns when it runs, and when its start has failed.
use space_captain.Common
use space_captain.Common.{
  ℕ, ℤ, ◌≡◌, ◌⊎◌, ◌↔◌, inl, inr, refl, Bool, true, false, not, ◌&&◌, ◌||◌, is_negative, is_positive,
  Option, none, some, List, [], ◌∷◌, ◌++◌, arith, Event, Bool-cases, if◌then◌else◌,
}
use space_captain.Dtls.{server}
use space_captain.Dtls.Context.{Context, context_create}
use space_captain.Server.Startup.{
  Resource, dtls, dtls_context, epoll, udp_socket, SocketEnv, create_udp_socket, set_nonblocking,
  MainEnv, Started, returned, running, Start, with_context, choose_paths, start_up, clean_up,
}

abbrev same : Resource → Resource → Bool
same dtls dtls = true
same dtls_context dtls_context = true
same epoll epoll = true
same udp_socket udp_socket = true
same _ _ = false

-- The contexts, the sockets and the epoll instance are used only while the DTLS layer is
-- initialised.
pub owned : Option (List Resource) → List (Event Resource) → Option (List Resource)
unfolding Common.own_all
owned = Common.own_all same dtls

pub owned-append :
    (live : Option (List Resource)) (es fs : List (Event Resource))
    → owned live (es ++ fs) ≡ owned (owned live es) fs
unfolding owned
owned-append live es fs = Common.own_all-append same dtls live es fs

abbrev pub all_owned : List Resource
all_owned = udp_socket ∷ epoll ∷ dtls_context ∷ dtls ∷ []

-- Whether `create_udp_socket` gets a socket that is bound and does not block.
abbrev pub binds : SocketEnv → Bool
binds env =
    not (is_negative env.socket)
    && not (is_negative env.reuse_address)
    && is_positive env.address
    && not (is_negative env.bind)
    && not (is_negative (set_nonblocking env.get_flags env.set_flags))

abbrev pub handlers_set : MainEnv → Bool
handlers_set env = not (is_negative env.sigint) && not (is_negative env.sigterm)

abbrev pub listens : MainEnv → Bool
listens env = not (is_negative env.epoll_create) && binds env.udp && not (is_negative env.epoll_ctl)

-- The server runs if it has a context, the handlers and the socket.
abbrev pub is_ready : MainEnv → Option Context → Bool
is_ready env none = false
is_ready env (some ctx) = handlers_set env && listens env

-- What is owned: nothing after the first two errors; after a later one, the DTLS layer and its
-- context; all that there is, if the server runs.
abbrev pub left : MainEnv → Option Context → List Resource
left env none = []
left env (some ctx) =
    if not (handlers_set env)
    then []
    else if not (listens env)
    then dtls_context ∷ dtls ∷ []
    else all_owned

-- The server runs over its context, and the end of `main` releases everything; or `main` returns 1.
abbrev pub Ends : Option Context → Bool → Started → Type 0
Ends c ready (returned n) = (ready ≡ false) × (n ≡ 1)
Ends c ready (running ctx e fd) =
    (ready ≡ true) × (c ≡ some ctx) × (owned (some all_owned) (clean_up ctx) ≡ some [])

abbrev pub Accounts : MainEnv → Option Context → Start → Type 0
Accounts env c s =
    Ends c (is_ready env c) s.started × (owned (some []) s.events ≡ some (left env c))

with_context-Accounts : (env : MainEnv) (c : Option Context) → Accounts env c (with_context env c)
unfolding with_context create_udp_socket owned clean_up
with_context-Accounts env none = ground arith
with_context-Accounts env (some ctx) = ground arith

-- The context that `main` asks for.
abbrev pub main_context : MainEnv → Option Context
main_context env =
    let paths = choose_paths env.exists env.crt env.key in
    (context_create true server (some paths.0) (some paths.1) none 0 env.context).context

-- Whatever the system calls and the creation of the DTLS context answer, main gets to its event
-- loop exactly if there is a context, both handlers are set, and the epoll instance and the bound,
-- registered socket are there, and the end of main releases all four resources then; else it
-- returns 1, with nothing left if there is no context or a handler is not set, and with the DTLS
-- layer and its context never released after a later error.
pub start_up-Accounts : (env : MainEnv) → Accounts env (main_context env) (start_up env)
unfolding start_up
start_up-Accounts env = with_context-Accounts env (main_context env)
