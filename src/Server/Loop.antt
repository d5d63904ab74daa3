-- ===== src/Server/Loop.antt =====
-- The event loop of src/server.c (`main` from the `while` on). What the socket, the clock, the
-- allocator and Mbed TLS answer is an argument.
pub mod Stored
pub mod Valid
pub mod Shutdown
pub mod Outputs
pub mod Writes
pub mod Socket
pub mod Entries
pub mod Table
pub mod Idle
pub mod Rounds
pub mod Isolation
pub mod Handshake
pub mod Connection
pub mod Alive
pub mod Lasting
pub mod Sessions
pub mod Accepts
use space_captain.Common.{
  ℕ, zero, suc, ◌-◌, ℤ, Bool, true, false, not, ◌&&◌, ◌||◌, Option, none, some, List, [], ◌∷◌, leb,
  ltb, take, if◌then◌else◌,
}
use space_captain.Dtls.{Mbed}
use space_captain.Dtls.Codes.{Result, ok, error_would_block, error_peer_closed}
use space_captain.Dtls.Context.{Context}
use space_captain.Dtls.Io.{handshake, read, write}
use space_captain.Dtls.Session.{SockAddr, Session}
use space_captain.Server.Clients.{
  Client, State, Output, written, discarded, AddEnv, find_client, add_client, remove_client,
  set_client, check_client_timeouts, count,
}
use space_captain.Server.Reply.{reply}

-- A datagram that the server peeks at, whatever was received or thrown away since the last one; the
-- kernel and Mbed TLS choose all that it says: its address, the answers to `add_client`, the time,
-- what the
-- handshake or the read of Mbed TLS returns, the bytes that the read leaves in the buffer, and what
-- the write returns.
pub record Arrival : Type 0 where
  pub addr : SockAddr
  pub add : AddEnv
  pub now : ℕ
  pub ret : ℤ
  pub received : List ℕ
  pub write_ret : ℤ

-- A round of the loop: whether `epoll_wait` succeeds, the time that `main` reads, the time that
-- `check_client_timeouts` reads again, and the datagrams of the round's events.
pub record Round : Type 0 where
  pub polled : Bool
  pub now : ℕ
  pub checked : ℕ
  pub arrivals : List Arrival

abbrev pub is_ok : Result → Bool
is_ok ok = true
is_ok _ = false

abbrev pub is_would_block : Result → Bool
is_would_block error_would_block = true
is_would_block _ = false

abbrev pub is_peer_closed : Result → Bool
is_peer_closed error_peer_closed = true
is_peer_closed _ = false

abbrev pub output : Output → State → State
output o st = record st { outputs = o ∷ st.outputs }

-- A client written back through its pointer.
abbrev pub store_client : Client → State → State
store_client client st = record st { clients = set_client client st.clients }

abbrev pub number : Option ℕ → ℕ
number none = 0
number (some n) = n

module _ (m : Mbed) where
  -- The branches on the result of `sc_dtls_handshake`, with the session that it leaves.
  abbrev pub after_handshake : Client → State → Result × Option Session → State
  after_handshake client st (result, session) =
      if is_ok result
      then output discarded
          (store_client (record client { dtls_session = session; handshake_complete = true }) st)
      else if is_would_block result
      then output discarded (store_client (record client { dtls_session = session }) st)
      else remove_client (record client { dtls_session = session })
          (output discarded (store_client (record client { dtls_session = session }) st))

  unfoldable pub handshake_turn : Arrival → Client → State → State
  handshake_turn a client st = after_handshake client st (handshake m client.dtls_session a.ret)

  -- The answer to what was read, and the test of the result of `sc_dtls_write`.
  unfoldable pub answer : Arrival → Client → ℕ → State → State
  answer a client bytes_read st =
      let result = (write m client.dtls_session true (some 0) a.write_ret).0 in
      let sent = output (written client (reply (take bytes_read a.received)) result) st in
      if not (is_ok result) && not (is_would_block result) then remove_client client sent else sent

  -- The branches on the result of `sc_dtls_read`.
  abbrev pub after_read : Arrival → Client → State → Result × Option ℕ → State
  after_read a client st (result, bytes_read) =
      if is_ok result && ltb 0 (number bytes_read)
      then answer a client (number bytes_read) st
      else if is_would_block result
      then output discarded st
      else if is_peer_closed result
      then remove_client client st
      else remove_client client (output discarded st)

  unfoldable pub data_turn : Arrival → Client → State → State
  unfolding answer
  data_turn a client st = after_read a client st (read m client.dtls_session true (some 0) a.ret)

  -- The turn of a client that was found or made.
  abbrev pub serve : Arrival → Option Client × State → State
  serve a (none, st) = output discarded st
  serve a (some client, st) =
      let active = record client { last_activity = a.now } in
      if not client.handshake_complete
      then handshake_turn a active (store_client active st)
      else data_turn a active (store_client active st)

  module _ (ctx : Option Context) (sock : ℤ) where
    abbrev pub reach : Arrival → State → Option Client → Option Client × State
    reach a st none = add_client ctx sock a.addr a.add st
    reach a st (some client) = (some client, st)

    -- The body of the `while` over the datagrams of a socket.
    unfoldable pub turn : Arrival → State → State
    unfolding handshake_turn data_turn
    turn a st = serve a (reach a st (find_client a.addr st.clients))

    -- The datagrams until the peek fails.
    unfoldable pub drain_socket : List Arrival → State → State
    unfolding turn
    drain_socket [] st = st
    drain_socket (a ∷ arrivals) st = drain_socket arrivals (turn a st)

    -- One round of the loop, over `last_timeout_check`.
    unfoldable pub poll : Bool → ℕ → ℕ → List Arrival → ℕ × State → ℕ × State
    unfolding drain_socket
    poll false now checked arrivals (last, st) = (last, st)
    poll true now checked arrivals (last, st) =
        if leb 5 (now - last)
        then (now, drain_socket arrivals (check_client_timeouts checked st))
        else (last, drain_socket arrivals st)

    -- The loop of `main`, over the rounds that it makes while `g_running` is set.
    unfoldable pub main_loop : List Round → ℕ × State → ℕ × State
    unfolding poll
    main_loop [] at = at
    main_loop (r ∷ rounds) at = main_loop rounds (poll r.polled r.now r.checked r.arrivals at)

-- `handle_shutdown`: the flag `g_running` after a signal
unfoldable pub handle_shutdown : Bool → Bool
handle_shutdown g_running = false

-- The loop that removes all clients at the end, with fuel.
unfoldable pub remove_all : ℕ → State → State
remove_all zero st = st
remove_all (suc fuel) st = elim st.clients [
  | [] ↦ st
  | client ∷ clients ↦ remove_all fuel (remove_client client st)
]

-- The clean-up of the clients when the loop has ended; `Shutdown` shows that the fuel is enough.
unfoldable pub shut_down : State → State
unfolding remove_all
shut_down st = remove_all (count st.clients) st
