-- ===== src/Server/Tests.antt =====
-- The server at concrete inputs.
use space_captain.Common.{
  replicate, List, true, false, pos, some, refl, ◌≡◌, if◌then◌else◌, [], ◌∷◌, ◌++◌, arith,
}
use space_captain.Server.Reply.{reply}
use space_captain.Server.Reply.Echo.{is_ping, as_pong, reply-eq-pong_or_echo}
use space_captain.Dtls.Codes.{ok}
use space_captain.Dtls.Inputs.{mbed, mbed-IsMbed}
use space_captain.Dtls.Session.{Session, session_create}
use space_captain.Dtls.Io.{handshake, read, write}
use space_captain.Message.Wire.{load, store}
use space_captain.Server.Clients.{
  Client, State, remove_client, unlink, written, find_client, add_client, set_client,
  check_client_timeouts,
}
use space_captain.Server.Clients.Inet.{IsInet}
use space_captain.Server.Clients.Heap.{IsValid}
use space_captain.Server.Loop.{Arrival, Round, poll, turn, drain_socket, main_loop}
use space_captain.Server.Loop.Valid.{turn-IsValid}
use space_captain.Server.Loop.Idle.{AllWithin}
use space_captain.Server.Loop.Lasting.{polling, live_client_answered}
use space_captain.Server.Loop.Accepts.{TakesOwn, sessions_take_own}
use space_captain.Server.Loop.Connection.{connection_answers}
use space_captain.Server.Loop.Handshake.{connected}
use space_captain.Server.Loop.Rounds.{last_polled, main_loop-AllWithin}
use space_captain.Server.Loop.Socket.{left_behind, turn_takes}
use space_captain.Server.Loop.Outputs.{visible}
use space_captain.Server.Loop.Shutdown.{start}
use space_captain.Server.Inputs.{
  ping_bytes, server_context, context, address, hello, other, second_ping, stranger, rounds,
}

reply-eq-pong_or_echo_example :
    reply ping_bytes ≡ (if is_ping ping_bytes then as_pong ping_bytes else ping_bytes)
reply-eq-pong_or_echo_example = reply-eq-pong_or_echo ping_bytes (ground arith)

start-IsValid : IsValid start
start-IsValid = record { distinct = tt; heap = refl }

abbrev greeted : State
greeted = turn mbed context (pos 3) hello start

greeted-IsValid : IsValid greeted
greeted-IsValid = turn-IsValid mbed context (pos 3) hello start start-IsValid refl

turn-IsValid_example : IsValid (turn mbed context (pos 3) hello start)
turn-IsValid_example = turn-IsValid mbed context (pos 3) hello start start-IsValid refl

turn_takes_example :
    left_behind 1 start.outputs
      (turn mbed context (pos 3) hello start).outputs
      (address ∷ other ∷ [])
    ≡ []
unfolding find_client
turn_takes_example =
    turn_takes mbed context (pos 3) hello start 1 (address ∷ other ∷ []) start-IsValid

main_loop-AllWithin_example :
    AllWithin 34
      (last_polled 100 rounds)
      (main_loop mbed context (pos 3) rounds (100, start)).1.clients
main_loop-AllWithin_example =
    main_loop-AllWithin mbed context (pos 3) 100 rounds ((refl, tt), (tt, tt))
      (
        (omega arith, omega arith, (omega arith, omega arith, tt)),
        ((omega arith, omega arith, tt), tt),
      )

-- A connection with a stranger in between: a first part, a second one, and the end of the
-- handshake.
abbrev first_part : Arrival
first_part = record hello { ret = mbed.want_read }

abbrev later_part : Arrival
later_part = record second_ping { ret = mbed.want_read }

abbrev last_part : Arrival
last_part = record second_ping { ret = pos 0 }

abbrev new_session : Session
new_session = record {
  ctx = server_context;
  fd = pos 3;
  client_addr = some address;
  handshake_complete = false;
  verifies = false;
}

connection_answers_example :
    visible
      (drain_socket mbed context
        (pos 3)
        (first_part ∷ stranger ∷ later_part ∷ last_part ∷ stranger ∷ second_ping ∷ [])
        start).outputs
    ≡ written
        (connected mbed context (pos 3) first_part new_session second_ping)
        (as_pong ping_bytes)
        ok
      ∷ visible
          (drain_socket mbed context
            (pos 3)
            (first_part ∷ stranger ∷ later_part ∷ last_part ∷ stranger ∷ [])
            start).outputs
unfolding turn find_client add_client set_client session_create handshake load remove_client unlink
connection_answers_example =
    connection_answers mbed context (pos 3) first_part last_part second_ping
      (stranger ∷ later_part ∷ []) (stranger ∷ []) new_session start mbed-IsMbed start-IsValid
      (refl, (refl, (refl, (refl, (refl, (refl, tt)))))) refl refl refl refl
      ((λ same. ground arith), ((λ same. refl), tt)) refl refl (refl, tt) refl refl refl
      (ground arith) refl

-- A ping, the check of the timeouts just before the time-out, a poll that fails, and a stranger.
abbrev later_rounds : List Round
later_rounds =
    record { polled = true; now = 101; checked = 101; arrivals = second_ping ∷ [] }
    ∷ record { polled = true; now = 130; checked = 131; arrivals = [] }
    ∷ record { polled = false; now = 200; checked = 200; arrivals = [] }
    ∷ record { polled = true; now = 131; checked = 131; arrivals = stranger ∷ [] }
    ∷ []

abbrev greeted_client : Client
greeted_client = record {
  ptr = 64;
  addr = address;
  dtls_session = some (record new_session { handshake_complete = true });
  last_activity = 100;
  handshake_complete = true;
}

-- Another ping behind a stranger's datagram, within the time-out of the first.
live_client_answered_example :
    visible
      (main_loop mbed context
        (pos 3)
        (later_rounds ++ (polling 131 131 (stranger ∷ second_ping ∷ []) ∷ []))
        (100, greeted)).1.outputs
    ≡ written (record greeted_client { last_activity = second_ping.now }) (as_pong ping_bytes) ok
      ∷ visible
          (main_loop mbed context
            (pos 3)
            (later_rounds ++ (polling 131 131 (stranger ∷ []) ∷ []))
            (100, greeted)).1.outputs
unfolding turn find_client add_client set_client session_create handshake read write load poll
    check_client_timeouts
live_client_answered_example =
    live_client_answered mbed context (pos 3) second_ping (stranger ∷ []) 131 131 later_rounds
      greeted_client (100, greeted) mbed-IsMbed greeted-IsValid
      ((refl, tt), (tt, (tt, ((refl, tt), ((refl, (refl, tt)), tt))))) refl refl
      (
        (omega arith, ((λ same. refl), tt)),
        ((omega arith, tt), (tt, ((omega arith, ((λ same. ground arith), tt)), tt))),
      )
      (omega arith) (refl, tt) refl refl (ground arith) refl

-- Both peers have IPv4 addresses.
address-IsInet : IsInet address
unfolding load store replicate
address-IsInet = record { sized = refl; layout = refl }

other-IsInet : IsInet other
unfolding load store replicate
other-IsInet = record { sized = refl; layout = refl }

sessions_take_own_example :
    TakesOwn server_context mbed
      (pos 3)
      address
      (some (record new_session { handshake_complete = true }))
      other
      ping_bytes
unfolding turn find_client add_client set_client session_create handshake load poll main_loop
sessions_take_own_example =
    sessions_take_own server_context mbed (pos 3) rounds 100 address other greeted_client ping_bytes
      mbed-IsMbed refl ((address-IsInet, tt), (tt, tt)) ((refl, tt), (tt, tt)) other-IsInet refl
