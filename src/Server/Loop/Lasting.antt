-- ===== src/Server/Loop/Lasting.antt =====
-- A client of src/server.c that has lasted over the rounds of the event loop, and sends a ping
-- then.
use space_captain.Common.{
  ℕ, ℤ, ◌+◌, ◌-◌, ◌≤◌, is_positive, ◌≡◌, true, false, Option, some, List, [], ◌∷◌, ◌++◌, leb,
  Bool-cases, inl, inr, refl, ap, ◌∙◌,
}
use space_captain.Dtls.{Mbed, IsMbed}
use space_captain.Dtls.Codes.{ok}
use space_captain.Dtls.Context.{Context}
use space_captain.Message.Wire.Layout.{AllBytes}
use space_captain.Server.{client_timeout_seconds}
use space_captain.Server.Clients.{Client, State, written, find_client, check_client_timeouts}
use space_captain.Server.Clients.Heap.{IsValid}
use space_captain.Server.Loop.{Arrival, Round, drain_socket, poll, main_loop}
use space_captain.Server.Loop.Alive.{AllAlive, last_heard_in, Knows, checked-Knows, main_loop-Knows}
use space_captain.Server.Loop.Connection.{write_succeeds}
use space_captain.Server.Loop.Handshake.{AllNew-append}
use space_captain.Server.Loop.Isolation.{AllOther, bytes_read, ping_answered}
use space_captain.Server.Loop.Outputs.{visible}
use space_captain.Server.Loop.Shutdown.{IsServed, AllServed, AllNew, AllNew-branch}
use space_captain.Server.Reply.Echo.{is_ping, as_pong}

-- A round that polls.
abbrev pub polling : ℕ → ℕ → List Arrival → Round
polling now checked xs = record { polled = true; now = now; checked = checked; arrivals = xs }

module _ (m : Mbed) (ctx : Option Context) (sock : ℤ) where
  main_loop-append :
      (rounds more : List Round) (at : ℕ × State)
      → main_loop m ctx sock (rounds ++ more) at
        ≡ main_loop m ctx sock more (main_loop m ctx sock rounds at)
  unfolding main_loop
  main_loop-append [] more at = refl
  main_loop-append (r ∷ rounds) more at =
      main_loop-append rounds more (poll m ctx sock r.polled r.now r.checked r.arrivals at)

  AllServed-append :
      (rounds more : List Round) (at : ℕ × State)
      → AllServed m ctx sock (rounds ++ more) at
      → AllServed m ctx sock rounds at × AllServed m ctx sock more (main_loop m ctx sock rounds at)
  unfolding main_loop
  AllServed-append [] more at f = (tt, f)
  AllServed-append (r ∷ rounds) more at (first, f) =
      let rest =
        AllServed-append rounds more (poll m ctx sock r.polled r.now r.checked r.arrivals at) f in
      ((first, rest.0), rest.1)

  module _ (a : Arrival) (xs : List Arrival) (now checked : ℕ) where
    -- The pong, as the last that is handed to the write.
    abbrev GetsPong : Client → State → State → Type 0
    GetsPong c with_ping without =
        visible with_ping.outputs
        ≡ written (record c { last_activity = a.now }) (as_pong (bytes_read a)) ok
          ∷ visible without.outputs

    drained_ping :
        (c : Client) (st : State)
        → Knows a.addr c st
        → AllNew m ctx sock (xs ++ (a ∷ [])) st
        → AllOther a.addr xs
        → c.handshake_complete ≡ true
        → is_positive a.ret ≡ true
        → is_positive a.write_ret ≡ true
        → AllBytes (bytes_read a)
        → is_ping (bytes_read a) ≡ true
        → GetsPong c (drain_socket m ctx sock (xs ++ (a ∷ [])) st) (drain_socket m ctx sock xs st)
    drained_ping c st (v, f) new others complete positive success all ping =
        ping_answered m ctx sock xs a c st v (AllNew-append m ctx sock xs (a ∷ []) st new).0 others
          f complete positive all ping
        ∙ ap
            (λ r.
              written (record c { last_activity = a.now }) (as_pong (bytes_read a)) r
              ∷ visible (drain_socket m ctx sock xs st).outputs)
            (write_succeeds m a.write_ret success)

    polled_ping :
        (c : Client) (at : ℕ × State)
        → Knows a.addr c at.1
        → IsServed m ctx sock (polling now checked (xs ++ (a ∷ []))) at
        → checked ≤ c.last_activity + client_timeout_seconds
        → AllOther a.addr xs
        → c.handshake_complete ≡ true
        → is_positive a.ret ≡ true
        → is_positive a.write_ret ≡ true
        → AllBytes (bytes_read a)
        → is_ping (bytes_read a) ≡ true
        → GetsPong c
            (poll m ctx sock true now checked (xs ++ (a ∷ [])) at).1
            (poll m ctx sock true now checked xs at).1
    unfolding poll
    polled_ping c (last, st) k new young others complete positive success all ping =
        elim (Bool-cases (leb 5 (now - last))) [
          | inl e ↦ rw e (
              drained_ping c (check_client_timeouts checked st)
                (checked-Knows checked a.addr c st k young)
                (AllNew-branch m ctx sock true now checked last (xs ++ (a ∷ [])) st e new) others
                complete positive success all ping)
          | inr e ↦ rw e (
              drained_ping c st k
                (AllNew-branch m ctx sock false now checked last (xs ++ (a ∷ [])) st e new) others
                complete positive success all ping)
        ]

    -- Over a valid list of clients, with the error numbers of Mbed TLS and calloc not giving a
    -- block that is in use: a client whose handshake is complete, which lasts as in
    -- live_client_stays over any number of rounds of the loop of main, and from which, in a round
    -- that polls after them and whose check of the time-outs would read a time at most 30 seconds
    -- after it was last heard of, a ping is read behind datagrams of others, with a positive
    -- answer to the write, has the pong to it handed to sc_dtls_write, which returns ok, in its
    -- own session; all else that is handed over or thrown away, but for close notifications, is
    -- the same as without this datagram.
    pub live_client_answered :
        (rounds : List Round) (c : Client) (at : ℕ × State)
        → IsMbed m
        → IsValid at.1
        → AllServed m ctx sock (rounds ++ (polling now checked (xs ++ (a ∷ [])) ∷ [])) at
        → find_client a.addr at.1.clients ≡ some c
        → c.handshake_complete ≡ true
        → AllAlive m c.handshake_complete a.addr c.last_activity rounds
        → checked ≤ last_heard_in a.addr rounds c.last_activity + client_timeout_seconds
        → AllOther a.addr xs
        → is_positive a.ret ≡ true
        → is_positive a.write_ret ≡ true
        → AllBytes (bytes_read a)
        → is_ping (bytes_read a) ≡ true
        → GetsPong c
            (main_loop m ctx sock (rounds ++ (polling now checked (xs ++ (a ∷ [])) ∷ [])) at).1
            (main_loop m ctx sock (rounds ++ (polling now checked xs ∷ [])) at).1
    unfolding main_loop
    live_client_answered rounds c at mb v new f complete alive young others positive success all
          ping =
        let (before, last_new) =
          AllServed-append rounds (polling now checked (xs ++ (a ∷ [])) ∷ []) at new in
        rw
          (
            main_loop-append rounds (polling now checked (xs ++ (a ∷ [])) ∷ []) at,
            main_loop-append rounds (polling now checked xs ∷ []) at,
          )
          (polled_ping (record c { last_activity = last_heard_in a.addr rounds c.last_activity })
            (main_loop m ctx sock rounds at)
            (main_loop-Knows m ctx sock rounds a.addr c at mb (v, f) before alive) last_new.0 young
            others complete positive success all ping)
