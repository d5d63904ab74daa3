-- ===== src/Server/Loop/Isolation.antt =====
-- What a peer gets from the server while other peers send to it as well.
use space_captain.Common.{
  ℕ, ℤ, is_positive, ◌≡◌, true, false, Option, some, List, [], ◌∷◌, ◌++◌, refl, ap, ◌∙◌, take,
}
use space_captain.Dtls.{Mbed}
use space_captain.Dtls.Context.{Context}
use space_captain.Dtls.Io.{byte_count}
use space_captain.Dtls.Session.{SockAddr}
use space_captain.Message.Wire.Layout.{AllBytes}
use space_captain.Server.Clients.{Client, State, written, same_peer, find_client}
use space_captain.Server.Clients.Heap.{IsValid}
use space_captain.Server.Loop.{Arrival, turn, drain_socket}
use space_captain.Server.Loop.Shutdown.{AllNew}
use space_captain.Server.Loop.Table.{turn-table}
use space_captain.Server.Loop.Valid.{turn-IsValid}
use space_captain.Server.Loop.Outputs.{visible}
use space_captain.Server.Loop.Writes.{write_result, expected, turn-visible}
use space_captain.Server.Reply.Echo.{is_ping, as_pong, reply-eq-pong_or_echo}

-- Every datagram comes from another peer.
abbrev pub AllOther : SockAddr → List Arrival → Type 0
AllOther x [] = Unit
AllOther x (a ∷ xs) = (same_peer a.addr x ≡ false) × AllOther x xs

-- The bytes that a read leaves in the buffer.
abbrev pub bytes_read : Arrival → List ℕ
bytes_read a = take (byte_count a.ret) a.received

-- A complete client whose read gives a ping gets the pong.
pong_expected :
    (m : Mbed) (a : Arrival) (c : Client) (st : State)
    → c.handshake_complete ≡ true
    → is_positive a.ret ≡ true
    → AllBytes (bytes_read a)
    → is_ping (bytes_read a) ≡ true
    → expected m a (some c) (visible st.outputs)
      ≡ written
          (record c { last_activity = a.now })
          (as_pong (bytes_read a))
          (write_result m a.write_ret)
        ∷ visible st.outputs
pong_expected m a c st complete positive all ping =
    rw (complete, positive, reply-eq-pong_or_echo (bytes_read a) all, ping) refl

module _ (m : Mbed) (ctx : Option Context) (sock : ℤ) where
  pub drain_socket-append :
      (xs ys : List Arrival) (st : State)
      → drain_socket m ctx sock (xs ++ ys) st
        ≡ drain_socket m ctx sock ys (drain_socket m ctx sock xs st)
  unfolding drain_socket
  drain_socket-append [] ys st = refl
  drain_socket-append (a ∷ xs) ys st = drain_socket-append xs ys (turn m ctx sock a st)

  pub drain_socket-IsValid :
      (xs : List Arrival) (st : State)
      → IsValid st
      → AllNew m ctx sock xs st
      → IsValid (drain_socket m ctx sock xs st)
  unfolding drain_socket
  drain_socket-IsValid [] st v new = v
  drain_socket-IsValid (a ∷ xs) st v (first, new) =
      drain_socket-IsValid xs (turn m ctx sock a st) (turn-IsValid m ctx sock a st v first) new

  -- Whatever the others send, and whatever Mbed TLS answers to them, a peer is known as before.
  pub untouched :
      (xs : List Arrival) (x : SockAddr) (st : State)
      → IsValid st
      → AllNew m ctx sock xs st
      → AllOther x xs
      → find_client x (drain_socket m ctx sock xs st).clients ≡ find_client x st.clients
  unfolding drain_socket
  untouched [] x st v new others = refl
  untouched (a ∷ xs) x st v (first, new) (other, others) =
      untouched xs x (turn m ctx sock a st) (turn-IsValid m ctx sock a st v first) new others
      ∙ turn-table m ctx sock a st x v first
      ∙ rw other refl

  -- Over a valid list of clients, with calloc not giving a block that is in use, a client whose
  -- handshake is complete and whose read gives a ping has its pong handed to the write, whatever
  -- other peers have sent
  -- before in the same socket.
  pub ping_answered :
      (xs : List Arrival) (a : Arrival) (c : Client) (st : State)
      → IsValid st
      → AllNew m ctx sock xs st
      → AllOther a.addr xs
      → find_client a.addr st.clients ≡ some c
      → c.handshake_complete ≡ true
      → is_positive a.ret ≡ true
      → AllBytes (bytes_read a)
      → is_ping (bytes_read a) ≡ true
      → visible (drain_socket m ctx sock (xs ++ (a ∷ [])) st).outputs
        ≡ written
            (record c { last_activity = a.now })
            (as_pong (bytes_read a))
            (write_result m a.write_ret)
          ∷ visible (drain_socket m ctx sock xs st).outputs
  unfolding drain_socket
  ping_answered xs a c st v new others known complete positive all ping =
      ap (λ s. visible s.outputs) (drain_socket-append xs (a ∷ []) st)
      ∙ turn-visible m ctx sock a before (drain_socket-IsValid xs st v new)
      ∙ ap (λ k. expected m a k (visible before.outputs))
          (untouched xs a.addr st v new others ∙ known)
      ∙ pong_expected m a c before complete positive all ping
    where
      before : State
      before = drain_socket m ctx sock xs st
