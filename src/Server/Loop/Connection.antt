-- ===== src/Server/Loop/Connection.antt =====
-- The life of a connection: from the first datagram of a peer over its handshake to its pong.
use space_captain.Common.{
  ℤ, pos, is_positive, ◌==◌, ◌≡◌, true, false, Option, none, some, List, [], ◌∷◌, ◌++◌, refl, sym,
  ◌∙◌,
}
use space_captain.Dtls.{Mbed, IsMbed}
use space_captain.Dtls.Codes.{ok}
use space_captain.Dtls.Context.{Context}
use space_captain.Dtls.Io.{wants_more}
use space_captain.Dtls.Session.{Session, session_create}
use space_captain.Message.Wire.Layout.{AllBytes}
use space_captain.Server.Clients.{Client, State, written, same_peer, find_client, new_client}
use space_captain.Server.Clients.Find.{find-same}
use space_captain.Server.Clients.Heap.{IsValid}
use space_captain.Server.Loop.{Arrival, turn, drain_socket}
use space_captain.Server.Loop.Handshake.{
  AllGoOn, last_heard, connected, AllNew-append, stays, greets, completes,
}
use space_captain.Server.Loop.Isolation.{
  AllOther, bytes_read, drain_socket-append, drain_socket-IsValid, ping_answered,
}
use space_captain.Server.Loop.Shutdown.{AllNew}
use space_captain.Server.Loop.Valid.{turn-IsValid}
use space_captain.Server.Loop.Outputs.{visible}
use space_captain.Server.Loop.Writes.{write_result}
use space_captain.Server.Reply.Echo.{is_ping, as_pong}

pub write_succeeds : (m : Mbed) (ret : ℤ) → is_positive ret ≡ true → write_result m ret ≡ ok
write_succeeds m ret h = rw h refl

module _ (m : Mbed) (ctx : Option Context) (sock : ℤ) where
  -- In one reading of a socket, from the first datagram that is peeked at until no more is there,
  -- over a valid list of clients, with the error numbers of Mbed TLS and calloc not giving a block
  -- that is in use: if a peer that is not known gets a block and a session with its first
  -- datagram, each datagram of its handshake wants more until one ends it, and later one is read
  -- that gives a ping, whose write gives a positive answer, then the pong to it is handed to
  -- sc_dtls_write, which returns ok, in the session and the block of the first datagram, whatever
  -- other peers send in between (after the end of the handshake only others send) and whatever
  -- Mbed TLS answers to them.
  pub connection_answers :
      (h f a : Arrival) (xs ys : List Arrival) (s : Session) (st : State)
      → IsMbed m
      → IsValid st
      → AllNew m ctx sock (h ∷ (xs ++ (f ∷ (ys ++ (a ∷ []))))) st
      → find_client h.addr st.clients ≡ none
      → (h.add.block == 0) ≡ false
      → (session_create ctx sock (some h.addr) h.add.session).session ≡ some s
      → wants_more m h.ret ≡ true
      → AllGoOn m false h.addr xs
      → same_peer f.addr h.addr ≡ true
      → f.ret ≡ pos 0
      → AllOther a.addr ys
      → same_peer a.addr h.addr ≡ true
      → is_positive a.ret ≡ true
      → is_positive a.write_ret ≡ true
      → AllBytes (bytes_read a)
      → is_ping (bytes_read a) ≡ true
      → visible (drain_socket m ctx sock (h ∷ (xs ++ (f ∷ (ys ++ (a ∷ []))))) st).outputs
        ≡ written (connected m ctx sock h s a) (as_pong (bytes_read a)) ok
          ∷ visible (drain_socket m ctx sock (h ∷ (xs ++ (f ∷ ys))) st).outputs
  unfolding drain_socket
  connection_answers h f a xs ys s st mb v (first, new) unknown block made more pends fown ended
        others aown positive success all ping =
      rw
        (
          sym (write_succeeds m a.write_ret success),
          drain_socket-append m ctx sock xs (f ∷ (ys ++ (a ∷ []))) greeted,
          drain_socket-append m ctx sock xs (f ∷ ys) greeted,
        )
        (ping_answered m ctx sock ys a (connected m ctx sock h s f) done done-IsValid
          (AllNew-append m ctx sock ys (a ∷ []) done split.1.1).0 others
          (find-same a.addr h.addr done.clients aown
            ∙ completes m ctx sock f h s (last_heard h.addr xs h.now) waiting waiting-IsValid
                split.1.0
                (stays m ctx sock xs h.addr c greeted mb greeted-IsValid split.0 pends
                  (greets m ctx sock h s st mb v first unknown block made more))
                fown ended)
          refl positive all ping)
    where
      c : Client
      c = record (new_client h.add.block h.addr h.add.now (some s)) { last_activity = h.now }

      greeted : State
      greeted = turn m ctx sock h st

      greeted-IsValid : IsValid greeted
      greeted-IsValid = turn-IsValid m ctx sock h st v first

      split :
          AllNew m ctx sock xs greeted
          × AllNew m ctx sock (f ∷ (ys ++ (a ∷ []))) (drain_socket m ctx sock xs greeted)
      split = AllNew-append m ctx sock xs (f ∷ (ys ++ (a ∷ []))) greeted new

      waiting : State
      waiting = drain_socket m ctx sock xs greeted

      waiting-IsValid : IsValid waiting
      waiting-IsValid = drain_socket-IsValid m ctx sock xs greeted greeted-IsValid split.0

      done : State
      done = turn m ctx sock f waiting

      done-IsValid : IsValid done
      done-IsValid = turn-IsValid m ctx sock f waiting waiting-IsValid split.1.0
