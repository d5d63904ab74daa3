-- ===== src/Server/Loop/Accepts.antt =====
-- What the sessions of the server take from the socket.
use space_captain.Common.{
  ℕ, ℤ, pos, ◌≡◌, ◌↔◌, true, Option, none, some, List, ap, ◌∙◌, subst, length,
}
use space_captain.Dtls.{Mbed, IsMbed, server}
use space_captain.Dtls.Context.{Context}
use space_captain.Dtls.Session.{SockAddr, Session}
use space_captain.Dtls.Transport.{received, udp_recv}
use space_captain.Dtls.Transport.Source.{udp_recv_source}
use space_captain.Server.Clients.{Client, same_peer, find_client}
use space_captain.Server.Clients.Find.{same_peer_left, found_peer}
use space_captain.Server.Clients.Inet.{IsInet, same_peer_iff}
use space_captain.Server.Loop.{Round, main_loop}
use space_captain.Server.Loop.Shutdown.{start, AllServed}
use space_captain.Server.Loop.Sessions.{AllInetIn, IsFor, Holds, main_loop-AllHold, start-AllHold}

module _ (ctx : Context) (m : Mbed) (sock : ℤ) where
  -- A session takes exactly the datagrams of a peer.
  abbrev pub TakesOwn : SockAddr → Option Session → SockAddr → List ℕ → Type 0
  TakesOwn x none y bytes = ⊥
  TakesOwn x (some s) y bytes =
      (udp_recv m s (received y bytes) ≡ pos (length bytes)) ↔ (same_peer x y ≡ true)

  held-TakesOwn :
      (c : Client) (o : Option Session) (y : SockAddr) (bytes : List ℕ)
      → IsMbed m
      → ctx.role ≡ server
      → IsInet c.addr
      → IsInet y
      → IsFor ctx c.addr o
      → TakesOwn c.addr o y bytes
  held-TakesOwn c none y bytes known role i j f = f
  held-TakesOwn c (some s) y bytes known role i j (same, stored) =
      let takes = udp_recv_source m s c.addr y bytes known (ap (λ k. k.role) same ∙ role) stored in
      let equal = same_peer_iff c.addr y i j in (λ h. equal.1 (takes.0 h), λ h. takes.1 (equal.0 h))

  -- So do two addresses that agree with the same ones.
  of_peer :
      (a x y : SockAddr) (bytes : List ℕ) (o : Option Session)
      → same_peer a y ≡ same_peer x y
      → TakesOwn a o y bytes
      → TakesOwn x o y bytes
  of_peer a x y bytes none e t = t
  of_peer a x y bytes (some s) e t = rw (← e) t

  -- With the error numbers of Mbed TLS, a server's context, all datagrams from IPv4 addresses as
  -- the kernel gives them, and calloc not giving a block that is in use: after however many rounds
  -- of the loop of main, the session of the client that find_client gives for an address takes a
  -- datagram from an IPv4 address exactly if both addresses have the same host and port; so the
  -- test of all bytes in src/dtls.c agrees with that of src/server.c.
  pub sessions_take_own :
      (rounds : List Round) (now : ℕ) (x y : SockAddr) (c : Client) (bytes : List ℕ)
      → IsMbed m
      → ctx.role ≡ server
      → AllInetIn rounds
      → AllServed m (some ctx) sock rounds (now, start)
      → IsInet y
      → find_client x (main_loop m (some ctx) sock rounds (now, start)).1.clients ≡ some c
      → TakesOwn x c.dtls_session y bytes
  sessions_take_own rounds now x y c bytes known role inet new j found =
      of_peer c.addr x y bytes c.dtls_session (same_peer_left c.addr x y (found_peer x c _ found))
        (held-TakesOwn c c.dtls_session y bytes known role held.0 j held.1)
    where
      held : Holds ctx (some c)
      held = subst (Holds ctx) found (
          (main_loop-AllHold ctx m sock rounds (now, start) inet new
              (start-AllHold ctx m sock)).holds
            x)
