-- ===== src/Dtls/Transport/Peer.antt =====
-- The session that the server makes for a client, on the socket.
use space_captain.Common.{ℕ, ℤ, pos, ◌<◌, ◌≡◌, ◌↔◌, some, List, refl, subst, arith, take, length}
use space_captain.Dtls.{Mbed, IsMbed, server}
use space_captain.Dtls.Context.{Context}
use space_captain.Dtls.Session.{SockAddr, Session, SessionEnv, session_create, new_session}
use space_captain.Dtls.Session.Create.{created}
use space_captain.Dtls.Transport.{Sent, sent_result, udp_send, received, udp_recv}
use space_captain.Dtls.Transport.Source.{udp_recv_source}

-- A session sends to one address through one socket, and takes datagrams from that address only.
abbrev pub TalksTo : Mbed → ℤ → SockAddr → Session → List ℕ → Sent → SockAddr → List ℕ → Type 0
TalksTo m fd peer s buf r addr bytes =
    (udp_send m s buf r ≡ (record { fd = fd; buf = buf; addr = some peer }, sent_result m r))
    × ((udp_recv m s (received addr bytes) ≡ pos (length bytes)) ↔ (
        (addr.addr_len ≡ peer.addr_len)
        × (take addr.addr_len addr.bytes ≡ take addr.addr_len peer.bytes)))

-- With the error numbers of Mbed TLS, a session that sc_dtls_session_create makes in a server's
-- context for a socket and an address that is not empty sends what Mbed TLS hands to it to that
-- address through that socket, and gives back what sendto gives; and it takes a datagram exactly
-- if it comes from an address with the same length and the same bytes over that length.
pub session_create-TalksTo :
    (m : Mbed) (ctx : Context) (fd : ℤ) (peer : SockAddr) (env : SessionEnv) (s : Session)
    (buf : List ℕ) (r : Sent) (addr : SockAddr) (bytes : List ℕ)
    → IsMbed m
    → ctx.role ≡ server
    → 0 < peer.addr_len
    → (session_create (some ctx) fd (some peer) env).session ≡ some s
    → TalksTo m fd peer s buf r addr bytes
unfolding udp_send
session_create-TalksTo m ctx fd peer env s buf r addr bytes known role long made =
    subst (λ s. TalksTo m fd peer s buf r addr bytes) (created ctx fd (some peer) env s made)
      (rw stored refl, udp_recv_source m session peer addr bytes known role stored)
  where
    session : Session
    session = new_session ctx fd (some peer)

    stored : session.client_addr ≡ some peer
    stored = ground arith
