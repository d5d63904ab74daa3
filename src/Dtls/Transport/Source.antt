-- ===== src/Dtls/Transport/Source.antt =====
-- What a session takes from the socket: a server's takes datagrams of its own client only.
use space_captain.Common.{
  ℕ, refl, pos, ◌≡◌, ◌≢◌, ◌↔◌, ◌<◌, ◌+◌, ◌*◌, true, some, List, [], ◌∷◌, arith, take, length,
}
use space_captain.Dtls.{Mbed, IsMbed, server}
use space_captain.Dtls.Session.{SockAddr, Session}
use space_captain.Dtls.Transport.{
  same_bytes, is_from_client, received, udp_recv, after_select, udp_recv_timeout, Selected,
  Received, timed_out, ready, select_failed, not_received,
}

pub same_bytes_iff : (xs ys : List ℕ) → (same_bytes xs ys ≡ true) ↔ (xs ≡ ys)
unfolding same_bytes
same_bytes_iff [] [] = ground arith
same_bytes_iff [] (y ∷ ys) = ground arith
same_bytes_iff (x ∷ xs) [] = ground arith
same_bytes_iff (x ∷ xs) (y ∷ ys) = ground (arith, same_bytes_iff xs ys)

-- With the error numbers of Mbed TLS, a server's session that stores an address takes a datagram
-- exactly if the datagram's address has the same length and the same bytes over that length.
pub udp_recv_source :
    (m : Mbed) (s : Session) (expected addr : SockAddr) (bytes : List ℕ)
    → IsMbed m
    → s.ctx.role ≡ server
    → s.client_addr ≡ some expected
    → (udp_recv m s (received addr bytes) ≡ pos (length bytes)) ↔ (
        (addr.addr_len ≡ expected.addr_len)
        × (take addr.addr_len addr.bytes ≡ take addr.addr_len expected.bytes))
unfolding udp_recv is_from_client
udp_recv_source m s expected addr bytes known r e = ground (
  arith,
  known,
  same_bytes_iff (take addr.addr_len addr.bytes) (take addr.addr_len expected.bytes),
)

received_in_time :
    (m : Mbed) (s : Session) (r : Received) → IsMbed m → udp_recv m s r ≢ m.ssl_timeout
unfolding udp_recv
received_in_time m s (not_received errno) known = ground (arith, known)
received_in_time m s (received addr bytes) known = ground (arith, known)

timeout_iff :
    (m : Mbed) (s : Session) (selected : Selected) (r : Received)
    → IsMbed m
    → (after_select m s selected r ≡ m.ssl_timeout) ↔ (selected ≡ timed_out)
timeout_iff m s select_failed r known = ground (arith, known)
timeout_iff m s timed_out r known = ground arith
timeout_iff m s ready r known = ground (arith, received_in_time m s r known)

-- The wait for a datagram is on the session's socket and exactly as long as the timeout in
-- milliseconds, with less than a million microseconds; with the error numbers of Mbed TLS it ends
-- with the number for a timeout exactly if the time is over.
udp_recv_timeout-waits :
    (m : Mbed) (s : Session) (timeout : ℕ) (selected : Selected) (r : Received)
    → IsMbed m
    → let w = udp_recv_timeout m s timeout selected r in
      (w.0.fd ≡ s.fd)
      × (w.0.timeout.tv_sec * 1000000 + w.0.timeout.tv_usec ≡ timeout * 1000)
      × (w.0.timeout.tv_usec < 1000000)
      × ((w.1 ≡ m.ssl_timeout) ↔ (selected ≡ timed_out))
unfolding udp_recv_timeout
udp_recv_timeout-waits m s timeout selected r known =
    (refl, omega arith, omega arith, timeout_iff m s selected r known)
