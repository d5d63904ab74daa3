-- ===== src/Dtls/Transport.antt =====
-- The callbacks of src/dtls.c that Mbed TLS uses to reach the UDP socket. What a system call
-- returns is an argument.
pub mod Source
pub mod Peer
use space_captain.Common.{
  ℕ, ℤ, pos, negsuc, ◌*◌, ◌/◌, ◌%◌, Bool, true, false, not, ◌&&◌, ◌||◌, Option, none, some, List,
  [], ◌∷◌, ◌==◌, if◌then◌else◌, length, take,
}
use space_captain.Dtls.{Mbed, is_server}
use space_captain.Dtls.Session.{SockAddr, Session}

-- `EAGAIN` and `EWOULDBLOCK` of Linux are the same number.
abbrev pub eagain : ℕ
eagain = 11

-- `sendto` or `recvfrom` fails with an `errno`, or handles so many bytes.
pub data Sent : Type 0 where
  not_sent : ℕ → Sent
  sent : ℕ → Sent

pub data Received : Type 0 where
  not_received : ℕ → Received
  received : SockAddr → List ℕ → Received

-- A call of `sendto`: the socket, the bytes and the address, `none` for one that is zeroed with the
-- length 0.
pub record SendTo : Type 0 where
  pub fd : ℤ
  pub buf : List ℕ
  pub addr : Option SockAddr

pub record Timeval : Type 0 where
  pub tv_sec : ℕ
  pub tv_usec : ℕ

-- The `struct timeval` for a timeout in milliseconds.
unfoldable pub timeval : ℕ → Timeval
timeval timeout = record { tv_sec = timeout / 1000; tv_usec = timeout % 1000 * 1000 }

-- What `select` returns: -1, 0, or more.
pub data Selected : Type 0 where
  select_failed timed_out ready : Selected

-- A call of `select` for reading: the socket and the time.
pub record Select : Type 0 where
  pub fd : ℤ
  pub timeout : Timeval

-- `memcmp(a, b, n) == 0`
unfoldable pub same_bytes : List ℕ → List ℕ → Bool
same_bytes [] [] = true
same_bytes [] (y ∷ ys) = false
same_bytes (x ∷ xs) [] = false
same_bytes (x ∷ xs) (y ∷ ys) = x == y && same_bytes xs ys

-- The test that a datagram comes from the session's client.
unfoldable pub is_from_client : Session → SockAddr → Bool
unfolding same_bytes
is_from_client session addr = elim session.client_addr [
  | none ↦ addr.addr_len == 0
  | some expected ↦
      addr.addr_len == expected.addr_len
      && same_bytes (take addr.addr_len addr.bytes) (take addr.addr_len expected.bytes)
]

module _ (m : Mbed) where
  open m use {want_read, want_write, ssl_timeout, net_send_failed, net_recv_failed}

  -- The test of what `sendto` returns.
  abbrev pub sent_result : Sent → ℤ
  sent_result (not_sent errno) = if errno == eagain then want_write else net_send_failed
  sent_result (sent n) = pos n

  -- `udp_send`: the call of `sendto`, and what is returned
  unfoldable pub udp_send : Session → List ℕ → Sent → SendTo × ℤ
  udp_send session buf r =
      (record { fd = session.fd; buf = buf; addr = session.client_addr }, sent_result r)

  -- `udp_recv`
  unfoldable pub udp_recv : Session → Received → ℤ
  udp_recv session (not_received errno) = if errno == eagain then want_read else net_recv_failed
  udp_recv session (received addr bytes) =
      if is_server session.ctx.role && not (is_from_client session addr)
      then want_read
      else pos (length bytes)

  -- The branches on what `select` returns.
  abbrev pub after_select : Session → Selected → Received → ℤ
  after_select session select_failed r = net_recv_failed
  after_select session timed_out r = ssl_timeout
  after_select session ready r = udp_recv session r

  -- `udp_recv_timeout`: the call of `select`, and what is returned
  unfoldable pub udp_recv_timeout : Session → ℕ → Selected → Received → Select × ℤ
  unfolding timeval udp_recv
  udp_recv_timeout session timeout selected r =
      (record { fd = session.fd; timeout = timeval timeout }, after_select session selected r)
