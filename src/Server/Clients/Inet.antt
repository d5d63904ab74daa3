-- ===== src/Server/Clients/Inet.antt =====
-- IPv4 socket addresses: src/server.c compares host and port, src/dtls.c all bytes.
use space_captain.Common.{
  ℕ, ◌≡◌, ◌↔◌, List, ◌++◌, true, refl, sym, ap, ap₂, ◌∙◌, ==_iff, arith, take, replicate,
}
use space_captain.Dtls.Session.{SockAddr}
use space_captain.Message.Wire.{load, store}
use space_captain.Server.Clients.{sin_port, s_addr, same_peer}

-- The bytes of a `struct sockaddr_in`: AF_INET, the port, the host, and zeros.
abbrev pub inet_bytes : ℕ → ℕ → List ℕ
inet_bytes port host = store 2 2 ++ (store 2 port ++ (store 4 host ++ replicate 8 0))

-- An address as the kernel gives it for IPv4.
pub record IsInet (a : SockAddr) : Type 0 where
  pub sized : a.addr_len ≡ 16
  pub layout : a.bytes ≡ inet_bytes (sin_port a) (s_addr a)

take-inet_bytes : (port host : ℕ) → take 16 (inet_bytes port host) ≡ inet_bytes port host
unfolding store replicate
take-inet_bytes port host = refl

inet_take : (a : SockAddr) → IsInet a → take a.addr_len a.bytes ≡ a.bytes
inet_take a i = rw (i.sized, i.layout) (take-inet_bytes (sin_port a) (s_addr a))

same_bytes_of_peer :
    (a b : SockAddr) → IsInet a → IsInet b → same_peer a b ≡ true → b.bytes ≡ a.bytes
same_bytes_of_peer a b i j h =
    let host : s_addr b ≡ s_addr a = ground (arith, ==_iff (s_addr a) (s_addr b)) in
    let port : sin_port b ≡ sin_port a =
      ground (arith, ==_iff (sin_port a) (sin_port b), ==_iff (s_addr a) (s_addr b)) in
    j.layout ∙ ap₂ inet_bytes port host ∙ sym i.layout

same_peer_of_bytes : (a b : SockAddr) → b.bytes ≡ a.bytes → same_peer a b ≡ true
same_peer_of_bytes a b e =
    let host : s_addr a ≡ s_addr b = ap (λ xs. load 4 xs 4) (sym e) in
    let port : sin_port a ≡ sin_port b = ap (λ xs. load 2 xs 2) (sym e) in
    ground (arith, ==_iff (sin_port a) (sin_port b), ==_iff (s_addr a) (s_addr b))

-- Two such addresses are of one peer exactly if they have the same length and bytes.
pub same_peer_iff :
    (a b : SockAddr)
    → IsInet a
    → IsInet b
    → (same_peer a b ≡ true)
      ↔ ((b.addr_len ≡ a.addr_len) × (take b.addr_len b.bytes ≡ take b.addr_len a.bytes))
same_peer_iff a b i j = (
  λ h. (j.sized ∙ sym i.sized, ap (take b.addr_len) (same_bytes_of_peer a b i j h)),
  λ (sized, bytes).
      same_peer_of_bytes a b
        (sym (inet_take b j) ∙ bytes ∙ ap (λ n. take n a.bytes) sized ∙ inet_take a i),
)
