-- ===== src/Server/Loop/Socket.antt =====
-- The datagrams that a turn of the event loop takes out of the socket.
use space_captain.Common.{
  ℕ, suc, ◌+◌, ◌-◌, ℤ, ◌≡◌, refl, ap, ◌∙◌, not, ◌||◌, ◌==ℤ◌, is_positive, Option, none, some, List,
  [], ◌∷◌, arith, if◌then◌else◌, drop, drop-drop,
}
use space_captain.Dtls.{Mbed}
use space_captain.Dtls.Context.{Context}
use space_captain.Dtls.Session.{SockAddr}
use space_captain.Server.Clients.{
  Client, State, Output, close_notify, written, discarded, find_client,
}
use space_captain.Server.Clients.Heap.{IsValid}
use space_captain.Server.Loop.{Arrival, turn}
use space_captain.Server.Loop.Outputs.{visible}
use space_captain.Server.Loop.Writes.{expected, turn-visible}

-- The calls of `recvfrom` without MSG_PEEK that throw a datagram away.
unfoldable pub discards : List Output → ℕ
discards [] = 0
discards (close_notify ptr ∷ os) = discards os
discards (written c bytes result ∷ os) = discards os
discards (discarded ∷ os) = suc (discards os)

-- What a turn leaves in the socket: each receiving call takes the first datagram. `fetched` is the
-- number that Mbed TLS receives through `udp_recv` in the handshake or the read of the turn.
unfoldable pub left_behind {ℓ} : {A : Type ℓ} → ℕ → List Output → List Output → List A → List A
unfolding discards
left_behind fetched before after socket =
    drop (discards after - discards before) (drop fetched socket)

-- What a turn throws away: one datagram, unless data was read or the peer has closed.
abbrev pub extra : Mbed → Arrival → Option Client → ℕ
extra m a none = 1
extra m a (some c) =
    if not c.handshake_complete
    then 1
    else if is_positive a.ret
    then 0
    else if (a.ret ==ℤ m.want_read) || (a.ret ==ℤ m.want_write)
    then 1
    else if a.ret ==ℤ m.peer_close_notify
    then 0
    else 1

discards-visible : (os : List Output) → discards (visible os) ≡ discards os
unfolding discards
discards-visible [] = refl
discards-visible (close_notify ptr ∷ os) = discards-visible os
discards-visible (written c bytes result ∷ os) = discards-visible os
discards-visible (discarded ∷ os) = ap suc (discards-visible os)

discards-expected :
    (m : Mbed) (a : Arrival) (found : Option Client) (os : List Output)
    → discards (expected m a found os) ≡ extra m a found + discards os
unfolding discards
discards-expected m a none os = omega arith
discards-expected m a (some c) os = ground arith

-- Over a valid list of clients, a turn leaves in the socket what is behind the datagrams that Mbed
-- TLS receives in it and one more, unless it answers data or the peer has closed; so where Mbed
-- TLS has received the datagram that the turn peeked at, the next one is thrown away unread.
pub turn_takes :
    (m : Mbed) (ctx : Option Context) (sock : ℤ) (a : Arrival) (st : State) (fetched : ℕ)
    (socket : List SockAddr)
    → IsValid st
    → left_behind fetched st.outputs (turn m ctx sock a st).outputs socket
      ≡ drop (fetched + extra m a (find_client a.addr st.clients)) socket
unfolding left_behind
turn_takes m ctx sock a st fetched socket v =
    ap (λ k. drop k (drop fetched socket)) count ∙ drop-drop (extra m a found) fetched socket
  where
    found : Option Client
    found = find_client a.addr st.clients

    count : discards (turn m ctx sock a st).outputs - discards st.outputs ≡ extra m a found
    count = omega (
      arith,
      discards-visible (turn m ctx sock a st).outputs,
      discards-visible st.outputs,
      ap discards (turn-visible m ctx sock a st v),
      discards-expected m a found (visible st.outputs),
    )
