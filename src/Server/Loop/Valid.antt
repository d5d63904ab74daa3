-- ===== src/Server/Loop/Valid.antt =====
-- The event loop keeps the list of clients valid, and shutting down releases every block.
use space_captain.Common.{
  ℕ, ℤ, ◌≡◌, Bool, true, false, Option, none, some, ◌∷◌, ◌==◌, ==_iff, Bool-cases, inl, inr, refl,
  subst, arith, if◌then◌else◌, take,
}
use space_captain.Dtls.{Mbed}
use space_captain.Dtls.Codes.{Result}
use space_captain.Dtls.Context.{Context}
use space_captain.Dtls.Io.{write, handshake, read}
use space_captain.Dtls.Session.{SockAddr, Session}
use space_captain.Server.Clients.{
  Client, State, Output, written, discarded, new_client, find_client, add_client, remove_client,
  client_at, link_client,
}
use space_captain.Server.Clients.Heap.{
  Agrees, IsNew, IsValid, is_listed, remove_client-IsValid, IsIdle, created-IsIdle, newcomer,
  link_client-IsValid,
}
use space_captain.Server.Loop.{
  Arrival, number, output, store_client, is_ok, is_would_block, after_handshake, handshake_turn,
  answer, data_turn, serve, reach, turn,
}
use space_captain.Server.Reply.{reply}
use space_captain.Server.Loop.Stored.{at-listed, find_client-At, IsServed, store_client-IsServed}

pub handshake-Agrees :
    (m : Mbed) (complete : Bool) (s : Option Session) (ret : ℤ)
    → Agrees complete s
    → let r = handshake m s ret in Agrees (if is_ok r.0 then true else complete) r.1
unfolding handshake
handshake-Agrees m complete none ret h = absurd h
handshake-Agrees m complete (some s) ret h = ground arith

-- A client that is removed may have been written to since; its block is what counts.
removed : (c : Client) (st : State) → IsServed (some c, st) → IsValid (remove_client c st)
removed c st (v, h, o) = remove_client-IsValid c st v o (at-listed c.ptr c st.clients h)

noted : (o : Output) (st : State) → IsValid st → IsValid (output o st)
noted o st v = record { distinct = v.distinct; heap = v.heap }

after_handshake-IsValid :
    (m : Mbed) (c : Client) (st : State) (r : Result × Option Session)
    → IsServed (some c, st)
    → Agrees (if is_ok r.0 then true else c.handshake_complete) r.1
    → IsValid (after_handshake m c st r)
after_handshake-IsValid m c st (result, session) (v, h, o) a = elim (Bool-cases (is_ok result)) [
  | inl e ↦ rw e (
      noted discarded _
        (store_client-IsServed (record c { dtls_session = session; handshake_complete = true }) c st
          v h refl (subst (λ b. Agrees (if b then true else c.handshake_complete) session) e a)).0)
  | inr e ↦ rw e (elim (Bool-cases (is_would_block result)) [
    | inl w ↦ rw w (noted discarded (store_client d st) (stored e).0)
    | inr w ↦ rw w (
        removed d (output discarded (store_client d st))
          (noted discarded (store_client d st) (stored e).0, (stored e).1, (stored e).2))
  ])
]
  where
    d : Client
    d = record c { dtls_session = session }

    stored : is_ok result ≡ false → IsServed (some d, store_client d st)
    stored e =
        store_client-IsServed d c st v h refl
          (subst (λ b. Agrees (if b then true else c.handshake_complete) session) e a)

if-IsValid : (b : Bool) (x y : State) → IsValid x → IsValid y → IsValid (if b then x else y)
if-IsValid true x y p q = p
if-IsValid false x y p q = q

answer-IsValid :
    (m : Mbed) (a : Arrival) (c : Client) (n : ℕ) (st : State)
    → IsServed (some c, st)
    → IsValid (answer m a c n st)
unfolding answer
answer-IsValid m a c n st (v, h, o) =
    if-IsValid _ _ _ (removed c (output sent st) (noted sent st v, h, o)) (noted sent st v)
  where
    sent : Output
    sent =
        written c (reply (take n a.received)) (write m c.dtls_session true (some 0) a.write_ret).0

data_turn-IsValid :
    (m : Mbed) (a : Arrival) (c : Client) (st : State)
    → IsServed (some c, st)
    → IsValid (data_turn m a c st)
unfolding data_turn
data_turn-IsValid m a c st (v, h, o) =
    if-IsValid _ _ _ (answer-IsValid m a c (number r.1) st (v, h, o)) (
      if-IsValid _ _ _ (noted discarded st v) (
        if-IsValid _ _ _ (removed c st (v, h, o))
          (removed c (output discarded st) (noted discarded st v, h, o))))
  where
    r : Result × Option ℕ
    r = read m c.dtls_session true (some 0) a.ret

handshake_turn-IsValid :
    (m : Mbed) (a : Arrival) (c : Client) (st : State)
    → IsServed (some c, st)
    → IsValid (handshake_turn m a c st)
unfolding handshake_turn
handshake_turn-IsValid m a c st (v, h, o) =
    after_handshake-IsValid m c st (handshake m c.dtls_session a.ret) (v, h, o)
      (handshake-Agrees m c.handshake_complete c.dtls_session a.ret o)

serve-IsValid :
    (m : Mbed) (a : Arrival) (r : Option Client × State) → IsServed r → IsValid (serve m a r)
serve-IsValid m a (none, st) v = noted discarded st v
serve-IsValid m a (some c, st) (v, h, o) =
    if-IsValid _ _ _ (handshake_turn-IsValid m a active (store_client active st) stored)
      (data_turn-IsValid m a active (store_client active st) stored)
  where
    active : Client
    active = record c { last_activity = a.now }

    stored : IsServed (some active, store_client active st)
    stored = store_client-IsServed active c st v h refl o

link_client-IsServed :
    (p : ℕ) (a : SockAddr) (now : ℕ) (s : Option Session) (st : State)
    → IsValid st
    → IsIdle s
    → IsNew p a st.clients
    → IsServed (link_client p a now s st)
unfolding client_at
link_client-IsServed p a now none st v i n = link_client-IsValid p a now none st v i n
link_client-IsServed p a now (some s) st v i n =
    (link_client-IsValid p a now (some s) st v i n, found, i)
  where
    found :
        client_at p (new_client p a now (some s) ∷ st.clients) ≡ some (new_client p a now (some s))
    found = ground (arith, ==_iff p p)

module _ (m : Mbed) (ctx : Option Context) (sock : ℤ) where
  pub reach-IsServed :
      (a : Arrival) (st : State) (found : Option Client)
      → IsValid st
      → find_client a.addr st.clients ≡ found
      → is_listed a.add.block st.clients ≡ false
      → IsServed (reach m ctx sock a st found)
  unfolding add_client
  reach-IsServed a st (some c) v f l =
      let at = find_client-At a.addr c st.clients v.distinct f in (v, at.0, at.1)
  reach-IsServed a st none v f l = elim (Bool-cases (a.add.block == 0)) [
    | inl e ↦ rw e v
    | inr e ↦ rw e (
        link_client-IsServed a.add.block a.addr a.add.now _ st v
          (created-IsIdle ctx sock a.addr a.add.session)
          (newcomer a.add.block a.addr st.clients l f))
  ]

  -- A turn of the event loop over a datagram keeps the list of clients valid, if calloc does not
  -- give a block that is in use: every client has a block and a peer of its own and a session that
  -- agrees with it on the handshake, and the blocks and sessions that are alive are exactly those
  -- of the clients, whatever branch is taken.
  pub turn-IsValid :
      (a : Arrival) (st : State)
      → IsValid st
      → is_listed a.add.block st.clients ≡ false
      → IsValid (turn m ctx sock a st)
  unfolding turn
  turn-IsValid a st v l =
      serve-IsValid m a _ (reach-IsServed a st (find_client a.addr st.clients) v refl l)
