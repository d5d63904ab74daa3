-- ===== src/Server/Loop/Table.antt =====
-- The list of clients as a map from peers to clients, and what a turn makes of it.
use space_captain.Common.{
  ℕ, ℤ, pos, negsuc, ◌==ℤ◌, is_positive, ◌≡◌, Bool, true, false, not, ◌&&◌, ◌||◌, Option, none,
  some, Bool-cases, inl, inr, refl, sym, ◌∙◌, subst, arith, ◌==◌, if◌then◌else◌, ltb, List,
}
use space_captain.Dtls.{Mbed}
use space_captain.Dtls.Context.{Context}
use space_captain.Dtls.Io.{wants_more, handshake, read, write}
use space_captain.Dtls.Session.{SockAddr, Session, session_create}
use space_captain.Server.Clients.{
  Client, State, same_peer, find_client, add_client, link_client, new_client,
}
use space_captain.Server.Clients.Find.{find-same, found_peer, same_peer_left}
use space_captain.Server.Clients.Heap.{Agrees, IsValid, is_listed}
use space_captain.Server.Loop.{
  Arrival, number, store_client, is_ok, is_would_block, is_peer_closed, handshake_turn, data_turn,
  serve, reach, turn,
}
use space_captain.Server.Loop.Entries.{
  HasEntry, Serves, stored, both, after_handshake-HasEntry, after_read-HasEntry,
}
use space_captain.Server.Loop.Stored.{IsServed}
use space_captain.Server.Loop.Valid.{handshake-Agrees, reach-IsServed}

abbrev pub marked : Option Session → Option Session
marked none = none
marked (some s) = some (record s { handshake_complete = true })

module _ (m : Mbed) where
  -- A client before its handshake is complete, after a turn for it.
  abbrev pub greeted : Arrival → Client → Option Client
  greeted a c =
      if a.ret ==ℤ pos 0
      then some (record c {
        dtls_session = marked c.dtls_session;
        last_activity = a.now;
        handshake_complete = true;
      })
      else if wants_more m a.ret
      then some (record c { last_activity = a.now })
      else none

  -- Whether the read, and the write where there is one, leave a client in the list.
  abbrev pub is_kept : ℤ → ℤ → Bool
  is_kept ret write_ret =
      if is_positive ret then is_positive write_ret || wants_more m write_ret else wants_more m ret

  -- A client after a turn for it, `none` where it is removed.
  abbrev pub served : Arrival → Option Client → Option Client
  served a none = none
  served a (some c) =
      if not c.handshake_complete
      then greeted a c
      else if is_kept a.ret a.write_ret
      then some (record c { last_activity = a.now })
      else none

-- The results of a handshake with a session, by what Mbed TLS returns.
handshake_results :
    (m : Mbed) (complete : Bool) (o : Option Session) (ret : ℤ)
    (f g : Option Session → Option Client)
    → Agrees complete o
    → let r = handshake m o ret in
      (if is_ok r.0 then f r.1 else if is_would_block r.0 then g r.1 else none)
      ≡ (if ret ==ℤ pos 0 then f (marked o) else if wants_more m ret then g o else none)
unfolding handshake
handshake_results m complete none ret f g h = absurd h
handshake_results m complete (some s) ret f g h = ground arith

-- The results of a write, and of a read with the write behind it.
write_results :
    (m : Mbed) (s : Session) (ret : ℤ) (kept : Option Client)
    → let w = (write m (some s) true (some 0) ret).0 in
      (if not (is_ok w) && not (is_would_block w) then none else kept)
      ≡ (if is_positive ret || wants_more m ret then kept else none)
unfolding write
write_results m s ret kept = ground arith

read_results :
    (m : Mbed) (complete : Bool) (o : Option Session) (ret write_ret : ℤ) (kept : Option Client)
    → Agrees complete o
    → let r = read m o true (some 0) ret in
      let w = (write m o true (some 0) write_ret).0 in
      (if is_ok r.0 && ltb 0 (number r.1)
        then (if not (is_ok w) && not (is_would_block w) then none else kept)
        else if is_would_block r.0
        then kept
        else if is_peer_closed r.0
        then none
        else none)
      ≡ (if is_kept m ret write_ret then kept else none)
unfolding read
read_results m complete none ret write_ret kept h = absurd h
read_results m complete (some s) (pos n) write_ret kept h =
    rw (write_results m s write_ret kept) (ground arith)
read_results m complete (some s) (negsuc n) write_ret kept h =
    rw (write_results m s write_ret kept) (ground arith)

serve-HasEntry :
    (m : Mbed) (a : Arrival) (x : SockAddr) (mine : Bool) (base : Option Client) (c : Client)
    (st : State)
    → Serves x mine base c st
    → HasEntry x mine base (served m a (some c)) (serve m a (some c, st))
unfolding handshake_turn data_turn
serve-HasEntry m a x mine base c st s =
    both x mine base (not c.handshake_complete)
      (subst (λ v. HasEntry x mine base v (handshake_turn m a active (store_client active st)))
        (handshake_results m c.handshake_complete c.dtls_session a.ret
          (λ o. some (record active { dtls_session = o; handshake_complete = true }))
          (λ o. some (record active { dtls_session = o })) s.served.2)
        (after_handshake-HasEntry x mine base m active (store_client active st)
          (handshake m c.dtls_session a.ret) here
          (handshake-Agrees m c.handshake_complete c.dtls_session a.ret s.served.2)))
      (subst (λ v. HasEntry x mine base v (data_turn m a active (store_client active st)))
        (read_results m c.handshake_complete c.dtls_session a.ret a.write_ret (some active)
          s.served.2)
        (after_read-HasEntry x mine base m a active (store_client active st)
          (read m c.dtls_session true (some 0) a.ret) here))
  where
    active : Client
    active = record c { last_activity = a.now }

    here : Serves x mine base active (store_client active st)
    here = stored x mine base active c st s refl refl s.served.2

-- A peer that is found, if at all, as `found`.
looked_up :
    (a x : SockAddr) (found : Option Client) (cs : List Client)
    → find_client a cs ≡ found
    → find_client x cs ≡ (if same_peer a x then found else find_client x cs)
looked_up a x found cs f = elim (Bool-cases (same_peer a x)) [
  | inl e ↦ rw e (sym (find-same a x cs e) ∙ f)
  | inr e ↦ rw e refl
]

-- A new client is what its peer is known as.
linked :
    (m : Mbed) (a : Arrival) (p : ℕ) (now : ℕ) (s : Option Session) (st : State) (x : SockAddr)
    → find_client a.addr st.clients ≡ none
    → let r = link_client p a.addr now s st in
      IsServed r
      → HasEntry x (same_peer a.addr x) (find_client x st.clients) (served m a r.0) (serve m a r)
unfolding find_client
linked m a p now none st x f v = record { entry = looked_up a.addr x none st.clients f }
linked m a p now (some s) st x f v =
    serve-HasEntry m a x (same_peer a.addr x) (find_client x st.clients)
      (new_client p a.addr now (some s)) _
      (record { served = v; peer = refl; known = record { entry = refl } })

module _ (m : Mbed) (ctx : Option Context) (sock : ℤ) (a : Arrival) (st : State) where
  -- The client that a turn serves: the one that its peer is known as, or else a new one.
  abbrev pub reached : Option Client
  reached = (reach m ctx sock a st (find_client a.addr st.clients)).0

  reached-HasEntry :
      (x : SockAddr) (found : Option Client)
      → IsValid st
      → find_client a.addr st.clients ≡ found
      → is_listed a.add.block st.clients ≡ false
      → let r = reach m ctx sock a st found in
        HasEntry x (same_peer a.addr x) (find_client x st.clients) (served m a r.0) (serve m a r)
  unfolding add_client
  reached-HasEntry x (some c) v f l =
      serve-HasEntry m a x (same_peer a.addr x) (find_client x st.clients) c st (record {
        served = reach-IsServed m ctx sock a st (some c) v f l;
        peer = same_peer_left c.addr a.addr x (found_peer a.addr c st.clients f);
        known = record { entry = looked_up a.addr x (some c) st.clients f };
      })
  reached-HasEntry x none v f l = elim (Bool-cases (a.add.block == 0)) [
    | inl e ↦ rw e (record { entry = looked_up a.addr x none st.clients f })
    | inr e ↦ rw e (
        linked m a a.add.block a.add.now _ st x f (
          subst (λ b. IsServed (if b then (none, st) else made)) e
            (reach-IsServed m ctx sock a st none v f l)))
  ]
    where
      made : Option Client × State
      made =
          link_client a.add.block a.addr a.add.now
            (session_create ctx sock (some a.addr) a.add.session).session st

  -- Over a valid list of clients, with calloc not giving a block that is in use, a turn of the
  -- event loop over a datagram leaves what every other peer is known as, and makes of the client
  -- that its own peer is known as, or of the new one, exactly this, in place of the old: before
  -- its handshake is complete, it stays if the handshake ends, then with the mark of it, or wants
  -- more; after that, it stays if the read, and the write where the read gives bytes, gives bytes
  -- or wants more; the time of a client that stays is that of the turn, and one that does not
  -- stay, or was not made, is not found any more.
  pub turn-table :
      (x : SockAddr)
      → IsValid st
      → is_listed a.add.block st.clients ≡ false
      → find_client x (turn m ctx sock a st).clients
        ≡ (if same_peer a.addr x then served m a reached else find_client x st.clients)
  unfolding turn
  turn-table x v l = (reached-HasEntry x (find_client a.addr st.clients) v refl l).entry
