-- ===== src/Server/Loop/Writes.antt =====
-- Only a client whose handshake is complete gets an answer, one for each read that gives bytes.
use space_captain.Common.{
  subst, ◌==ℤ◌, ◌||◌, ℕ, ℤ, pos, negsuc, is_positive, ◌≡◌, Bool, true, false, not, ◌&&◌, Option,
  none, some, List, ◌∷◌, ◌==◌, Bool-cases, inl, inr, refl, arith, if◌then◌else◌, ltb, take,
}
use space_captain.Dtls.{Mbed}
use space_captain.Dtls.Codes.{Result, ok, error_would_block, error_write}
use space_captain.Dtls.Context.{Context}
use space_captain.Dtls.Io.{handshake, read, write, byte_count}
use space_captain.Dtls.Session.{SockAddr, Session}
use space_captain.Server.Clients.{
  Client, State, Output, written, discarded, find_client, add_client, new_client, link_client,
}
use space_captain.Server.Clients.Heap.{IsOpen, Agrees, IsValid}
use space_captain.Server.Loop.{
  Arrival, number, output, store_client, is_ok, is_would_block, is_peer_closed, after_handshake,
  handshake_turn, answer, after_read, data_turn, serve, reach, turn,
}
use space_captain.Server.Loop.Outputs.{
  visible, Writes, unchanged, dropped, remove_client-Writes, if-Writes, both,
}
use space_captain.Server.Loop.Stored.{find_client-At}
use space_captain.Server.Reply.{reply}

module _ (m : Mbed) where
  open m use {want_read, want_write, peer_close_notify}

  -- The result of a write, by what Mbed TLS returns.
  abbrev pub write_result : ℤ → Result
  write_result ret =
      if is_positive ret
      then ok
      else if (ret ==ℤ want_read) || (ret ==ℤ want_write)
      then error_would_block
      else error_write

  -- After a read from a client whose handshake is complete.
  abbrev pub after_data : Arrival → Client → List Output → List Output
  after_data a c os =
      if is_positive a.ret
      then written (record c { last_activity = a.now }) (reply (take (byte_count a.ret) a.received))
          (write_result a.write_ret)
        ∷ os
      else if (a.ret ==ℤ want_read) || (a.ret ==ℤ want_write)
      then discarded ∷ os
      else if a.ret ==ℤ peer_close_notify
      then os
      else discarded ∷ os

  -- After a datagram from a peer, by the client that the server knows for it.
  abbrev pub expected : Arrival → Option Client → List Output → List Output
  expected a none os = discarded ∷ os
  expected a (some c) os = if not c.handshake_complete then discarded ∷ os else after_data a c os

after_handshake-Writes :
    (m : Mbed) (c : Client) (st : State) (r : Result × Option Session)
    → Writes (discarded ∷ visible st.outputs) (after_handshake m c st r)
after_handshake-Writes m c st (result, session) =
    if-Writes (is_ok result) (record { same = refl })
      (if-Writes (is_would_block result) (record { same = refl })
        (remove_client-Writes d (output discarded (store_client d st)) (record { same = refl })))
  where
    d : Client
    d = record c { dtls_session = session }

answer-Writes :
    (m : Mbed) (a : Arrival) (c : Client) (n : ℕ) (st : State)
    → Writes
        (written c (reply (take n a.received)) (write m c.dtls_session true (some 0) a.write_ret).0
          ∷ visible st.outputs)
        (answer m a c n st)
unfolding answer
answer-Writes m a c n st =
    if-Writes (not (is_ok result) && not (is_would_block result))
      (remove_client-Writes c (output sent st) (record { same = refl })) (record { same = refl })
  where
    result : Result
    result = (write m c.dtls_session true (some 0) a.write_ret).0

    sent : Output
    sent = written c (reply (take n a.received)) result

-- The four branches after a read, by its result and number of bytes.
read_branches :
    (m : Mbed) (a : Arrival) (c : Client) (st : State) (r : Result × Option ℕ)
    → Writes
        (if is_ok r.0 && ltb 0 (number r.1)
          then written c
              (reply (take (number r.1) a.received))
              (write m c.dtls_session true (some 0) a.write_ret).0
            ∷ visible st.outputs
          else if is_would_block r.0
          then discarded ∷ visible st.outputs
          else if is_peer_closed r.0
          then visible st.outputs
          else discarded ∷ visible st.outputs)
        (after_read m a c st r)
read_branches m a c st (result, n) =
    both (is_ok result && ltb 0 (number n)) (answer-Writes m a c (number n) st) (
      both (is_would_block result) (dropped st) (
        both (is_peer_closed result) (remove_client-Writes c st (unchanged st))
          (remove_client-Writes c (output discarded st) (dropped st))))

-- The result of a read from a session, by what Mbed TLS returns.
read_results :
    (m : Mbed) (complete : Bool) (o : Option Session) (ret : ℤ)
    → Agrees complete o
    → let r = read m o true (some 0) ret in
      (is_ok r.0 && ltb 0 (number r.1) ≡ is_positive ret)
      × (is_positive ret ≡ true → number r.1 ≡ byte_count ret)
      × (is_positive ret ≡ false
          → is_would_block r.0 ≡ (ret ==ℤ m.want_read) || (ret ==ℤ m.want_write))
      × (is_positive ret ≡ false
          → (ret ==ℤ m.want_read) || (ret ==ℤ m.want_write) ≡ false
          → is_peer_closed r.0 ≡ (ret ==ℤ m.peer_close_notify))
unfolding read
read_results m complete none ret h = absurd h
read_results m complete (some s) (pos n) h = ground arith
read_results m complete (some s) (negsuc n) h = ground arith

write_results :
    (m : Mbed) (complete : Bool) (o : Option Session) (ret : ℤ)
    → Agrees complete o
    → (write m o true (some 0) ret).0 ≡ write_result m ret
unfolding write
write_results m complete none ret h = absurd h
write_results m complete (some s) ret h = ground arith

-- The same branches, by what Mbed TLS returns.
same_branches :
    (m : Mbed) (a : Arrival) (c : Client) (os : List Output)
    → IsOpen c
    → let r = read m c.dtls_session true (some 0) a.ret in
      (if is_ok r.0 && ltb 0 (number r.1)
        then written
            (record c { last_activity = a.now })
            (reply (take (number r.1) a.received))
            (write m c.dtls_session true (some 0) a.write_ret).0
          ∷ os
        else if is_would_block r.0
        then discarded ∷ os
        else if is_peer_closed r.0
        then os
        else discarded ∷ os)
      ≡ after_data m a c os
same_branches m a c os o =
    let (ok_iff, count, block, closed) =
      read_results m c.handshake_complete c.dtls_session a.ret o in
    let result = write_results m c.handshake_complete c.dtls_session a.write_ret o in
    ground (arith, ok_iff, count, block, closed, result)

serve-Writes :
    (m : Mbed) (a : Arrival) (c : Client) (st : State)
    → IsOpen c
    → Writes (expected m a (some c) (visible st.outputs)) (serve m a (some c, st))
unfolding handshake_turn data_turn
serve-Writes m a c st o =
    both (not c.handshake_complete)
      (after_handshake-Writes m active (store_client active st) (handshake m c.dtls_session a.ret))
      (subst (λ os. Writes os (data_turn m a active (store_client active st)))
        (same_branches m a c (visible st.outputs) o)
        (read_branches m a active (store_client active st)
          (read m c.dtls_session true (some 0) a.ret)))
  where
    active : Client
    active = record c { last_activity = a.now }

-- A client that is new makes its handshake first.
serve_new-Writes :
    (m : Mbed) (a : Arrival) (p : ℕ) (addr : SockAddr) (now : ℕ) (s : Option Session) (st : State)
    → Writes (discarded ∷ visible st.outputs) (serve m a (link_client p addr now s st))
unfolding handshake_turn
serve_new-Writes m a p addr now none st = record { same = refl }
serve_new-Writes m a p addr now (some s) st =
    let st' = (link_client p addr now (some s) st).1 in
    let c = record (new_client p addr now (some s)) { last_activity = a.now } in
    after_handshake-Writes m c (store_client c st') (handshake m (some s) a.ret)

module _ (m : Mbed) (ctx : Option Context) (sock : ℤ) (a : Arrival) (st : State) where
  reached-Writes :
      (found : Option Client)
      → IsValid st
      → find_client a.addr st.clients ≡ found
      → Writes (expected m a found (visible st.outputs)) (serve m a (reach m ctx sock a st found))
  unfolding add_client
  reached-Writes (some c) v f =
      serve-Writes m a c st (find_client-At a.addr c st.clients v.distinct f).1
  reached-Writes none v f = elim (Bool-cases (a.add.block == 0)) [
    | inl e ↦ rw e (dropped st)
    | inr e ↦ rw e (serve_new-Writes m a a.add.block a.addr a.add.now _ st)
  ]

  -- Over a valid list of clients, a turn of the event loop sends and throws away, but for close
  -- notifications, exactly this: to a peer whose handshake is complete the answer to the bytes of
  -- a read that gives some, and else nothing but one datagram thrown away, which is left out only
  -- after such a read or when the peer has closed; so data goes only to a client whose handshake
  -- is complete.
  pub turn-visible :
      IsValid st
      → visible (turn m ctx sock a st).outputs
        ≡ expected m a (find_client a.addr st.clients) (visible st.outputs)
  unfolding turn
  turn-visible v = (reached-Writes (find_client a.addr st.clients) v refl).same
