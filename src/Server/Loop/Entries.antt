-- ===== src/Server/Loop/Entries.antt =====
-- What a peer is known as while one client is served.
use space_captain.Common.{
  ℕ, ◌≡◌, Bool, true, false, not, ◌&&◌, Option, none, some, Bool-cases, inl, inr, refl, sym, ◌∙◌,
  subst, if◌then◌else◌, take, ltb,
}
use space_captain.Dtls.{Mbed}
use space_captain.Dtls.Codes.{Result}
use space_captain.Dtls.Io.{write}
use space_captain.Dtls.Session.{SockAddr, Session}
use space_captain.Server.Clients.{
  Client, State, Output, written, discarded, same_peer, find_client, remove_client, client_at,
}
use space_captain.Server.Clients.Find.{find-set, find-unlink}
use space_captain.Server.Clients.Heap.{Agrees, IsOpen, remove_client-clients}
use space_captain.Server.Loop.{
  Arrival, number, output, store_client, is_ok, is_would_block, is_peer_closed, after_handshake,
  answer, after_read,
}
use space_captain.Server.Reply.{reply}
use space_captain.Server.Loop.Stored.{IsServed, store_client-IsServed}

-- A later entry takes the place of an earlier one.
overwritten :
    (b : Bool) (v w f base : Option Client)
    → f ≡ (if b then w else base)
    → (if b then v else f) ≡ (if b then v else base)
overwritten true v w f base h = refl
overwritten false v w f base h = h

-- What the peer `x` is known as, if `mine` says whether the turn is for it.
module _ (x : SockAddr) (mine : Bool) (base : Option Client) where
  pub record HasEntry (v : Option Client) (st : State) : Type 0 where
    pub entry : find_client x st.clients ≡ (if mine then v else base)

  -- A client that is served, which is what its peer is known as.
  pub record Serves (c : Client) (st : State) : Type 0 where
    pub served : IsServed (some c, st)
    pub peer : same_peer c.addr x ≡ mine
    pub known : HasEntry (some c) st

  pub stored :
      (d c : Client) (st : State)
      → Serves c st
      → d.ptr ≡ c.ptr
      → d.addr ≡ c.addr
      → IsOpen d
      → Serves d (store_client d st)
  stored d c st s p a o = record {
    served = store_client-IsServed d c st s.served.0 at a o;
    peer = peer;
    known = record {
      entry =
          find-set d c x st.clients a at s.served.0.distinct
          ∙ subst
              (λ b.
                (if b then some d else find_client x st.clients) ≡ (if mine then some d else base))
              (sym peer)
              (overwritten mine (some d) (some c) (find_client x st.clients) base s.known.entry);
    };
  }
    where
      at : client_at d.ptr st.clients ≡ some c
      at = rw p s.served.1

      peer : same_peer d.addr x ≡ mine
      peer = rw a s.peer

  noted : (o : Output) (c : Client) (st : State) → Serves c st → Serves c (output o st)
  noted o c st s = record {
    served =
        (record { distinct = s.served.0.distinct; heap = s.served.0.heap }, s.served.1, s.served.2);
    peer = s.peer;
    known = record { entry = s.known.entry };
  }

  removed : (c : Client) (st : State) → Serves c st → HasEntry none (remove_client c st)
  removed c st s = record {
    entry =
        rw
          (
            remove_client-clients c st,
            find-unlink c.ptr c x st.clients s.served.1 s.served.0.distinct,
            s.peer,
          )
          (overwritten mine none (some c) (find_client x st.clients) base s.known.entry);
  }

  pub both :
      (b : Bool) {v w : Option Client} {s t : State}
      → HasEntry v s
      → HasEntry w t
      → HasEntry (if b then v else w) (if b then s else t)
  both true p q = p
  both false p q = q

  pub after_handshake-HasEntry :
      (m : Mbed) (c : Client) (st : State) (r : Result × Option Session)
      → Serves c st
      → Agrees (if is_ok r.0 then true else c.handshake_complete) r.1
      → HasEntry
          (if is_ok r.0
            then some (record c { dtls_session = r.1; handshake_complete = true })
            else if is_would_block r.0
            then some (record c { dtls_session = r.1 })
            else none)
          (after_handshake m c st r)
  after_handshake-HasEntry m c st (result, session) s a = elim (Bool-cases (is_ok result)) [
    | inl e ↦
        let done : Client = record c { dtls_session = session; handshake_complete = true } in
        rw e
          (noted discarded done (store_client done st) (
            stored done c st s refl refl
              (subst (λ b. Agrees (if b then true else c.handshake_complete) session) e a))).known
    | inr e ↦
        let kept : Client = record c { dtls_session = session } in
        let serves : Serves kept (output discarded (store_client kept st)) =
          noted discarded kept (store_client kept st) (
            stored kept c st s refl refl
              (subst (λ b. Agrees (if b then true else c.handshake_complete) session) e a)) in
        rw e (both (is_would_block result) serves.known (removed kept _ serves))
  ]

  answer-HasEntry :
      (m : Mbed) (a : Arrival) (c : Client) (n : ℕ) (st : State)
      → Serves c st
      → let r = (write m c.dtls_session true (some 0) a.write_ret).0 in
        HasEntry
          (if not (is_ok r) && not (is_would_block r) then none else some c)
          (answer m a c n st)
  unfolding answer
  answer-HasEntry m a c n st s =
      both _ (removed c (output sent st) (noted sent c st s)) (noted sent c st s).known
    where
      sent : Output
      sent =
          written c (reply (take n a.received)) (write m c.dtls_session true (some 0) a.write_ret).0

  pub after_read-HasEntry :
      (m : Mbed) (a : Arrival) (c : Client) (st : State) (r : Result × Option ℕ)
      → Serves c st
      → let w = (write m c.dtls_session true (some 0) a.write_ret).0 in
        HasEntry
          (if is_ok r.0 && ltb 0 (number r.1)
            then (if not (is_ok w) && not (is_would_block w) then none else some c)
            else if is_would_block r.0
            then some c
            else if is_peer_closed r.0
            then none
            else none)
          (after_read m a c st r)
  after_read-HasEntry m a c st (result, n) s =
      both (is_ok result && ltb 0 (number n)) (answer-HasEntry m a c (number n) st s) (
        both (is_would_block result) (noted discarded c st s).known (
          both (is_peer_closed result) (removed c st s)
            (removed c (output discarded st) (noted discarded c st s))))
