-- ===== src/Server/Loop/Handshake.antt =====
-- The handshake of one peer, while other peers send to the server as well.
use space_captain.Common.{
  ℕ, Bool, subst, ℤ, pos, ◌==ℤ◌, ◌==◌, ◌≡◌, Bool-cases, inl, inr, true, false, Option, none, some,
  List, [], ◌∷◌, ◌++◌, refl, ap, ◌∙◌, arith, if◌then◌else◌,
}
use space_captain.Dtls.{Mbed, IsMbed}
use space_captain.Dtls.Context.{Context}
use space_captain.Dtls.Io.{wants_more}
use space_captain.Dtls.Session.{SockAddr, Session, session_create}
use space_captain.Server.Clients.{Client, State, same_peer, find_client, add_client, new_client}
use space_captain.Server.Clients.Find.{same_peer_refl, find-same}
use space_captain.Server.Clients.Heap.{IsValid, is_listed}
use space_captain.Server.Loop.{Arrival, reach, turn, drain_socket}
use space_captain.Server.Loop.Shutdown.{AllNew}
use space_captain.Server.Loop.Table.{marked, is_kept, served, reached, turn-table}
use space_captain.Server.Loop.Valid.{turn-IsValid}

-- The numbers that ask for more do not say that a handshake has ended.
more_to_come : (m : Mbed) (ret : ℤ) → IsMbed m → wants_more m ret ≡ true → (ret ==ℤ pos 0) ≡ false
more_to_come m ret known more = ground (arith, known)

-- The last time a peer was heard of.
abbrev pub last_heard : SockAddr → List Arrival → ℕ → ℕ
last_heard x [] time = time
last_heard x (a ∷ xs) time = last_heard x xs (if same_peer a.addr x then a.now else time)

module _ (m : Mbed) where
  -- Whether a turn leaves a client in the list whose handshake is complete, or else goes on with
  -- its handshake.
  abbrev pub goes_on : Bool → Arrival → Bool
  goes_on complete a = if complete then is_kept m a.ret a.write_ret else wants_more m a.ret

  -- So do the turns of one peer.
  abbrev pub AllGoOn : Bool → SockAddr → List Arrival → Type 0
  AllGoOn complete x [] = Unit
  AllGoOn complete x (a ∷ xs) =
      (same_peer a.addr x ≡ true → goes_on complete a ≡ true) × AllGoOn complete x xs

  served_again :
      (a : Arrival) (c : Client)
      → IsMbed m
      → goes_on c.handshake_complete a ≡ true
      → served m a (some c) ≡ some (record c { last_activity = a.now })
  served_again a c mb g = elim (Bool-cases c.handshake_complete) [
    | inl complete ↦ rw (complete, subst (λ b. goes_on b a ≡ true) complete g) refl
    | inr open_ ↦
        let more : wants_more m a.ret ≡ true = subst (λ b. goes_on b a ≡ true) open_ g in
        rw (open_, more_to_come m a.ret mb more, more) refl
  ]

  module _ (ctx : Option Context) (sock : ℤ) where
    pub AllNew-append :
        (xs ys : List Arrival) (st : State)
        → AllNew m ctx sock (xs ++ ys) st
        → AllNew m ctx sock xs st × AllNew m ctx sock ys (drain_socket m ctx sock xs st)
    unfolding drain_socket
    AllNew-append [] ys st new = (tt, new)
    AllNew-append (a ∷ xs) ys st (first, new) =
        let rest = AllNew-append xs ys (turn m ctx sock a st) new in ((first, rest.0), rest.1)

    -- The client that a turn serves, by what its peer is known as.
    found_as :
        (a : Arrival) (st : State) (found : Option Client)
        → find_client a.addr st.clients ≡ found
        → reached m ctx sock a st ≡ (reach m ctx sock a st found).0
    found_as a st found e = ap (λ o. (reach m ctx sock a st o).0) e

    -- What a known peer is known as after a datagram of its own.
    heard :
        (a : Arrival) (x : SockAddr) (c : Client) (st : State)
        → IsValid st
        → is_listed a.add.block st.clients ≡ false
        → find_client x st.clients ≡ some c
        → same_peer a.addr x ≡ true
        → find_client x (turn m ctx sock a st).clients ≡ served m a (some c)
    heard a x c st v new known own =
        turn-table m ctx sock a st x v new
        ∙ rw own
            (ap (served m a) (found_as a st (some c) (find-same a.addr x st.clients own ∙ known)))

    -- A client is kept while its turns go on, whatever the others send.
    pub stays :
        (xs : List Arrival) (x : SockAddr) (c : Client) (st : State)
        → IsMbed m
        → IsValid st
        → AllNew m ctx sock xs st
        → AllGoOn c.handshake_complete x xs
        → find_client x st.clients ≡ some c
        → find_client x (drain_socket m ctx sock xs st).clients
          ≡ some (record c { last_activity = last_heard x xs c.last_activity })
    unfolding drain_socket
    stays [] x c st mb v new p known = known
    stays (a ∷ xs) x c st mb v (first, new) (p, ps) known =
        stays xs x (record c { last_activity = time }) (turn m ctx sock a st) mb
          (turn-IsValid m ctx sock a st v first) new ps step
      where
        time : ℕ
        time = if same_peer a.addr x then a.now else c.last_activity

        step :
            find_client x (turn m ctx sock a st).clients ≡ some (record c { last_activity = time })
        step = elim (Bool-cases (same_peer a.addr x)) [
          | inl own ↦ heard a x c st v first known own ∙ served_again a c mb (p own) ∙ rw own refl
          | inr other ↦ turn-table m ctx sock a st x v first ∙ rw other known
        ]

    -- The first datagram of a peer makes a client.
    pub greets :
        (h : Arrival) (s : Session) (st : State)
        → IsMbed m
        → IsValid st
        → is_listed h.add.block st.clients ≡ false
        → find_client h.addr st.clients ≡ none
        → (h.add.block == 0) ≡ false
        → (session_create ctx sock (some h.addr) h.add.session).session ≡ some s
        → wants_more m h.ret ≡ true
        → find_client h.addr (turn m ctx sock h st).clients
          ≡ some
              (record (new_client h.add.block h.addr h.add.now (some s)) { last_activity = h.now })
    unfolding add_client
    greets h s st mb v new unknown block made more =
        turn-table m ctx sock h st h.addr v new
        ∙ rw (same_peer_refl h.addr) (
            ap (served m h) (found_as h st none unknown ∙ fresh)
            ∙ rw (more_to_come m h.ret mb more, more) refl)
      where
        fresh :
            (reach m ctx sock h st none).0 ≡ some (new_client h.add.block h.addr h.add.now (some s))
        fresh = rw (block, made) refl

    -- The client that a connection leaves: of the first datagram, with the time of the last.
    abbrev pub connected : Arrival → Session → Arrival → Client
    connected h s a = record {
      ptr = h.add.block;
      addr = h.addr;
      dtls_session = marked (some s);
      last_activity = a.now;
      handshake_complete = true;
    }

    -- The datagram that ends the handshake leaves a client whose handshake is complete.
    pub completes :
        (f h : Arrival) (s : Session) (time : ℕ) (st : State)
        → IsValid st
        → is_listed f.add.block st.clients ≡ false
        → find_client h.addr st.clients
          ≡ some
              (record (new_client h.add.block h.addr h.add.now (some s)) { last_activity = time })
        → same_peer f.addr h.addr ≡ true
        → f.ret ≡ pos 0
        → find_client h.addr (turn m ctx sock f st).clients ≡ some (connected h s f)
    completes f h s time st v new known own ended =
        heard f h.addr
          (record (new_client h.add.block h.addr h.add.now (some s)) { last_activity = time }) st v
          new known own
        ∙ rw ended refl
