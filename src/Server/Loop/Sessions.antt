-- ===== src/Server/Loop/Sessions.antt =====
-- The sessions that the server keeps for its peers.
use space_captain.Common.{
  ℕ, ℤ, pos, ◌==ℤ◌, ◌-◌, ◌+◌, ◌≡◌, Bool, true, false, Option, none, some, List, [], ◌∷◌, ◌==◌, leb,
  ltb, refl, subst, inl, inr, Bool-cases, if◌then◌else◌, not,
}
use space_captain.Dtls.{Mbed}
use space_captain.Dtls.Context.{Context}
use space_captain.Dtls.Io.{wants_more}
use space_captain.Dtls.Session.{SockAddr, Session, SessionEnv, session_create}
use space_captain.Dtls.Session.Create.{created}
use space_captain.Server.{client_timeout_seconds}
use space_captain.Server.Clients.{
  Client, State, same_peer, find_client, add_client, link_client, check_client_timeouts,
}
use space_captain.Server.Clients.Ages.{aged, find-active}
use space_captain.Server.Clients.Expiry.{timeouts-active}
use space_captain.Server.Clients.Heap.{IsValid, is_listed}
use space_captain.Server.Clients.Inet.{IsInet}
use space_captain.Server.Loop.{Arrival, Round, reach, turn, drain_socket, poll, main_loop}
use space_captain.Server.Loop.Shutdown.{start, IsServed, AllServed, AllNew, AllNew-branch}
use space_captain.Server.Loop.Table.{marked, is_kept, greeted, served, reached, turn-table}
use space_captain.Server.Loop.Valid.{turn-IsValid}

-- Every datagram comes from an IPv4 address.
abbrev pub AllInet : List Arrival → Type 0
AllInet [] = Unit
AllInet (a ∷ xs) = IsInet a.addr × AllInet xs

abbrev pub AllInetIn : List Round → Type 0
AllInetIn [] = Unit
AllInetIn (r ∷ rounds) = AllInet r.arrivals × AllInetIn rounds

module _ (ctx : Context) where
  -- A session of the context for an address.
  abbrev pub IsFor : SockAddr → Option Session → Type 0
  IsFor addr none = ⊥
  IsFor addr (some s) = (s.ctx ≡ ctx) × (s.client_addr ≡ some addr)

  -- A client that is known has an IPv4 address and a session for it.
  abbrev pub Holds : Option Client → Type 0
  Holds none = Unit
  Holds (some c) = IsInet c.addr × IsFor c.addr c.dtls_session

  if-Holds : (b : Bool) (v w : Option Client) → Holds v → Holds w → Holds (if b then v else w)
  if-Holds true v w p q = p
  if-Holds false v w p q = q

  marked-IsFor : (addr : SockAddr) (o : Option Session) → IsFor addr o → IsFor addr (marked o)
  marked-IsFor addr none f = f
  marked-IsFor addr (some s) f = f

  served-Holds : (m : Mbed) (a : Arrival) (o : Option Client) → Holds o → Holds (served m a o)
  served-Holds m a none h = tt
  served-Holds m a (some c) h =
      if-Holds (not c.handshake_complete) (greeted m a c) _
        (if-Holds (a.ret ==ℤ pos 0)
          (some (record c {
            dtls_session = marked c.dtls_session;
            last_activity = a.now;
            handshake_complete = true;
          }))
          _ (h.0, marked-IsFor c.addr c.dtls_session h.1)
          (if-Holds (wants_more m a.ret) (some active) none h tt))
        (if-Holds (is_kept m a.ret a.write_ret) (some active) none h tt)
    where
      active : Client
      active = record c { last_activity = a.now }

  aged-Holds : (now : ℕ) (o : Option Client) → Holds o → Holds (aged now o)
  aged-Holds now none h = tt
  aged-Holds now (some c) h =
      if-Holds (ltb (c.last_activity + client_timeout_seconds) now) none (some c) tt h

  -- A session that is made for an IPv4 address stores it.
  created-IsFor :
      (sock : ℤ) (addr : SockAddr) (env : SessionEnv) (s : Session)
      → IsInet addr
      → (session_create (some ctx) sock (some addr) env).session ≡ some s
      → IsFor addr (some s)
  created-IsFor sock addr env s i made =
      subst (λ s. IsFor addr (some s)) (created ctx sock (some addr) env s made)
        (refl, rw i.sized refl)

  linked-Holds :
      (a : Arrival) (sock : ℤ) (o : Option Session) (st : State)
      → IsInet a.addr
      → (session_create (some ctx) sock (some a.addr) a.add.session).session ≡ o
      → Holds (link_client a.add.block a.addr a.add.now o st).0
  linked-Holds a sock none st i made = tt
  linked-Holds a sock (some s) st i made = (i, created-IsFor sock a.addr a.add.session s i made)

  reach-Holds :
      (m : Mbed) (sock : ℤ) (a : Arrival) (st : State) (o : Option Client)
      → IsInet a.addr
      → Holds o
      → Holds (reach m (some ctx) sock a st o).0
  unfolding add_client
  reach-Holds m sock a st (some c) i h = h
  reach-Holds m sock a st none i h = elim (Bool-cases (a.add.block == 0)) [
    | inl e ↦ rw e tt
    | inr e ↦ rw e (linked-Holds a sock _ st i refl)
  ]

  -- A valid state, in which every peer that is known has its session.
  pub record AllHold (st : State) : Type 0 where
    pub valid : IsValid st
    pub holds : (x : SockAddr) → Holds (find_client x st.clients)

  checked-AllHold : (now : ℕ) (st : State) → AllHold st → AllHold (check_client_timeouts now st)
  checked-AllHold now st h =
      let (clients, valid) = timeouts-active now st h.valid in
      record {
        valid = valid;
        holds = λ x.
            rw (clients, find-active now x st.clients h.valid.distinct)
              (aged-Holds now (find_client x st.clients) (h.holds x));
      }

  module _ (m : Mbed) (sock : ℤ) where
    turn-AllHold :
        (a : Arrival) (st : State)
        → IsInet a.addr
        → is_listed a.add.block st.clients ≡ false
        → AllHold st
        → AllHold (turn m (some ctx) sock a st)
    turn-AllHold a st i new h = record {
      valid = turn-IsValid m (some ctx) sock a st h.valid new;
      holds = λ x. rw (turn-table m (some ctx) sock a st x h.valid new) (
          if-Holds (same_peer a.addr x) (served m a (reached m (some ctx) sock a st))
            (find_client x st.clients)
            (served-Holds m a (reached m (some ctx) sock a st)
              (reach-Holds m sock a st (find_client a.addr st.clients) i (h.holds a.addr)))
            (h.holds x));
    }

    drain_socket-AllHold :
        (xs : List Arrival) (st : State)
        → AllInet xs
        → AllNew m (some ctx) sock xs st
        → AllHold st
        → AllHold (drain_socket m (some ctx) sock xs st)
    unfolding drain_socket
    drain_socket-AllHold [] st i new h = h
    drain_socket-AllHold (a ∷ xs) st (i, is) (first, new) h =
        drain_socket-AllHold xs (turn m (some ctx) sock a st) is new (turn-AllHold a st i first h)

    poll-AllHold :
        (polled : Bool) (now checked : ℕ) (xs : List Arrival) (at : ℕ × State)
        → AllInet xs
        → IsServed m
            (some ctx)
            sock
            (record { polled = polled; now = now; checked = checked; arrivals = xs })
            at
        → AllHold at.1
        → AllHold (poll m (some ctx) sock polled now checked xs at).1
    unfolding poll
    poll-AllHold false now checked xs (last, st) i new h = h
    poll-AllHold true now checked xs (last, st) i new h = elim (Bool-cases (leb 5 (now - last))) [
      | inl e ↦ rw e (
          drain_socket-AllHold xs (check_client_timeouts checked st) i
            (AllNew-branch m (some ctx) sock true now checked last xs st e new)
            (checked-AllHold checked st h))
      | inr e ↦ rw e (
          drain_socket-AllHold xs st i
            (AllNew-branch m (some ctx) sock false now checked last xs st e new) h)
    ]

    pub main_loop-AllHold :
        (rounds : List Round) (at : ℕ × State)
        → AllInetIn rounds
        → AllServed m (some ctx) sock rounds at
        → AllHold at.1
        → AllHold (main_loop m (some ctx) sock rounds at).1
    unfolding main_loop
    main_loop-AllHold [] at i new h = h
    main_loop-AllHold (r ∷ rounds) at (i, is) (first, new) h =
        main_loop-AllHold rounds (poll m (some ctx) sock r.polled r.now r.checked r.arrivals at) is
          new (poll-AllHold r.polled r.now r.checked r.arrivals at i first h)

    pub start-AllHold : AllHold start
    unfolding find_client
    start-AllHold = record { valid = record { distinct = tt; heap = refl }; holds = λ x. tt }
