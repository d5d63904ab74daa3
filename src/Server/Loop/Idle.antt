-- ===== src/Server/Loop/Idle.antt =====
-- How long a client can be idle and still be in the list.
use space_captain.Common.{
  ℕ, ℤ, ◌+◌, ◌≤◌, Bool, true, false, not, Option, none, some, List, [], ◌∷◌, ◌==◌, Bool-cases, inl,
  inr, arith, if◌then◌else◌, take,
}
use space_captain.Dtls.{Mbed}
use space_captain.Dtls.Codes.{Result}
use space_captain.Dtls.Context.{Context}
use space_captain.Dtls.Io.{write, handshake, read}
use space_captain.Dtls.Session.{SockAddr, Session}
use space_captain.Server.{client_timeout_seconds}
use space_captain.Server.Clients.{
  Client, State, Output, written, discarded, find_client, add_client, link_client, remove_client,
  set_client, unlink,
}
use space_captain.Server.Clients.Expiry.{active}
use space_captain.Server.Clients.Heap.{remove_client-clients}
use space_captain.Server.Loop.{
  Arrival, number, output, store_client, is_ok, is_would_block, after_handshake, handshake_turn,
  answer, data_turn, serve, reach, turn,
}
use space_captain.Server.Reply.{reply}

-- The last activity of every client is at most `limit` seconds before a time.
abbrev pub AllWithin : ℕ → ℕ → List Client → Type 0
AllWithin limit t [] = Unit
AllWithin limit t (c ∷ cs) = (t ≤ c.last_activity + limit) × AllWithin limit t cs

set-AllWithin :
    (limit t : ℕ) (d : Client) (cs : List Client)
    → t ≤ d.last_activity + limit
    → AllWithin limit t cs
    → AllWithin limit t (set_client d cs)
unfolding set_client
set-AllWithin limit t d [] h w = w
set-AllWithin limit t d (c ∷ cs) h w = let rest = set-AllWithin limit t d cs h w.1 in ground arith

unlink-AllWithin :
    (limit t p : ℕ) (cs : List Client) → AllWithin limit t cs → AllWithin limit t (unlink p cs)
unfolding unlink
unlink-AllWithin limit t p [] w = w
unlink-AllWithin limit t p (c ∷ cs) w = let rest = unlink-AllWithin limit t p cs w.1 in ground arith

pub active-AllWithin :
    (now : ℕ) (cs : List Client) → AllWithin client_timeout_seconds now (active now cs)
active-AllWithin now [] = tt
active-AllWithin now (c ∷ cs) = let rest = active-AllWithin now cs in ground arith

pub later :
    (limit more t u : ℕ) (cs : List Client)
    → u ≤ t + more
    → AllWithin limit t cs
    → AllWithin (limit + more) u cs
later limit more t u [] h w = tt
later limit more t u (c ∷ cs) h w = (omega arith, later limit more t u cs h w.1)

-- The same at an earlier time.
pub sooner :
    (limit t u : ℕ) (cs : List Client) → t ≤ u → AllWithin limit u cs → AllWithin limit t cs
sooner limit t u [] h w = tt
sooner limit t u (c ∷ cs) h w = (omega arith, sooner limit t u cs h w.1)

-- Nobody in the list is idle for longer than the limit.
pub record IsRecent (limit t : ℕ) (st : State) : Type 0 where
  pub within : AllWithin limit t st.clients

if-IsRecent :
    (limit t : ℕ) (b : Bool) {x y : State}
    → IsRecent limit t x
    → IsRecent limit t y
    → IsRecent limit t (if b then x else y)
if-IsRecent limit t true p q = p
if-IsRecent limit t false p q = q

removed :
    (limit t : ℕ) (c : Client) (st : State)
    → IsRecent limit t st
    → IsRecent limit t (remove_client c st)
removed limit t c st r = record {
  within = rw (remove_client-clients c st) (unlink-AllWithin limit t c.ptr st.clients r.within);
}

noted :
    (limit t : ℕ) (o : Output) (st : State) → IsRecent limit t st → IsRecent limit t (output o st)
noted limit t o st r = record { within = r.within }

stored :
    (limit t : ℕ) (c : Client) (st : State)
    → t ≤ c.last_activity + limit
    → IsRecent limit t st
    → IsRecent limit t (store_client c st)
stored limit t c st h r = record { within = set-AllWithin limit t c st.clients h r.within }

-- A turn for a client that is not idle for longer.
module _ (m : Mbed) (limit t : ℕ) where
  after_handshake-IsRecent :
      (c : Client) (st : State) (r : Result × Option Session)
      → t ≤ c.last_activity + limit
      → IsRecent limit t st
      → IsRecent limit t (after_handshake m c st r)
  after_handshake-IsRecent c st (result, session) h r =
      if-IsRecent limit t (is_ok result)
        (noted limit t discarded (store_client done st) (stored limit t done st h r))
        (if-IsRecent limit t (is_would_block result) kept
          (removed limit t going (output discarded (store_client going st)) kept))
    where
      done : Client
      done = record c { dtls_session = session; handshake_complete = true }

      going : Client
      going = record c { dtls_session = session }

      kept : IsRecent limit t (output discarded (store_client going st))
      kept = noted limit t discarded (store_client going st) (stored limit t going st h r)

  answer-IsRecent :
      (a : Arrival) (c : Client) (n : ℕ) (st : State)
      → IsRecent limit t st
      → IsRecent limit t (answer m a c n st)
  unfolding answer
  answer-IsRecent a c n st r =
      if-IsRecent limit t _ (removed limit t c (output sent st) (noted limit t sent st r))
        (noted limit t sent st r)
    where
      sent : Output
      sent =
          written c (reply (take n a.received)) (write m c.dtls_session true (some 0) a.write_ret).0

  data_turn-IsRecent :
      (a : Arrival) (c : Client) (st : State)
      → IsRecent limit t st
      → IsRecent limit t (data_turn m a c st)
  unfolding data_turn
  data_turn-IsRecent a c st r = if-IsRecent limit t _ (answer-IsRecent a c (number back.1) st r) (
      if-IsRecent limit t _ (noted limit t discarded st r) (
        if-IsRecent limit t _ (removed limit t c st r)
          (removed limit t c (output discarded st) (noted limit t discarded st r))))
    where
      back : Result × Option ℕ
      back = read m c.dtls_session true (some 0) a.ret

  serve-IsRecent :
      (a : Arrival) (r : Option Client × State)
      → t ≤ a.now + limit
      → IsRecent limit t r.1
      → IsRecent limit t (serve m a r)
  unfolding handshake_turn
  serve-IsRecent a (none, st) h r = noted limit t discarded st r
  serve-IsRecent a (some c, st) h r =
      if-IsRecent limit t (not c.handshake_complete)
        (after_handshake-IsRecent active' (store_client active' st)
          (handshake m c.dtls_session a.ret) h (stored limit t active' st h r))
        (data_turn-IsRecent a active' (store_client active' st) (stored limit t active' st h r))
    where
      active' : Client
      active' = record c { last_activity = a.now }

  link_client-IsRecent :
      (p : ℕ) (a : SockAddr) (now : ℕ) (s : Option Session) (st : State)
      → t ≤ now + limit
      → IsRecent limit t st
      → IsRecent limit t (link_client p a now s st).1
  link_client-IsRecent p a now none st h r = record { within = r.within }
  link_client-IsRecent p a now (some s) st h r = record { within = (h, r.within) }

  module _ (ctx : Option Context) (sock : ℤ) where
    reach-IsRecent :
        (a : Arrival) (st : State) (found : Option Client)
        → t ≤ a.add.now + limit
        → IsRecent limit t st
        → IsRecent limit t (reach m ctx sock a st found).1
    unfolding add_client
    reach-IsRecent a st (some c) h r = r
    reach-IsRecent a st none h r = elim (Bool-cases (a.add.block == 0)) [
      | inl e ↦ rw e r
      | inr e ↦ rw e (link_client-IsRecent a.add.block a.addr a.add.now _ st h r)
    ]

    pub turn-IsRecent :
        (a : Arrival) (st : State)
        → t ≤ a.now + limit
        → t ≤ a.add.now + limit
        → IsRecent limit t st
        → IsRecent limit t (turn m ctx sock a st)
    unfolding turn
    turn-IsRecent a st h k r =
        serve-IsRecent a (reach m ctx sock a st (find_client a.addr st.clients)) h
          (reach-IsRecent a st (find_client a.addr st.clients) k r)
