-- ===== src/Server/Registry/Refine.antt =====
-- The event loop of src/server.c keeps the registry of its peers.
use space_captain.Common.{
  ℕ, ◌-◌, ℤ, ◌≡◌, Bool, true, false, Option, none, some, List, [], ◌∷◌, ◌==◌, leb, Bool-cases, inl,
  inr, refl, sym, ap, ap₂, ◌∙◌, subst, arith, if◌then◌else◌,
}
use space_captain.Dtls.{Mbed}
use space_captain.Dtls.Context.{Context}
use space_captain.Dtls.Session.{SockAddr, Session, session_create}
use space_captain.Server.Clients.{
  Client, State, Output, close_notify, written, discarded, same_peer, find_client, add_client,
  link_client, check_client_timeouts,
}
use space_captain.Server.Clients.Ages.{aged, find-active}
use space_captain.Server.Clients.Expiry.{timeouts-active}
use space_captain.Server.Clients.Heap.{IsValid}
use space_captain.Server.Loop.{Arrival, Round, is_ok, reach, turn, drain_socket, poll, main_loop}
use space_captain.Server.Loop.Isolation.{drain_socket-IsValid}
use space_captain.Server.Loop.Outputs.{visible, timeouts-visible}
use space_captain.Server.Loop.Shutdown.{IsServed, AllServed, AllNew, AllNew-branch}
use space_captain.Server.Loop.Table.{served, reached, turn-table}
use space_captain.Server.Loop.Valid.{turn-IsValid}
use space_captain.Server.Loop.Writes.{expected, turn-visible}
use space_captain.Server.Registry.{
  Peer, Effect, answered, dropped, Registry, remaining, check, after, effect, enrolled, met, arrive,
  arrive_all, serve_round, serve_all,
}

-- What is known of a peer by its client.
abbrev pub seen : Option Client → Option Peer
seen none = none
seen (some c) =
    some
      (record { addr = c.addr; last_activity = c.last_activity; complete = c.handshake_complete })

-- The effects of what is handed to the write and thrown away, but for close notifications.
abbrev pub shown : List Output → List Effect
shown [] = []
shown (close_notify ptr ∷ os) = shown os
shown (written c bytes result ∷ os) = answered c.addr bytes (is_ok result) ∷ shown os
shown (discarded ∷ os) = dropped ∷ shown os

-- A state of the server stands for a registry.
pub record Shows (r : Registry) (st : State) : Type 0 where
  pub known : (x : SockAddr) → seen (find_client x st.clients) ≡ r.known x
  pub effects : shown st.outputs ≡ r.effects

pub shown-visible : (os : List Output) → shown (visible os) ≡ shown os
shown-visible [] = refl
shown-visible (close_notify ptr ∷ os) = shown-visible os
shown-visible (written c bytes result ∷ os) =
    ap (◌∷◌ (answered c.addr bytes (is_ok result))) (shown-visible os)
shown-visible (discarded ∷ os) = ap (◌∷◌ dropped) (shown-visible os)

seen-aged : (now : ℕ) (o : Option Client) → seen (aged now o) ≡ remaining now (seen o)
seen-aged now none = refl
seen-aged now (some c) = ground arith

seen-served :
    (m : Mbed) (a : Arrival) (o : Option Client) → seen (served m a o) ≡ after m a (seen o)
seen-served m a none = refl
seen-served m a (some c) = ground arith

shown-expected :
    (m : Mbed) (a : Arrival) (o : Option Client) (os : List Output)
    → shown (expected m a o os) ≡ effect m a (seen o) (shown os)
shown-expected m a none os = refl
shown-expected m a (some c) os = ground arith

checked-Shows :
    (now : ℕ) (r : Registry) (st : State)
    → IsValid st
    → Shows r st
    → Shows (check now r) (check_client_timeouts now st)
checked-Shows now r st v s = record {
  known = λ x.
      ap (λ cs. seen (find_client x cs)) (timeouts-active now st v).0
      ∙ ap seen (find-active now x st.clients v.distinct)
      ∙ seen-aged now (find_client x st.clients)
      ∙ ap (remaining now) (s.known x);
  effects =
      sym (shown-visible (check_client_timeouts now st).outputs)
      ∙ ap shown (timeouts-visible now st)
      ∙ shown-visible st.outputs
      ∙ s.effects;
}

-- The server and the registry, with the same time of the last check.
abbrev pub Follows : ℕ × Registry → ℕ × State → Type 0
Follows r at = (r.0 ≡ at.0) × Shows r.1 at.1

-- With a valid list, which a round keeps as well.
abbrev Goes : ℕ × Registry → ℕ × State → Type 0
Goes r at = IsValid at.1 × Follows r at

module _ (m : Mbed) (ctx : Option Context) (sock : ℤ) where
  seen-linked :
      (a : Arrival) (o : Option Session) (st : State)
      → seen (link_client a.add.block a.addr a.add.now o st).0 ≡ enrolled m ctx sock a o
  seen-linked a none st = refl
  seen-linked a (some s) st = refl

  seen-reach :
      (a : Arrival) (st : State) (o : Option Client)
      → seen (reach m ctx sock a st o).0 ≡ met m ctx sock a (seen o)
  unfolding add_client
  seen-reach a st (some c) = refl
  seen-reach a st none = elim (Bool-cases (a.add.block == 0)) [
    | inl e ↦ rw e refl
    | inr e ↦ rw e (seen-linked a (session_create ctx sock (some a.addr) a.add.session).session st)
  ]

  turn-Shows :
      (a : Arrival) (r : Registry) (st : State)
      → IsValid st
      → AllNew m ctx sock (a ∷ []) st
      → Shows r st
      → Shows (arrive m ctx sock a r) (turn m ctx sock a st)
  turn-Shows a r st v new s = record {
    known = λ x. ap seen (turn-table m ctx sock a st x v new.0) ∙ by_peer x (same_peer a.addr x);
    effects =
        sym (shown-visible (turn m ctx sock a st).outputs)
        ∙ ap shown (turn-visible m ctx sock a st v)
        ∙ shown-expected m a (find_client a.addr st.clients) (visible st.outputs)
        ∙ ap₂ (effect m a) (s.known a.addr) (shown-visible st.outputs ∙ s.effects);
  }
    where
      own :
          seen (served m a (reached m ctx sock a st))
          ≡ after m a (met m ctx sock a (r.known a.addr))
      own =
          seen-served m a (reached m ctx sock a st)
          ∙ ap (after m a) (
              seen-reach a st (find_client a.addr st.clients)
              ∙ ap (met m ctx sock a) (s.known a.addr))

      by_peer :
          (x : SockAddr) (b : Bool)
          → seen (if b then served m a (reached m ctx sock a st) else find_client x st.clients)
            ≡ (if b then after m a (met m ctx sock a (r.known a.addr)) else r.known x)
      by_peer x true = own
      by_peer x false = s.known x

  drain_socket-Shows :
      (xs : List Arrival) (r : Registry) (st : State)
      → IsValid st
      → AllNew m ctx sock xs st
      → Shows r st
      → Shows (arrive_all m ctx sock xs r) (drain_socket m ctx sock xs st)
  unfolding drain_socket
  drain_socket-Shows [] r st v new s = s
  drain_socket-Shows (a ∷ xs) r st v (first, new) s =
      drain_socket-Shows xs (arrive m ctx sock a r) (turn m ctx sock a st)
        (turn-IsValid m ctx sock a st v first) new (turn-Shows a r st v (first, tt) s)

  drained-Goes :
      (last : ℕ) (xs : List Arrival) (g : Registry) (st : State)
      → IsValid st
      → AllNew m ctx sock xs st
      → Shows g st
      → Goes (last, arrive_all m ctx sock xs g) (last, drain_socket m ctx sock xs st)
  drained-Goes last xs g st v new s =
      (drain_socket-IsValid m ctx sock xs st v new, (refl, drain_socket-Shows xs g st v new s))

  round-Goes :
      (polled : Bool) (now checked : ℕ) (xs : List Arrival) (last : ℕ) (g : Registry) (st : State)
      → let r : Round = record { polled = polled; now = now; checked = checked; arrivals = xs } in
        IsValid st
        → IsServed m ctx sock r (last, st)
        → Shows g st
        → Goes
            (serve_round m ctx sock r (last, g))
            (poll m ctx sock polled now checked xs (last, st))
  unfolding poll
  round-Goes false now checked xs last g st v new s = (v, (refl, s))
  round-Goes true now checked xs last g st v new s = elim (Bool-cases (leb 5 (now - last))) [
    | inl e ↦ rw e (
        drained-Goes now xs (check checked g) (check_client_timeouts checked st)
          (timeouts-active checked st v).1
          (AllNew-branch m ctx sock true now checked last xs st e new)
          (checked-Shows checked g st v s))
    | inr e ↦ rw e (
        drained-Goes last xs g st v (AllNew-branch m ctx sock false now checked last xs st e new) s)
  ]

  -- Over a valid list of clients that stands for a registry of peers, with calloc not giving a
  -- block that is in use, and however many rounds the loop of main makes, with its reading of the
  -- clock and that of check_client_timeouts apart: the list stands for the registry afterwards,
  -- and the last check was at the same time. Each peer is known, with its time and the mark of its
  -- handshake, exactly as in a map from peers without list, blocks and sessions, from which peers
  -- go in a check more than 30 seconds after their last activity, or when their handshake or data
  -- fails; and the answers that are handed to sc_dtls_write, with whether it returns ok, and the
  -- datagrams that are thrown away are, but for close notifications, those of the registry.
  pub main_loop_refines :
      (rounds : List Round) (r : ℕ × Registry) (at : ℕ × State)
      → IsValid at.1
      → AllServed m ctx sock rounds at
      → Follows r at
      → Follows (serve_all m ctx sock rounds r) (main_loop m ctx sock rounds at)
  unfolding main_loop
  main_loop_refines [] r at v new f = f
  main_loop_refines (x ∷ rounds) (last, g) at v (first, new) (same, s) =
      let goes = round-Goes x.polled x.now x.checked x.arrivals at.0 g at.1 v first s in
      main_loop_refines rounds (serve_round m ctx sock x (last, g))
        (poll m ctx sock x.polled x.now x.checked x.arrivals at) goes.0 new
        (subst
          (λ n.
            Follows (serve_round m ctx sock x (n, g))
              (poll m ctx sock x.polled x.now x.checked x.arrivals at))
          (sym same) goes.1)
