-- ===== src/Server/Registry/Answers.antt =====
-- Who gets what from the server: what is known of a peer and what it is answered.
use space_captain.Common.{
  false, ℕ, ℤ, ◌==◌, ◌≡◌, Option, none, some, List, [], ◌∷◌, Bool-cases, inl, inr, true, refl, sym,
  ap, ◌∙◌, arith, if◌then◌else◌, leb, ◌-◌,
}
use space_captain.Dtls.{Mbed}
use space_captain.Dtls.Context.{Context}
use space_captain.Dtls.Session.{SockAddr, Session, session_create}
use space_captain.Server.Clients.{
  Client, State, Output, close_notify, written, discarded, same_peer, find_client,
}
use space_captain.Server.Clients.Find.{same_peer_left, same_peer_refl, same_peer_trans, found_peer}
use space_captain.Server.Clients.Heap.{IsValid}
use space_captain.Server.Loop.{Arrival, Round, main_loop}
use space_captain.Server.Loop.Shutdown.{AllServed}
use space_captain.Server.Registry.{
  Peer, Effect, answered, dropped, Registry, remaining, check, after, effect, enrolled, met, arrive,
  arrive_all, serve_round, serve_all,
}
use space_captain.Server.Registry.Refine.{seen, shown, Shows, main_loop_refines}

-- What is handed to `sc_dtls_write` for a peer, the last first.
abbrev pub sent : SockAddr → List Output → List (List ℕ)
sent x [] = []
sent x (close_notify ptr ∷ os) = sent x os
sent x (written c bytes result ∷ os) = if same_peer c.addr x then bytes ∷ sent x os else sent x os
sent x (discarded ∷ os) = sent x os

-- The answers to a peer in a registry.
abbrev pub answers : SockAddr → List Effect → List (List ℕ)
answers x [] = []
answers x (answered addr bytes done ∷ es) =
    if same_peer addr x then bytes ∷ answers x es else answers x es
answers x (dropped ∷ es) = answers x es

answers-shown : (x : SockAddr) (os : List Output) → answers x (shown os) ≡ sent x os
answers-shown x [] = refl
answers-shown x (close_notify ptr ∷ os) = answers-shown x os
answers-shown x (written c bytes result ∷ os) = rw (answers-shown x os) refl
answers-shown x (discarded ∷ os) = answers-shown x os

-- The registry that a state stands for.
abbrev pub registry : State → Registry
registry st = record { known = λ x. seen (find_client x st.clients); effects = shown st.outputs }

pub registry-Shows : (st : State) → Shows (registry st) st
registry-Shows st = record { known = λ x. refl; effects = refl }

pub sent-Shows :
    (x : SockAddr) (r : Registry) (st : State)
    → Shows r st
    → sent x st.outputs ≡ answers x r.effects
sent-Shows x r st s = sym (answers-shown x st.outputs) ∙ ap (answers x) s.effects

-- The loop of `main` and its registry, from the same state.
pub main_loop-Shows :
    (m : Mbed) (ctx : Option Context) (sock : ℤ) (rounds : List Round) (at : ℕ × State)
    → IsValid at.1
    → AllServed m ctx sock rounds at
    → Shows (serve_all m ctx sock rounds (at.0, registry at.1)).1 (main_loop m ctx sock rounds at).1
main_loop-Shows m ctx sock rounds at v new =
    (main_loop_refines m ctx sock rounds (at.0, registry at.1) at v new
      (refl, registry-Shows at.1)).1

-- What is known of an address is of its own peer.
abbrev pub Fits : SockAddr → Option Peer → Type 0
Fits x none = Unit
Fits x (some p) = same_peer p.addr x ≡ true

pub record IsProper (r : Registry) : Type 0 where
  pub fits : (x : SockAddr) → Fits x (r.known x)

seen-Fits :
    (x : SockAddr) (cs : List Client) (o : Option Client) → find_client x cs ≡ o → Fits x (seen o)
seen-Fits x cs none f = tt
seen-Fits x cs (some c) f = found_peer x c cs f

pub registry-IsProper : (st : State) → IsProper (registry st)
registry-IsProper st = record { fits = λ x. seen-Fits x st.clients (find_client x st.clients) refl }

Fits-same : (a x : SockAddr) (o : Option Peer) → same_peer a x ≡ true → Fits a o → Fits x o
Fits-same a x none s f = tt
Fits-same a x (some p) s f = sym (same_peer_trans p.addr a x s) ∙ f

remaining-Fits : (now : ℕ) (x : SockAddr) (o : Option Peer) → Fits x o → Fits x (remaining now o)
remaining-Fits now x none f = tt
remaining-Fits now x (some p) f = ground arith

-- The others' answers are not the peer's.
pub other-answers :
    (m : Mbed) (x : SockAddr) (a : Arrival) (o : Option Peer) (es : List Effect)
    → Fits a.addr o
    → same_peer a.addr x ≡ false
    → answers x (effect m a o es) ≡ answers x es
other-answers m x a none es f h = refl
other-answers m x a (some p) es f h =
    let elsewhere : same_peer p.addr x ≡ false = same_peer_left p.addr a.addr x f ∙ h in
    ground arith

pub check-IsProper : (now : ℕ) (r : Registry) → IsProper r → IsProper (check now r)
check-IsProper now r p = record { fits = λ x. remaining-Fits now x (r.known x) (p.fits x) }

module _ (m : Mbed) where
  after-Fits : (a : Arrival) (x : SockAddr) (o : Option Peer) → Fits x o → Fits x (after m a o)
  after-Fits a x none f = tt
  after-Fits a x (some p) f = ground arith

  module _ (ctx : Option Context) (sock : ℤ) where
    enrolled-Fits : (a : Arrival) (o : Option Session) → Fits a.addr (enrolled m ctx sock a o)
    enrolled-Fits a none = tt
    enrolled-Fits a (some s) = same_peer_refl a.addr

    met-Fits : (a : Arrival) (o : Option Peer) → Fits a.addr o → Fits a.addr (met m ctx sock a o)
    met-Fits a (some p) f = f
    met-Fits a none f = elim (Bool-cases (a.add.block == 0)) [
      | inl e ↦ rw e tt
      | inr e ↦ rw e (enrolled-Fits a (session_create ctx sock (some a.addr) a.add.session).session)
    ]

    pub arrive-IsProper :
        (a : Arrival) (r : Registry) → IsProper r → IsProper (arrive m ctx sock a r)
    arrive-IsProper a r p = record {
      fits = λ x. elim (Bool-cases (same_peer a.addr x)) [
        | inl own ↦ rw own (
            Fits-same a.addr x _ own
              (after-Fits a a.addr _ (met-Fits a (r.known a.addr) (p.fits a.addr))))
        | inr other ↦ rw other (p.fits x)
      ];
    }

    -- The three ways of a round: nothing is polled, or the datagrams are served with or without a
    -- check of the timeouts before them.
    pub round_cases :
        (P : Registry → Type 0) (r : Round) (last : ℕ) (g : Registry)
        → (r.polled ≡ false → P g)
        → (r.polled ≡ true → P (arrive_all m ctx sock r.arrivals (check r.checked g)))
        → (r.polled ≡ true → P (arrive_all m ctx sock r.arrivals g))
        → P (serve_round m ctx sock r (last, g)).1
    round_cases P r last g idle checked unchecked = elim (Bool-cases r.polled) [
      | inl p ↦ elim (Bool-cases (leb 5 (r.now - last))) [
        | inl e ↦ rw (p, e) (checked p)
        | inr e ↦ rw (p, e) (unchecked p)
      ]
      | inr n ↦ rw n (idle n)
    ]
