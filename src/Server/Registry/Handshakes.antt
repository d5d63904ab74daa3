-- ===== src/Server/Registry/Handshakes.antt =====
-- A peer whose handshake does not end is not answered.
use space_captain.Common.{
  ℕ, ℤ, pos, ◌==ℤ◌, ◌==◌, ◌≡◌, Option, none, some, List, [], ◌∷◌, Bool-cases, inl, inr, true, false,
  refl, sym, ◌∙◌, arith, subst,
}
use space_captain.Dtls.{Mbed}
use space_captain.Dtls.Context.{Context}
use space_captain.Dtls.Session.{SockAddr, Session, session_create}
use space_captain.Server.Clients.{State, same_peer, find_client}
use space_captain.Server.Clients.Find.{find-same, same_peer_trans}
use space_captain.Server.Clients.Heap.{IsValid}
use space_captain.Server.Loop.{Arrival, Round, main_loop}
use space_captain.Server.Loop.Shutdown.{AllServed}
use space_captain.Server.Registry.{
  Peer, Effect, Registry, remaining, check, after, effect, enrolled, met, arrive, arrive_all,
  serve_round, serve_all,
}
use space_captain.Server.Registry.Answers.{
  other-answers, sent, answers, sent-Shows, main_loop-Shows, registry, registry-Shows, IsProper,
  registry-IsProper, check-IsProper, arrive-IsProper, round_cases,
}
use space_captain.Server.Registry.Refine.{seen}

-- No handshake with a peer ends.
abbrev pub NoneEnds : SockAddr → List Arrival → Type 0
NoneEnds x [] = Unit
NoneEnds x (a ∷ xs) = (same_peer a.addr x ≡ true → (a.ret ==ℤ pos 0) ≡ false) × NoneEnds x xs

abbrev pub NoneEndsIn : SockAddr → List Round → Type 0
NoneEndsIn x [] = Unit
NoneEndsIn x (r ∷ rounds) = NoneEnds x r.arrivals × NoneEndsIn x rounds

-- A peer that is not known, or whose handshake is not complete.
abbrev pub IsUnfinished : Option Peer → Type 0
IsUnfinished none = Unit
IsUnfinished (some p) = p.complete ≡ false

-- A peer whose handshake is not complete, with what it was answered before.
record IsSilent (x : SockAddr) (before : List (List ℕ)) (r : Registry) : Type 0 where
  proper : IsProper r
  unfinished : (y : SockAddr) → same_peer y x ≡ true → IsUnfinished (r.known y)
  silent : answers x r.effects ≡ before

remaining-IsUnfinished :
    (now : ℕ) (o : Option Peer) → IsUnfinished o → IsUnfinished (remaining now o)
remaining-IsUnfinished now none u = tt
remaining-IsUnfinished now (some p) u = ground arith

check-IsSilent :
    {x : SockAddr} {before : List (List ℕ)} (now : ℕ) (r : Registry)
    → IsSilent x before r
    → IsSilent x before (check now r)
check-IsSilent now r s = record {
  proper = check-IsProper now r s.proper;
  unfinished = λ y e. remaining-IsUnfinished now (r.known y) (s.unfinished y e);
  silent = s.silent;
}

module _ (m : Mbed) where
  after-IsUnfinished :
      (a : Arrival) (o : Option Peer)
      → (a.ret ==ℤ pos 0) ≡ false
      → IsUnfinished o
      → IsUnfinished (after m a o)
  after-IsUnfinished a none e u = tt
  after-IsUnfinished a (some p) e u = ground arith

  unfinished-answers :
      (x : SockAddr) (a : Arrival) (o : Option Peer) (es : List Effect)
      → IsUnfinished o
      → answers x (effect m a o es) ≡ answers x es
  unfinished-answers x a none es u = refl
  unfinished-answers x a (some p) es u = rw u refl

  module _ (ctx : Option Context) (sock : ℤ) where
    enrolled-IsUnfinished :
        (a : Arrival) (o : Option Session) → IsUnfinished (enrolled m ctx sock a o)
    enrolled-IsUnfinished a none = tt
    enrolled-IsUnfinished a (some s) = refl

    met-IsUnfinished :
        (a : Arrival) (o : Option Peer) → IsUnfinished o → IsUnfinished (met m ctx sock a o)
    met-IsUnfinished a (some p) u = u
    met-IsUnfinished a none u = elim (Bool-cases (a.add.block == 0)) [
      | inl e ↦ rw e tt
      | inr e ↦
          rw e
            (enrolled-IsUnfinished a (session_create ctx sock (some a.addr) a.add.session).session)
    ]

    arrive-IsSilent :
        {x : SockAddr} {before : List (List ℕ)} (a : Arrival) (r : Registry)
        → (same_peer a.addr x ≡ true → (a.ret ==ℤ pos 0) ≡ false)
        → IsSilent x before r
        → IsSilent x before (arrive m ctx sock a r)
    arrive-IsSilent {x} a r ends s = record {
      proper = arrive-IsProper m ctx sock a r s.proper;
      unfinished = λ y e. elim (Bool-cases (same_peer a.addr y)) [
        | inl own ↦
            let mine : same_peer a.addr x ≡ true = sym (same_peer_trans a.addr y x e) ∙ own in
            rw own (
              after-IsUnfinished a (met m ctx sock a (r.known a.addr)) (ends mine)
                (met-IsUnfinished a (r.known a.addr) (s.unfinished a.addr mine)))
        | inr other ↦ rw other (s.unfinished y e)
      ];
      silent =
          elim (Bool-cases (same_peer a.addr x)) [
            | inl own ↦ unfinished-answers x a (r.known a.addr) r.effects (s.unfinished a.addr own)
            | inr other ↦
                other-answers m x a (r.known a.addr) r.effects (s.proper.fits a.addr) other
          ]
          ∙ s.silent;
    }

    arrive_all-IsSilent :
        {x : SockAddr} {before : List (List ℕ)} (xs : List Arrival) (r : Registry)
        → NoneEnds x xs
        → IsSilent x before r
        → IsSilent x before (arrive_all m ctx sock xs r)
    arrive_all-IsSilent [] r n s = s
    arrive_all-IsSilent (a ∷ xs) r (n, ns) s =
        arrive_all-IsSilent xs (arrive m ctx sock a r) ns (arrive-IsSilent a r n s)

    serve_all-IsSilent :
        {x : SockAddr} {before : List (List ℕ)} (rounds : List Round) (r : ℕ × Registry)
        → NoneEndsIn x rounds
        → IsSilent x before r.1
        → IsSilent x before (serve_all m ctx sock rounds r).1
    serve_all-IsSilent [] r n s = s
    serve_all-IsSilent {x} {before} (d ∷ rounds) (last, r) (n, ns) s =
        serve_all-IsSilent rounds (serve_round m ctx sock d (last, r)) ns (
          round_cases m ctx sock (IsSilent x before) d last r (λ e. s)
            (λ e.
              arrive_all-IsSilent d.arrivals (check d.checked r) n (check-IsSilent d.checked r s))
            (λ e. arrive_all-IsSilent d.arrivals r n s))

    -- Over a valid list of clients, with calloc not giving a block that is in use, and however
    -- many rounds the loop of main makes, a peer that is not known, or whose handshake is not
    -- complete, gets no answer while no handshake for a datagram of it ends.
    pub no_answer_before_handshake :
        (x : SockAddr) (rounds : List Round) (at : ℕ × State)
        → IsValid at.1
        → AllServed m ctx sock rounds at
        → IsUnfinished (seen (find_client x at.1.clients))
        → NoneEndsIn x rounds
        → sent x (main_loop m ctx sock rounds at).1.outputs ≡ sent x at.1.outputs
    no_answer_before_handshake x rounds at v new u n =
        sent-Shows x _ _ (main_loop-Shows m ctx sock rounds at v new)
        ∙ (serve_all-IsSilent rounds (at.0, registry at.1) n begin).silent
        ∙ sym (sent-Shows x _ _ (registry-Shows at.1))
      where
        begin : IsSilent x (answers x (registry at.1).effects) (registry at.1)
        begin = record {
          proper = registry-IsProper at.1;
          unfinished =
              λ y e. subst (λ o. IsUnfinished (seen o)) (sym (find-same y x at.1.clients e)) u;
          silent = refl;
        }
