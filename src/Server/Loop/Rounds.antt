-- ===== src/Server/Loop/Rounds.antt =====
-- The rounds of the event loop against a clock that does not go back.
use space_captain.Common.{
  ℕ, ℤ, ◌+◌, ◌-◌, ◌≤◌, ◌≡◌, Bool, true, false, Option, List, [], ◌∷◌, leb, Bool-cases, inl, inr,
  sym, subst, arith, if◌then◌else◌,
}
use space_captain.Dtls.{Mbed}
use space_captain.Dtls.Context.{Context}
use space_captain.Server.{client_timeout_seconds}
use space_captain.Server.Clients.{State, check_client_timeouts}
use space_captain.Server.Clients.Expiry.{active, timeouts-active}
use space_captain.Server.Loop.{Arrival, Round, turn, drain_socket, poll, main_loop}
use space_captain.Server.Loop.Idle.{
  AllWithin, IsRecent, active-AllWithin, later, sooner, turn-IsRecent,
}
use space_captain.Server.Loop.Shutdown.{
  Reaches, IsServed, AllServed, start, starts, poll-Reaches, Reaches-IsValid,
}

-- The times that are read for datagrams are not before `t`.
abbrev pub AllLater : ℕ → List Arrival → Type 0
AllLater t [] = Unit
AllLater t (a ∷ xs) = (t ≤ a.now) × (t ≤ a.add.now) × AllLater t xs

-- The clock does not go back from `t` on, where a round reads it twice. A round without success in
-- `epoll_wait` does not read it.
abbrev pub GoesOn : ℕ → List Round → Type 0
GoesOn t [] = Unit
GoesOn t (r ∷ rounds) =
    (if r.polled then ((t ≤ r.now) × (r.now ≤ r.checked) × AllLater r.now r.arrivals) else Unit)
    × GoesOn (if r.polled then r.now else t) rounds

-- The time of the last round that reads the clock.
abbrev pub last_polled : ℕ → List Round → ℕ
last_polled t [] = t
last_polled t (r ∷ rounds) = last_polled (if r.polled then r.now else t) rounds

module _ (m : Mbed) (ctx : Option Context) (sock : ℤ) where
  drain_socket-IsRecent :
      (limit t u : ℕ) (xs : List Arrival) (st : State)
      → t ≤ u
      → AllLater u xs
      → IsRecent limit t st
      → IsRecent limit t (drain_socket m ctx sock xs st)
  unfolding drain_socket
  drain_socket-IsRecent limit t u [] st h l r = r
  drain_socket-IsRecent limit t u (a ∷ xs) st h l r =
      drain_socket-IsRecent limit t u xs (turn m ctx sock a st) h l.2
        (turn-IsRecent m limit t ctx sock a st (omega arith) (omega arith) r)

  -- What holds between two rounds, if the clock has shown `t`.
  record Keeps (t : ℕ) (at : ℕ × State) : Type 0 where
    reaches : Reaches m ctx sock at.1
    checked : at.0 ≤ t
    fresh : IsRecent client_timeout_seconds at.0 at.1
    recent : IsRecent (client_timeout_seconds + 4) t at.1

  drained :
      (now last : ℕ) (xs : List Arrival) (st : State)
      → Reaches m ctx sock (drain_socket m ctx sock xs st)
      → last ≤ now
      → now ≤ last + 4
      → AllLater now xs
      → IsRecent client_timeout_seconds last st
      → Keeps now (last, drain_socket m ctx sock xs st)
  drained now last xs st s h k l r = record {
    reaches = s;
    checked = h;
    fresh = served;
    recent = record { within = later client_timeout_seconds 4 last now _ k served.within };
  }
    where
      served : IsRecent client_timeout_seconds last (drain_socket m ctx sock xs st)
      served = drain_socket-IsRecent client_timeout_seconds last now xs st h l r

  polled-Keeps :
      (t now checked : ℕ) (xs : List Arrival) (at : ℕ × State)
      → Keeps t at
      → IsServed m ctx sock
          (record { polled = true; now = now; checked = checked; arrivals = xs })
          at
      → t ≤ now
      → now ≤ checked
      → AllLater now xs
      → Keeps now (poll m ctx sock true now checked xs at)
  unfolding poll
  polled-Keeps t now checked xs (last, st) k f h d l = elim (Bool-cases (leb 5 (now - last))) [
    | inl e ↦ rw e (
        drained now now xs (check_client_timeouts checked st) (reached true e) (omega arith)
          (omega arith) l renewed)
    | inr e ↦ rw e (drained now last xs st (reached false e) (omega arith) (ground arith) l k.fresh)
  ]
    where
      outcome : Bool → ℕ × State
      outcome b =
          if b
          then (now, drain_socket m ctx sock xs (check_client_timeouts checked st))
          else (last, drain_socket m ctx sock xs st)

      reached : (b : Bool) → leb 5 (now - last) ≡ b → Reaches m ctx sock (outcome b).1
      reached b e =
          subst (λ b. Reaches m ctx sock (outcome b).1) e
            (poll-Reaches m ctx sock true now checked xs (last, st) k.reaches f)

      renewed : IsRecent client_timeout_seconds now (check_client_timeouts checked st)
      renewed = record {
        within =
            subst (λ cs. AllWithin client_timeout_seconds now cs)
              (sym (timeouts-active checked st (Reaches-IsValid m ctx sock st k.reaches)).0)
              (sooner client_timeout_seconds now checked (active checked st.clients) d
                (active-AllWithin checked st.clients));
      }

  poll-Keeps :
      (t : ℕ) (polled : Bool) (now checked : ℕ) (xs : List Arrival) (at : ℕ × State)
      → Keeps t at
      → IsServed m ctx sock
          (record { polled = polled; now = now; checked = checked; arrivals = xs })
          at
      → (if polled then ((t ≤ now) × (now ≤ checked) × AllLater now xs) else Unit)
      → Keeps (if polled then now else t) (poll m ctx sock polled now checked xs at)
  unfolding poll
  poll-Keeps t true now checked xs at k f (begun, again, later) =
      polled-Keeps t now checked xs at k f begun again later
  poll-Keeps t false now checked xs at k f g = k

  rounds-Keeps :
      (t : ℕ) (rounds : List Round) (at : ℕ × State)
      → Keeps t at
      → AllServed m ctx sock rounds at
      → GoesOn t rounds
      → Keeps (last_polled t rounds) (main_loop m ctx sock rounds at)
  unfolding main_loop
  rounds-Keeps t [] at k f g = k
  rounds-Keeps t (r ∷ rounds) at k f g =
      rounds-Keeps (if r.polled then r.now else t) rounds
        (poll m ctx sock r.polled r.now r.checked r.arrivals at)
        (poll-Keeps t r.polled r.now r.checked r.arrivals at k f.0 g.0) f.1 g.1

  -- However many rounds the loop of main makes from no client on, if the clock does not go back
  -- and calloc never gives a block that is in use, no client is in the list at their end whose
  -- last activity is more than 34 seconds before the last round that read the clock: 30 of the
  -- time-out, and less than 5 between two checks of it.
  pub main_loop-AllWithin :
      (t : ℕ) (rounds : List Round)
      → AllServed m ctx sock rounds (t, start)
      → GoesOn t rounds
      → AllWithin
          (client_timeout_seconds + 4)
          (last_polled t rounds)
          (main_loop m ctx sock rounds (t, start)).1.clients
  main_loop-AllWithin t rounds f g = (rounds-Keeps t rounds (t, start) begun f g).recent.within
    where
      begun : Keeps t (t, start)
      begun = record {
        reaches = starts;
        checked = omega arith;
        fresh = record { within = tt };
        recent = record { within = tt };
      }
