-- ===== src/Server/Loop/Alive.antt =====
-- A client that is heard of often enough, over the rounds of the event loop.
use space_captain.Common.{
  ℕ, ℤ, ◌+◌, ◌-◌, ◌≤◌, ◌≡◌, Bool, true, false, Option, some, List, [], ◌∷◌, leb, Bool-cases, inl,
  inr, ap, ◌∙◌, arith, if◌then◌else◌,
}
use space_captain.Dtls.{Mbed, IsMbed}
use space_captain.Dtls.Context.{Context}
use space_captain.Dtls.Session.{SockAddr}
use space_captain.Server.{client_timeout_seconds}
use space_captain.Server.Clients.{Client, State, find_client, check_client_timeouts}
use space_captain.Server.Clients.Ages.{aged, find-active}
use space_captain.Server.Clients.Expiry.{timeouts-active}
use space_captain.Server.Clients.Heap.{IsValid}
use space_captain.Server.Loop.{Arrival, Round, drain_socket, poll, main_loop}
use space_captain.Server.Loop.Handshake.{AllGoOn, last_heard, stays}
use space_captain.Server.Loop.Isolation.{drain_socket-IsValid}
use space_captain.Server.Loop.Shutdown.{IsServed, AllServed, AllNew, AllNew-branch}

-- The last time a peer was heard of in a round, and in all of them.
abbrev pub heard_in : SockAddr → Round → ℕ → ℕ
heard_in x r time = if r.polled then last_heard x r.arrivals time else time

abbrev pub last_heard_in : SockAddr → List Round → ℕ → ℕ
last_heard_in x [] time = time
last_heard_in x (r ∷ rounds) time = last_heard_in x rounds (heard_in x r time)

-- No round reads a time for the check later than the time-out after the last time a peer was heard
-- of before it, and the
-- turns of the peer go on.
abbrev pub AllAlive : Mbed → Bool → SockAddr → ℕ → List Round → Type 0
AllAlive m complete x time [] = Unit
AllAlive m complete x time (r ∷ rounds) =
    (if r.polled
      then ((r.checked ≤ time + client_timeout_seconds) × AllGoOn m complete x r.arrivals)
      else Unit)
    × AllAlive m complete x (heard_in x r time) rounds

young_enough :
    (now : ℕ) (c : Client)
    → now ≤ c.last_activity + client_timeout_seconds
    → aged now (some c) ≡ some c
young_enough now c h = ground arith

-- What a peer is known as, in a valid state.
abbrev pub Knows : SockAddr → Client → State → Type 0
Knows x c st = IsValid st × (find_client x st.clients ≡ some c)

pub checked-Knows :
    (now : ℕ) (x : SockAddr) (c : Client) (st : State)
    → Knows x c st
    → now ≤ c.last_activity + client_timeout_seconds
    → Knows x c (check_client_timeouts now st)
checked-Knows now x c st (v, f) h =
    let (clients, valid) = timeouts-active now st v in
    (
      valid,
      ap (find_client x) clients
          ∙ find-active now x st.clients v.distinct
          ∙ ap (aged now) f
          ∙ young_enough now c h,
    )

module _ (m : Mbed) (ctx : Option Context) (sock : ℤ) where
  drained-Knows :
      (xs : List Arrival) (x : SockAddr) (c : Client) (st : State)
      → IsMbed m
      → Knows x c st
      → AllNew m ctx sock xs st
      → AllGoOn m c.handshake_complete x xs
      → Knows x
          (record c { last_activity = last_heard x xs c.last_activity })
          (drain_socket m ctx sock xs st)
  drained-Knows xs x c st mb (v, f) new g =
      (drain_socket-IsValid m ctx sock xs st v new, stays m ctx sock xs x c st mb v new g f)

  poll-Knows :
      (polled : Bool) (now checked : ℕ) (xs : List Arrival) (x : SockAddr) (c : Client)
      (at : ℕ × State)
      → let r : Round = record { polled = polled; now = now; checked = checked; arrivals = xs } in
        IsMbed m
        → Knows x c at.1
        → IsServed m ctx sock r at
        → (if polled
            then ((checked ≤ c.last_activity + client_timeout_seconds)
                × AllGoOn m c.handshake_complete x xs)
            else Unit)
        → Knows x
            (record c { last_activity = heard_in x r c.last_activity })
            (poll m ctx sock polled now checked xs at).1
  unfolding poll
  poll-Knows false now checked xs x c (last, st) mb k new g = k
  poll-Knows true now checked xs x c (last, st) mb k new (young, g) =
      elim (Bool-cases (leb 5 (now - last))) [
        | inl e ↦ rw e (
            drained-Knows xs x c (check_client_timeouts checked st) mb
              (checked-Knows checked x c st k young)
              (AllNew-branch m ctx sock true now checked last xs st e new) g)
        | inr e ↦ rw e (
            drained-Knows xs x c st mb k
              (AllNew-branch m ctx sock false now checked last xs st e new) g)
      ]

  pub main_loop-Knows :
      (rounds : List Round) (x : SockAddr) (c : Client) (at : ℕ × State)
      → IsMbed m
      → Knows x c at.1
      → AllServed m ctx sock rounds at
      → AllAlive m c.handshake_complete x c.last_activity rounds
      → Knows x
          (record c { last_activity = last_heard_in x rounds c.last_activity })
          (main_loop m ctx sock rounds at).1
  unfolding main_loop
  main_loop-Knows [] x c at mb k new g = k
  main_loop-Knows (r ∷ rounds) x c at mb k (first, new) (g, gs) =
      main_loop-Knows rounds x (record c { last_activity = heard_in x r c.last_activity })
        (poll m ctx sock r.polled r.now r.checked r.arrivals at) mb
        (poll-Knows r.polled r.now r.checked r.arrivals x c at mb k first g) new gs
