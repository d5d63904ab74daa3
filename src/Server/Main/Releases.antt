-- ===== src/Server/Main/Releases.antt =====
-- What `main` has released when it returns.
use space_captain.Common.{
  ℕ, ◌≡◌, Bool, Option, none, some, List, [], refl, ap, ◌∙◌, subst, arith, Event, if◌then◌else◌,
}
use space_captain.Dtls.{Mbed}
use space_captain.Dtls.Context.{Context}
use space_captain.Server.Clients.{State}
use space_captain.Server.Loop.{Round, main_loop}
use space_captain.Server.Loop.Shutdown.{
  start, starts, AllServed, main_loop-Reaches, shut_down-releases,
}
use space_captain.Server.Main.{Exit, after_start, main}
use space_captain.Server.Startup.{Resource, MainEnv, Started, returned, running, start_up, clean_up}
use space_captain.Server.Startup.Owns.{
  owned, owned-append, all_owned, is_ready, left, main_context, Ends, start_up-Accounts,
}

-- `calloc` never gives a block that is in use, if the event loop runs.
abbrev pub IsFresh : Mbed → ℕ → List Round → Started → Type 0
IsFresh m now rounds (returned n) = Unit
IsFresh m now rounds (running ctx epoll_fd sock) = AllServed m (some ctx) sock rounds (now, start)

-- What `main` leaves: everything is released after the event loop, and after an error no more is
-- left than `kept`.
abbrev pub Leaves : Bool → List Resource → Exit → Type 0
Leaves ready kept x =
    (x.status ≡ (if ready then 0 else 1))
    × (owned (some []) x.events ≡ some (if ready then [] else kept))
    × (x.state.clients ≡ [])
    × (x.state.heap ≡ some [])

after_start-Leaves :
    (m : Mbed) (now : ℕ) (rounds : List Round) (c : Option Context) (ready : Bool)
    (kept : List Resource) (events : List (Event Resource)) (s : Started)
    → Ends c ready s
    → owned (some []) events ≡ some (if ready then all_owned else kept)
    → IsFresh m now rounds s
    → Leaves ready kept (after_start m now rounds events s)
after_start-Leaves m now rounds c ready kept events (returned n) (r, e) o f = (
  rw (r, e) refl,
  rw r (subst (λ b. owned (some []) events ≡ some (if b then all_owned else kept)) r o),
  refl,
  refl,
)
after_start-Leaves m now rounds c ready kept events (running ctx epoll_fd sock) (r, e, cl) o f =
    let st : State = (main_loop m (some ctx) sock rounds (now, start)).1 in
    let reached = main_loop-Reaches m (some ctx) sock rounds (now, start) starts f in
    let (none_left, none_alive) = shut_down-releases m (some ctx) sock st reached in
    let before : owned (some []) events ≡ some all_owned =
      subst (λ b. owned (some []) events ≡ some (if b then all_owned else kept)) r o in
    (
      rw r refl,
      owned-append (some []) events (clean_up ctx) ∙ rw (before, r) cl,
      none_left,
      none_alive,
    )

left_ready :
    (env : MainEnv) (c : Option Context)
    → left env c ≡ (if is_ready env c then all_owned else left env c)
left_ready env none = refl
left_ready env (some ctx) = ground arith

-- Whatever the system answers to main, and however many rounds its event loop makes, with calloc
-- never giving a block that is in use: main returns 0 if there is a DTLS context, both handlers
-- are set, and the epoll instance and the bound, registered socket are there, and has then
-- released the socket, the epoll instance, the context and the DTLS layer, each once; else it
-- returns 1, and nothing is left if there is no context or a handler is not set, but the DTLS
-- layer and its context are after a later error; in every case no client and no block or session
-- of one is left.
pub main-Leaves :
    (m : Mbed) (env : MainEnv) (now : ℕ) (rounds : List Round)
    → IsFresh m now rounds (start_up env).started
    → Leaves (is_ready env (main_context env)) (left env (main_context env)) (main m env now rounds)
unfolding main
main-Leaves m env now rounds f =
    let (ends, owns) = start_up-Accounts env in
    after_start-Leaves m now rounds (main_context env) (is_ready env (main_context env))
      (left env (main_context env)) (start_up env).events (start_up env).started ends
      (owns ∙ ap some (left_ready env (main_context env))) f
