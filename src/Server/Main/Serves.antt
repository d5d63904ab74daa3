-- ===== src/Server/Main/Serves.antt =====
-- What `main` sends and throws away from its begin to its end.
use space_captain.Common.{Event, some, ℕ, ◌≡◌, List, [], refl, ap, sym, ◌∙◌}
use space_captain.Dtls.{Mbed}
use space_captain.Server.Clients.{State, find_client}
use space_captain.Server.Loop.{Round, main_loop, shut_down}
use space_captain.Server.Loop.Outputs.{shut_down-visible}
use space_captain.Server.Loop.Shutdown.{start, starts, Reaches-IsValid}
use space_captain.Server.Main.{main, after_start}
use space_captain.Server.Main.Releases.{IsFresh}
use space_captain.Server.Registry.{Effect, nobody, serve_all}
use space_captain.Server.Registry.Refine.{shown, shown-visible, Shows, main_loop_refines}
use space_captain.Server.Startup.{Resource, MainEnv, Started, returned, running, start_up}

-- Nothing after an error of the start, else what the registry does from nobody on.
abbrev pub promised : Mbed → ℕ → List Round → Started → List Effect
promised m now rounds (returned n) = []
promised m now rounds (running ctx epoll_fd sock) =
    (serve_all m (some ctx) sock rounds (now, nobody)).1.effects

start-Shows : Shows nobody start
unfolding find_client
start-Shows = record { known = λ x. refl; effects = refl }

after_start-promised :
    (m : Mbed) (now : ℕ) (rounds : List Round) (events : List (Event Resource)) (s : Started)
    → IsFresh m now rounds s
    → shown (after_start m now rounds events s).state.outputs ≡ promised m now rounds s
after_start-promised m now rounds events (returned n) f = refl
after_start-promised m now rounds events (running ctx epoll_fd sock) f =
    let st : State = (main_loop m (some ctx) sock rounds (now, start)).1 in
    sym (shown-visible (shut_down st).outputs)
    ∙ ap shown (shut_down-visible st)
    ∙ shown-visible st.outputs
    ∙ (main_loop_refines m (some ctx) sock rounds (now, nobody) (now, start)
        (Reaches-IsValid m (some ctx) sock start starts) f (refl, start-Shows)).1.effects

-- Whatever the system answers to main, with calloc not giving a block that is in use: what main
-- has handed to sc_dtls_write for clients, with whether it returned ok, and what it has thrown
-- away when it returns, but for close notifications, is nothing if its start fails, and else what
-- a registry of peers, which begins with nobody, answers and drops in the rounds of the event
-- loop.
pub main_serves :
    (m : Mbed) (env : MainEnv) (now : ℕ) (rounds : List Round)
    → IsFresh m now rounds (start_up env).started
    → shown (main m env now rounds).state.outputs ≡ promised m now rounds (start_up env).started
unfolding main
main_serves m env now rounds f =
    after_start-promised m now rounds (start_up env).events (start_up env).started f
