-- ===== src/Server/Main.antt =====
-- `main` of src/server.c from its begin to its end, over what the system answers.
pub mod Releases
pub mod Serves
mod Tests
use space_captain.Common.{ℕ, ℤ, List, ◌++◌, Event}
use space_captain.Dtls.{Mbed}
use space_captain.Dtls.Context.{Context}
use space_captain.Server.Clients.{State}
use space_captain.Server.Loop.{Round, main_loop, shut_down}
use space_captain.Server.Loop.Shutdown.{start}
use space_captain.Server.Startup.{Resource, MainEnv, Started, returned, running, start_up, clean_up}
use space_captain.Common.{some}

-- What is left when `main` returns: its number, what it acquired and released, and the clients.
pub record Exit : Type 0 where
  pub status : ℕ
  pub events : List (Event Resource)
  pub state : State

-- `main` behind its start. The first number is the time before the event loop.
abbrev pub after_start : Mbed → ℕ → List Round → List (Event Resource) → Started → Exit
after_start m now rounds events (returned n) = record { status = n; events = events; state = start }
after_start m now rounds events (running ctx epoll_fd sock) = record {
  status = 0;
  events = events ++ clean_up ctx;
  state = shut_down (main_loop m (some ctx) sock rounds (now, start)).1;
}

-- `main`
unfoldable pub main : Mbed → MainEnv → ℕ → List Round → Exit
main m env now rounds = let s = start_up env in after_start m now rounds s.events s.started
