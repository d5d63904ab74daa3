-- ===== src/Server/Main/Tests.antt =====
-- `main` at a concrete environment.
use space_captain.Common.{pos, refl, ◌≡◌}
use space_captain.Dtls.Context.{context_create, build, seed_rng, configure, set_up_server, pin}
use space_captain.Dtls.Inputs.{mbed}
use space_captain.Server.Inputs.{rounds, env, udp}
use space_captain.Server.Main.{main}
use space_captain.Server.Main.Releases.{Leaves, main-Leaves}
use space_captain.Server.Main.Serves.{promised, main_serves}
use space_captain.Server.Registry.Refine.{shown}
use space_captain.Server.Startup.{MainEnv, start_up}
use space_captain.Server.Startup.Owns.{is_ready, left, main_context}

-- The port is free.
abbrev good : MainEnv
good = record env { udp = record udp { bind = pos 0 } }

main-Leaves_example :
    Leaves
      (is_ready good (main_context good))
      (left good (main_context good))
      (main mbed good 100 rounds)
unfolding start_up context_create build seed_rng configure set_up_server pin
main-Leaves_example = main-Leaves mbed good 100 rounds ((refl, tt), (tt, tt))

main_serves_example :
    shown (main mbed good 100 rounds).state.outputs
    ≡ promised mbed 100 rounds (start_up good).started
unfolding start_up context_create build seed_rng configure set_up_server pin
main_serves_example = main_serves mbed good 100 rounds ((refl, tt), (tt, tt))
