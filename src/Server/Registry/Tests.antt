-- ===== src/Server/Registry/Tests.antt =====
-- The registry at concrete inputs.
use space_captain.Common.{◌+◌, ◌≤◌, ◌≡◌, false, sym, ◌∙◌, pos, refl, []}
use space_captain.Dtls.Inputs.{mbed}
use space_captain.Dtls.Io.{handshake, read, write}
use space_captain.Dtls.Session.{session_create}
use space_captain.Message.Wire.{load}
use space_captain.Server.Inputs.{context, address, other, rounds, busy_rounds}
use space_captain.Server.Clients.{
  same_peer, find_client, add_client, set_client, remove_client, unlink,
}
use space_captain.Server.Clients.Heap.{IsValid}
use space_captain.Server.Loop.{turn, poll, main_loop}
use space_captain.Server.Loop.Shutdown.{start, AllServed}
use space_captain.Server.Registry.{nobody, serve_all}
use space_captain.Server.Registry.Answers.{sent}
use space_captain.Server.Registry.Handshakes.{no_answer_before_handshake}
use space_captain.Server.Registry.Refine.{Follows, main_loop_refines}
use space_captain.Server.Registry.Traffic.{volume, all_read_from, no_amplification}

start-IsValid : IsValid start
start-IsValid = record { distinct = tt; heap = refl }

main_loop_refines_example :
    Follows
      (serve_all mbed context (pos 3) rounds (100, nobody))
      (main_loop mbed context (pos 3) rounds (100, start))
unfolding find_client
main_loop_refines_example =
    main_loop_refines mbed context (pos 3) rounds (100, nobody) (100, start) start-IsValid
      ((refl, tt), (tt, tt)) (refl, record { known = λ x. refl; effects = refl })

busy-AllServed : AllServed mbed context (pos 3) busy_rounds (100, start)
unfolding turn find_client add_client set_client session_create handshake read write load poll
    remove_client unlink
busy-AllServed = ((refl, tt), ((refl, (refl, (refl, tt))), tt))

no_amplification_example :
    volume (sent address (main_loop mbed context (pos 3) busy_rounds (100, start)).1.outputs)
    ≤ all_read_from address busy_rounds + volume (sent address [])
no_amplification_example =
    no_amplification mbed context (pos 3) address busy_rounds (100, start) start-IsValid
      busy-AllServed

strangers : same_peer address other ≡ false
unfolding load
strangers = refl

no_answer_before_handshake_example :
    sent other (main_loop mbed context (pos 3) busy_rounds (100, start)).1.outputs ≡ []
unfolding find_client
no_answer_before_handshake_example =
    no_answer_before_handshake mbed context (pos 3) other busy_rounds (100, start) start-IsValid
      busy-AllServed tt
      (
        ((λ mine. sym mine ∙ strangers), tt),
        (((λ mine. refl), ((λ mine. refl), ((λ mine. refl), tt))), tt),
      )
