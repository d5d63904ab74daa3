-- ===== src/Server/Registry/Traffic.antt =====
-- How many bytes a peer is answered.
use space_captain.Common.{
  ℕ, ◌+◌, ◌≤◌, ℤ, Option, none, some, List, [], ◌∷◌, Bool-cases, inl, inr, length, take,
  length-take-le, arith, if◌then◌else◌,
}
use space_captain.Dtls.{Mbed}
use space_captain.Dtls.Context.{Context}
use space_captain.Dtls.Io.{byte_count}
use space_captain.Dtls.Session.{SockAddr}
use space_captain.Server.Clients.{State, same_peer}
use space_captain.Server.Clients.Heap.{IsValid}
use space_captain.Server.Loop.{Arrival, Round, main_loop}
use space_captain.Server.Loop.Shutdown.{AllServed}
use space_captain.Server.Reply.{reply}
use space_captain.Server.Reply.Echo.{length-reply}
use space_captain.Server.Registry.{
  Peer, Effect, Registry, check, effect, arrive, arrive_all, serve_round, serve_all,
}
use space_captain.Server.Registry.Answers.{
  other-answers, sent, answers, sent-Shows, main_loop-Shows, registry, registry-Shows, Fits,
  IsProper, registry-IsProper, check-IsProper, arrive-IsProper, round_cases,
}

-- The bytes of all answers.
abbrev pub volume : List (List ℕ) → ℕ
volume [] = 0
volume (bytes ∷ rest) = length bytes + volume rest

-- The bytes that the reads for the datagrams of a peer give: the sum of the positive answers of the
-- library's read.
abbrev pub read_from : SockAddr → List Arrival → ℕ
read_from x [] = 0
read_from x (a ∷ xs) = (if same_peer a.addr x then byte_count a.ret else 0) + read_from x xs

abbrev pub all_read_from : SockAddr → List Round → ℕ
all_read_from x [] = 0
all_read_from x (r ∷ rounds) =
    (if r.polled then read_from x r.arrivals else 0) + all_read_from x rounds

answer_fits : (n : ℕ) (received : List ℕ) → length (reply (take n received)) ≤ n
answer_fits n received = omega (arith, length-reply (take n received), length-take-le n received)

-- A registry of peers, with a bound of what one of them is answered.
record IsWithin (x : SockAddr) (bound : ℕ) (r : Registry) : Type 0 where
  proper : IsProper r
  within : volume (answers x r.effects) ≤ bound

looser : {x : SockAddr} {a b : ℕ} {r : Registry} → a ≤ b → IsWithin x a r → IsWithin x b r
looser h w = record { proper = w.proper; within = omega (arith, w.within) }

module _ (m : Mbed) where
  own-volume :
      (x : SockAddr) (a : Arrival) (o : Option Peer) (es : List Effect)
      → volume (answers x (effect m a o es)) ≤ byte_count a.ret + volume (answers x es)
  own-volume x a none es = omega arith
  own-volume x a (some p) es = let fits = answer_fits (byte_count a.ret) a.received in ground arith

  effect-volume :
      (x : SockAddr) (a : Arrival) (o : Option Peer) (es : List Effect)
      → Fits a.addr o
      → volume (answers x (effect m a o es))
        ≤ (if same_peer a.addr x then byte_count a.ret else 0) + volume (answers x es)
  effect-volume x a o es f = elim (Bool-cases (same_peer a.addr x)) [
    | inl own ↦ rw own (own-volume x a o es)
    | inr other ↦ rw (other, other-answers m x a o es f other) (omega arith)
  ]

  module _ (ctx : Option Context) (sock : ℤ) where
    arrive_all-IsWithin :
        (x : SockAddr) (bound : ℕ) (xs : List Arrival) (r : Registry)
        → IsWithin x bound r
        → IsWithin x (read_from x xs + bound) (arrive_all m ctx sock xs r)
    arrive_all-IsWithin x bound [] r w = looser (omega arith) w
    arrive_all-IsWithin x bound (a ∷ xs) r w =
        let here : ℕ = if same_peer a.addr x then byte_count a.ret else 0 in
        let step = effect-volume x a (r.known a.addr) r.effects (w.proper.fits a.addr) in
        looser (omega arith) (
          arrive_all-IsWithin x (here + bound) xs (arrive m ctx sock a r) (record {
            proper = arrive-IsProper m ctx sock a r w.proper;
            within = omega (arith, step, w.within);
          }))

    round-IsWithin :
        (x : SockAddr) (bound : ℕ) (d : Round) (last : ℕ) (r : Registry)
        → IsWithin x bound r
        → IsWithin x
            ((if d.polled then read_from x d.arrivals else 0) + bound)
            (serve_round m ctx sock d (last, r)).1
    round-IsWithin x bound d last r w =
        round_cases m ctx sock
          (IsWithin x ((if d.polled then read_from x d.arrivals else 0) + bound)) d last r
          (λ e. rw e (looser (omega arith) w))
          (λ e. rw e (
            arrive_all-IsWithin x bound d.arrivals (check d.checked r)
              (record { proper = check-IsProper d.checked r w.proper; within = w.within })))
          (λ e. rw e (arrive_all-IsWithin x bound d.arrivals r w))

    serve_all-IsWithin :
        (x : SockAddr) (bound : ℕ) (rounds : List Round) (r : ℕ × Registry)
        → IsWithin x bound r.1
        → IsWithin x (all_read_from x rounds + bound) (serve_all m ctx sock rounds r).1
    serve_all-IsWithin x bound [] r w = looser (omega arith) w
    serve_all-IsWithin x bound (d ∷ rounds) (last, r) w = looser (omega arith) (
        serve_all-IsWithin x ((if d.polled then read_from x d.arrivals else 0) + bound) rounds
          (serve_round m ctx sock d (last, r)) (round-IsWithin x bound d last r w))

    -- Over a valid list of clients, with calloc not giving a block that is in use, and however
    -- many rounds the loop of main makes, the bytes of the answers to a peer grow by no more than
    -- the sum of what Mbed TLS answers to its datagrams where that is positive, which is the
    -- number of bytes of a read.
    pub no_amplification :
        (x : SockAddr) (rounds : List Round) (at : ℕ × State)
        → IsValid at.1
        → AllServed m ctx sock rounds at
        → volume (sent x (main_loop m ctx sock rounds at).1.outputs)
          ≤ all_read_from x rounds + volume (sent x at.1.outputs)
    no_amplification x rounds at v new =
        rw
          (
            sent-Shows x _ _ (main_loop-Shows m ctx sock rounds at v new),
            sent-Shows x _ _ (registry-Shows at.1),
          )
          (serve_all-IsWithin x (volume (answers x (registry at.1).effects)) rounds
            (at.0, registry at.1)
            (record { proper = registry-IsProper at.1; within = omega arith })).within
