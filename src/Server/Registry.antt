-- ===== src/Server/Registry.antt =====
-- What the server of src/server.c promises, without list, blocks, pointers and sessions: a map from
-- peers to what is known of them, and what is handed to the write and thrown away.
pub mod Refine
pub mod Answers
pub mod Traffic
pub mod Handshakes
mod Tests
use space_captain.Common.{
  ℕ, ◌+◌, ◌-◌, ℤ, pos, is_positive, ◌==ℤ◌, ◌||◌, Bool, true, false, not, Option, none, some, List,
  [], ◌∷◌, ◌==◌, leb, ltb, take, if◌then◌else◌,
}
use space_captain.Dtls.{Mbed}
use space_captain.Dtls.Context.{Context}
use space_captain.Dtls.Io.{byte_count, wants_more}
use space_captain.Dtls.Session.{SockAddr, Session, session_create}
use space_captain.Server.{client_timeout_seconds}
use space_captain.Server.Clients.{same_peer}
use space_captain.Server.Loop.{Arrival, Round}
use space_captain.Server.Reply.{reply}

-- What is known of a peer.
pub record Peer : Type 0 where
  pub addr : SockAddr
  pub last_activity : ℕ
  pub complete : Bool

-- An answer to a peer, with the mark of a write that succeeds, or a datagram that is thrown away.
pub data Effect : Type 0 where
  answered : SockAddr → List ℕ → Bool → Effect
  dropped : Effect

-- The effects are kept with the last one first.
pub record Registry : Type 0 where
  pub known : SockAddr → Option Peer
  pub effects : List Effect

-- Nobody is known.
abbrev pub nobody : Registry
nobody = record { known = λ x. none; effects = [] }

-- A peer stays for the time-out after its last activity.
abbrev pub remaining : ℕ → Option Peer → Option Peer
remaining now none = none
remaining now (some p) = if ltb (p.last_activity + client_timeout_seconds) now then none else some p

abbrev pub check : ℕ → Registry → Registry
check now r = record r { known = λ x. remaining now (r.known x) }

module _ (m : Mbed) where
  -- A handshake ends, goes on, or fails; after it, data comes, or more is wanted, or all is over.
  abbrev pub after : Arrival → Option Peer → Option Peer
  after a none = none
  after a (some p) =
      if p.complete
      then (if (if is_positive a.ret
            then is_positive a.write_ret || wants_more m a.write_ret
            else wants_more m a.ret)
          then some (record p { last_activity = a.now })
          else none)
      else if a.ret ==ℤ pos 0
      then some (record p { last_activity = a.now; complete = true })
      else if wants_more m a.ret
      then some (record p { last_activity = a.now })
      else none

  -- Data is answered; a datagram is thrown away in all other turns but for those where a peer with
  -- a complete handshake has closed.
  abbrev pub effect : Arrival → Option Peer → List Effect → List Effect
  effect a none es = dropped ∷ es
  effect a (some p) es =
      if not p.complete
      then dropped ∷ es
      else if is_positive a.ret
      then answered p.addr (reply (take (byte_count a.ret) a.received)) (is_positive a.write_ret)
        ∷ es
      else if wants_more m a.ret
      then dropped ∷ es
      else if a.ret ==ℤ m.peer_close_notify
      then es
      else dropped ∷ es

  module _ (ctx : Option Context) (sock : ℤ) where
    abbrev pub enrolled : Arrival → Option Session → Option Peer
    enrolled a none = none
    enrolled a (some s) =
        some (record { addr = a.addr; last_activity = a.add.now; complete = false })

    -- A peer that is not known is enrolled if there is memory and a session for it.
    abbrev pub met : Arrival → Option Peer → Option Peer
    met a (some p) = some p
    met a none =
        if a.add.block == 0
        then none
        else enrolled a (session_create ctx sock (some a.addr) a.add.session).session

    abbrev pub arrive : Arrival → Registry → Registry
    arrive a r = record {
      known = λ x. if same_peer a.addr x then after a (met a (r.known a.addr)) else r.known x;
      effects = effect a (r.known a.addr) r.effects;
    }

    abbrev pub arrive_all : List Arrival → Registry → Registry
    arrive_all [] r = r
    arrive_all (a ∷ arrivals) r = arrive_all arrivals (arrive a r)

    -- The time-outs are checked every 5 seconds.
    abbrev pub serve_round : Round → ℕ × Registry → ℕ × Registry
    serve_round r (last, registry) =
        if r.polled
        then (if leb 5 (r.now - last)
            then (r.now, arrive_all r.arrivals (check r.checked registry))
            else (last, arrive_all r.arrivals registry))
        else (last, registry)

    abbrev pub serve_all : List Round → ℕ × Registry → ℕ × Registry
    serve_all [] at = at
    serve_all (r ∷ rounds) at = serve_all rounds (serve_round r at)
