-- ===== src/Server/Clients/Ages.antt =====
-- What a look-up of a peer finds after a check of the timeouts.
use space_captain.Common.{
  ℕ, ◌+◌, ◌≡◌, Option, none, some, List, [], ◌∷◌, Bool-cases, inl, inr, refl, ltb, arith,
  if◌then◌else◌,
}
use space_captain.Dtls.Session.{SockAddr}
use space_captain.Server.{client_timeout_seconds}
use space_captain.Server.Clients.{Client, same_peer, find_client}
use space_captain.Server.Clients.Expiry.{active}
use space_captain.Server.Clients.Find.{not_found}
use space_captain.Server.Clients.Heap.{AllDistinct}

-- A client that is found, if it stays.
abbrev pub aged : ℕ → Option Client → Option Client
aged now none = none
aged now (some c) = if ltb (c.last_activity + client_timeout_seconds) now then none else some c

none-active :
    (now : ℕ) (x : SockAddr) (cs : List Client)
    → find_client x cs ≡ none
    → find_client x (active now cs) ≡ none
unfolding find_client
none-active now x [] f = refl
none-active now x (k ∷ cs) f = elim (Bool-cases (same_peer k.addr x)) [
  | inl own ↦ absurd (ground arith)
  | inr other ↦ let rest = none-active now x cs (ground arith) in ground arith
]

-- The one client of a peer is found exactly if it stays.
pub find-active :
    (now : ℕ) (x : SockAddr) (cs : List Client)
    → AllDistinct cs
    → find_client x (active now cs) ≡ aged now (find_client x cs)
unfolding find_client
find-active now x [] d = refl
find-active now x (k ∷ cs) (o, n, d) = elim (Bool-cases (same_peer k.addr x)) [
  | inl own ↦ let gone = none-active now x cs (not_found k.ptr k.addr x cs n own) in ground arith
  | inr other ↦
      let rest = find-active now x cs d in
      elim (Bool-cases (ltb (k.last_activity + client_timeout_seconds) now)) [
        | inl old ↦ rw (other, old) rest
        | inr young ↦ rw (other, young, other) rest
      ]
]
