-- ===== src/Server/Loop/Shutdown.antt =====
-- Every state that the event loop reaches is valid, and the end of the loop releases every block.
use space_captain.Common.{
  leb, ◌-◌, Bool-cases, inl, inr, if◌then◌else◌, Bool, ℕ, zero, suc, ◌≤◌, ℤ, ◌≡◌, true, false,
  Option, some, List, [], ◌∷◌, ==_iff, refl, sym, ap, ◌∙◌, subst, arith,
}
use space_captain.Dtls.{Mbed}
use space_captain.Dtls.Context.{Context}
use space_captain.Server.Clients.{
  Client, State, remove_client, unlink, check_client_timeouts, count,
}
use space_captain.Server.Clients.Heap.{
  blocks, IsValid, AllDistinct, is_listed, remove_client-clients, remove_client-IsValid,
}
use space_captain.Server.Clients.Expiry.{timeouts-active}
use space_captain.Server.Loop.{
  Round, drain_socket, poll, main_loop, Arrival, turn, remove_all, shut_down,
}
use space_captain.Server.Loop.Valid.{turn-IsValid}

-- The server before its first datagram.
abbrev pub start : State
start = record { clients = []; heap = some []; outputs = [] }

-- The states that turns and checks of the timeouts lead to, in any order, if `calloc` never returns
-- a block that is in use.
pub data Reaches (m : Mbed) (ctx : Option Context) (sock : ℤ) : State → Type 0 where
  starts : Reaches m ctx sock start
  arrives :
      (a : Arrival) (st : State)
      → Reaches m ctx sock st
      → is_listed a.add.block st.clients ≡ false
      → Reaches m ctx sock (turn m ctx sock a st)
  checks :
      (now : ℕ) (st : State)
      → Reaches m ctx sock st
      → Reaches m ctx sock (check_client_timeouts now st)

-- `calloc` never returns a block that is in use while the arrivals are served.
module _ (m : Mbed) (ctx : Option Context) (sock : ℤ) where
  abbrev pub AllNew : List Arrival → State → Type 0
  AllNew [] st = Unit
  AllNew (a ∷ xs) st = (is_listed a.add.block st.clients ≡ false) × AllNew xs (turn m ctx sock a st)

  drain_socket-Reaches :
      (xs : List Arrival) (st : State)
      → Reaches m ctx sock st
      → AllNew xs st
      → Reaches m ctx sock (drain_socket m ctx sock xs st)
  unfolding drain_socket
  drain_socket-Reaches [] st r f = r
  drain_socket-Reaches (a ∷ xs) st r (n, f) =
      drain_socket-Reaches xs (turn m ctx sock a st) (arrives a st r n) f

  -- The same over the rounds of the loop.
  abbrev pub served_from : Round → ℕ × State → State
  served_from r (last, st) = if leb 5 (r.now - last) then check_client_timeouts r.checked st else st

  abbrev pub IsServed : Round → ℕ × State → Type 0
  IsServed r at = if r.polled then AllNew r.arrivals (served_from r at) else Unit

  abbrev pub AllServed : List Round → ℕ × State → Type 0
  AllServed [] at = Unit
  AllServed (r ∷ rs) at =
      IsServed r at × AllServed rs (poll m ctx sock r.polled r.now r.checked r.arrivals at)

  -- The datagrams of a round that checks the timeouts, or does not.
  pub AllNew-branch :
      (b : Bool) (now checked last : ℕ) (xs : List Arrival) (st : State)
      → leb 5 (now - last) ≡ b
      → AllNew xs (if leb 5 (now - last) then check_client_timeouts checked st else st)
      → AllNew xs (if b then check_client_timeouts checked st else st)
  AllNew-branch b now checked last xs st e f =
      subst (λ b. AllNew xs (if b then check_client_timeouts checked st else st)) e f

  pub poll-Reaches :
      (polled : Bool) (now checked : ℕ) (arrivals : List Arrival) (at : ℕ × State)
      → Reaches m ctx sock at.1
      → IsServed (record { polled = polled; now = now; checked = checked; arrivals = arrivals }) at
      → Reaches m ctx sock (poll m ctx sock polled now checked arrivals at).1
  unfolding poll
  poll-Reaches false now checked xs (last, st) r f = r
  poll-Reaches true now checked xs (last, st) r f = elim (Bool-cases (leb 5 (now - last))) [
    | inl e ↦ rw e (
        drain_socket-Reaches xs (check_client_timeouts checked st) (checks checked st r)
          (AllNew-branch true now checked last xs st e f))
    | inr e ↦ rw e (drain_socket-Reaches xs st r (AllNew-branch false now checked last xs st e f))
  ]

  -- The loop of `main` leads to such a state, as long as `calloc` behaves.
  pub main_loop-Reaches :
      (rounds : List Round) (at : ℕ × State)
      → Reaches m ctx sock at.1
      → AllServed rounds at
      → Reaches m ctx sock (main_loop m ctx sock rounds at).1
  unfolding main_loop
  main_loop-Reaches [] at r f = r
  main_loop-Reaches (x ∷ rounds) at r (f, fs) =
      main_loop-Reaches rounds (poll m ctx sock x.polled x.now x.checked x.arrivals at)
        (poll-Reaches x.polled x.now x.checked x.arrivals at r f) fs

-- Every state that is reached is valid.
pub Reaches-IsValid :
    (m : Mbed) (ctx : Option Context) (sock : ℤ) (st : State) → Reaches m ctx sock st → IsValid st
Reaches-IsValid m ctx sock _ starts = record { distinct = tt; heap = refl }
Reaches-IsValid m ctx sock _ (arrives a st r l) =
    turn-IsValid m ctx sock a st (Reaches-IsValid m ctx sock st r) l
Reaches-IsValid m ctx sock _ (checks now st r) =
    (timeouts-active now st (Reaches-IsValid m ctx sock st r)).1

listed_first : (c : Client) (cs : List Client) → is_listed c.ptr (c ∷ cs) ≡ true
listed_first c cs = ground (arith, ==_iff c.ptr c.ptr)

unlinked_first : (c : Client) (cs : List Client) → unlink c.ptr (c ∷ cs) ≡ cs
unfolding unlink
unlinked_first c cs = ground (arith, ==_iff c.ptr c.ptr)

-- A round of the last loop, by the list that it finds.
one_more : ℕ → State → List Client → State
one_more fuel st [] = st
one_more fuel st (c ∷ cs) = remove_all fuel (remove_client c st)

-- No client, and nothing alive.
abbrev IsEmpty : State → Type 0
IsEmpty st = (st.clients ≡ []) × (st.heap ≡ some [])

remove_all-empties :
    (fuel : ℕ) (cs : List Client) (st : State)
    → IsValid st
    → st.clients ≡ cs
    → count cs ≤ fuel
    → IsEmpty (remove_all fuel st)
unfolding remove_all one_more
remove_all-empties zero [] st v e h = (e, v.heap ∙ ap (λ cs. some (blocks cs)) e)
remove_all-empties zero (c ∷ cs) st v e h = absurd (omega arith)
remove_all-empties (suc fuel) [] st v e h =
    subst (λ cs. IsEmpty (one_more fuel st cs)) (sym e) (e, v.heap ∙ ap (λ cs. some (blocks cs)) e)
remove_all-empties (suc fuel) (c ∷ cs) st v e h =
    subst (λ cs. IsEmpty (one_more fuel st cs)) (sym e)
      (remove_all-empties fuel cs (remove_client c st)
        (remove_client-IsValid c st v first.0 (ap (is_listed c.ptr) e ∙ listed_first c cs))
        (remove_client-clients c st ∙ ap (unlink c.ptr) e ∙ unlinked_first c cs) (omega arith))
  where
    first : AllDistinct (c ∷ cs)
    first = subst AllDistinct e v.distinct

-- From every state that the turns of the event loop and the checks of the timeouts lead to, in any
-- order and whatever Mbed TLS and the clock answer, with calloc never giving a block that is in
-- use, the clean-up at the end leaves no client and no block or session alive, and nothing was
-- released twice.
pub shut_down-releases :
    (m : Mbed) (ctx : Option Context) (sock : ℤ) (st : State)
    → Reaches m ctx sock st
    → ((shut_down st).clients ≡ []) × ((shut_down st).heap ≡ some [])
unfolding shut_down
shut_down-releases m ctx sock st r =
    remove_all-empties (count st.clients) st.clients st (Reaches-IsValid m ctx sock st r) refl
      (omega arith)
