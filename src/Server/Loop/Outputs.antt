-- ===== src/Server/Loop/Outputs.antt =====
-- What the server sends and throws away, but for close notifications.
use space_captain.Common.{
  zero, suc, ℕ, ◌≡◌, Bool, true, false, Option, none, some, List, [], ◌∷◌, refl, ◌∙◌, if◌then◌else◌,
}
use space_captain.Dtls.Session.{Session}
use space_captain.Server.Clients.{
  Client, State, Output, close_notify, written, discarded, remove_client, unlink, close_session,
  expire, is_expired, timeout_loop, next_of, client_at, head_ptr, count, check_client_timeouts,
}
use space_captain.Server.Loop.{output, remove_all, shut_down}

-- What goes through the socket but for close notifications, the last first.
abbrev pub visible : List Output → List Output
visible [] = []
visible (close_notify ptr ∷ os) = visible os
visible (written c bytes result ∷ os) = written c bytes result ∷ visible os
visible (discarded ∷ os) = discarded ∷ visible os

-- Outputs that are the given ones but for close notifications.
pub record Writes (os : List Output) (st : State) : Type 0 where
  pub same : visible st.outputs ≡ os

pub unchanged : (st : State) → Writes (visible st.outputs) st
unchanged st = record { same = refl }

pub dropped : (st : State) → Writes (discarded ∷ visible st.outputs) (output discarded st)
dropped st = record { same = refl }

closed-visible :
    (p : ℕ) (s : Option Session) (st : State)
    → visible (close_session p s st).outputs ≡ visible st.outputs
closed-visible p none st = refl
closed-visible p (some s) st = refl

pub remove_client-Writes :
    {ws : List Output} (c : Client) (st : State) → Writes ws st → Writes ws (remove_client c st)
unfolding remove_client unlink
remove_client-Writes c st h = record {
  same =
      closed-visible c.ptr c.dtls_session (record st { clients = unlink c.ptr st.clients })
      ∙ h.same;
}

pub if-Writes :
    {os : List Output} (b : Bool) {x y : State}
    → Writes os x
    → Writes os y
    → Writes os (if b then x else y)
if-Writes true p q = p
if-Writes false p q = q

pub both :
    (b : Bool) {os os' : List Output} {x y : State}
    → Writes os x
    → Writes os' y
    → Writes (if b then os else os') (if b then x else y)
both true p q = p
both false p q = q

expire-Writes :
    {ws : List Output} (now : ℕ) (o : Option Client) (st : State)
    → Writes ws st
    → Writes ws (expire now o st)
expire-Writes now none st h = h
expire-Writes now (some c) st h = if-Writes (is_expired now c) (remove_client-Writes c st h) h

timeout_loop-Writes :
    {ws : List Output} (fuel now : ℕ) (cursor : Option ℕ) (st : State)
    → Writes ws st
    → Writes ws (timeout_loop fuel now cursor st)
unfolding timeout_loop
timeout_loop-Writes zero now cursor st h = h
timeout_loop-Writes (suc fuel) now none st h = h
timeout_loop-Writes (suc fuel) now (some ptr) st h =
    timeout_loop-Writes fuel now (next_of ptr st.clients) (expire now (client_at ptr st.clients) st)
      (expire-Writes now (client_at ptr st.clients) st h)

-- The check of the timeouts sends close notifications only.
pub timeouts-visible :
    (now : ℕ) (st : State) → visible (check_client_timeouts now st).outputs ≡ visible st.outputs
unfolding check_client_timeouts
timeouts-visible now st =
    (timeout_loop-Writes (count st.clients) now (head_ptr st.clients) st (unchanged st)).same

remove_all-Writes :
    {ws : List Output} (fuel : ℕ) (st : State) → Writes ws st → Writes ws (remove_all fuel st)
unfolding remove_all
remove_all-Writes {ws = ws} zero st h = h
remove_all-Writes {ws = ws} (suc fuel) st h =
    elim st.clients
      as (λ cs. Writes ws (elim cs [ [] ↦ st | c ∷ rest ↦ remove_all fuel (remove_client c st) ])) [
        | [] ↦ h
        | c ∷ rest ↦ remove_all-Writes fuel (remove_client c st) (remove_client-Writes c st h)
      ]

-- So does the clean-up of the clients at the end.
pub shut_down-visible : (st : State) → visible (shut_down st).outputs ≡ visible st.outputs
unfolding shut_down
shut_down-visible st = (remove_all-Writes (count st.clients) st (unchanged st)).same
