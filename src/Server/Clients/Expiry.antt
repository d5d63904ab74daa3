-- ===== src/Server/Clients/Expiry.antt =====
-- `check_client_timeouts` removes the expired clients, and no other.
use space_captain.Server.{client_timeout_seconds}
use space_captain.Common.{
  ltb, ◌+◌, ℕ, zero, suc, ◌≤◌, ◌≡◌, true, false, some, List, [], ◌∷◌, ◌++◌, append_assoc, ◌==◌,
  Bool-cases, inl, inr, refl, sym, ap, ap₂, ◌∙◌, subst, arith, if◌then◌else◌,
}
use space_captain.Dtls.Session.{SockAddr}
use space_captain.Server.Clients.{
  Client, State, unlink, client_at, head_ptr, next_of, is_expired, expire, timeout_loop, count,
  check_client_timeouts,
}
use space_captain.Server.Clients.Heap.{
  IsValid, IsOpen, IsNew, AllDistinct, is_listed, same_number, remove_client-clients,
  remove_client-IsValid,
}

-- The clients that stay at a time.
abbrev pub active : ℕ → List Client → List Client
active now [] = []
active now (c ∷ cs) =
    if ltb (c.last_activity + client_timeout_seconds) now then active now cs else c ∷ active now cs

is_expired_lem :
    (now : ℕ) (c : Client) → ltb (c.last_activity + client_timeout_seconds) now ≡ is_expired now c
unfolding is_expired
is_expired_lem now c = ground arith

-- A client behind others, none of which has its block.
module _ (c : Client) (cs : List Client) where
  at_split :
      (kept : List Client)
      → is_listed c.ptr kept ≡ false
      → (client_at c.ptr (kept ++ (c ∷ cs)) ≡ some c)
        × (next_of c.ptr (kept ++ (c ∷ cs)) ≡ head_ptr cs)
        × (unlink c.ptr (kept ++ (c ∷ cs)) ≡ kept ++ cs)
        × (is_listed c.ptr (kept ++ (c ∷ cs)) ≡ true)
  unfolding client_at next_of unlink
  at_split [] h = ground arith
  at_split (k ∷ kept) h = let rest = at_split kept in ground arith

  new_behind :
      (p : ℕ) (a : SockAddr) (kept : List Client)
      → IsNew p a (kept ++ (c ∷ cs))
      → (c.ptr == p) ≡ false
  new_behind p a [] n = n.0
  new_behind p a (k ∷ kept) n = new_behind p a kept n.2

  others :
      (kept : List Client)
      → AllDistinct (kept ++ (c ∷ cs))
      → (is_listed c.ptr kept ≡ false) × IsOpen c
  others [] d = (refl, d.0)
  others (k ∷ kept) d =
      let rest = others kept d.2 in
      (rw (same_number k.ptr c.ptr, new_behind k.ptr k.addr kept d.1) rest.0, rest.1)

abbrev Expires : List Client → State → Type 0
Expires clients st = (st.clients ≡ clients) × IsValid st

-- One round of the loop, at a client behind those that are kept.
expire-Expires :
    (now : ℕ) (c : Client) (kept cs : List Client) (st : State)
    → IsValid st
    → st.clients ≡ kept ++ (c ∷ cs)
    → Expires (if is_expired now c then kept ++ cs else kept ++ (c ∷ cs)) (expire now (some c) st)
expire-Expires now c kept cs st v e = elim (Bool-cases (is_expired now c)) [
  | inl old ↦ rw old (
    remove_client-clients c st ∙ ap (unlink c.ptr) e ∙ split.2,
    remove_client-IsValid c st v o.1 (ap (is_listed c.ptr) e ∙ split.3),
  )
  | inr new ↦ rw new (e, v)
]
  where
    o : (is_listed c.ptr kept ≡ false) × IsOpen c
    o = others c cs kept (subst AllDistinct e v.distinct)

    split :
        (client_at c.ptr (kept ++ (c ∷ cs)) ≡ some c)
        × (next_of c.ptr (kept ++ (c ∷ cs)) ≡ head_ptr cs)
        × (unlink c.ptr (kept ++ (c ∷ cs)) ≡ kept ++ cs)
        × (is_listed c.ptr (kept ++ (c ∷ cs)) ≡ true)
    split = at_split c cs kept o.0

-- What holds of the rest of the list holds of the list: the client is dropped, or kept.
through :
    (now : ℕ) (kept : List Client) (c : Client) (cs : List Client) (after : State)
    (loop : State → State)
    → ((ks : List Client) (st : State)
        → IsValid st
        → st.clients ≡ ks ++ cs
        → Expires (ks ++ active now cs) (loop st))
    → Expires (if is_expired now c then kept ++ cs else kept ++ (c ∷ cs)) after
    → Expires (kept ++ active now (c ∷ cs)) (loop after)
through now kept c cs after loop continue (f, w) =
    rw (is_expired_lem now c) (elim (Bool-cases (is_expired now c)) [
      | inl old ↦ rw old (continue kept after w (f ∙ rw old refl))
      | inr new ↦
          rw (new, ← append_assoc kept (c ∷ []) (active now cs))
            (continue (kept ++ (c ∷ [])) after w (f ∙ rw new (sym (append_assoc kept (c ∷ []) cs))))
    ])

-- The loop from a client on, with the clients before it kept.
timeout_loop-Expires :
    (fuel now : ℕ) (kept rest : List Client) (st : State)
    → IsValid st
    → st.clients ≡ kept ++ rest
    → count rest ≤ fuel
    → Expires (kept ++ active now rest) (timeout_loop fuel now (head_ptr rest) st)
unfolding timeout_loop
timeout_loop-Expires zero now kept [] st v e h = (e, v)
timeout_loop-Expires zero now kept (c ∷ cs) st v e h = absurd (omega arith)
timeout_loop-Expires (suc fuel) now kept [] st v e h = (e, v)
timeout_loop-Expires (suc fuel) now kept (c ∷ cs) st v e h =
    subst (Expires (kept ++ active now (c ∷ cs)))
      (ap₂ (λ next reached. timeout_loop fuel now next (expire now reached st)) (sym to.1)
        (sym to.0))
      (through now kept c cs (expire now (some c) st) (timeout_loop fuel now (head_ptr cs))
        (λ ks after w f. timeout_loop-Expires fuel now ks cs after w f (omega arith))
        (expire-Expires now c kept cs st v e))
  where
    to : (client_at c.ptr st.clients ≡ some c) × (next_of c.ptr st.clients ≡ head_ptr cs)
    to =
        let split = at_split c cs kept (others c cs kept (subst AllDistinct e v.distinct)).0 in
        (ap (client_at c.ptr) e ∙ split.0, ap (next_of c.ptr) e ∙ split.1)

-- Over a valid list, the check of the timeouts, which removes clients while it walks along the
-- list, keeps exactly the clients whose last activity is at most 30 seconds ago, in their order,
-- and leaves the list valid; its loop ends within as many rounds as there are clients.
pub timeouts-active :
    (now : ℕ) (st : State)
    → IsValid st
    → ((check_client_timeouts now st).clients ≡ active now st.clients)
      × IsValid (check_client_timeouts now st)
unfolding check_client_timeouts
timeouts-active now st v =
    timeout_loop-Expires (count st.clients) now [] st.clients st v refl (omega arith)
