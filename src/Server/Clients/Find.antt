-- ===== src/Server/Clients/Find.antt =====
-- What a look-up of a peer finds after a client was written back or removed.
use space_captain.Common.{
  ==_iff, ℕ, ◌≡◌, true, false, none, some, List, [], ◌∷◌, ◌==◌, Bool-cases, inl, inr, refl, sym, ap,
  ◌∙◌, arith, if◌then◌else◌,
}
use space_captain.Dtls.Session.{SockAddr}
use space_captain.Server.Clients.{
  sin_port, s_addr, Client, same_peer, find_client, set_client, unlink, client_at,
}
use space_captain.Server.Clients.Heap.{IsNew, AllDistinct}

pub is_some : (k c : Client) → some k ≡ some c → k ≡ c
is_some k c h = ap (λ o. elim o [ none ↦ k | some x ↦ x ]) h

pub same_peer_refl : (x : SockAddr) → same_peer x x ≡ true
same_peer_refl x = ground (arith, ==_iff (sin_port x) (sin_port x), ==_iff (s_addr x) (s_addr x))

-- Two addresses of one peer agree with the same addresses.
pub same_peer_trans : (k a x : SockAddr) → same_peer a x ≡ true → same_peer k a ≡ same_peer k x
same_peer_trans k a x h = ground arith

pub same_peer_left : (k a x : SockAddr) → same_peer k a ≡ true → same_peer k x ≡ same_peer a x
same_peer_left k a x h = ground arith

-- They find the same client.
pub find-same :
    (a x : SockAddr) (cs : List Client) → same_peer a x ≡ true → find_client a cs ≡ find_client x cs
unfolding find_client
find-same a x [] h = refl
find-same a x (k ∷ cs) h = rw (same_peer_trans k.addr a x h, find-same a x cs h) refl

pub found_peer :
    (a : SockAddr) (c : Client) (cs : List Client)
    → find_client a cs ≡ some c
    → same_peer c.addr a ≡ true
unfolding find_client
found_peer a c [] h = absurd (ground arith)
found_peer a c (k ∷ cs) h = elim (Bool-cases (same_peer k.addr a)) [
  | inl e ↦ ap (λ d. same_peer d.addr a) (sym (is_some k c (ground arith))) ∙ e
  | inr e ↦ found_peer a c cs (ground arith)
]

other_peer :
    (p q : ℕ) (a : SockAddr) (c : Client) (cs : List Client)
    → IsNew p a cs
    → client_at q cs ≡ some c
    → same_peer c.addr a ≡ false
unfolding client_at
other_peer p q a c [] n h = absurd (ground arith)
other_peer p q a c (k ∷ cs) n h = elim (Bool-cases (k.ptr == q)) [
  | inl e ↦ ap (λ d. same_peer d.addr a) (sym (is_some k c (ground arith))) ∙ n.1
  | inr e ↦ other_peer p q a c cs n.2 (ground arith)
]

pub not_found :
    (p : ℕ) (a x : SockAddr) (cs : List Client)
    → IsNew p a cs
    → same_peer a x ≡ true
    → find_client x cs ≡ none
unfolding find_client
not_found p a x [] n h = refl
not_found p a x (k ∷ cs) n h =
    rw (sym (same_peer_trans k.addr a x h), n.1) (not_found p a x cs n.2 h)

-- The client that is written back has the address that it had.
pub find-set :
    (d c : Client) (x : SockAddr) (cs : List Client)
    → d.addr ≡ c.addr
    → client_at d.ptr cs ≡ some c
    → AllDistinct cs
    → find_client x (set_client d cs) ≡ (if same_peer d.addr x then some d else find_client x cs)
unfolding find_client set_client client_at
find-set d c x [] same h n = absurd (ground arith)
find-set d c x (k ∷ cs) same h n = elim (Bool-cases (k.ptr == d.ptr)) [
  | inl e ↦
      let at : k.addr ≡ d.addr = ap (λ o. o.addr) (is_some k c (ground arith)) ∙ sym same in
      rw (e, at) (ground arith)
  | inr e ↦
      let rest = find-set d c x cs same (ground arith) n.2 in
      let other : same_peer d.addr k.addr ≡ false =
        rw same (other_peer k.ptr d.ptr k.addr c cs n.1 (ground arith)) in
      rw (e, rest) (ground arith)
]

pub find-unlink :
    (p : ℕ) (c : Client) (x : SockAddr) (cs : List Client)
    → client_at p cs ≡ some c
    → AllDistinct cs
    → find_client x (unlink p cs) ≡ (if same_peer c.addr x then none else find_client x cs)
unfolding find_client unlink client_at
find-unlink p c x [] h n = absurd (ground arith)
find-unlink p c x (k ∷ cs) h n = elim (Bool-cases (k.ptr == p)) [
  | inl e ↦
      let at : k.addr ≡ c.addr = ap (λ o. o.addr) (is_some k c (ground arith)) in
      let gone = not_found k.ptr k.addr x cs n.1 in rw (e, sym at) (ground arith)
  | inr e ↦
      let rest = find-unlink p c x cs (ground arith) n.2 in
      let other : same_peer c.addr k.addr ≡ false =
        other_peer k.ptr p k.addr c cs n.1 (ground arith) in
      rw (e, rest) (ground arith)
]
