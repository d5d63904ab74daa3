-- ===== src/Server/Loop/Stored.antt =====
-- A client that the event loop has found or made, and writes back through its pointer.
use space_captain.Common.{
  ℕ, ◌≡◌, true, false, Option, none, some, List, [], ◌∷◌, ◌==◌, ==_iff, Bool-cases, inl, inr, refl,
  sym, ap, ◌∙◌, subst, arith,
}
use space_captain.Dtls.Session.{SockAddr}
use space_captain.Server.Clients.{Client, State, find_client, set_client, client_at, same_peer}
use space_captain.Server.Clients.Find.{is_some}
use space_captain.Server.Clients.Heap.{blocks, IsOpen, IsNew, AllDistinct, IsValid, is_listed}
use space_captain.Server.Loop.{store_client}

-- The client that a pointer of the loop points to.
abbrev pub IsAt : Client → List Client → Type 0
IsAt c cs = client_at c.ptr cs ≡ some c

pub at-listed :
    (p : ℕ) (c : Client) (cs : List Client) → client_at p cs ≡ some c → is_listed p cs ≡ true
unfolding client_at
at-listed p c [] h = absurd (ground arith)
at-listed p c (k ∷ cs) h = let rest = at-listed p c cs in ground arith

set-blocks : (d : Client) (cs : List Client) → blocks (set_client d cs) ≡ blocks cs
unfolding set_client
set-blocks d [] = refl
set-blocks d (k ∷ cs) = let rest = set-blocks d cs in ground (arith, ==_iff k.ptr d.ptr)

set-listed :
    (p : ℕ) (d : Client) (cs : List Client) → is_listed p (set_client d cs) ≡ is_listed p cs
unfolding set_client
set-listed p d [] = refl
set-listed p d (k ∷ cs) = let rest = set-listed p d cs in ground arith

set-IsAt :
    (c d : Client) (cs : List Client)
    → client_at d.ptr cs ≡ some c
    → client_at d.ptr (set_client d cs) ≡ some d
unfolding set_client client_at
set-IsAt c d [] h = absurd (ground arith)
set-IsAt c d (k ∷ cs) h = let rest = set-IsAt c d cs in ground arith

-- A client that is written back has the address that it had.
module _ (d c : Client) (same : d.addr ≡ c.addr) where
  set-IsNew :
      (p : ℕ) (a : SockAddr) (cs : List Client)
      → client_at d.ptr cs ≡ some c
      → IsNew p a cs
      → IsNew p a (set_client d cs)
  unfolding set_client client_at
  set-IsNew p a [] h n = n
  set-IsNew p a (k ∷ cs) h n = let rest = set-IsNew p a cs in ground (arith, ==_iff k.ptr d.ptr)

  set-AllDistinct :
      (cs : List Client)
      → client_at d.ptr cs ≡ some c
      → IsOpen d
      → AllDistinct cs
      → AllDistinct (set_client d cs)
  unfolding set_client client_at
  set-AllDistinct [] h o n = n
  set-AllDistinct (k ∷ cs) h o n = elim (Bool-cases (k.ptr == d.ptr)) [
    | inl e ↦ rw e (o, moved e, n.2)
    | inr e ↦
        rw e (
          n.0,
          set-IsNew k.ptr k.addr cs (ground arith) n.1,
          set-AllDistinct cs (ground arith) o n.2,
        )
  ]
    where
      address : (k.ptr == d.ptr) ≡ true → k.addr ≡ d.addr
      address e = ap (λ x. x.addr) (is_some k c (ground arith)) ∙ sym same

      moved : (k.ptr == d.ptr) ≡ true → IsNew d.ptr d.addr cs
      moved e =
          subst (λ p. IsNew p d.addr cs) ((==_iff k.ptr d.ptr).0 e)
            (subst (λ a. IsNew k.ptr a cs) (address e) n.1)

new_at :
    (p q : ℕ) (a : SockAddr) (c : Client) (cs : List Client)
    → IsNew p a cs
    → client_at q cs ≡ some c
    → (p == q) ≡ false
unfolding client_at
new_at p q a c [] n h = absurd (ground arith)
new_at p q a c (k ∷ cs) n h =
    let rest = new_at p q a c cs in ground (arith, ==_iff k.ptr q, ==_iff p q, ==_iff k.ptr p)

pub find_client-At :
    (a : SockAddr) (c : Client) (cs : List Client)
    → AllDistinct cs
    → find_client a cs ≡ some c
    → IsAt c cs × IsOpen c
unfolding find_client client_at
find_client-At a c [] n h = absurd (ground arith)
find_client-At a c (k ∷ cs) n h = elim (Bool-cases (same_peer k.addr a)) [
  | inl e ↦
      subst (λ x. IsAt x (k ∷ cs) × IsOpen x) (is_some k c (ground arith))
        (ground (arith, ==_iff k.ptr k.ptr), n.0)
  | inr e ↦ elsewhere (find_client-At a c cs n.2 (ground arith))
]
  where
    elsewhere : IsAt c cs × IsOpen c → IsAt c (k ∷ cs) × IsOpen c
    elsewhere (at, o) = (rw (new_at k.ptr c.ptr k.addr c cs n.1 at) at, o)

-- What the loop knows of a client that was found or made.
abbrev pub IsServed : Option Client × State → Type 0
IsServed (none, st) = IsValid st
IsServed (some c, st) = IsValid st × IsAt c st.clients × IsOpen c

pub store_client-IsServed :
    (d c : Client) (st : State)
    → IsValid st
    → client_at d.ptr st.clients ≡ some c
    → d.addr ≡ c.addr
    → IsOpen d
    → IsServed (some d, store_client d st)
store_client-IsServed d c st v h same o = (
  record {
    distinct = set-AllDistinct d c same st.clients h o v.distinct;
    heap = v.heap ∙ ap some (sym (set-blocks d st.clients));
  },
  set-IsAt c d st.clients h,
  o,
)
