-- ===== src/Server/Clients/Heap.antt =====
-- The blocks that are alive are those of the clients in the list: nothing is lost or released
-- twice.
use space_captain.Common.{
  ℕ, ℤ, ◌≡◌, Bool, true, false, Option, none, some, List, [], ◌∷◌, ◌==◌, Bool-cases, inl, inr, refl,
  sym, ap, ◌∙◌, arith, if◌then◌else◌,
}
use space_captain.Dtls.Context.{Context}
use space_captain.Dtls.Session.{SockAddr, Session, SessionEnv, session_create}
use space_captain.Server.Clients.{
  Client, Block, client_block, session_of, State, alloc, free_in, free, same_peer, find_client,
  AddEnv, link_client, add_client, unlink, remove_client, close_session,
}

-- The blocks of the clients, in the order of the list.
abbrev pub blocks : List Client → List Block
blocks [] = []
blocks (c ∷ cs) = session_of c.ptr ∷ client_block c.ptr ∷ blocks cs

-- A client has a session, which agrees on the handshake.
abbrev pub Agrees : Bool → Option Session → Type 0
Agrees complete none = ⊥
Agrees complete (some s) = s.handshake_complete ≡ complete

abbrev pub IsOpen : Client → Type 0
IsOpen c = Agrees c.handshake_complete c.dtls_session

-- No client of the list has this block or this peer.
abbrev pub IsNew : ℕ → SockAddr → List Client → Type 0
IsNew p a [] = Unit
IsNew p a (c ∷ cs) = ((c.ptr == p) ≡ false) × (same_peer c.addr a ≡ false) × IsNew p a cs

abbrev pub AllDistinct : List Client → Type 0
AllDistinct [] = Unit
AllDistinct (c ∷ cs) = IsOpen c × IsNew c.ptr c.addr cs × AllDistinct cs

-- Every client has a block and a peer of its own, and the blocks that are alive are theirs.
pub record IsValid (st : State) : Type 0 where
  pub distinct : AllDistinct st.clients
  pub heap : st.heap ≡ some (blocks st.clients)

abbrev pub is_listed : ℕ → List Client → Bool
is_listed p [] = false
is_listed p (c ∷ cs) = if c.ptr == p then true else is_listed p cs

-- The blocks without the session of one client.
abbrev without_session : ℕ → List Client → List Block
without_session p [] = []
without_session p (c ∷ cs) =
    if c.ptr == p
    then client_block c.ptr ∷ blocks cs
    else session_of c.ptr ∷ client_block c.ptr ∷ without_session p cs

pub same_number : (p q : ℕ) → (p == q) ≡ (q == p)
same_number p q = ground arith

free_session :
    (p : ℕ) (cs : List Client)
    → is_listed p cs ≡ true
    → free_in (session_of p) (blocks cs) ≡ some (without_session p cs)
unfolding free_in
free_session p [] h = absurd (ground arith)
free_session p (c ∷ cs) h = let rest = free_session p cs in rw (same_number p c.ptr) (ground arith)

free_client :
    (p : ℕ) (cs : List Client)
    → is_listed p cs ≡ true
    → free_in (client_block p) (without_session p cs) ≡ some (blocks (unlink p cs))
unfolding free_in unlink
free_client p [] h = absurd (ground arith)
free_client p (c ∷ cs) h = let rest = free_client p cs in ground (arith, same_number p c.ptr)

unlink-IsNew :
    (q : ℕ) (a : SockAddr) (p : ℕ) (cs : List Client) → IsNew q a cs → IsNew q a (unlink p cs)
unfolding unlink
unlink-IsNew q a p [] h = h
unlink-IsNew q a p (c ∷ cs) h = let rest = unlink-IsNew q a p cs h.2 in ground arith

unlink-AllDistinct : (p : ℕ) (cs : List Client) → AllDistinct cs → AllDistinct (unlink p cs)
unfolding unlink
unlink-AllDistinct p [] h = h
unlink-AllDistinct p (c ∷ cs) h = elim (Bool-cases (c.ptr == p)) [
  | inl e ↦ rw e h.2
  | inr e ↦ rw e (h.0, unlink-IsNew c.ptr c.addr p cs h.1, unlink-AllDistinct p cs h.2)
]

closed-clients :
    (p : ℕ) (s : Option Session) (st : State) → (close_session p s st).clients ≡ st.clients
closed-clients p none st = refl
closed-clients p (some s) st = refl

pub remove_client-clients :
    (c : Client) (st : State) → (remove_client c st).clients ≡ unlink c.ptr st.clients
unfolding remove_client
remove_client-clients c st =
    closed-clients c.ptr c.dtls_session (record st { clients = unlink c.ptr st.clients })

closed-heap :
    (p : ℕ) (complete : Bool) (s : Option Session) (cs : List Client) (st : State)
    → Agrees complete s
    → st.heap ≡ some (blocks cs)
    → is_listed p cs ≡ true
    → free (client_block p) (close_session p s st).heap ≡ some (blocks (unlink p cs))
unfolding free
closed-heap p complete none cs st a h l = absurd a
closed-heap p complete (some s) cs st a h l = rw (h, free_session p cs l) (free_client p cs l)

-- The removal of a listed client keeps the list valid.
pub remove_client-IsValid :
    (c : Client) (st : State)
    → IsValid st
    → IsOpen c
    → is_listed c.ptr st.clients ≡ true
    → IsValid (remove_client c st)
unfolding remove_client
remove_client-IsValid c st v o l = record {
  distinct = rw clients (unlink-AllDistinct c.ptr st.clients v.distinct);
  heap =
      closed-heap c.ptr c.handshake_complete c.dtls_session st.clients
        (record st { clients = unlink c.ptr st.clients }) o v.heap l
      ∙ ap (λ cs. some (blocks cs)) (sym clients);
}
  where
    clients : (remove_client c st).clients ≡ unlink c.ptr st.clients
    clients = remove_client-clients c st

pub newcomer :
    (p : ℕ) (a : SockAddr) (cs : List Client)
    → is_listed p cs ≡ false
    → find_client a cs ≡ none
    → IsNew p a cs
unfolding find_client
newcomer p a [] l f = tt
newcomer p a (c ∷ cs) l f = let rest = newcomer p a cs in ground arith

-- A new session has not done its handshake.
abbrev pub IsIdle : Option Session → Type 0
IsIdle none = Unit
IsIdle (some s) = s.handshake_complete ≡ false

pub created-IsIdle :
    (ctx : Option Context) (sock : ℤ) (a : SockAddr) (env : SessionEnv)
    → IsIdle (session_create ctx sock (some a) env).session
unfolding session_create
created-IsIdle none sock a env = tt
created-IsIdle (some ctx) sock a env = ground arith

freed_at_once :
    (p : ℕ) (st : State) (cs : List Client)
    → st.heap ≡ some (blocks cs)
    → free (client_block p) (alloc (client_block p) st.heap) ≡ some (blocks cs)
unfolding free free_in
freed_at_once p st cs h = rw h (ground arith)

pub link_client-IsValid :
    (p : ℕ) (a : SockAddr) (now : ℕ) (s : Option Session) (st : State)
    → IsValid st
    → IsIdle s
    → IsNew p a st.clients
    → IsValid (link_client p a now s st).1
link_client-IsValid p a now none st v i n = record {
  distinct = v.distinct;
  heap = freed_at_once p st st.clients v.heap;
}
link_client-IsValid p a now (some s) st v i n = record {
  distinct = (i, n, v.distinct);
  heap = ap (λ h. alloc (session_of p) (alloc (client_block p) h)) v.heap;
}

-- So does a new client, if its peer is unknown and its block is not in use.
pub add_client-IsValid :
    (ctx : Option Context) (sock : ℤ) (addr : SockAddr) (env : AddEnv) (st : State)
    → IsValid st
    → find_client addr st.clients ≡ none
    → is_listed env.block st.clients ≡ false
    → IsValid (add_client ctx sock addr env st).1
unfolding add_client
add_client-IsValid ctx sock addr env st v f l = elim (Bool-cases (env.block == 0)) [
  | inl e ↦ rw e v
  | inr e ↦ rw e (
      link_client-IsValid env.block addr env.now _ st v (created-IsIdle ctx sock addr env.session)
        (newcomer env.block addr st.clients l f))
]
