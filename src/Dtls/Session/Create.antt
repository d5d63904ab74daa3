-- ===== src/Dtls/Session/Create.antt =====
-- What `sc_dtls_session_create` returns, and what it owns then.
use space_captain.Common
use space_captain.Common.{
  ℕ, ℤ, pos, ◌≡◌, ◌↔◌, Bool, true, false, not, ◌&&◌, ◌||◌, is_negative, Option, none, some, List,
  [], ◌∷◌, refl, arith, Event,
}
use space_captain.Dtls.{is_client}
use space_captain.Dtls.Context.{Context, is_pinned}
use space_captain.Dtls.Session.{
  SockAddr, Resource, session_block, ssl, SessionEnv, Opened, session_destroy, stored_addr, Session,
  new_session, session_create, get_fd, get_client_addr, is_handshake_complete,
}

abbrev same : Resource → Resource → Bool
same session_block session_block = true
same ssl ssl = true
same _ _ = false

pub owned : Option (List Resource) → List (Event Resource) → Option (List Resource)
unfolding Common.own_all
owned = Common.own_all same session_block

-- NULL with nothing owned, or the new session with its two resources, which its destruction
-- releases.
abbrev pub IsOpened : Option Context → ℤ → Option SockAddr → Opened → Type 0
IsOpened ctx fd addr (r) = elim r.session [
  | none ↦ owned (some []) r.events ≡ some []
  | some s ↦
      (owned (some []) r.events ≡ some (ssl ∷ session_block ∷ []))
      × (owned (some (ssl ∷ session_block ∷ [])) (session_destroy (some s)) ≡ some [])
      × (ctx ≡ some s.ctx)
      × (get_fd (some s) ≡ fd)
      × (get_client_addr (some s) ≡ some (stored_addr addr))
      × (is_handshake_complete (some s) ≡ false)
      × (s.verifies ≡ is_client s.ctx.role && is_pinned s.ctx)
]

-- Sc_dtls_session_create returns NULL and owns nothing, or it returns a session of the given
-- context, socket and address whose handshake is not complete and which checks certificates
-- exactly if its context is a client's with a pinned hash; such a session owns its block and its
-- SSL context, and sc_dtls_session_destroy releases them.
pub session_create-IsOpened :
    (ctx : Option Context) (fd : ℤ) (client_addr : Option SockAddr) (env : SessionEnv)
    → IsOpened ctx fd client_addr (session_create ctx fd client_addr env)
unfolding session_create session_destroy owned get_fd get_client_addr is_handshake_complete
session_create-IsOpened none fd client_addr env = refl
session_create-IsOpened (some ctx) fd client_addr env = ground arith

-- A session that is returned is the new one.
pub created :
    (ctx : Context) (fd : ℤ) (addr : Option SockAddr) (env : SessionEnv) (s : Session)
    → (session_create (some ctx) fd addr env).session ≡ some s
    → new_session ctx fd addr ≡ s
unfolding session_create
created ctx fd addr env s h = ground arith
