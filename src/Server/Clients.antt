-- ===== src/Server/Clients.antt =====
-- The list of clients of src/server.c (`g_clients`). A client is known by the address of its block,
-- as a `client_session_t *` is; the heap keeps the blocks and the DTLS sessions that are alive.
pub mod Heap
pub mod Expiry
pub mod Find
pub mod Ages
pub mod Inet
use space_captain.Common.{
  ℕ, zero, suc, ◌-◌, ℤ, Bool, true, false, ◌&&◌, Option, none, some, List, [], ◌∷◌, ◌==◌, ltb,
  if◌then◌else◌,
}
use space_captain.Dtls.Codes.{Result}
use space_captain.Dtls.Context.{Context}
use space_captain.Dtls.Session.{SockAddr, Session, SessionEnv, session_create}
use space_captain.Message.Wire.{load}
use space_captain.Server.{client_timeout_seconds}

-- `sin_port` and `sin_addr.s_addr` in the bytes of a `struct sockaddr_in`.
abbrev pub sin_port : SockAddr → ℕ
sin_port addr = load 2 addr.bytes 2

abbrev pub s_addr : SockAddr → ℕ
s_addr addr = load 4 addr.bytes 4

-- `client_session_t`, with the address of its block in the place of `next`.
pub record Client : Type 0 where
  pub ptr : ℕ
  pub addr : SockAddr
  pub dtls_session : Option Session
  pub last_activity : ℕ
  pub handshake_complete : Bool

-- What is allocated for a client.
pub data Block : Type 0 where
  client_block : ℕ → Block
  session_of : ℕ → Block

-- A close notification, the bytes that are handed to `sc_dtls_write` for a client with what that
-- returns, and a datagram that is received and thrown away.
pub data Output : Type 0 where
  close_notify : ℕ → Output
  written : Client → List ℕ → Result → Output
  discarded : Output

-- `g_clients`, the first client first. The heap is `none` after the release of a block that is not
-- alive; the last output stands first.
pub record State : Type 0 where
  pub clients : List Client
  pub heap : Option (List Block)
  pub outputs : List Output

abbrev pub same_block : Block → Block → Bool
same_block (client_block p) (client_block q) = p == q
same_block (session_of p) (session_of q) = p == q
same_block _ _ = false

abbrev pub alloc : Block → Option (List Block) → Option (List Block)
alloc b none = none
alloc b (some heap) = some (b ∷ heap)

abbrev pub cons : Block → Option (List Block) → Option (List Block)
cons b none = none
cons b (some heap) = some (b ∷ heap)

unfoldable pub free_in : Block → List Block → Option (List Block)
free_in b [] = none
free_in b (x ∷ heap) =
    let rest = free_in b heap in if same_block b x then some heap else cons x rest

unfoldable pub free : Block → Option (List Block) → Option (List Block)
unfolding free_in
free b none = none
free b (some heap) = free_in b heap

abbrev pub same_peer : SockAddr → SockAddr → Bool
same_peer a b = s_addr a == s_addr b && sin_port a == sin_port b

-- `find_client`
unfoldable pub find_client : SockAddr → List Client → Option Client
find_client addr [] = none
find_client addr (client ∷ clients) =
    if same_peer client.addr addr then some client else find_client addr clients

-- What `add_client` gets: the block from `calloc`, 0 for NULL, and the time.
pub record AddEnv : Type 0 where
  pub block : ℕ
  pub now : ℕ
  pub session : SessionEnv

abbrev pub new_client : ℕ → SockAddr → ℕ → Option Session → Client
new_client ptr addr now session = record {
  ptr = ptr;
  addr = addr;
  dtls_session = session;
  last_activity = now;
  handshake_complete = false;
}

-- The end of `add_client`, by what `sc_dtls_session_create` returns.
abbrev pub link_client : ℕ → SockAddr → ℕ → Option Session → State → Option Client × State
link_client ptr addr now none st =
    (none, record st { heap = free (client_block ptr) (alloc (client_block ptr) st.heap) })
link_client ptr addr now (some session) st =
    let client = new_client ptr addr now (some session) in
    (
      some client,
      record st {
        clients = client ∷ st.clients;
        heap = alloc (session_of ptr) (alloc (client_block ptr) st.heap);
      },
    )

-- `add_client`, over the DTLS context and the socket
unfoldable pub add_client : Option Context → ℤ → SockAddr → AddEnv → State → Option Client × State
unfolding free
add_client ctx sock addr env st =
    if env.block == 0
    then (none, st)
    else link_client env.block addr env.now
        (session_create ctx sock (some addr) env.session).session st

-- The loop that takes a client out of the list, by the address of its block.
unfoldable pub unlink : ℕ → List Client → List Client
unlink ptr [] = []
unlink ptr (client ∷ clients) = if client.ptr == ptr then clients else client ∷ unlink ptr clients

-- The clean-up of the session, if there is one.
abbrev pub close_session : ℕ → Option Session → State → State
close_session ptr none st = st
close_session ptr (some session) st = record st {
  heap = free (session_of ptr) st.heap;
  outputs = close_notify ptr ∷ st.outputs;
}

-- `remove_client`
unfoldable pub remove_client : Client → State → State
unfolding unlink free
remove_client client st =
    let closed =
      close_session client.ptr client.dtls_session
        (record st { clients = unlink client.ptr st.clients }) in
    record closed { heap = free (client_block client.ptr) closed.heap }

-- The client at an address, and the address in its `next`, `none` for NULL.
unfoldable pub client_at : ℕ → List Client → Option Client
client_at ptr [] = none
client_at ptr (client ∷ clients) = if client.ptr == ptr then some client else client_at ptr clients

abbrev pub head_ptr : List Client → Option ℕ
head_ptr [] = none
head_ptr (client ∷ clients) = some client.ptr

unfoldable pub next_of : ℕ → List Client → Option ℕ
next_of ptr [] = none
next_of ptr (client ∷ clients) = if client.ptr == ptr then head_ptr clients else next_of ptr clients

-- The test of a client's last activity; `time_t` is signed, and a difference below 0 is not over
-- it.
unfoldable pub is_expired : ℕ → Client → Bool
is_expired now client = ltb client_timeout_seconds (now - client.last_activity)

abbrev pub expire : ℕ → Option Client → State → State
expire now none st = st
expire now (some client) st = if is_expired now client then remove_client client st else st

-- The `while` of `check_client_timeouts`, with fuel: `next` is read before the client is removed.
unfoldable pub timeout_loop : ℕ → ℕ → Option ℕ → State → State
unfolding client_at next_of is_expired remove_client
timeout_loop zero now cursor st = st
timeout_loop (suc fuel) now none st = st
timeout_loop (suc fuel) now (some ptr) st =
    timeout_loop fuel now (next_of ptr st.clients) (expire now (client_at ptr st.clients) st)

abbrev pub count : List Client → ℕ
count [] = 0
count (client ∷ clients) = suc (count clients)

-- A client written back through its pointer.
unfoldable pub set_client : Client → List Client → List Client
set_client client [] = []
set_client client (c ∷ cs) = if c.ptr == client.ptr then client ∷ cs else c ∷ set_client client cs

-- `check_client_timeouts`. `Expiry` shows that the number of clients is fuel enough.
unfoldable pub check_client_timeouts : ℕ → State → State
unfolding timeout_loop
check_client_timeouts now st = timeout_loop (count st.clients) now (head_ptr st.clients) st
