-- ===== src/Server/Inputs.antt =====
-- The inputs of the tests of the server.
use space_captain.Common.{ℕ, pos, true, none, some, Option, List, [], ◌∷◌}
use space_captain.Dtls.{server}
use space_captain.Dtls.Context.{Context, verify_none}
use space_captain.Dtls.Session.{SockAddr}
use space_captain.Server.Loop.{Arrival, Round}
use space_captain.Common.{pos, negsuc, true, false, none, some}
use space_captain.Dtls.Context.{ContextEnv}
use space_captain.Server.Startup.{SocketEnv, MainEnv}

-- A ping with two bytes of payload.
abbrev pub ping_bytes : List ℕ
ping_bytes = 0 ∷ 1 ∷ 0 ∷ 6 ∷ 0 ∷ 0 ∷ 0 ∷ 42 ∷ 1 ∷ 2 ∷ 3 ∷ 4 ∷ 5 ∷ 6 ∷ 7 ∷ 8 ∷ 0 ∷ 2 ∷ 104 ∷ 105 ∷ []

abbrev pub server_context : Context
server_context = record {
  role = server;
  authmode = verify_none;
  read_timeout = 30000;
  pinned_cert_hash = none;
  pinned_cert_hash_len = 0;
  initialized = true;
  rng_initialized = true;
  config_initialized = true;
  cert_initialized = true;
  pkey_initialized = true;
  cookie_initialized = true;
}

abbrev pub context : Option Context
context = some server_context

abbrev pub address : SockAddr
address = record {
  bytes = 2 ∷ 0 ∷ 77 ∷ 128 ∷ 10 ∷ 0 ∷ 0 ∷ 7 ∷ 0 ∷ 0 ∷ 0 ∷ 0 ∷ 0 ∷ 0 ∷ 0 ∷ 0 ∷ [];
  addr_len = 16;
}

-- The last datagram of a handshake.
abbrev pub hello : Arrival
hello = record {
  addr = address;
  add = record {
    block = 64;
    now = 100;
    session = record {
      memory = true;
      ssl_setup = pos 0;
      transport_id = pos 0;
      get_flags = pos 2;
      set_flags = pos 0;
    };
  };
  now = 100;
  ret = pos 0;
  received = [];
  write_ret = pos 0;
}

-- The ping comes as application data.
abbrev pub ping_arrives : Arrival
ping_arrives = record hello { now = 101; ret = pos 20; received = ping_bytes; write_ret = pos 20 }

-- The handshake's own datagram is gone, and the one behind it with it.
abbrev pub other : SockAddr
other = record {
  bytes = 2 ∷ 0 ∷ 77 ∷ 128 ∷ 10 ∷ 0 ∷ 0 ∷ 9 ∷ 0 ∷ 0 ∷ 0 ∷ 0 ∷ 0 ∷ 0 ∷ 0 ∷ 0 ∷ [];
  addr_len = 16;
}

-- A ping, with a block that is not in use.
abbrev pub second_ping : Arrival
second_ping = record ping_arrives { add = record ping_arrives.add { block = 72 } }

-- A peer without a handshake.
abbrev pub stranger : Arrival
stranger = record second_ping { addr = other; add = record second_ping.add { block = 80 } }

-- The handshake ends in the first round, and nothing comes in the second.
abbrev pub rounds : List Round
rounds =
    record { polled = true; now = 100; checked = 100; arrivals = hello ∷ [] }
    ∷ record { polled = true; now = 104; checked = 105; arrivals = [] }
    ∷ []

-- A handshake, and a ping between two datagrams of a stranger.
abbrev pub busy_rounds : List Round
busy_rounds =
    record { polled = true; now = 100; checked = 100; arrivals = hello ∷ [] }
    ∷ record {
      polled = true;
      now = 102;
      checked = 102;
      arrivals = stranger ∷ second_ping ∷ stranger ∷ [];
    }
    ∷ []

abbrev pub context_env : ContextEnv
context_env = record {
  memory = true;
  seed = pos 0;
  config_defaults = pos 0;
  crt_parse = pos 0;
  pk_parse = pos 0;
  own_cert = pos 0;
  cookie_setup = pos 0;
  pin_memory = true;
}

abbrev pub udp : SocketEnv
udp = record {
  socket = pos 4;
  reuse_address = pos 0;
  address = pos 1;
  bind = negsuc 0;
  get_flags = pos 2;
  set_flags = pos 0;
}

-- The port is taken.
abbrev pub env : MainEnv
env = record {
  crt = some "server.crt";
  key = none;
  exists = λ path. false;
  context = context_env;
  sigint = pos 0;
  sigterm = pos 0;
  epoll_create = pos 3;
  udp = udp;
  epoll_ctl = pos 0;
}
