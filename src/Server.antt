-- ===== src/Server.antt =====
-- src/server.c: the client sessions and the event loop of the UDP server. The children hold the
-- answer to a message, the list of clients, the event loop, and the proofs.
pub mod Reply
pub mod Clients
pub mod Loop
pub mod Startup
pub mod Main
pub mod Registry
mod Inputs
mod Tests
use space_captain.Common.{ℕ}

-- src/config.h
abbrev pub protocol_version : ℕ
protocol_version = 0x0001

abbrev pub server_port : ℕ
server_port = 19840

abbrev pub epoll_max_events : ℕ
epoll_max_events = 64

abbrev pub socket_buffer_size : ℕ
socket_buffer_size = 4096

abbrev pub client_timeout_seconds : ℕ
client_timeout_seconds = 30
