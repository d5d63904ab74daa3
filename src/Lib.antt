-- ===== src/Lib.antt =====
-- The library verifies the C program of this repository: a UDP game server that talks DTLS, the
-- bounded queue for its threads, and the messages of its protocol. Each definition follows the
-- source line by line; paths are from the repository's root.
--
-- How the parts interact: src/server.c receives datagrams, keeps one session of src/dtls.c for
-- each client address, and answers the messages of src/message.h. src/dtls.c wraps Mbed TLS.
-- src/generic_queue.c is a queue of pointers for several threads; it computes sizes with the
-- checked arithmetic of src/portability.h, and src/message_queue.c gives it the type of messages.
--
-- Common: lists, integers and machine words over the native numbers, and `Ownership`, the check
--   of a record of acquired and released resources.
-- Portability: src/portability.h, in the branch for compilers without the built-in functions that
--   check for an overflow. A `size_t` is a number below 2 ^ 64, with the wrap-around
--   written out; `*result` is an argument and a result.
-- GenericQueue: src/generic_queue.c and .h. `Queue` is the struct without its synchronisation
--   objects; `init`, `nuke`, `nuke_with_cleanup`, `add`, `try_add`, `pop`, `try_pop`, `is_empty`,
--   `is_full`, `get_size` and `strerror` stand for the functions sc_generic_queue_*. A queue that
--   is NULL is `none`; `queue_errno` is part of the result. The calls of the pthread library are
--   recorded in their order. `Blocking` runs `add` and `pop` on a schedule: for every wait, the
--   time, what pthread_cond_timedwait returns, and the queue that the other threads leave. The
--   result is `none` if the schedule ends while the call still waits. `Lifecycle` takes the
--   answers of the allocator and of pthread_*_init as an argument, and its `drain` runs on fuel,
--   for which the size of the queue is enough. `Abstract` has the queues up to what a client can
--   see of them. `Threads` has the same calls as a step relation of any number of threads over one
--   queue, with a program counter for each: a step is one call of the pthread library, or what a
--   thread does under the write lock; `Sequential` and
--   `Undisturbed` (over `Stages`) compare it with the functions, and `Linear`
--   with the abstract queue of `Fifo`. A wait may end at any time, with any result, which covers
--   time-outs and the wake-ups that POSIX allows.
-- Log: the macros of src/log.h, over LOG_LEVEL and the texts of the time and the message.
-- Message: src/message.c and .h. `Wire` has the packed header in a buffer of a little-endian
--   machine.
-- MessageQueue: src/message_queue.c and .h, over the functions of GenericQueue.
-- Dtls: src/dtls.c and .h. What Mbed TLS, the allocator and the system calls return is an
--   argument, SHA-256 is a parameter, and the error numbers are the record `Mbed`, for which
--   `IsMbed` says what the headers of the library document. `Context` and `Session` have the
--   structs, their creation and their destruction, `Io` handshake, read, write and close,
--   `Transport` the callbacks on the socket, `Verify` that on certificates, and `Debug` that on
--   the library's messages; `Verify.File` puts the pinning of a certificate file together, and
--   `Transport.Peer` the exchange of datagrams with the address of a session.
-- Server: src/server.c with the constants of src/config.h. `Reply` has the answer to what is
--   read from a client. `Clients` has the list `g_clients`, with the address of a block in the
--   place of a pointer, and the heap of blocks and sessions that are alive; the walk of
--   `check_client_timeouts` runs on fuel, for which the number of clients is enough. `Loop` has
--   the turns and rounds of the event loop over what the socket, the clock and Mbed TLS answer,
--   and the clean-up of the clients at its end, on the same fuel; `Socket` counts the datagrams
--   that a turn takes, `Table` has the list as a map from peers to clients, `Isolation`,
--   `Handshake` and `Connection` follow one peer while others send as well, `Alive` and `Lasting`
--   follow it over the rounds, `Sessions` and `Accepts` join the list with the callbacks of
-- src/dtls.c,
--   and `Rounds` runs the loop against a clock that does not go back. `Startup` has `main` up to
--   the loop and behind it, over what the system calls answer, and `Main` puts it together.
--   `Registry` is what the loop promises, a map from peers to what is known of them; its
--   children follow what one peer gets out of it, in bytes, and before its handshake ends.
--
-- Not modelled: the log lines of the modules but those of `Debug`, the placeholder src/client.c,
-- the macros of src/portability.h for packing, inlining and attributes, and what Mbed TLS, the
-- pthread library and the kernel do inside their calls.
pub mod Common
pub mod Portability
pub mod GenericQueue
pub mod Log
pub mod Message
pub mod MessageQueue
pub mod Dtls
pub mod Server
