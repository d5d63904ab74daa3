-- ===== src/Server/Reply.antt =====
-- What src/server.c writes back for the bytes that it has read from a client.
pub mod Echo
use space_captain.Common.{
  ℕ, ◌-◌, Bool, not, List, ◌++◌, leb, ltb, ◌==◌, if◌then◌else◌, length, drop,
}
use space_captain.Message.{ping, pong, code}
use space_captain.Message.Wire.{Header, sizeof_header, ntohs, htons, read_header, header_bytes}
use space_captain.Server.{socket_buffer_size}

-- The header of the answer to a ping: version and type anew, the rest as received.
abbrev pub response : Header → Header
response header = record header {
  protocol_version = htons 0x0001;
  message_type = htons (code pong);
}

-- `memcpy` of a header over the front of the buffer.
abbrev pub copy_header : Header → List ℕ → List ℕ
copy_header header buffer = header_bytes header ++ drop sizeof_header buffer

-- The bytes handed to `sc_dtls_write`; `buffer` is the part of the buffer that was read.
unfoldable pub reply : List ℕ → List ℕ
reply buffer =
    let header = read_header buffer in
    let msg_type = ntohs header.message_type in
    let protocol_version = ntohs header.protocol_version in
    let payload_len = ntohs header.payload_length in
    if leb sizeof_header (length buffer)
    then (if not (protocol_version == 0x0001)
        then buffer
        else if ltb (socket_buffer_size - sizeof_header) payload_len
        then buffer
        else if msg_type == code ping
        then copy_header (response header) buffer
        else buffer)
    else buffer
