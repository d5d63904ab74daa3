-- ===== src/Dtls/Codes.antt =====
-- The result codes of src/dtls.h, and `sc_dtls_error_string`.
pub mod Messages
use space_captain.Common.{ℤ, pos, neg, ◌==ℤ◌, if◌then◌else◌, String}

-- `dtls_result_t`
pub data Result : Type 0 where
  ok error_init error_handshake error_handshake_timeout error_read error_write : Result
  error_would_block error_peer_closed error_invalid_params error_memory : Result
  error_cert_verify : Result

-- The number of each enumerator.
unfoldable pub code : Result → ℤ
code ok = pos 0
code error_init = neg 1
code error_handshake = neg 2
code error_handshake_timeout = neg 3
code error_read = neg 4
code error_write = neg 5
code error_would_block = neg 6
code error_peer_closed = neg 7
code error_invalid_params = neg 8
code error_memory = neg 9
code error_cert_verify = neg 10

-- `sc_dtls_error_string`: a value of the enumeration is an `int`, which the `switch` compares.
unfoldable pub error_string : ℤ → String
unfolding code
error_string result =
    if result ==ℤ code ok
    then "Success"
    else if result ==ℤ code error_init
    then "Initialization failed"
    else if result ==ℤ code error_handshake
    then "Handshake failed"
    else if result ==ℤ code error_handshake_timeout
    then "Handshake timeout"
    else if result ==ℤ code error_read
    then "Read failed"
    else if result ==ℤ code error_write
    then "Write failed"
    else if result ==ℤ code error_would_block
    then "Operation would block"
    else if result ==ℤ code error_peer_closed
    then "Peer closed connection"
    else if result ==ℤ code error_invalid_params
    then "Invalid parameters"
    else if result ==ℤ code error_memory
    then "Memory allocation failed"
    else if result ==ℤ code error_cert_verify
    then "Certificate verification failed"
    else "Unknown error"
