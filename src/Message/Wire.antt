-- ===== src/Message/Wire.antt =====
-- The packed `message_header_t` of src/message.h in a byte buffer of a little-endian machine, and
-- the conversions between its byte order and that of the network.
pub mod Layout
use space_captain.Common.{ℕ, zero, suc, ◌+◌, ◌*◌, ◌/◌, ◌%◌, ◌<◌, ◌^◌, List, [], ◌∷◌, ◌++◌, get_or}

-- `message_header_t`, each field as the machine reads it.
pub record Header : Type 0 where
  pub protocol_version : ℕ
  pub message_type : ℕ
  pub sequence_number : ℕ
  pub timestamp : ℕ
  pub payload_length : ℕ

-- `sizeof(message_header_t)`: packed, so the sum of the fields' sizes
abbrev pub sizeof_header : ℕ
sizeof_header = 2 + 2 + 4 + 8 + 2

-- The number in `n` bytes of a buffer from an offset on, least significant byte first.
unfoldable pub load : ℕ → List ℕ → ℕ → ℕ
load zero buffer offset = 0
load (suc n) buffer offset = get_or buffer offset 0 + 256 * load n buffer (suc offset)

-- The `n` bytes of a number, least significant byte first.
unfoldable pub store : ℕ → ℕ → List ℕ
store zero x = []
store (suc n) x = x % 256 ∷ store n (x / 256)

-- `ntohs` and `htons` exchange the two bytes of a `uint16_t`.
unfoldable pub ntohs : ℕ → ℕ
ntohs x = x % 256 * 256 + x / 256 % 256

unfoldable pub htons : ℕ → ℕ
htons x = x % 256 * 256 + x / 256 % 256

-- `(message_header_t *) buffer`
unfoldable pub read_header : List ℕ → Header
unfolding load
read_header buffer = record {
  protocol_version = load 2 buffer 0;
  message_type = load 2 buffer 2;
  sequence_number = load 4 buffer 4;
  timestamp = load 8 buffer 8;
  payload_length = load 2 buffer 16;
}

-- The bytes of a header, as `memcpy` copies them.
unfoldable pub header_bytes : Header → List ℕ
unfolding store
header_bytes h =
    store 2 h.protocol_version
    ++ (store 2 h.message_type
        ++ (store 4 h.sequence_number ++ (store 8 h.timestamp ++ store 2 h.payload_length)))
