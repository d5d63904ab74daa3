-- ===== src/Message.antt =====
-- src/message.h and src/message.c: the message types of the protocol, with their numbers and their
-- texts. The child `Wire` holds the packed header and its byte order.
pub mod Names
pub mod Wire
use space_captain.Common.{ℕ, ◌==◌, if◌then◌else◌, String}

-- `message_type_t`
pub data MessageType : Type 0 where
  -- from client to server
  dial_update movement_input fire_weapon state_ack heartbeat ping : MessageType
  -- from server to client
  state_update entity_destroyed damage_received error_response pong : MessageType
  -- management of the connection
  connection_accepted connection_rejected disconnect_notify : MessageType

-- The number of each enumerator.
unfoldable pub code : MessageType → ℕ
code dial_update = 0x0001
code movement_input = 0x0002
code fire_weapon = 0x0003
code state_ack = 0x0004
code heartbeat = 0x0005
code ping = 0x0006
code state_update = 0x1001
code entity_destroyed = 0x1002
code damage_received = 0x1003
code error_response = 0x1004
code pong = 0x1005
code connection_accepted = 0x2001
code connection_rejected = 0x2002
code disconnect_notify = 0x2003

-- `message_type_to_string`: any number of the type's range may be passed.
unfoldable pub message_type_to_string : ℕ → String
unfolding code
message_type_to_string type =
    if type == code dial_update
    then "DIAL_UPDATE"
    else if type == code movement_input
    then "MOVEMENT_INPUT"
    else if type == code fire_weapon
    then "FIRE_WEAPON"
    else if type == code state_ack
    then "STATE_ACK"
    else if type == code heartbeat
    then "HEARTBEAT"
    else if type == code ping
    then "PING"
    else if type == code state_update
    then "STATE_UPDATE"
    else if type == code entity_destroyed
    then "ENTITY_DESTROYED"
    else if type == code damage_received
    then "DAMAGE_RECEIVED"
    else if type == code error_response
    then "ERROR_RESPONSE"
    else if type == code pong
    then "PONG"
    else if type == code connection_accepted
    then "CONNECTION_ACCEPTED"
    else if type == code connection_rejected
    then "CONNECTION_REJECTED"
    else if type == code disconnect_notify
    then "DISCONNECT_NOTIFY"
    else "UNKNOWN"
