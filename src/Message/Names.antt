-- ===== src/Message/Names.antt =====
-- The texts of `message_type_to_string` tell the message types apart.
use text.Mathlib.Text.{◌==◌ as str_eq}
use space_captain.Common.{
  ℕ, ◌≡◌, ◌≢◌, ◌↔◌, inl, inr, refl, sym, ap, ◌∙◌, ◌==◌, ==_iff, Bool-cases, if◌then◌else◌, false,
  Option, none, some, String,
}
use space_captain.Message.{
  MessageType, dial_update, movement_input, fire_weapon, state_ack, heartbeat, ping, state_update,
  entity_destroyed, damage_received, error_response, pong, connection_accepted, connection_rejected,
  disconnect_notify, code, message_type_to_string,
}

read_name : String → Option MessageType
read_name s =
    if str_eq s "DIAL_UPDATE"
    then some dial_update
    else if str_eq s "MOVEMENT_INPUT"
    then some movement_input
    else if str_eq s "FIRE_WEAPON"
    then some fire_weapon
    else if str_eq s "STATE_ACK"
    then some state_ack
    else if str_eq s "HEARTBEAT"
    then some heartbeat
    else if str_eq s "PING"
    then some ping
    else if str_eq s "STATE_UPDATE"
    then some state_update
    else if str_eq s "ENTITY_DESTROYED"
    then some entity_destroyed
    else if str_eq s "DAMAGE_RECEIVED"
    then some damage_received
    else if str_eq s "ERROR_RESPONSE"
    then some error_response
    else if str_eq s "PONG"
    then some pong
    else if str_eq s "CONNECTION_ACCEPTED"
    then some connection_accepted
    else if str_eq s "CONNECTION_REJECTED"
    then some connection_rejected
    else if str_eq s "DISCONNECT_NOTIFY"
    then some disconnect_notify
    else none

read_name-to_string : (t : MessageType) → read_name (message_type_to_string (code t)) ≡ some t
unfolding read_name message_type_to_string code
read_name-to_string dial_update = refl
read_name-to_string movement_input = refl
read_name-to_string fire_weapon = refl
read_name-to_string state_ack = refl
read_name-to_string heartbeat = refl
read_name-to_string ping = refl
read_name-to_string state_update = refl
read_name-to_string entity_destroyed = refl
read_name-to_string damage_received = refl
read_name-to_string error_response = refl
read_name-to_string pong = refl
read_name-to_string connection_accepted = refl
read_name-to_string connection_rejected = refl
read_name-to_string disconnect_notify = refl

-- Two message types with the same text are the same.
to_string-injective :
    (s t : MessageType) → message_type_to_string (code s) ≡ message_type_to_string (code t) → s ≡ t
to_string-injective s t h = cc (read_name-to_string s, read_name-to_string t, ap read_name h)

known : (t : MessageType) → message_type_to_string (code t) ≢ "UNKNOWN"
unfolding read_name
known t h = cc (read_name-to_string t, ap read_name h)

miss : (n : ℕ) (t : MessageType) → code t ≢ n → (n == code t) ≡ false
miss n t h = elim (Bool-cases (n == code t)) [
  | inl hit ↦ absurd (h (sym ((==_iff n (code t)).0 hit)))
  | inr m ↦ m
]

-- The text for a number is "UNKNOWN" exactly if the number is the code of no message type.
to_string_unknown_iff :
    (n : ℕ) → (message_type_to_string n ≡ "UNKNOWN") ↔ ((t : MessageType) → code t ≢ n)
unfolding message_type_to_string
to_string_unknown_iff n = (λ h t p. known t (ap message_type_to_string p ∙ h), all_miss)
  where
    all_miss : ((t : MessageType) → code t ≢ n) → message_type_to_string n ≡ "UNKNOWN"
    all_miss h = rw (
      message_type_to_string,
      miss n dial_update (h dial_update),
      miss n movement_input (h movement_input),
      miss n fire_weapon (h fire_weapon),
      miss n state_ack (h state_ack),
      miss n heartbeat (h heartbeat),
      miss n ping (h ping),
      miss n state_update (h state_update),
      miss n entity_destroyed (h entity_destroyed),
      miss n damage_received (h damage_received),
      miss n error_response (h error_response),
      miss n pong (h pong),
      miss n connection_accepted (h connection_accepted),
      miss n connection_rejected (h connection_rejected),
      miss n disconnect_notify (h disconnect_notify),
    )

-- The message types have the same text exactly if they are the same, and the text for a number is
-- "UNKNOWN" exactly if the number is the code of no message type.
to_string_tells :
    (s t : MessageType) (n : ℕ)
    → ((message_type_to_string (code s) ≡ message_type_to_string (code t)) ↔ (s ≡ t))
      × ((message_type_to_string n ≡ "UNKNOWN") ↔ ((u : MessageType) → code u ≢ n))
to_string_tells s t n = (
  (to_string-injective s t, λ same. ap (λ u. message_type_to_string (code u)) same),
  to_string_unknown_iff n,
)
