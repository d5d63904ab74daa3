-- ===== src/GenericQueue/Codes/Messages.antt =====
-- The texts of `sc_generic_queue_strerror` tell the codes apart.
use text.Mathlib.Text.{◌==◌ as str_eq}
use space_captain.Common.{
  ℤ, ◌==ℤ◌, ==ℤ_iff, if◌then◌else◌, String, ◌≡◌, ◌≢◌, ◌↔◌, refl, sym, ap, ◌∙◌, Option, none, some,
  false, inl, inr, Bool-cases,
}
use space_captain.GenericQueue.Codes.{
  RetVal, err_overflow, err_invalid, err_empty, err_full, err_memory, err_null, err_thread,
  err_timeout, success, code, strerror,
}

-- The code that a text stands for.
read_message : String → Option RetVal
read_message s =
    if str_eq s "Success"
    then some success
    else if str_eq s "Operation timed out"
    then some err_timeout
    else if str_eq s "Thread operation failed"
    then some err_thread
    else if str_eq s "Null pointer parameter"
    then some err_null
    else if str_eq s "Memory allocation failed"
    then some err_memory
    else if str_eq s "Queue is full"
    then some err_full
    else if str_eq s "Queue is empty"
    then some err_empty
    else if str_eq s "Invalid parameter"
    then some err_invalid
    else if str_eq s "Integer overflow in capacity calculation"
    then some err_overflow
    else none

read_message-strerror : (e : RetVal) → read_message (strerror (code e)) ≡ some e
unfolding read_message strerror code
read_message-strerror err_overflow = refl
read_message-strerror err_invalid = refl
read_message-strerror err_empty = refl
read_message-strerror err_full = refl
read_message-strerror err_memory = refl
read_message-strerror err_null = refl
read_message-strerror err_thread = refl
read_message-strerror err_timeout = refl
read_message-strerror success = refl

-- Two return codes of the queue with the same text are the same.
strerror-injective : (e f : RetVal) → strerror (code e) ≡ strerror (code f) → e ≡ f
strerror-injective e f h = cc (read_message-strerror e, read_message-strerror f, ap read_message h)

-- No return code has the text of the default case.
known : (e : RetVal) → strerror (code e) ≢ "Unknown error"
unfolding read_message
known e h = cc (read_message-strerror e, ap read_message h)

miss : (z : ℤ) (e : RetVal) → code e ≢ z → (z ==ℤ code e) ≡ false
miss z e h = elim (Bool-cases (z ==ℤ code e)) [
  | inl hit ↦ absurd (h (sym ((==ℤ_iff z (code e)).0 hit)))
  | inr m ↦ m
]

-- The text for a number is "Unknown error" exactly if the number is no return code of the queue.
strerror_unknown_iff : (z : ℤ) → (strerror z ≡ "Unknown error") ↔ ((e : RetVal) → code e ≢ z)
unfolding strerror
strerror_unknown_iff z = (λ h e p. known e (ap strerror p ∙ h), all_miss)
  where
    all_miss : ((e : RetVal) → code e ≢ z) → strerror z ≡ "Unknown error"
    all_miss h = rw (
      strerror,
      miss z success (h success),
      miss z err_timeout (h err_timeout),
      miss z err_thread (h err_thread),
      miss z err_null (h err_null),
      miss z err_memory (h err_memory),
      miss z err_full (h err_full),
      miss z err_empty (h err_empty),
      miss z err_invalid (h err_invalid),
      miss z err_overflow (h err_overflow),
    )

-- The return codes of the queue have the same text exactly if they are the same, and the text for
-- a number is "Unknown error" exactly if the number is no return code.
strerror_tells :
    (d e : RetVal) (z : ℤ)
    → ((strerror (code d) ≡ strerror (code e)) ↔ (d ≡ e))
      × ((strerror z ≡ "Unknown error") ↔ ((r : RetVal) → code r ≢ z))
strerror_tells d e z =
    ((strerror-injective d e, λ same. ap (λ r. strerror (code r)) same), strerror_unknown_iff z)
