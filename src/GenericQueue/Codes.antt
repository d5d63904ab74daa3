-- ===== src/GenericQueue/Codes.antt =====
-- The return codes of src/generic_queue.h, and the error functions of src/generic_queue.c.
pub mod Messages
use space_captain.Common.{ℤ, pos, neg, ◌==ℤ◌, if◌then◌else◌, String}

-- `sc_generic_queue_ret_val_t`
pub data RetVal : Type 0 where
  err_overflow err_invalid err_empty err_full err_memory err_null err_thread err_timeout : RetVal
  success : RetVal

-- The number of each enumerator.
unfoldable pub code : RetVal → ℤ
code err_overflow = neg 8
code err_invalid = neg 7
code err_empty = neg 6
code err_full = neg 5
code err_memory = neg 4
code err_null = neg 3
code err_thread = neg 2
code err_timeout = neg 1
code success = pos 0

-- `sc_generic_queue_strerror`: a value of the enumeration is an `int`, which the `switch` compares.
unfoldable pub strerror : ℤ → String
unfolding code
strerror err =
    if err ==ℤ code success
    then "Success"
    else if err ==ℤ code err_timeout
    then "Operation timed out"
    else if err ==ℤ code err_thread
    then "Thread operation failed"
    else if err ==ℤ code err_null
    then "Null pointer parameter"
    else if err ==ℤ code err_memory
    then "Memory allocation failed"
    else if err ==ℤ code err_full
    then "Queue is full"
    else if err ==ℤ code err_empty
    then "Queue is empty"
    else if err ==ℤ code err_invalid
    then "Invalid parameter"
    else if err ==ℤ code err_overflow
    then "Integer overflow in capacity calculation"
    else "Unknown error"

-- `sc_generic_queue_get_error`, over the thread's `queue_errno`
pub get_error : RetVal → RetVal
get_error queue_errno = queue_errno

-- `sc_generic_queue_clear_error`: the `queue_errno` that it leaves
pub clear_error : RetVal → RetVal
clear_error queue_errno = success
