-- ===== src/MessageQueue.antt =====
-- src/message_queue.h and src/message_queue.c: the queue of messages. Every function calls that of
-- src/generic_queue.c and casts the return code; a `message_t *` is a pointer as there.
pub mod Refine
mod Tests
use space_captain.Common.{ℕ, ℤ, pos, neg, Bool, Option, none, some, List, String}
use space_captain.GenericQueue.{Queue, Sync, Status}
use space_captain.GenericQueue
use space_captain.GenericQueue.Blocking
use space_captain.GenericQueue.Blocking.{Wake}
use space_captain.GenericQueue.Codes
use space_captain.GenericQueue.Lifecycle
use space_captain.GenericQueue.Lifecycle.{InitEnv, Init, Nuke}

-- `sc_message_queue_ret_val_t`
pub data RetVal : Type 0 where
  err_overflow err_invalid err_empty err_full err_memory err_null err_thread err_timeout : RetVal
  success : RetVal

-- The number of each enumerator.
unfoldable pub code : RetVal → ℤ
code err_overflow = neg 8
code err_invalid = neg 7
code err_empty = neg 6
code err_full = neg 5
code err_memory = neg 4
code err_null = neg 3
code err_thread = neg 2
code err_timeout = neg 1
code success = pos 0

-- `(sc_message_queue_ret_val_t)`: the cast keeps the number, which is that of the enumerator of the
-- same name; `Refine` proves so.
unfoldable pub cast : Codes.RetVal → RetVal
cast Codes.err_overflow = err_overflow
cast Codes.err_invalid = err_invalid
cast Codes.err_empty = err_empty
cast Codes.err_full = err_full
cast Codes.err_memory = err_memory
cast Codes.err_null = err_null
cast Codes.err_thread = err_thread
cast Codes.err_timeout = err_timeout
cast Codes.success = success

-- An outcome with the code of the message queue; `queue_errno` is that of the generic queue.
pub record Outcome : Type 0 where
  pub ret : RetVal
  pub errno : Codes.RetVal
  pub queue : Option Queue
  pub calls : List Sync

abbrev pub cast_outcome : GenericQueue.Outcome → Outcome
cast_outcome o = record { ret = cast o.ret; errno = o.errno; queue = o.queue; calls = o.calls }

-- `sc_message_queue_init`
unfoldable pub init : InitEnv → ℕ → Init
init env capacity = Lifecycle.init env capacity

-- `sc_message_queue_nuke`
unfoldable pub nuke : Option Queue → ℕ → Nuke
nuke queue destroyed = Lifecycle.nuke queue destroyed

-- `sc_message_queue_add`
unfoldable pub add : Option Queue → ℕ → List Wake → Option Outcome
add queue msg ws = elim (Blocking.add queue msg ws) [ none ↦ none | some o ↦ some (cast_outcome o) ]

-- `sc_message_queue_try_add`
unfoldable pub try_add : Option Queue → ℕ → Outcome
try_add queue msg = cast_outcome (GenericQueue.try_add queue msg)

-- `sc_message_queue_pop`
unfoldable pub pop : Option Queue → Option ℕ → List Wake → Option (Outcome × Option ℕ)
pop queue msg ws = elim (Blocking.pop queue msg ws) [
  | none ↦ none
  | some (o, slot) ↦ some (cast_outcome o, slot)
]

-- `sc_message_queue_try_pop`
unfoldable pub try_pop : Option Queue → Option ℕ → Outcome × Option ℕ
try_pop queue msg = let (o, slot) = GenericQueue.try_pop queue msg in (cast_outcome o, slot)

-- `sc_message_queue_is_empty`
unfoldable pub is_empty : Option Queue → Status Bool
is_empty queue = GenericQueue.is_empty queue

-- `sc_message_queue_is_full`
unfoldable pub is_full : Option Queue → Status Bool
is_full queue = GenericQueue.is_full queue

-- `sc_message_queue_size`
unfoldable pub size : Option Queue → Status ℕ
size queue = GenericQueue.get_size queue
