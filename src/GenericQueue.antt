-- ===== src/GenericQueue.antt =====
-- src/generic_queue.h and src/generic_queue.c: a bounded queue of pointers in a circular buffer.
-- A pointer is a number, and NULL is 0. A function that takes the queue `q` takes an option, `none`
-- for NULL, and returns what `*q` is afterwards. `queue_errno` of the calling thread and the calls
-- of the pthread library, in their order, are part of the outcome. The children hold the return
-- codes, the blocking calls, and the lifecycle.
pub mod Codes
pub mod Blocking
pub mod Lifecycle
pub mod Fifo
pub mod Inv
pub mod Refine
pub mod Locks
pub mod Settled
pub mod Script
pub mod Observe
pub mod Abstract
pub mod Threads
mod Tests
use space_captain.Common.{
  ℕ, ◌+◌, ◌-◌, ◌*◌, ◌/◌, ◌%◌, ◌^◌, Bool, true, false, Option, none, some, List, [], ◌∷◌, ◌==◌,
  if◌then◌else◌, get_or, set, inc_size, dec_size, size_max,
}
use Codes.{RetVal, success, err_null, err_full, err_empty}

-- `struct timespec`
pub record Timespec : Type 0 where
  pub sec : ℕ
  pub nsec : ℕ

-- The calls of the pthread library that a queue operation makes. The locks and conditions are those
-- of the one queue that it works on.
pub data Sync : Type 0 where
  rdlock wrlock rw_unlock mutex_lock mutex_unlock : Sync
  timedwait_not_full timedwait_not_empty : Timespec → Sync
  signal_not_full signal_not_empty : Sync

-- `sc_generic_queue_t` without its locks.
pub record Queue : Type 0 where
  pub buffer : List ℕ
  pub capacity : ℕ
  pub size : ℕ
  pub head : ℕ
  pub tail : ℕ

abbrev pub pop_timeout : ℕ
pop_timeout = 2

abbrev pub add_timeout : ℕ
add_timeout = 2

-- `sizeof(void *)` of a 64-bit target
abbrev pub sizeof_ptr : ℕ
sizeof_ptr = 8

abbrev pub max_capacity : ℕ
max_capacity = size_max / sizeof_ptr / 2

pub record Outcome : Type 0 where
  pub ret : RetVal
  pub errno : RetVal
  pub queue : Option Queue
  pub calls : List Sync

abbrev pub outcome : RetVal → RetVal → Option Queue → List Sync → Outcome
outcome r e q cs = record { ret = r; errno = e; queue = q; calls = cs }

-- The three assignments that add an item at the tail.
unfoldable pub put : Queue → ℕ → Queue
put q item = record q {
  buffer = set q.buffer q.tail item;
  size = inc_size q.size;
  tail = inc_size q.tail % q.capacity;
}

-- `q->buffer[q->head]`. A read out of range gives 0 here; `Inv.in_bounds` rules it out.
unfoldable pub front : Queue → ℕ
front q = get_or q.buffer q.head 0

-- The two assignments that drop the item at the head.
unfoldable pub advance : Queue → Queue
advance q = record q { size = dec_size q.size; head = inc_size q.head % q.capacity }

-- The calls of an operation that succeeds, from the work under the write lock on: the signal comes
-- after the lock is given up.
abbrev pub finish : Sync → List Sync
finish signal = rw_unlock ∷ mutex_lock ∷ signal ∷ mutex_unlock ∷ []

-- `sc_generic_queue_try_add`
unfoldable pub try_add : Option Queue → ℕ → Outcome
try_add none item = outcome err_null err_null none []
try_add (some q) item =
    if item == 0
    then outcome err_null err_null (some q) []
    else if q.size == q.capacity
    then outcome err_full err_full (some q) (wrlock ∷ rw_unlock ∷ [])
    else outcome success success (some (put q item)) (wrlock ∷ finish signal_not_empty)

-- `sc_generic_queue_try_pop`. The second argument and the second result are what `*item` holds,
-- `none` where the argument `item` is NULL.
unfoldable pub try_pop : Option Queue → Option ℕ → Outcome × Option ℕ
try_pop none slot = (outcome err_null err_null none [], slot)
try_pop (some q) none = (outcome err_null err_null (some q) [], none)
try_pop (some q) (some old) =
    if q.size == 0
    then (outcome err_empty err_empty (some q) (wrlock ∷ rw_unlock ∷ []), some 0)
    else (
      outcome success success (some (advance q)) (wrlock ∷ finish signal_not_full),
      some (front q),
    )

-- What a status function returns, the `queue_errno` that it leaves, and its calls.
pub record Status {ℓ} (A : Type ℓ) : Type ℓ where
  pub value : A
  pub errno : RetVal
  pub calls : List Sync

abbrev status {ℓ} : {A : Type ℓ} → A → RetVal → List Sync → Status A
status v e cs = record { value = v; errno = e; calls = cs }

-- `sc_generic_queue_is_empty`
unfoldable pub is_empty : Option Queue → Status Bool
is_empty none = status false err_null []
is_empty (some q) = status (q.size == 0) success (rdlock ∷ rw_unlock ∷ [])

-- `sc_generic_queue_is_full`
unfoldable pub is_full : Option Queue → Status Bool
is_full none = status false err_null []
is_full (some q) = status (q.size == q.capacity) success (rdlock ∷ rw_unlock ∷ [])

-- `sc_generic_queue_get_size`
unfoldable pub get_size : Option Queue → Status ℕ
get_size none = status 0 err_null []
get_size (some q) = status q.size success (rdlock ∷ rw_unlock ∷ [])
