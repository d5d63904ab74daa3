-- ===== src/GenericQueue/Blocking.antt =====
-- The blocking calls of src/generic_queue.c, on a schedule of what happens while they wait.
pub mod Waiting
use space_captain.Common.{ℕ, ◌+◌, Option, none, some, List, [], ◌∷◌, ◌++◌, ◌==◌, if◌then◌else◌}
use space_captain.GenericQueue.Codes.{success, err_null, err_timeout, err_thread}
use space_captain.GenericQueue.{
  Timespec, Sync, wrlock, rw_unlock, mutex_lock, mutex_unlock, timedwait_not_full,
  timedwait_not_empty, signal_not_full, signal_not_empty, Queue, Outcome, outcome, put, front,
  advance, finish, pop_timeout, add_timeout,
}

-- `ETIMEDOUT` of Linux
abbrev pub etimedout : ℕ
etimedout = 110

-- One wait: what `clock_gettime` gives before it, what `pthread_cond_timedwait` returns, and the
-- queue that the other threads have left when the call goes on after it.
pub record Wake : Type 0 where
  pub now : Timespec
  pub result : ℕ
  pub found : Queue

-- `get_absolute_timeout`, over the time that the clock shows. `tv_sec` is not near its limit.
unfoldable pub get_absolute_timeout : Timespec → ℕ → Timespec
get_absolute_timeout now timeout_seconds = record now { sec = now.sec + timeout_seconds }

-- The calls up to the end of a wait, which gives up the write lock first, after those already made.
abbrev pub waited : (Timespec → Sync) → ℕ → List Sync → Wake → List Sync
waited timedwait timeout_seconds calls w =
    calls
    ++ (rw_unlock
        ∷ mutex_lock
        ∷ timedwait (get_absolute_timeout w.now timeout_seconds)
        ∷ mutex_unlock
        ∷ [])

abbrev pub wait_to_add : List Sync → Wake → List Sync
wait_to_add = waited timedwait_not_full add_timeout

abbrev pub wait_to_pop : List Sync → Wake → List Sync
wait_to_pop = waited timedwait_not_empty pop_timeout

-- The part of `sc_generic_queue_add` from the `while` on, entered with the write lock held. `calls`
-- are those already made. `none`: the thread still waits when the schedule ends.
unfoldable pub add_loop : ℕ → List Sync → Queue → List Wake → Option Outcome
add_loop item calls q [] =
    if q.size == q.capacity
    then none
    else some (outcome success success (some (put q item)) (calls ++ finish signal_not_empty))
add_loop item calls q (w ∷ ws) =
    let rest = add_loop item (wait_to_add calls w ++ (wrlock ∷ [])) w.found ws in
    if q.size == q.capacity
    then (if w.result == etimedout
        then some (outcome err_timeout err_timeout (some w.found) (wait_to_add calls w))
        else if w.result == 0
        then rest
        else some (outcome err_thread err_thread (some w.found) (wait_to_add calls w)))
    else some (outcome success success (some (put q item)) (calls ++ finish signal_not_empty))

-- `sc_generic_queue_add`
unfoldable pub add : Option Queue → ℕ → List Wake → Option Outcome
unfolding add_loop
add none item ws = some (outcome err_null err_null none [])
add (some q) item ws =
    if item == 0
    then some (outcome err_null err_null (some q) [])
    else add_loop item (wrlock ∷ []) q ws

-- The part of `sc_generic_queue_pop` from the `while` on; `*item` is NULL there.
unfoldable pub pop_loop : List Sync → Queue → List Wake → Option (Outcome × Option ℕ)
pop_loop calls q [] =
    if q.size == 0
    then none
    else some (
      outcome success success (some (advance q)) (calls ++ finish signal_not_full),
      some (front q),
    )
pop_loop calls q (w ∷ ws) =
    let rest = pop_loop (wait_to_pop calls w ++ (wrlock ∷ [])) w.found ws in
    if q.size == 0
    then (if w.result == etimedout
        then some (outcome err_timeout err_timeout (some w.found) (wait_to_pop calls w), some 0)
        else if w.result == 0
        then rest
        else some (outcome err_thread err_thread (some w.found) (wait_to_pop calls w), some 0))
    else some (
      outcome success success (some (advance q)) (calls ++ finish signal_not_full),
      some (front q),
    )

-- `sc_generic_queue_pop`, with the second argument and result as in `try_pop`
unfoldable pub pop : Option Queue → Option ℕ → List Wake → Option (Outcome × Option ℕ)
unfolding pop_loop
pop none slot ws = some (outcome err_null err_null none [], slot)
pop (some q) none ws = some (outcome err_null err_null (some q) [], none)
pop (some q) (some old) ws = pop_loop (wrlock ∷ []) q ws
