-- ===== src/GenericQueue/Tests.antt =====
-- The queue of src/generic_queue.c at concrete inputs.
use space_captain.Common.{
  ◌++◌, ℕ, ◌≡◌, ◌↔◌, ◌<◌, ◌≤◌, refl, none, some, Option, List, [], ◌∷◌, true, arith,
}
use space_captain.GenericQueue.Codes.{
  success, err_full, err_empty, err_null, err_overflow, err_timeout,
}
use space_captain.Portability.{mul_overflow}
use space_captain.GenericQueue.Fifo.{Op, added, popped, flag, count}
use space_captain.GenericQueue.Fifo
use space_captain.GenericQueue.Script
use space_captain.GenericQueue.{
  Timespec, Queue, Outcome, outcome, finish, wrlock, put, front, advance, try_add, try_pop,
  is_empty, is_full, get_size, signal_not_empty, signal_not_full, max_capacity,
}
use space_captain.GenericQueue.Blocking.{Wake, add, pop, wait_to_add, etimedout}
use space_captain.GenericQueue.Blocking.Waiting.{
  IsFull, IsEmpty, StaysStuck, Waited, Stored, Failed, Taken, PopFailed, blocks_iff, add-Waited,
  pop-Waited,
}
use space_captain.GenericQueue.Inv.{IsValid}
use space_captain.GenericQueue.Refine.{run_refines}
use space_captain.GenericQueue.Locks.{Accounts, IsBalanced, signals}
use space_captain.GenericQueue.Settled.{Settled, PopSettled, every_call-Settled}
use space_captain.GenericQueue.Lifecycle.{InitEnv, init, fresh, init_sync, nuke_with_cleanup, drain}
use space_captain.GenericQueue.Lifecycle.Resources.{IsClean, IsReady, init-IsClean, init_errno_iff}
use space_captain.GenericQueue.Lifecycle.Drain.{cleanup_all, drain_ends}

-- 8 and 9 are stored round the end of the buffer.
abbrev wrapped : Queue
wrapped = record { buffer = 9 ∷ 0 ∷ 8 ∷ []; capacity = 3; size = 2; head = 2; tail = 1 }

abbrev full : Queue
full = record { buffer = 9 ∷ 7 ∷ 8 ∷ []; capacity = 3; size = 3; head = 2; tail = 2 }

abbrev drained : Queue
drained = record { buffer = 9 ∷ 7 ∷ 8 ∷ []; capacity = 3; size = 0; head = 1; tail = 1 }

abbrev noon : Timespec
noon = record { sec = 100; nsec = 5 }

abbrev ready : InitEnv
ready = record {
  queue_memory = true;
  buffer_memory = true;
  rwlock_init = 0;
  mutex_init = 0;
  not_empty_init = 0;
  not_full_init = 0;
}

-- Every call of the interface, over the end of the buffer and against both limits.
abbrev script : List Op
script =
    Op.try_add 0
    ∷ Op.try_add 4
    ∷ Op.is_full
    ∷ Op.try_add 5
    ∷ Op.try_pop
    ∷ Op.try_pop
    ∷ Op.get_size
    ∷ Op.try_pop
    ∷ Op.try_pop
    ∷ Op.is_empty
    ∷ []

wrapped-IsValid : IsValid wrapped
wrapped-IsValid = omega arith

full-IsValid : IsValid full
full-IsValid = omega arith

drained-IsValid : IsValid drained
drained-IsValid = omega arith

run-wrapped :
    Script.run 77 wrapped script
    ≡ added err_null
      ∷ added success
      ∷ flag true
      ∷ added err_full
      ∷ popped success 8
      ∷ popped success 9
      ∷ count 1
      ∷ popped success 4
      ∷ popped err_empty 0
      ∷ flag true
      ∷ []
unfolding Script.run try_add try_pop is_empty is_full get_size put front advance
run-wrapped = refl

run_refines_example : Script.run 77 wrapped script ≡ Fifo.run 3 (8 ∷ 9 ∷ []) script
run_refines_example = run_refines 77 script wrapped-IsValid

-- The first wait ends while the queue is full again, after the second there is room.
abbrev wakes : List Wake
wakes =
    record { now = noon; result = 0; found = full }
    ∷ record { now = noon; result = 0; found = wrapped }
    ∷ []

abbrev late : Wake
late = record { now = noon; result = etimedout; found = drained }

blocks_iff_example :
    ((add (some full) 4 wakes ≡ none) ↔ StaysStuck IsFull full wakes)
    × ((pop (some full) (some 77) wakes ≡ none) ↔ StaysStuck IsEmpty full wakes)
blocks_iff_example = blocks_iff full 4 77 wakes (omega arith)

abbrev stored : Outcome
stored = outcome success success (some (put wrapped 4)) (wrlock ∷ finish signal_not_empty)

abbrev given_up : Outcome
given_up = outcome err_timeout err_timeout (some drained) (wait_to_add (wrlock ∷ []) late)

abbrev taken : Outcome × Option ℕ
taken = (outcome success success (some (advance wrapped)) (wrlock ∷ finish signal_not_full), some 8)

add-stored : add (some wrapped) 4 [] ≡ some stored
unfolding add
add-stored = refl

add-given_up : add (some full) 4 (late ∷ []) ≡ some given_up
unfolding add
add-given_up = refl

pop-taken : pop (some wrapped) (some 77) [] ≡ some taken
unfolding pop front
pop-taken = refl

add-Waited_example : Waited IsFull (Stored 4 given_up) (Failed given_up) full (late ∷ [])
add-Waited_example =
    add-Waited full 4 (late ∷ []) given_up (omega arith) (full-IsValid, drained-IsValid)
      add-given_up

pop-Waited_example : Waited IsEmpty (Taken taken) (PopFailed taken) wrapped []
pop-Waited_example = pop-Waited wrapped 77 [] taken wrapped-IsValid pop-taken

every_call-Settled_example :
    Settled signal_not_empty (add (some full) 4 (late ∷ []))
    × PopSettled signal_not_full (pop (some full) (some 77) (late ∷ []))
    × Accounts signal_not_empty (try_add (some full) 4)
    × Accounts signal_not_full (try_pop (some full) (some 77)).0
    × IsBalanced (
        (is_empty (some full)).calls ++ (is_full (some full)).calls ++ (get_size (some full)).calls)
    × (signals (
          (is_empty (some full)).calls
          ++ (is_full (some full)).calls
          ++ (get_size (some full)).calls)
        ≡ [])
every_call-Settled_example = every_call-Settled (some full) 4 (some 77) (late ∷ [])

init-ready : (init ready 3).queue ≡ some (fresh 3)
unfolding init init_sync mul_overflow
init-ready = refl

init-IsClean_example : IsClean 3 (init (record ready { not_full_init = 12 }) 3)
init-IsClean_example = init-IsClean (record ready { not_full_init = 12 }) 3

init_errno_iff_example :
    (((init ready 3).errno ≡ success) ↔ ((0 < 3) × (3 ≤ max_capacity) × IsReady ready))
    × (((init ready 3).errno ≡ err_overflow) ↔ (max_capacity < 3))
init_errno_iff_example = init_errno_iff ready 3

-- A callback that keeps the items in a list.
abbrev collect : Option (ℕ → List ℕ → List ℕ)
collect = some (λ item seen. item ∷ seen)

drain_ends_example :
    ((nuke_with_cleanup success (some full) 0 collect []).user_data
      ≡ cleanup_all collect (8 ∷ 9 ∷ 7 ∷ []) [])
    × ((drain 3 collect full []).1.size ≡ 0)
drain_ends_example = drain_ends collect success full 0 [] full-IsValid

drained_items : (nuke_with_cleanup success (some full) 0 collect []).user_data ≡ 7 ∷ 9 ∷ 8 ∷ []
unfolding nuke_with_cleanup drain front advance
drained_items = refl
