-- ===== src/GenericQueue/Threads.antt =====
-- Several threads over one queue of src/generic_queue.c, interleaved in any order. A step of a
-- thread is one call of the pthread library, or what it does under the write lock between two such
-- calls. The locks and conditions behave as POSIX says: a lock is given while no other thread holds
-- it, a signal wakes one thread that waits for the condition, and a wait may also end by itself.
pub mod Exclusion
pub mod Order
pub mod Moves
pub mod Progress
pub mod Wakeup
pub mod Alone
pub mod Sequential
pub mod Stages
pub mod Undisturbed
pub mod Proper
pub mod Linear
mod Tests
use space_captain.Common.{
  ℕ, ◌<◌, ◌≡◌, ◌≢◌, Bool, true, false, List, [], ◌∷◌, ◌++◌, ◌==◌, if◌then◌else◌,
}
use space_captain.GenericQueue.{Queue, put, front, advance}
use space_captain.GenericQueue.Blocking.{etimedout}

-- A call that changes the queue, with its item.
pub data Job : Type 0 where
  add try_add : ℕ → Job
  pop try_pop : Job

pub data Cond : Type 0 where
  not_full not_empty : Cond

-- Where a thread stands. `woken` has the result of the wait.
pub data Pc : Type 0 where
  idle : Pc  -- outside of the functions of the queue
  locking : Job → Pc  -- before `pthread_rwlock_wrlock`
  holding : Job → Pc  -- with the write lock, before the test of the size
  parting : Job → Pc  -- the test fails in a blocking call, before `pthread_rwlock_unlock`
  refusing : Pc  -- the test fails in another call, before `pthread_rwlock_unlock`
  leaving : Cond → Pc  -- the queue is changed, before `pthread_rwlock_unlock`
  to_wait : Job → Pc  -- before `pthread_mutex_lock` for a wait
  waiting : Job → Pc  -- with the mutex, before `pthread_cond_timedwait`
  asleep : Job → Pc  -- in `pthread_cond_timedwait`, without the mutex
  woken : Job → ℕ → Pc  -- in `pthread_cond_timedwait`, before it takes the mutex again
  waking : Job → ℕ → Pc  -- with the mutex, before `pthread_mutex_unlock`
  to_signal : Cond → Pc  -- before `pthread_mutex_lock` for a signal
  signalling : Cond → Pc  -- with the mutex, before `pthread_cond_signal`
  signalled : Pc  -- with the mutex, before `pthread_mutex_unlock`
  to_read : Pc  -- before `pthread_rwlock_rdlock`
  reading : Pc  -- with the read lock

-- What the job waits for, and what it signals.
abbrev pub awaited : Job → Cond
awaited (add item) = not_full
awaited (try_add item) = not_full
awaited pop = not_empty
awaited try_pop = not_empty

-- The test of the size, as the call makes it under the write lock.
abbrev pub is_stuck : Job → Queue → Bool
is_stuck (add item) q = q.size == q.capacity
is_stuck (try_add item) q = q.size == q.capacity
is_stuck pop q = q.size == 0
is_stuck try_pop q = q.size == 0

abbrev pub is_blocking : Job → Bool
is_blocking (add item) = true
is_blocking (try_add item) = false
is_blocking pop = true
is_blocking try_pop = false

-- An item is not NULL.
abbrev pub IsProper : Job → Type 0
IsProper (add item) = item ≢ 0
IsProper (try_add item) = item ≢ 0
IsProper pop = Unit
IsProper try_pop = Unit

abbrev pub writes : Pc → Bool
writes (holding job) = true
writes (parting job) = true
writes refusing = true
writes (leaving c) = true
writes _ = false

-- The thread holds the lock for reading or writing.
abbrev pub locks : Pc → Bool
locks reading = true
locks (holding job) = true
locks (parting job) = true
locks refusing = true
locks (leaving c) = true
locks _ = false

abbrev pub has_mutex : Pc → Bool
has_mutex (waiting job) = true
has_mutex (waking job result) = true
has_mutex (signalling c) = true
has_mutex signalled = true
has_mutex _ = false

-- The queue and the threads, with the items stored and the items taken, in their order.
pub record System : Type 0 where
  pub queue : Queue
  pub pc : ℕ → Pc
  pub added : List ℕ
  pub popped : List ℕ

abbrev pub update : (ℕ → Pc) → ℕ → Pc → ℕ → Pc
update f i p j = if i == j then p else f j

abbrev pub goto : System → ℕ → Pc → System
goto s i p = record s { pc = update s.pc i p }

-- The change of the queue by a job whose test succeeds.
abbrev pub work : Job → System → System
work (add item) s = record s { queue = put s.queue item; added = s.added ++ (item ∷ []) }
work (try_add item) s = record s { queue = put s.queue item; added = s.added ++ (item ∷ []) }
work pop s = record s { queue = advance s.queue; popped = s.popped ++ (front s.queue ∷ []) }
work try_pop s = record s { queue = advance s.queue; popped = s.popped ++ (front s.queue ∷ []) }

-- The condition that the job signals afterwards.
abbrev pub announced : Job → Cond
announced (add item) = not_empty
announced (try_add item) = not_empty
announced pop = not_full
announced try_pop = not_full

abbrev pub NoneLocks : System → Type 0
NoneLocks s = (j : ℕ) → locks (s.pc j) ≡ false

abbrev pub NoneWrites : System → Type 0
NoneWrites s = (j : ℕ) → writes (s.pc j) ≡ false

abbrev pub NoneHasMutex : System → Type 0
NoneHasMutex s = (j : ℕ) → has_mutex (s.pc j) ≡ false

abbrev pub is_asleep_for : Cond → Pc → Bool
is_asleep_for not_full (asleep (add item)) = true
is_asleep_for not_empty (asleep pop) = true
is_asleep_for _ _ = false

-- A step of the thread `i`.
pub data Step (s : System) (i : ℕ) : System → Type 0 where
  call : (job : Job) → s.pc i ≡ idle → IsProper job → Step s i (goto s i (locking job))
  wrlock : (job : Job) → s.pc i ≡ locking job → NoneLocks s → Step s i (goto s i (holding job))
  stick :
      (job : Job)
      → s.pc i ≡ holding job
      → is_stuck job s.queue ≡ true
      → is_blocking job ≡ true
      → Step s i (goto s i (parting job))
  refuse :
      (job : Job)
      → s.pc i ≡ holding job
      → is_stuck job s.queue ≡ true
      → is_blocking job ≡ false
      → Step s i (goto s i refusing)
  change :
      (job : Job)
      → s.pc i ≡ holding job
      → is_stuck job s.queue ≡ false
      → Step s i (goto (work job s) i (leaving (announced job)))
  unlock_refused : s.pc i ≡ refusing → Step s i (goto s i idle)
  unlock_stuck : (job : Job) → s.pc i ≡ parting job → Step s i (goto s i (to_wait job))
  unlock_changed : (c : Cond) → s.pc i ≡ leaving c → Step s i (goto s i (to_signal c))
  lock_to_wait :
      (job : Job) → s.pc i ≡ to_wait job → NoneHasMutex s → Step s i (goto s i (waiting job))
  wait : (job : Job) → s.pc i ≡ waiting job → Step s i (goto s i (asleep job))
  end_wait : (job : Job) (result : ℕ) → s.pc i ≡ asleep job → Step s i (goto s i (woken job result))
  relock :
      (job : Job) (result : ℕ)
      → s.pc i ≡ woken job result
      → NoneHasMutex s
      → Step s i (goto s i (waking job result))
  again : (job : Job) → s.pc i ≡ waking job 0 → Step s i (goto s i (locking job))
  give_up :
      (job : Job) (result : ℕ) → s.pc i ≡ waking job result → result ≢ 0 → Step s i (goto s i idle)
  lock_to_signal :
      (c : Cond) → s.pc i ≡ to_signal c → NoneHasMutex s → Step s i (goto s i (signalling c))
  signal_one :
      (c : Cond) (j : ℕ) (job : Job)
      → s.pc i ≡ signalling c
      → s.pc j ≡ asleep job
      → awaited job ≡ c
      → Step s i (goto (goto s j (woken job 0)) i signalled)
  signal_none :
      (c : Cond)
      → s.pc i ≡ signalling c
      → ((j : ℕ) → is_asleep_for c (s.pc j) ≡ false)
      → Step s i (goto s i signalled)
  unlock_signalled : s.pc i ≡ signalled → Step s i (goto s i idle)
  call_status : s.pc i ≡ idle → Step s i (goto s i to_read)
  rdlock : s.pc i ≡ to_read → NoneWrites s → Step s i (goto s i reading)
  unlock_read : s.pc i ≡ reading → Step s i (goto s i idle)

-- No thread is in a call, and nothing is stored or taken yet.
abbrev pub start : Queue → System
start q = record { queue = q; pc = λ i. idle; added = []; popped = [] }

-- The states that `n` threads reach.
pub data Reach (n : ℕ) (q : Queue) : System → Type 0 where
  here : Reach n q (start q)
  next : {s t : System} → (i : ℕ) → i < n → Reach n q s → Step s i t → Reach n q t
