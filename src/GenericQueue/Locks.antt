-- ===== src/GenericQueue/Locks.antt =====
-- The lock discipline of src/generic_queue.c, checked on the calls that each operation records.
use space_captain.Common.{ℕ, ap, ◌≡◌, Option, none, some, List, [], ◌∷◌, ◌++◌, arith, refl}
use space_captain.GenericQueue.Codes.{RetVal, success}
use space_captain.GenericQueue.{
  Timespec, pop_timeout, add_timeout, Sync, rdlock, wrlock, rw_unlock, mutex_lock, mutex_unlock,
  timedwait_not_full, timedwait_not_empty, signal_not_full, signal_not_empty, Queue, Outcome,
  try_add, try_pop, is_empty, is_full, get_size, finish,
}
use space_captain.GenericQueue.Blocking.{
  Wake, waited, wait_to_add, wait_to_pop, add_loop, add, pop_loop, pop,
}

-- The lock that the thread holds. It never holds both.
pub data Held : Type 0 where
  nothing reading writing waiting : Held

-- A call is legal if the thread holds no lock that it takes, holds the lock that it gives up, and
-- waits or signals under the mutex alone.
abbrev pub hold : Held → Sync → Option Held
hold nothing rdlock = some reading
hold nothing wrlock = some writing
hold nothing mutex_lock = some waiting
hold reading rw_unlock = some nothing
hold writing rw_unlock = some nothing
hold waiting mutex_unlock = some nothing
hold waiting (timedwait_not_full t) = some waiting
hold waiting (timedwait_not_empty t) = some waiting
hold waiting signal_not_full = some waiting
hold waiting signal_not_empty = some waiting
hold _ _ = none

pub hold_all : Option Held → List Sync → Option Held
hold_all none cs = none
hold_all (some h) [] = some h
hold_all (some h) (c ∷ cs) = hold_all (hold h c) cs

-- Every call is legal, and no lock is held in the end.
abbrev pub IsBalanced : List Sync → Type 0
IsBalanced cs = hold_all (some nothing) cs ≡ some nothing

hold_all-append :
    (m : Option Held) (xs ys : List Sync) → hold_all m (xs ++ ys) ≡ hold_all (hold_all m xs) ys
unfolding hold_all
hold_all-append none xs [] = refl
hold_all-append none xs (y ∷ ys) = refl
hold_all-append (some h) [] ys = refl
hold_all-append (some h) (x ∷ xs) ys = hold_all-append (hold h x) xs ys

-- The signals among the calls.
pub signals : List Sync → List Sync
signals [] = []
signals (signal_not_full ∷ cs) = signal_not_full ∷ signals cs
signals (signal_not_empty ∷ cs) = signal_not_empty ∷ signals cs
signals (_ ∷ cs) = signals cs

signals-append : (xs ys : List Sync) → signals (xs ++ ys) ≡ signals xs ++ signals ys
unfolding signals
signals-append [] ys = refl
signals-append (signal_not_full ∷ xs) ys = ap (◌∷◌ signal_not_full) (signals-append xs ys)
signals-append (signal_not_empty ∷ xs) ys = ap (◌∷◌ signal_not_empty) (signals-append xs ys)
signals-append (_ ∷ xs) ys = signals-append xs ys

-- The signals that an operation owes for its code.
abbrev pub owed : Sync → RetVal → List Sync
owed signal success = signal ∷ []
owed signal _ = []

-- What a record of calls shows of an operation: it is balanced, it signals what the code asks for,
-- and `queue_errno` is the code.
abbrev pub Accounts : Sync → Outcome → Type 0
Accounts signal o = IsBalanced o.calls × (signals o.calls ≡ owed signal o.ret) × (o.errno ≡ o.ret)

-- The calls before an operation's last branch: the write lock is held, and nothing is signalled
-- yet.
abbrev IsEntered : List Sync → Type 0
IsEntered calls = (hold_all (some nothing) calls ≡ some writing) × (signals calls ≡ [])

ruleset call_laws = (hold_all-append, signals-append)

finishes :
    (calls : List Sync)
    → IsEntered calls
    → IsBalanced (calls ++ finish signal_not_empty)
      × IsBalanced (calls ++ finish signal_not_full)
      × (signals (calls ++ finish signal_not_empty) ≡ signal_not_empty ∷ [])
      × (signals (calls ++ finish signal_not_full) ≡ signal_not_full ∷ [])
unfolding hold_all signals
finishes calls (h, s) =
    (simp (call_laws, h), simp (call_laws, h), simp (call_laws, s), simp (call_laws, s))

-- A thread that goes to wait holds the write lock, and takes it again after the wait.
waits :
    (timedwait : Timespec → Sync) (t : ℕ) (calls : List Sync) (w : Wake)
    → ((x : Timespec)
        → hold_all (some writing) (rw_unlock ∷ mutex_lock ∷ timedwait x ∷ mutex_unlock ∷ [])
          ≡ some nothing)
    → ((x : Timespec) → signals (timedwait x ∷ mutex_unlock ∷ []) ≡ [])
    → IsEntered calls
    → IsBalanced (waited timedwait t calls w)
      × (signals (waited timedwait t calls w) ≡ [])
      × IsEntered (waited timedwait t calls w ++ (wrlock ∷ []))
unfolding hold_all signals
waits timedwait t calls w legal silent (h, s) = (
  simp (call_laws, h, legal),
  simp (call_laws, s, silent),
  (simp (call_laws, h, legal), simp (call_laws, s, silent)),
)

waits_to_add :
    (calls : List Sync) (w : Wake)
    → IsEntered calls
    → IsBalanced (wait_to_add calls w)
      × (signals (wait_to_add calls w) ≡ [])
      × IsEntered (wait_to_add calls w ++ (wrlock ∷ []))
unfolding hold_all signals
waits_to_add calls w = waits timedwait_not_full add_timeout calls w (λ x. refl) (λ x. refl)

waits_to_pop :
    (calls : List Sync) (w : Wake)
    → IsEntered calls
    → IsBalanced (wait_to_pop calls w)
      × (signals (wait_to_pop calls w) ≡ [])
      × IsEntered (wait_to_pop calls w ++ (wrlock ∷ []))
unfolding hold_all signals
waits_to_pop calls w = waits timedwait_not_empty pop_timeout calls w (λ x. refl) (λ x. refl)

add_loop-Accounts :
    (item : ℕ) (calls : List Sync) (q : Queue) (ws : List Wake) (o : Outcome)
    → IsEntered calls
    → add_loop item calls q ws ≡ some o
    → Accounts signal_not_empty o
unfolding add_loop
add_loop-Accounts item calls q [] o h e = ground (arith, finishes calls h)
add_loop-Accounts item calls q (w ∷ ws) o h e = ground (
  arith,
  finishes calls h,
  waits_to_add calls w h,
  add_loop-Accounts item (wait_to_add calls w ++ (wrlock ∷ [])) w.found ws o,
)

pop_loop-Accounts :
    (calls : List Sync) (q : Queue) (ws : List Wake) (r : Outcome × Option ℕ)
    → IsEntered calls
    → pop_loop calls q ws ≡ some r
    → Accounts signal_not_full r.0
unfolding pop_loop
pop_loop-Accounts calls q [] r h e = ground (arith, finishes calls h)
pop_loop-Accounts calls q (w ∷ ws) r h e = ground (
  arith,
  finishes calls h,
  waits_to_pop calls w h,
  pop_loop-Accounts (wait_to_pop calls w ++ (wrlock ∷ [])) w.found ws r,
)

entered : IsEntered (wrlock ∷ [])
unfolding hold_all signals
entered = (refl, refl)

idle : IsBalanced [] × (signals [] ≡ [])
unfolding hold_all signals
idle = (refl, refl)

-- A blocking add that returns has given up every lock that it took (it waits without the write
-- lock), has signalled cond_not_empty once if it succeeded and else signalled nothing, and
-- queue_errno is the code that it returns.
pub add-Accounts :
    (q : Option Queue) (item : ℕ) (ws : List Wake) (o : Outcome)
    → add q item ws ≡ some o
    → Accounts signal_not_empty o
unfolding add
add-Accounts none item ws o e = ground (arith, idle)
add-Accounts (some q) item ws o e =
    ground (arith, idle, add_loop-Accounts item (wrlock ∷ []) q ws o entered)

-- A blocking pop that returns has given up every lock that it took (it waits without the write
-- lock), has signalled cond_not_full once if it succeeded and else signalled nothing, and
-- queue_errno is the code that it returns.
pub pop-Accounts :
    (q : Option Queue) (slot : Option ℕ) (ws : List Wake) (r : Outcome × Option ℕ)
    → pop q slot ws ≡ some r
    → Accounts signal_not_full r.0
unfolding pop
pop-Accounts none slot ws r e = ground (arith, idle)
pop-Accounts (some q) none ws r e = ground (arith, idle)
pop-Accounts (some q) (some old) ws r e = pop_loop-Accounts (wrlock ∷ []) q ws r entered e

-- The add and pop that do not block give up every lock that they take, on every branch, signal
-- once if they succeed and else nothing, and leave their code in queue_errno; the status functions
-- give up the read lock and signal nothing.
pub nonblocking-Accounts :
    (q : Option Queue) (item : ℕ) (slot : Option ℕ)
    → Accounts signal_not_empty (try_add q item)
      × Accounts signal_not_full (try_pop q slot).0
      × IsBalanced ((is_empty q).calls ++ (is_full q).calls ++ (get_size q).calls)
      × (signals ((is_empty q).calls ++ (is_full q).calls ++ (get_size q).calls) ≡ [])
unfolding try_add try_pop is_empty is_full get_size hold_all signals
nonblocking-Accounts none item slot = ((refl, refl, refl), (refl, refl, refl), refl, refl)
nonblocking-Accounts (some q) item none = (ground arith, (refl, refl, refl), refl, refl)
nonblocking-Accounts (some q) item (some old) = (ground arith, ground arith, refl, refl)
