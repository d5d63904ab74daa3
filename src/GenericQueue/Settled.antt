-- ===== src/GenericQueue/Settled.antt =====
-- What every call of the queue has done with the locks and the signals when it returns.
use space_captain.Common.{ℕ, ◌≡◌, Option, none, some, List, [], ◌++◌, refl}
use space_captain.GenericQueue.{
  Queue, Sync, Outcome, signal_not_empty, signal_not_full, try_add, try_pop, is_empty, is_full,
  get_size,
}
use space_captain.GenericQueue.Blocking.{Wake, add, pop}
use space_captain.GenericQueue.Locks.{
  Accounts, IsBalanced, signals, add-Accounts, pop-Accounts, nonblocking-Accounts,
}

-- A call that returns accounts for its locks, its signal and its code.
abbrev pub Settled : Sync → Option Outcome → Type 0
Settled signal none = Unit
Settled signal (some o) = Accounts signal o

-- The same for a pop, which gives an item as well.
abbrev pub PopSettled : Sync → Option (Outcome × Option ℕ) → Type 0
PopSettled signal none = Unit
PopSettled signal (some r) = Accounts signal r.0

settled :
    (signal : Sync) (r : Option Outcome)
    → ((o : Outcome) → r ≡ some o → Accounts signal o)
    → Settled signal r
settled signal none f = tt
settled signal (some o) f = f o refl

pop_settled :
    (signal : Sync) (r : Option (Outcome × Option ℕ))
    → ((o : Outcome × Option ℕ) → r ≡ some o → Accounts signal o.0)
    → PopSettled signal r
pop_settled signal none f = tt
pop_settled signal (some o) f = f o refl

-- The blocking and the other add and pop, and the three status functions, have given up every lock
-- that they took when they return (the blocking ones wait without the write lock); an add that
-- succeeds has signalled cond_not_empty once and a pop that succeeds cond_not_full once, blocking
-- or not, and nothing is signalled else; queue_errno is the code that an add or a pop returns.
pub every_call-Settled :
    (q : Option Queue) (item : ℕ) (slot : Option ℕ) (ws : List Wake)
    → Settled signal_not_empty (add q item ws)
      × PopSettled signal_not_full (pop q slot ws)
      × Accounts signal_not_empty (try_add q item)
      × Accounts signal_not_full (try_pop q slot).0
      × IsBalanced ((is_empty q).calls ++ (is_full q).calls ++ (get_size q).calls)
      × (signals ((is_empty q).calls ++ (is_full q).calls ++ (get_size q).calls) ≡ [])
every_call-Settled q item slot ws =
    let (tries_add, tries_pop, balanced, silent) = nonblocking-Accounts q item slot in
    (
      settled signal_not_empty (add q item ws) (add-Accounts q item ws),
      pop_settled signal_not_full (pop q slot ws) (pop-Accounts q slot ws),
      tries_add,
      tries_pop,
      balanced,
      silent,
    )
