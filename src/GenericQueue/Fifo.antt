-- ===== src/GenericQueue/Fifo.antt =====
-- The abstract queue: a first-in first-out list of at most `capacity` pointers, oldest first, and
-- what a client sees of each call that does not block.
use space_captain.Common.{ℕ, Bool, List, [], ◌∷◌, ◌++◌, ◌==◌, if◌then◌else◌, length}
use space_captain.GenericQueue.Codes.{RetVal, success, err_null, err_full, err_empty}

pub data Op : Type 0 where
  try_add : ℕ → Op
  try_pop is_empty is_full get_size : Op

pub data Reply : Type 0 where
  added : RetVal → Reply
  popped : RetVal → ℕ → Reply
  flag : Bool → Reply
  count : ℕ → Reply

abbrev pub add_step : ℕ → List ℕ → ℕ → Reply × List ℕ
add_step capacity xs item =
    if item == 0
    then (added err_null, xs)
    else if length xs == capacity
    then (added err_full, xs)
    else (added success, xs ++ (item ∷ []))

abbrev pub pop_step : List ℕ → Reply × List ℕ
pop_step [] = (popped err_empty 0, [])
pop_step (x ∷ xs) = (popped success x, xs)

abbrev pub step : ℕ → List ℕ → Op → Reply × List ℕ
step capacity xs (try_add item) = add_step capacity xs item
step capacity xs try_pop = pop_step xs
step capacity xs is_empty = (flag (length xs == 0), xs)
step capacity xs is_full = (flag (length xs == capacity), xs)
step capacity xs get_size = (count (length xs), xs)

unfoldable pub run : ℕ → List ℕ → List Op → List Reply
run capacity xs [] = []
run capacity xs (op ∷ ops) = (step capacity xs op).0 ∷ run capacity (step capacity xs op).1 ops
