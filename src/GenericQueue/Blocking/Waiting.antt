-- ===== src/GenericQueue/Blocking/Waiting.antt =====
-- When the blocking calls of src/generic_queue.c go on waiting, and what they do in the end.
use space_captain.Common.{
  ℕ, ◌<◌, ◌≡◌, ◌≢◌, ◌↔◌, ◌⊎◌, Option, none, some, List, [], ◌∷◌, ◌++◌, arith,
}
use space_captain.GenericQueue.Codes.{success, err_timeout, err_thread}
use space_captain.GenericQueue.{Sync, Queue, Outcome, put, front, advance, wrlock}
use space_captain.GenericQueue.Inv.{IsValid, put-IsValid, advance-IsValid}
use space_captain.GenericQueue.Refine.{contents, contents-put, contents-advance}
use space_captain.GenericQueue.Blocking.{
  wait_to_add, wait_to_pop, etimedout, Wake, add_loop, add, pop_loop, pop,
}

-- Every queue that the thread finds is in the state `Stuck`, and no wait ends with an error.
abbrev pub StaysStuck : (Queue → Type 0) → Queue → List Wake → Type 0
StaysStuck Stuck q [] = Stuck q
StaysStuck Stuck q (w ∷ ws) = Stuck q × (w.result ≡ 0) × StaysStuck Stuck w.found ws

-- The first queue that is not `Stuck` is `Done`, unless a wait before it ends with an error and
-- `Broke`.
abbrev pub Waited :
    (Queue → Type 0) → (Queue → Type 0) → (Wake → Type 0) → Queue → List Wake → Type 0
Waited Stuck Done Broke q [] = Done q
Waited Stuck Done Broke q (w ∷ ws) =
    Done q ⊎ (Stuck q × (Broke w ⊎ ((w.result ≡ 0) × Waited Stuck Done Broke w.found ws)))

-- Every queue that the thread finds is valid.
abbrev pub AllValid : Queue → List Wake → Type 0
AllValid q [] = IsValid q
AllValid q (w ∷ ws) = IsValid q × AllValid w.found ws

abbrev pub IsFull : Queue → Type 0
IsFull q = q.size ≡ q.capacity

abbrev pub IsEmpty : Queue → Type 0
IsEmpty q = q.size ≡ 0

-- An error of a wait: the call fails with the code for it, and leaves the queue as it finds it.
abbrev pub Failed : Outcome → Wake → Type 0
Failed o w =
    (o.queue ≡ some w.found)
    × (o.errno ≡ o.ret)
    × (((w.result ≡ etimedout) × (o.ret ≡ err_timeout))
        ⊎ ((w.result ≢ etimedout) × (w.result ≢ 0) × (o.ret ≡ err_thread)))

-- The item is behind all that the queue `q` held.
abbrev pub Stored : ℕ → Outcome → Queue → Type 0
Stored item o q =
    (q.size < q.capacity)
    × (o.ret ≡ success)
    × (o.errno ≡ success)
    × (o.queue ≡ some (put q item))
    × IsValid (put q item)
    × (contents (put q item) ≡ contents q ++ (item ∷ []))

-- The oldest item of the queue `q` is taken out.
abbrev pub Taken : Outcome × Option ℕ → Queue → Type 0
Taken (o, slot) q =
    (0 < q.size)
    × (o.ret ≡ success)
    × (o.errno ≡ success)
    × (slot ≡ some (front q))
    × (o.queue ≡ some (advance q))
    × IsValid (advance q)
    × (contents q ≡ front q ∷ contents (advance q))

add_loop_stuck_iff :
    (item : ℕ) (calls : List Sync) (q : Queue) (ws : List Wake)
    → (add_loop item calls q ws ≡ none) ↔ StaysStuck IsFull q ws
unfolding add_loop
add_loop_stuck_iff item calls q [] = ground arith
add_loop_stuck_iff item calls q (w ∷ ws) =
    ground (arith, add_loop_stuck_iff item (wait_to_add calls w ++ (wrlock ∷ [])) w.found ws)

-- The blocking add of a pointer that is not NULL goes on waiting exactly while every queue that it
-- finds is full and every wait returns without an error; so it returns with the first that is not
-- so.
add_blocks_iff :
    (q : Queue) (item : ℕ) (ws : List Wake)
    → item ≢ 0
    → (add (some q) item ws ≡ none) ↔ StaysStuck IsFull q ws
unfolding add
add_blocks_iff q item ws h = ground (arith, add_loop_stuck_iff item (wrlock ∷ []) q ws)

add_loop-Waited :
    (item : ℕ) (calls : List Sync) (q : Queue) (ws : List Wake) (o : Outcome)
    → AllValid q ws
    → add_loop item calls q ws ≡ some o
    → Waited IsFull (Stored item o) (Failed o) q ws
unfolding add_loop
add_loop-Waited item calls q [] o v e = ground (arith, put-IsValid item v, contents-put item v)
add_loop-Waited item calls q (w ∷ ws) o v e = ground (
  arith,
  put-IsValid item v.0,
  contents-put item v.0,
  add_loop-Waited item (wait_to_add calls w ++ (wrlock ∷ [])) w.found ws o v.1,
)

-- A blocking add that returns, of a pointer that is not NULL and over valid queues, has stored the
-- pointer behind the contents of the first queue that was not full, with success, or it fails with
-- the code for the first wait that ended with an error, err_timeout or err_thread, and leaves the
-- queue as the other threads left it; a queue that it stores into is valid afterwards.
pub add-Waited :
    (q : Queue) (item : ℕ) (ws : List Wake) (o : Outcome)
    → item ≢ 0
    → AllValid q ws
    → add (some q) item ws ≡ some o
    → Waited IsFull (Stored item o) (Failed o) q ws
unfolding add
add-Waited q item ws o h v e = ground (arith, add_loop-Waited item (wrlock ∷ []) q ws o v)

pop_loop_stuck_iff :
    (calls : List Sync) (q : Queue) (ws : List Wake)
    → (pop_loop calls q ws ≡ none) ↔ StaysStuck IsEmpty q ws
unfolding pop_loop
pop_loop_stuck_iff calls q [] = ground arith
pop_loop_stuck_iff calls q (w ∷ ws) =
    ground (arith, pop_loop_stuck_iff (wait_to_pop calls w ++ (wrlock ∷ [])) w.found ws)

-- The blocking pop goes on waiting exactly while every queue that it finds is empty and every wait
-- returns without an error; so it returns with the first that is not so.
pop_blocks_iff :
    (q : Queue) (old : ℕ) (ws : List Wake)
    → (pop (some q) (some old) ws ≡ none) ↔ StaysStuck IsEmpty q ws
unfolding pop
pop_blocks_iff q old ws = pop_loop_stuck_iff (wrlock ∷ []) q ws

abbrev pub PopFailed : Outcome × Option ℕ → Wake → Type 0
PopFailed (o, slot) w = (slot ≡ some 0) × Failed o w

pop_loop-Waited :
    (calls : List Sync) (q : Queue) (ws : List Wake) (r : Outcome × Option ℕ)
    → AllValid q ws
    → pop_loop calls q ws ≡ some r
    → Waited IsEmpty (Taken r) (PopFailed r) q ws
unfolding pop_loop
pop_loop-Waited calls q [] r v e = ground (arith, advance-IsValid v, contents-advance v)
pop_loop-Waited calls q (w ∷ ws) r v e = ground (
  arith,
  advance-IsValid v.0,
  contents-advance v.0,
  pop_loop-Waited (wait_to_pop calls w ++ (wrlock ∷ [])) w.found ws r v.1,
)

-- A blocking pop that returns, over valid queues, has moved the oldest pointer of the first queue
-- that was not empty to *item, with success, or it fails with the code for the first wait that
-- ended with an error, leaves the queue as the other threads left it, and *item is NULL; a queue
-- that it takes from is valid afterwards.
pub pop-Waited :
    (q : Queue) (old : ℕ) (ws : List Wake) (r : Outcome × Option ℕ)
    → AllValid q ws
    → pop (some q) (some old) ws ≡ some r
    → Waited IsEmpty (Taken r) (PopFailed r) q ws
unfolding pop
pop-Waited q old ws r v e = pop_loop-Waited (wrlock ∷ []) q ws r v e

-- The blocking add of a pointer that is not NULL, and the blocking pop, go on waiting exactly
-- while every queue that they find is full, for the pop empty, and every wait returns without an
-- error; so they return with the first that is not so.
pub blocks_iff :
    (q : Queue) (item old : ℕ) (ws : List Wake)
    → item ≢ 0
    → ((add (some q) item ws ≡ none) ↔ StaysStuck IsFull q ws)
      × ((pop (some q) (some old) ws ≡ none) ↔ StaysStuck IsEmpty q ws)
blocks_iff q item old ws h = (add_blocks_iff q item ws h, pop_blocks_iff q old ws)
