-- ===== src/GenericQueue/Script.antt =====
-- A client that makes a sequence of calls of the functions of src/generic_queue.c.
use space_captain.Common.{ℕ, Option, none, some, List, [], ◌∷◌}
use space_captain.GenericQueue.Fifo.{Op, Reply, added, popped, flag, count}
use space_captain.GenericQueue.{Queue, try_add, try_pop, is_empty, is_full, get_size}

-- The queue that the client's pointer points to afterwards.
abbrev pub queue_or : Queue → Option Queue → Queue
queue_or q none = q
queue_or q (some q') = q'

abbrev pub item_or_null : Option ℕ → ℕ
item_or_null none = 0
item_or_null (some item) = item

-- One call. Each `pop` gets a variable that holds `slot` before it.
abbrev pub call : ℕ → Queue → Op → Reply × Queue
call slot q (Op.try_add item) = let o = try_add (some q) item in (added o.ret, queue_or q o.queue)
call slot q Op.try_pop =
    let (o, item) = try_pop (some q) (some slot) in
    (popped o.ret (item_or_null item), queue_or q o.queue)
call slot q Op.is_empty = (flag (is_empty (some q)).value, q)
call slot q Op.is_full = (flag (is_full (some q)).value, q)
call slot q Op.get_size = (count (get_size (some q)).value, q)

unfoldable pub run : ℕ → Queue → List Op → List Reply
run slot q [] = []
run slot q (op ∷ ops) = (call slot q op).0 ∷ run slot (call slot q op).1 ops
