-- ===== src/MessageQueue/Refine.antt =====
-- To a client that reads return codes as numbers, the message queue is the bounded first-in
-- first-out list with the codes of src/message_queue.h.
use space_captain.Common.{ℕ, ℤ, ◌≡◌, refl, ap, ap₂, ◌∙◌, Bool, Option, some, List, [], ◌∷◌}
use space_captain.GenericQueue
use space_captain.GenericQueue.{Queue}
use space_captain.GenericQueue.Codes
use space_captain.GenericQueue.Fifo
use space_captain.GenericQueue.Fifo.{Op, Reply, added, popped, flag, count}
use space_captain.GenericQueue.Inv.{IsValid}
use space_captain.GenericQueue.Refine.{contents, run_refines}
use space_captain.GenericQueue.Script
use space_captain.GenericQueue.Script.{queue_or, item_or_null}
use space_captain.MessageQueue.{code, cast, try_add, try_pop, is_empty, is_full, size}

-- What a call shows, with the return code as a number.
pub data Answer : Type 0 where
  added_code : ℤ → Answer
  popped_code : ℤ → ℕ → Answer
  says : Bool → Answer
  counts : ℕ → Answer

-- A reply of the abstract queue, with the number of its code in src/generic_queue.h.
abbrev pub numbered : Reply → Answer
numbered (added r) = added_code (Codes.code r)
numbered (popped r item) = popped_code (Codes.code r) item
numbered (flag b) = says b
numbered (count n) = counts n

abbrev pub numbered_all : List Reply → List Answer
numbered_all [] = []
numbered_all (r ∷ rs) = numbered r ∷ numbered_all rs

-- One call of the message queue, with the number of its code in src/message_queue.h.
abbrev pub call : ℕ → Queue → Op → Answer × Queue
call slot q (Op.try_add msg) =
    let o = try_add (some q) msg in (added_code (code o.ret), queue_or q o.queue)
call slot q Op.try_pop =
    let (o, msg) = try_pop (some q) (some slot) in
    (popped_code (code o.ret) (item_or_null msg), queue_or q o.queue)
call slot q Op.is_empty = (says (is_empty (some q)).value, q)
call slot q Op.is_full = (says (is_full (some q)).value, q)
call slot q Op.get_size = (counts (size (some q)).value, q)

unfoldable pub run : ℕ → Queue → List Op → List Answer
run slot q [] = []
run slot q (op ∷ ops) = (call slot q op).0 ∷ run slot (call slot q op).1 ops

-- The enumerators of the same name have the same number in both headers.
pub code-cast : (r : Codes.RetVal) → code (cast r) ≡ Codes.code r
unfolding code cast Codes.code
code-cast Codes.err_overflow = refl
code-cast Codes.err_invalid = refl
code-cast Codes.err_empty = refl
code-cast Codes.err_full = refl
code-cast Codes.err_memory = refl
code-cast Codes.err_null = refl
code-cast Codes.err_thread = refl
code-cast Codes.err_timeout = refl
code-cast Codes.success = refl

-- A call shows the same number as the call of the generic queue, and leaves the same queue.
call_same :
    (slot : ℕ) (q : Queue) (op : Op)
    → ((call slot q op).0 ≡ numbered (Script.call slot q op).0)
      × ((call slot q op).1 ≡ (Script.call slot q op).1)
unfolding try_add try_pop is_empty is_full size
call_same slot q (Op.try_add msg) =
    (ap added_code (code-cast (GenericQueue.try_add (some q) msg).ret), refl)
call_same slot q Op.try_pop = (ap (λ z. popped_code z (item_or_null r.1)) (code-cast r.0.ret), refl)
  where
    r : GenericQueue.Outcome × Option ℕ
    r = GenericQueue.try_pop (some q) (some slot)
call_same slot q Op.is_empty = (refl, refl)
call_same slot q Op.is_full = (refl, refl)
call_same slot q Op.get_size = (refl, refl)

run_same :
    (slot : ℕ) (q : Queue) (ops : List Op) → run slot q ops ≡ numbered_all (Script.run slot q ops)
unfolding run Script.run
run_same slot q [] = refl
run_same slot q (op ∷ ops) =
    let (shown, left) = call_same slot q op in
    ap₂ ◌∷◌ shown (ap (λ p. run slot p ops) left ∙ run_same slot (Script.call slot q op).1 ops)

-- No sequence of calls of the message queue that do not block, with return codes read as numbers
-- of its own header, can be told from the bounded first-in first-out list with the numbers of the
-- generic queue's header, over a valid queue.
pub run-Fifo :
    (slot : ℕ) (ops : List Op) {q : Queue}
    → IsValid q
    → run slot q ops ≡ numbered_all (Fifo.run q.capacity (contents q) ops)
run-Fifo slot ops {q} v = run_same slot q ops ∙ ap numbered_all (run_refines slot ops v)
