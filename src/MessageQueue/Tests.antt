-- ===== src/MessageQueue/Tests.antt =====
-- The message queue at concrete inputs.
use space_captain.Common.{◌≡◌, [], ◌∷◌, arith}
use space_captain.GenericQueue.{Queue}
use space_captain.GenericQueue.Fifo
use space_captain.GenericQueue.Fifo.{Op}
use space_captain.GenericQueue.Inv.{IsValid}
use space_captain.GenericQueue.Refine.{contents}
use space_captain.MessageQueue.Refine.{numbered_all, run, run-Fifo}

-- Two messages, stored round the end of the buffer.
abbrev wrapped : Queue
wrapped = record { buffer = 9 ∷ 0 ∷ 8 ∷ []; capacity = 3; size = 2; head = 2; tail = 1 }

wrapped-IsValid : IsValid wrapped
wrapped-IsValid = omega arith

run-Fifo_example :
    run 0 wrapped (Op.try_add 7 ∷ Op.try_add 6 ∷ Op.try_pop ∷ Op.get_size ∷ [])
    ≡ numbered_all (
        Fifo.run 3 (contents wrapped) (Op.try_add 7 ∷ Op.try_add 6 ∷ Op.try_pop ∷ Op.get_size ∷ []))
run-Fifo_example =
    run-Fifo 0 (Op.try_add 7 ∷ Op.try_add 6 ∷ Op.try_pop ∷ Op.get_size ∷ []) wrapped-IsValid
