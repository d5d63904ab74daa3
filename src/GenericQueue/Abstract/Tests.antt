-- ===== src/GenericQueue/Abstract/Tests.antt =====
-- Queues that hold the same, at different places of the buffer.
use space_captain.Common.{◌≡◌, ◌<◌, ◌≤◌, ◌↔◌, [], ◌∷◌, arith}
use space_captain.GenericQueue.{Queue, max_capacity}
use space_captain.GenericQueue.Abstract.{
  AbstractQueue, Bounded, act, answer, meaning, queue_of, abstract_queue,
}
use space_captain.GenericQueue.Fifo.{Op, step}
use space_captain.GenericQueue.Inv.{IsValid}
use space_captain.GenericQueue.Observe.{Indistinguishable, Indistinguishable-iff}
use space_captain.GenericQueue.Refine.{contents}

abbrev flat : Queue
flat = record { buffer = 7 ∷ 8 ∷ 0 ∷ []; capacity = 3; size = 2; head = 0; tail = 2 }

abbrev wrapped : Queue
wrapped = record { buffer = 8 ∷ 9 ∷ 7 ∷ []; capacity = 3; size = 2; head = 2; tail = 1 }

flat-IsValid : IsValid flat
flat-IsValid = omega arith

wrapped-IsValid : IsValid wrapped
wrapped-IsValid = omega arith

Indistinguishable-iff_example :
    Indistinguishable flat wrapped
    ↔ ((flat.capacity ≡ wrapped.capacity) × (contents flat ≡ contents wrapped))
Indistinguishable-iff_example = Indistinguishable-iff flat-IsValid wrapped-IsValid

three_pos : 0 < 3
three_pos = omega arith

three_small : 3 ≤ max_capacity
three_small = omega arith

abstract_queue_example :
    ((xs : Bounded 3) → meaning 3 (queue_of 3 three_pos three_small xs) ≡ xs)
    × ((a : AbstractQueue 3) → queue_of 3 three_pos three_small (meaning 3 a) ≡ a)
    × ((op : Op) (a : AbstractQueue 3)
        → (answer 3 op a ≡ (step 3 (meaning 3 a).0 op).0)
          × ((meaning 3 (act 3 op a)).0 ≡ (step 3 (meaning 3 a).0 op).1))
abstract_queue_example = abstract_queue 3 three_pos three_small
