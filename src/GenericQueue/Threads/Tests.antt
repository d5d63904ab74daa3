-- ===== src/GenericQueue/Threads/Tests.antt =====
-- Two threads over a full queue: one is about to wait for room.
use space_captain.Common.{◌≡◌, true, refl, List, [], ◌∷◌, arith}
use space_captain.GenericQueue.{Queue, Timespec, Sync}
use space_captain.GenericQueue.Fifo
use space_captain.GenericQueue.Inv.{IsValid}
use space_captain.GenericQueue.Refine.{contents}
use space_captain.GenericQueue.Threads.{
  add, pop, not_full, System, start, locking, holding, parting, leaving, to_wait, work, change,
  goto, call, wrlock, stick, unlock_stuck, Reach, here, next,
}
use space_captain.GenericQueue.Threads.Exclusion.{IsExclusive, Reach-IsExclusive}
use space_captain.GenericQueue.Threads.Order.{IsOrdered, Reach-IsOrdered}
use space_captain.GenericQueue.Threads.Linear.{ops, replies, history, after, history_refines}
use space_captain.GenericQueue.Threads.Progress.{Progresses, no_deadlock}
use space_captain.GenericQueue.Threads.Sequential.{sequential, Answers}
use space_captain.GenericQueue.Threads.Stages.{is_over, Calls}
use space_captain.GenericQueue.Threads.Undisturbed.{EndsAs, undisturbed-Answers}
use space_captain.GenericQueue.Threads.Wakeup.{OnlyIn, LosesSignal, signal_can_be_lost}

abbrev full : Queue
full = record { buffer = 9 ∷ 7 ∷ 8 ∷ []; capacity = 3; size = 3; head = 2; tail = 2 }

full-IsValid : IsValid full
full-IsValid = omega arith

abbrev entered : System
entered = goto (start full) 0 (locking (add 5))

abbrev inside : System
inside = goto entered 0 (holding (add 5))

abbrev stuck : System
stuck = goto inside 0 (parting (add 5))

abbrev about_to_wait : System
about_to_wait = goto stuck 0 (to_wait (add 5))

inside-Reach : Reach 2 full inside
inside-Reach =
    next 0 (omega arith) (next 0 (omega arith) here (call (add 5) refl (omega arith)))
      (wrlock (add 5) refl (λ j. ground arith))

about_to_wait-Reach : Reach 2 full about_to_wait
about_to_wait-Reach =
    next 0 (omega arith) (next 0 (omega arith) inside-Reach (stick (add 5) refl refl refl))
      (unlock_stuck (add 5) refl)

about_to_wait-OnlyIn : OnlyIn 0 (to_wait (add 5)) about_to_wait
about_to_wait-OnlyIn = (refl, λ k d. ground arith)

Reach-IsExclusive_example : IsExclusive inside.pc
Reach-IsExclusive_example = Reach-IsExclusive inside-Reach

Reach-IsOrdered_example : IsOrdered full about_to_wait
Reach-IsOrdered_example = Reach-IsOrdered full-IsValid about_to_wait-Reach

no_deadlock_example : Progresses 2 0 about_to_wait
no_deadlock_example = no_deadlock about_to_wait-Reach 0

signal_can_be_lost_example : LosesSignal 2 full 0 1 5 about_to_wait
signal_can_be_lost_example =
    signal_can_be_lost 2 full 0 1 5 about_to_wait full-IsValid (omega arith) (omega arith)
      (omega arith) about_to_wait-Reach about_to_wait-OnlyIn (omega arith)

abbrev deadline : Timespec
deadline = record { sec = 12; nsec = 0 }

undisturbed-Answers_example :
    Answers deadline 1 (start full) pop (sequential pop full)
    × ((cs : List Sync) (t : System)
        → Calls deadline 1 pop (start full) cs t
        → is_over (t.pc 1) ≡ true
        → EndsAs deadline 1 pop (start full) cs t (sequential pop full))
undisturbed-Answers_example = undisturbed-Answers deadline 1 (start full) pop (refl, λ k d. refl) tt

-- The second thread takes the oldest item.
abbrev calling : System
calling = goto (start full) 1 (locking pop)

abbrev served : System
served = goto calling 1 (holding pop)

popping : Reach 2 full (goto (work pop served) 1 (leaving not_full))
popping =
    next 1 (omega arith)
      (next 1 (omega arith) (next 1 (omega arith) here (call pop refl tt))
        (wrlock pop refl (λ j. ground arith)))
      (change pop refl refl)

history_refines_example :
    (Fifo.run 3 (contents full) (ops (history popping)) ≡ replies (history popping))
    × (after 3 (contents full) (ops (history popping)) ≡ contents (work pop served).queue)
history_refines_example = history_refines popping full-IsValid
