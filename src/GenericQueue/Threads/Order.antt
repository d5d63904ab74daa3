-- ===== src/GenericQueue/Threads/Order.antt =====
-- First in, first out over all threads.
use space_captain.Common.{
  ℕ, ◌≡◌, ◌≢◌, refl, sym, ap, ◌∙◌, false, [], ◌∷◌, ◌++◌, append-nil, append_assoc, arith,
}
use space_captain.GenericQueue.{Queue, put, front, advance}
use space_captain.GenericQueue.Inv.{IsValid, put-IsValid, advance-IsValid}
use space_captain.GenericQueue.Refine.{
  contents, contents-put, contents-advance, capacity-put, capacity-advance,
}
use space_captain.GenericQueue.Threads.{
  Job, add, try_add, pop, try_pop, Pc, System, goto, work, is_stuck, Step, call, wrlock, stick,
  refuse, change, unlock_refused, unlock_stuck, unlock_changed, lock_to_wait, wait, end_wait,
  relock, again, give_up, lock_to_signal, signal_one, signal_none, unlock_signalled, call_status,
  rdlock, unlock_read, Reach, here, next,
}

-- What the threads took and what the queue holds is what it held and what the threads stored, in
-- that order, and the queue is valid.
pub record IsOrdered (q : Queue) (s : System) : Type 0 where
  pub valid : IsValid s.queue
  pub capacity : s.queue.capacity ≡ q.capacity
  pub order : contents q ++ s.added ≡ s.popped ++ contents s.queue

stored :
    (q : Queue) (item : ℕ) (s : System)
    → IsOrdered q s
    → s.queue.size ≢ s.queue.capacity
    → IsOrdered q (record s { queue = put s.queue item; added = s.added ++ (item ∷ []) })
stored q item s v room = record {
  valid = put-IsValid item v.valid room;
  capacity = capacity-put s.queue item ∙ v.capacity;
  order = simp (
    contents-put item v.valid room,
    ← append_assoc (contents q) s.added (item ∷ []),
    v.order,
    append_assoc,
  );
}

taken :
    (q : Queue) (s : System)
    → IsOrdered q s
    → s.queue.size ≢ 0
    → IsOrdered q (record s { queue = advance s.queue; popped = s.popped ++ (front s.queue ∷ []) })
taken q s v filled = record {
  valid = advance-IsValid v.valid filled;
  capacity = capacity-advance s.queue ∙ v.capacity;
  order =
      v.order
      ∙ (ap (λ xs. s.popped ++ xs) (contents-advance v.valid filled)
          ∙ sym (append_assoc s.popped (front s.queue ∷ []) (contents (advance s.queue))));
}

work-IsOrdered :
    (q : Queue) (job : Job) (s : System)
    → IsOrdered q s
    → is_stuck job s.queue ≡ false
    → IsOrdered q (work job s)
work-IsOrdered q (add item) s v h = stored q item s v (ground arith)
work-IsOrdered q (try_add item) s v h = stored q item s v (ground arith)
work-IsOrdered q pop s v h = taken q s v (ground arith)
work-IsOrdered q try_pop s v h = taken q s v (ground arith)

-- A thread moves on, and the queue stays.
moved : (q : Queue) (s : System) (i : ℕ) (p : Pc) → IsOrdered q s → IsOrdered q (goto s i p)
moved q s i p v = record { valid = v.valid; capacity = v.capacity; order = v.order }

Step-IsOrdered :
    {q : Queue} {s : System} {i : ℕ} {t : System} → Step s i t → IsOrdered q s → IsOrdered q t
Step-IsOrdered {q} {s} {i} (change job e h) v = moved q _ i _ (work-IsOrdered q job s v h)
Step-IsOrdered {q} {s} {i} (call job e h) v = moved q s i _ v
Step-IsOrdered {q} {s} {i} (wrlock job e h) v = moved q s i _ v
Step-IsOrdered {q} {s} {i} (stick job e h b) v = moved q s i _ v
Step-IsOrdered {q} {s} {i} (refuse job e h b) v = moved q s i _ v
Step-IsOrdered {q} {s} {i} (unlock_refused e) v = moved q s i _ v
Step-IsOrdered {q} {s} {i} (unlock_stuck job e) v = moved q s i _ v
Step-IsOrdered {q} {s} {i} (unlock_changed c e) v = moved q s i _ v
Step-IsOrdered {q} {s} {i} (lock_to_wait job e h) v = moved q s i _ v
Step-IsOrdered {q} {s} {i} (wait job e) v = moved q s i _ v
Step-IsOrdered {q} {s} {i} (end_wait job result e) v = moved q s i _ v
Step-IsOrdered {q} {s} {i} (relock job result e h) v = moved q s i _ v
Step-IsOrdered {q} {s} {i} (again job e) v = moved q s i _ v
Step-IsOrdered {q} {s} {i} (give_up job result e h) v = moved q s i _ v
Step-IsOrdered {q} {s} {i} (lock_to_signal c e h) v = moved q s i _ v
Step-IsOrdered {q} {s} {i} (signal_one c j job e f a) v = moved q _ i _ (moved q s j _ v)
Step-IsOrdered {q} {s} {i} (signal_none c e h) v = moved q s i _ v
Step-IsOrdered {q} {s} {i} (unlock_signalled e) v = moved q s i _ v
Step-IsOrdered {q} {s} {i} (call_status e) v = moved q s i _ v
Step-IsOrdered {q} {s} {i} (rdlock e h) v = moved q s i _ v
Step-IsOrdered {q} {s} {i} (unlock_read e) v = moved q s i _ v

-- In every state that any number of threads reach over a valid queue, by any interleaving of
-- blocking and other calls, of waits that end by a signal, a time-out or by themselves, and of
-- status calls, the queue is valid with its capacity, and what the threads took followed by what
-- it holds is what it held at the start followed by what the threads stored: first in, first out
-- over all threads, with nothing lost or doubled.
pub Reach-IsOrdered : {n : ℕ} {q : Queue} {s : System} → IsValid q → Reach n q s → IsOrdered q s
Reach-IsOrdered {q} v here = record { valid = v; capacity = refl; order = append-nil (contents q) }
Reach-IsOrdered v (next i lt r st) = Step-IsOrdered st (Reach-IsOrdered v r)
