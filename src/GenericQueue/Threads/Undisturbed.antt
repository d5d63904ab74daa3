-- ===== src/GenericQueue/Threads/Undisturbed.antt =====
-- All runs of a call that no other thread disturbs end as its function in src/generic_queue.c does.
use space_captain.Common.{
  ℕ, ◌≡◌, inl, inr, refl, sym, ap, ◌∙◌, true, false, Option, none, some, List, [], ◌∷◌, ◌++◌,
  append-nil, subst, arith, if◌then◌else◌,
}
use space_captain.GenericQueue.{Timespec, Sync, rw_unlock, mutex_lock, mutex_unlock, Queue, Outcome}
use space_captain.GenericQueue
use space_captain.GenericQueue.Threads.{
  Job, try_add, try_pop, Pc, idle, asleep, awaited, is_stuck, is_blocking, IsProper, System,
}
use space_captain.GenericQueue.Threads.Alone.{timedwait}
use space_captain.GenericQueue.Threads.Sequential.{
  sequential, taken, done, denied, sequential-lem, Answers, answering_run,
}
use space_captain.GenericQueue.Threads.Wakeup.{OnlyIn}
use space_captain.GenericQueue.Threads.Stages.{is_over, Calls, Rest, Stage, calls-At}

module _ (d : Timespec) (i : ℕ) (job : Job) (s : System) where
  -- The answer of the sequential function is where the thread has come to.
  abbrev pub EndsAs : List Sync → System → Option (Outcome × Option ℕ) → Type 0
  EndsAs cs t none =
      OnlyIn i (asleep job) t
      × (cs ≡ GenericQueue.wrlock ∷ rw_unlock ∷ mutex_lock ∷ timedwait (awaited job) d ∷ [])
      × (t.queue ≡ s.queue)
      × (t.popped ≡ s.popped)
  EndsAs cs t (some (o, slot)) =
      OnlyIn i idle t
      × (cs ≡ o.calls)
      × (some t.queue ≡ o.queue)
      × (t.popped ≡ s.popped ++ taken (o, slot))

refused_ends :
    (d : Timespec) (i : ℕ) (job : Job) (s t : System) (cs : List Sync)
    → is_blocking job ≡ false
    → OnlyIn i idle t
    → cs ≡ GenericQueue.wrlock ∷ rw_unlock ∷ []
    → t.queue ≡ s.queue
    → t.popped ≡ s.popped
    → EndsAs d i job s cs t (some (denied job s.queue))
refused_ends d i (try_add item) s t cs b o c q x = (o, c, ap some q, x ∙ sym (append-nil s.popped))
refused_ends d i try_pop s t cs b o c q x = (o, c, ap some q, x ∙ sym (append-nil s.popped))
refused_ends d i job s t cs b o c q x = absurd (ground arith)

-- The answer by the test of the size.
abbrev answer_of : Job → Queue → Option (Outcome × Option ℕ)
answer_of job q =
    if is_stuck job q
    then (if is_blocking job then none else some (denied job q))
    else some (done job q)

ends_at :
    (d : Timespec) (i : ℕ) (job : Job) (s : System) (cs : List Sync) (t : System) (p : Pc)
    → t.pc i ≡ p
    → is_over p ≡ true
    → Stage d i job s p cs t.queue t.popped
    → Rest i t
    → EndsAs d i job s cs t (answer_of job s.queue)
ends_at d i job s cs t idle e o (inl (stuck, b, (c, q, x))) r =
    rw (stuck, b) (refused_ends d i job s t cs b (e, r) c q x)
ends_at d i job s cs t idle e o (inr (free, c, q, x)) r = rw free ((e, r), c, ap some q, x)
ends_at d i job s cs t (asleep j) e o (same, (stuck, b, (c, q, x))) r =
    rw (stuck, b) ((e ∙ ap asleep same, r), c, q, x)
ends_at d i job s cs t p e o h r = absurd (ground arith)

-- From a state in which every thread is outside of the functions, one thread that calls an add of
-- an item that is not NULL or a pop, and that no other thread disturbs, comes to what the function
-- gives on a schedule without waits: there is a run, and in every run of its steps that reaches
-- the end of the call or the sleep in it, where the function returns, the thread is outside again
-- after the same calls of the pthread library, with the queue that the function leaves and the
-- item that it takes, and where the function goes on waiting, the thread sleeps for its condition
-- over the unchanged queue.
pub undisturbed-Answers :
    (d : Timespec) (i : ℕ) (s : System) (job : Job)
    → OnlyIn i idle s
    → IsProper job
    → Answers d i s job (sequential job s.queue)
      × ((cs : List Sync) (t : System)
          → Calls d i job s cs t
          → is_over (t.pc i) ≡ true
          → EndsAs d i job s cs t (sequential job s.queue))
undisturbed-Answers d i s job o p = (
  answering_run d i s job o p,
  λ cs t calls over.
      let (stage, rest) = calls-At d i job s o.1 calls in
      subst (EndsAs d i job s cs t) (sym (sequential-lem job s.queue p))
        (ends_at d i job s cs t (t.pc i) refl over stage rest),
)
