-- ===== src/GenericQueue/Threads/Linear.antt =====
-- What all threads see together is what one client sees of the abstract queue, call after call.
use space_captain.Common.{ℕ, ◌≡◌, refl, ap, subst, true, false, List, [], ◌∷◌, ◌++◌, arith}
use space_captain.GenericQueue.{Queue, front}
use space_captain.GenericQueue.Codes.{success, err_full, err_empty}
use space_captain.GenericQueue.Fifo
use space_captain.GenericQueue.Fifo.{Op, Reply, added, popped, count, step}
use space_captain.GenericQueue.Inv.{IsValid}
use space_captain.GenericQueue.Refine.{
  contents, length-contents, contents-put, contents-advance, contents_empty,
}
use space_captain.GenericQueue.Threads.{
  Job, add, try_add, pop, try_pop, System, work, is_stuck, IsProper, Step, call, wrlock, stick,
  refuse, change, unlock_refused, unlock_stuck, unlock_changed, lock_to_wait, wait, end_wait,
  relock, again, give_up, lock_to_signal, signal_one, signal_none, unlock_signalled, call_status,
  rdlock, unlock_read, Reach, here, next,
}
use space_captain.GenericQueue.Threads.Order.{IsOrdered, Reach-IsOrdered}
use space_captain.GenericQueue.Threads.Proper.{HasProper, AllProper, Reach-AllProper}

-- A call as the abstract queue knows it; a blocking call that goes on waiting has no effect yet.
abbrev pub op_of : Job → Op
op_of (add item) = Op.try_add item
op_of (try_add item) = Op.try_add item
op_of pop = Op.try_pop
op_of try_pop = Op.try_pop

-- What the call returns when its test succeeds, and what a call that does not wait returns when the
-- test fails.
abbrev pub reply_of : Job → Queue → Reply
reply_of (add item) q = added success
reply_of (try_add item) q = added success
reply_of pop q = popped success (front q)
reply_of try_pop q = popped success (front q)

abbrev pub refusal_of : Job → Reply
refusal_of (add item) = added err_full
refusal_of (try_add item) = added err_full
refusal_of pop = popped err_empty 0
refusal_of try_pop = popped err_empty 0

-- The step at which a call takes effect, which is one of the thread that makes the call, between
-- its begin and its end: the change under the write lock, the refusal, or the look at the size
-- under
-- the read lock.
abbrev pub effect : {s : System} {i : ℕ} {t : System} → Step s i t → List (Op × Reply)
effect {s} (change job e h) = (op_of job, reply_of job s.queue) ∷ []
effect (refuse job e h b) = (op_of job, refusal_of job) ∷ []
effect {s} (rdlock e h) = (Op.get_size, count s.queue.size) ∷ []
effect (call job e h) = []
effect (wrlock job e h) = []
effect (stick job e h b) = []
effect (unlock_refused e) = []
effect (unlock_stuck job e) = []
effect (unlock_changed c e) = []
effect (lock_to_wait job e h) = []
effect (wait job e) = []
effect (end_wait job result e) = []
effect (relock job result e h) = []
effect (again job e) = []
effect (give_up job result e h) = []
effect (lock_to_signal c e h) = []
effect (signal_one c j job e f a) = []
effect (signal_none c e h) = []
effect (unlock_signalled e) = []
effect (call_status e) = []
effect (unlock_read e) = []

-- The effects in the order in which they happen.
abbrev pub history : {n : ℕ} {q : Queue} {s : System} → Reach n q s → List (Op × Reply)
history here = []
history (next i lt r st) = history r ++ effect st

abbrev pub ops : List (Op × Reply) → List Op
ops [] = []
ops ((op, reply) ∷ h) = op ∷ ops h

abbrev pub replies : List (Op × Reply) → List Reply
replies [] = []
replies ((op, reply) ∷ h) = reply ∷ replies h

-- The abstract queue after some calls.
abbrev pub after : ℕ → List ℕ → List Op → List ℕ
after capacity xs [] = xs
after capacity xs (op ∷ os) = after capacity (step capacity xs op).1 os

ops-append : (h k : List (Op × Reply)) → ops (h ++ k) ≡ ops h ++ ops k
ops-append [] k = refl
ops-append ((op, reply) ∷ h) k = ap (λ os. op ∷ os) (ops-append h k)

replies-append : (h k : List (Op × Reply)) → replies (h ++ k) ≡ replies h ++ replies k
replies-append [] k = refl
replies-append ((op, reply) ∷ h) k = ap (λ rs. reply ∷ rs) (replies-append h k)

run-append :
    (c : ℕ) (xs : List ℕ) (os ps : List Op)
    → Fifo.run c xs (os ++ ps) ≡ Fifo.run c xs os ++ Fifo.run c (after c xs os) ps
unfolding Fifo.run
run-append c xs [] ps = refl
run-append c xs (op ∷ os) ps =
    ap (λ rs. (step c xs op).0 ∷ rs) (run-append c (step c xs op).1 os ps)

after-append :
    (c : ℕ) (xs : List ℕ) (os ps : List Op) → after c xs (os ++ ps) ≡ after c (after c xs os) ps
after-append c xs [] ps = refl
after-append c xs (op ∷ os) ps = after-append c (step c xs op).1 os ps

-- What an effect does to the abstract queue: the same reply, and the same items afterwards.
record Fits (c : ℕ) (xs : List ℕ) (h : List (Op × Reply)) (ys : List ℕ) : Type 0 where
  answers : Fifo.run c xs (ops h) ≡ replies h
  leaves : after c xs (ops h) ≡ ys

none_Fits : (c : ℕ) (xs : List ℕ) → Fits c xs [] xs
unfolding Fifo.run
none_Fits c xs = record { answers = refl; leaves = refl }

one_Fits :
    (c : ℕ) (xs : List ℕ) (op : Op) (reply : Reply) (ys : List ℕ)
    → step c xs op ≡ (reply, ys)
    → Fits c xs ((op, reply) ∷ []) ys
unfolding Fifo.run
one_Fits c xs op reply ys e = record { answers = ap (λ r. r.0 ∷ []) e; leaves = ap (λ r. r.1) e }

append-Fits :
    (c : ℕ) (xs ys zs : List ℕ) (h k : List (Op × Reply))
    → Fits c xs h ys
    → Fits c ys k zs
    → Fits c xs (h ++ k) zs
append-Fits c xs ys zs h k f g = record {
  answers =
      rw
        (
          ops-append h k,
          run-append c xs (ops h) (ops k),
          f.leaves,
          f.answers,
          g.answers,
          replies-append h k,
        )
        refl;
  leaves = rw (ops-append h k, after-append c xs (ops h) (ops k), f.leaves, g.leaves) refl;
}

change-Fits :
    (job : Job) (s : System)
    → IsValid s.queue
    → IsProper job
    → is_stuck job s.queue ≡ false
    → step s.queue.capacity (contents s.queue) (op_of job)
      ≡ (reply_of job s.queue, contents (work job s).queue)
change-Fits (add item) s v p e = ground (arith, length-contents s.queue, contents-put item v)
change-Fits (try_add item) s v p e = ground (arith, length-contents s.queue, contents-put item v)
change-Fits pop s v p e = ground (arith, contents-advance v)
change-Fits try_pop s v p e = ground (arith, contents-advance v)

refuse-Fits :
    (job : Job) (s : System)
    → IsProper job
    → is_stuck job s.queue ≡ true
    → step s.queue.capacity (contents s.queue) (op_of job) ≡ (refusal_of job, contents s.queue)
refuse-Fits (add item) s p e = ground (arith, length-contents s.queue)
refuse-Fits (try_add item) s p e = ground (arith, length-contents s.queue)
refuse-Fits pop s p e = ground (arith, contents_empty s.queue)
refuse-Fits try_pop s p e = ground (arith, contents_empty s.queue)

Step-Fits :
    {s : System} {i : ℕ} {t : System} (st : Step s i t)
    → IsValid s.queue
    → AllProper s
    → Fits s.queue.capacity (contents s.queue) (effect st) (contents t.queue)
Step-Fits {s} {i} (change job e h) v p =
    one_Fits s.queue.capacity (contents s.queue) (op_of job) (reply_of job s.queue)
      (contents (work job s).queue) (change-Fits job s v (subst HasProper e (p i)) h)
Step-Fits {s} {i} (refuse job e h b) v p =
    one_Fits s.queue.capacity (contents s.queue) (op_of job) (refusal_of job) (contents s.queue)
      (refuse-Fits job s (subst HasProper e (p i)) h)
Step-Fits {s} (rdlock e h) v p =
    one_Fits s.queue.capacity (contents s.queue) Op.get_size (count s.queue.size) (contents s.queue)
      (ground (arith, length-contents s.queue))
Step-Fits {s} (call job e h) v p = none_Fits s.queue.capacity (contents s.queue)
Step-Fits {s} (stick job e h b) v p = none_Fits s.queue.capacity (contents s.queue)
Step-Fits {s} (unlock_refused e) v p = none_Fits s.queue.capacity (contents s.queue)
Step-Fits {s} (unlock_stuck job e) v p = none_Fits s.queue.capacity (contents s.queue)
Step-Fits {s} (unlock_changed c e) v p = none_Fits s.queue.capacity (contents s.queue)
Step-Fits {s} (lock_to_wait job e h) v p = none_Fits s.queue.capacity (contents s.queue)
Step-Fits {s} (wrlock job e h) v p = none_Fits s.queue.capacity (contents s.queue)
Step-Fits {s} (wait job e) v p = none_Fits s.queue.capacity (contents s.queue)
Step-Fits {s} (end_wait job result e) v p = none_Fits s.queue.capacity (contents s.queue)
Step-Fits {s} (relock job result e h) v p = none_Fits s.queue.capacity (contents s.queue)
Step-Fits {s} (again job e) v p = none_Fits s.queue.capacity (contents s.queue)
Step-Fits {s} (give_up job result e h) v p = none_Fits s.queue.capacity (contents s.queue)
Step-Fits {s} (lock_to_signal c e h) v p = none_Fits s.queue.capacity (contents s.queue)
Step-Fits {s} (signal_one c j job e f a) v p = none_Fits s.queue.capacity (contents s.queue)
Step-Fits {s} (signal_none c e h) v p = none_Fits s.queue.capacity (contents s.queue)
Step-Fits {s} (unlock_signalled e) v p = none_Fits s.queue.capacity (contents s.queue)
Step-Fits {s} (call_status e) v p = none_Fits s.queue.capacity (contents s.queue)
Step-Fits {s} (unlock_read e) v p = none_Fits s.queue.capacity (contents s.queue)

history-Fits :
    {n : ℕ} {q : Queue} {s : System} (r : Reach n q s)
    → IsValid q
    → Fits q.capacity (contents q) (history r) (contents s.queue)
history-Fits {q = q} here v = none_Fits q.capacity (contents q)
history-Fits {q = q} (next {s} {t} i lt r st) v =
    append-Fits q.capacity (contents q) (contents s.queue) (contents t.queue) (history r)
      (effect st) (history-Fits r v)
      (subst (λ c. Fits c (contents s.queue) (effect st) (contents t.queue)) before.capacity
        (Step-Fits st before.valid (Reach-AllProper r)))
  where
    before : IsOrdered q s
    before = Reach-IsOrdered v r

-- Over a valid queue, in every state that any number of threads reach, the calls in the order in
-- which they take effect (at the change or the refusal under the write lock, or at a look at the
-- size under the read lock, which are steps within the call of the thread) get, one after the
-- other, the replies that a single client gets from the bounded first-in first-out list, and the
-- queue holds what that list holds then.
pub history_refines :
    {n : ℕ} {q : Queue} {s : System} (r : Reach n q s)
    → IsValid q
    → (Fifo.run q.capacity (contents q) (ops (history r)) ≡ replies (history r))
      × (after q.capacity (contents q) (ops (history r)) ≡ contents s.queue)
history_refines r v = let f = history-Fits r v in (f.answers, f.leaves)
