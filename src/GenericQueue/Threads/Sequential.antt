-- ===== src/GenericQueue/Threads/Sequential.antt =====
-- A call that no other thread disturbs does what its function in src/generic_queue.c does alone.
use space_captain.Common.{
  ℕ, ◌≡◌, refl, sym, ap, ◌∙◌, Bool, true, false, Option, none, some, List, [], ◌∷◌, ◌++◌,
  append-nil, subst, Bool-cases, inl, inr, arith, if◌then◌else◌,
}
use space_captain.GenericQueue.{
  Timespec, Sync, rw_unlock, mutex_lock, mutex_unlock, timedwait_not_full, timedwait_not_empty,
  signal_not_full, signal_not_empty, Queue, Outcome,
}
use space_captain.GenericQueue
use space_captain.GenericQueue.Blocking
use space_captain.GenericQueue.Codes.{RetVal, success, err_full, err_empty}
use space_captain.GenericQueue.Threads.{
  Job, add, try_add, pop, try_pop, idle, holding, asleep, announced, is_stuck, is_blocking,
  IsProper, System, work,
}
use space_captain.GenericQueue.Threads.Wakeup.{OnlyIn}
use space_captain.GenericQueue.Threads.Alone.{signal, Runs, GetsTo, entered, refused, waits, worked}

-- What the sequential function does for a job that does not wait: its outcome, and what `*item`
-- holds afterwards. `none`: it goes on waiting.
abbrev pub sequential : Job → Queue → Option (Outcome × Option ℕ)
sequential (add item) q = elim (Blocking.add (some q) item []) [
  | none ↦ none
  | some o ↦ some (o, none)
]
sequential (try_add item) q = some (GenericQueue.try_add (some q) item, none)
sequential pop q = Blocking.pop (some q) (some 0) []
sequential try_pop q = some (GenericQueue.try_pop (some q) (some 0))

abbrev is_success : RetVal → Bool
is_success success = true
is_success _ = false

-- The item that a call has taken, if any.
abbrev pub taken : Outcome × Option ℕ → List ℕ
taken (o, none) = []
taken (o, some item) = if is_success o.ret then item ∷ [] else []

-- What the thread comes to by the answer of the sequential function.
abbrev pub Answers : Timespec → ℕ → System → Job → Option (Outcome × Option ℕ) → Type 0
Answers deadline i s job none =
    (t : System) × (calls : List Sync) × Runs deadline i s calls t
    × OnlyIn i (asleep job) t
    × (t.queue ≡ s.queue)
    × (t.popped ≡ s.popped)
Answers deadline i s job (some (o, slot)) =
    (t : System) × Runs deadline i s o.calls t
    × OnlyIn i idle t
    × (some t.queue ≡ o.queue)
    × (t.popped ≡ s.popped ++ taken (o, slot))

module _ {d : Timespec} {i : ℕ} {s : System} where
  returns :
      {cs : List Sync} {q : Queue} {xs : List ℕ} (job : Job) (r : Outcome × Option ℕ)
      → GetsTo d i s cs idle q xs
      → cs ≡ r.0.calls
      → some q ≡ r.0.queue
      → xs ≡ s.popped ++ taken r
      → Answers d i s job (some r)
  returns job (o, slot) g c e x = (
    g.state,
    subst (λ cs. Runs d i s cs g.state) c g.run,
    g.only,
    ap some g.same_queue ∙ e,
    g.same_popped ∙ x,
  )

  keeps_waiting :
      {cs : List Sync} (job : Job)
      → GetsTo d i s cs (asleep job) s.queue s.popped
      → Answers d i s job none
  keeps_waiting {cs} job g = (g.state, cs, g.run, g.only, g.same_queue, g.same_popped)

-- What a job whose test succeeds makes of the queue, and the item that it takes.
abbrev pub changed : Job → Queue → Queue
changed (add item) q = GenericQueue.put q item
changed (try_add item) q = GenericQueue.put q item
changed pop q = GenericQueue.advance q
changed try_pop q = GenericQueue.advance q

abbrev item_of : Job → Queue → Option ℕ
item_of (add item) q = none
item_of (try_add item) q = none
item_of pop q = some (GenericQueue.front q)
item_of try_pop q = some (GenericQueue.front q)

abbrev pub done : Job → Queue → Outcome × Option ℕ
done job q = (
  GenericQueue.outcome success success (some (changed job q))
      (GenericQueue.wrlock ∷ GenericQueue.finish (signal (announced job))),
  item_of job q,
)

-- A refusal, for the jobs that do not wait.
abbrev pub denied : Job → Queue → Outcome × Option ℕ
denied (add item) q = done (add item) q
denied (try_add item) q =
    (GenericQueue.outcome err_full err_full (some q) (GenericQueue.wrlock ∷ rw_unlock ∷ []), none)
denied pop q = done pop q
denied try_pop q = (
  GenericQueue.outcome err_empty err_empty (some q) (GenericQueue.wrlock ∷ rw_unlock ∷ []),
  some 0,
)

pub sequential-lem :
    (job : Job) (q : Queue)
    → IsProper job
    → sequential job q ≡ (
        if is_stuck job q
        then (if is_blocking job then none else some (denied job q))
        else some (done job q))
unfolding Blocking.add Blocking.pop GenericQueue.try_add GenericQueue.try_pop
sequential-lem (add item) q p = ground arith
sequential-lem (try_add item) q p = ground arith
sequential-lem pop q p = ground arith
sequential-lem try_pop q p = ground arith

pub work-queue :
    (job : Job) (t : System) (q : Queue) → t.queue ≡ q → (work job t).queue ≡ changed job q
work-queue (add item) t q e = ap (λ x. GenericQueue.put x item) e
work-queue (try_add item) t q e = ap (λ x. GenericQueue.put x item) e
work-queue pop t q e = ap GenericQueue.advance e
work-queue try_pop t q e = ap GenericQueue.advance e

pub work-popped :
    (job : Job) (t : System) (q : Queue) (xs : List ℕ)
    → t.queue ≡ q
    → t.popped ≡ xs
    → (work job t).popped ≡ xs ++ taken (done job q)
work-popped (add item) t q xs e x = x ∙ sym (append-nil xs)
work-popped (try_add item) t q xs e x = x ∙ sym (append-nil xs)
work-popped pop t q xs e x = rw (e, x) refl
work-popped try_pop t q xs e x = rw (e, x) refl

module _ (d : Timespec) (i : ℕ) (s : System) where
  denied-Answers :
      (job : Job)
      → GetsTo d i s (GenericQueue.wrlock ∷ []) (holding job) s.queue s.popped
      → is_stuck job s.queue ≡ true
      → Answers d i s job (if is_blocking job then none else some (denied job s.queue))
  denied-Answers (add item) g e = keeps_waiting (add item) (waits (add item) g e refl)
  denied-Answers (try_add item) g e =
      returns (try_add item) (denied (try_add item) s.queue) (refused (try_add item) g e refl) refl
        refl (sym (append-nil s.popped))
  denied-Answers pop g e = keeps_waiting pop (waits pop g e refl)
  denied-Answers try_pop g e =
      returns try_pop (denied try_pop s.queue) (refused try_pop g e refl) refl refl
        (sym (append-nil s.popped))

  done-Answers :
      (job : Job)
      → GetsTo d i s (GenericQueue.wrlock ∷ []) (holding job) s.queue s.popped
      → is_stuck job s.queue ≡ false
      → Answers d i s job (some (done job s.queue))
  done-Answers job g e =
      returns job (done job s.queue)
        (worked job (changed job s.queue) (s.popped ++ taken (done job s.queue)) g e
          (λ t h. work-queue job t s.queue h) (λ t h x. work-popped job t s.queue s.popped h x))
        refl refl refl

  -- There is a run of the call that ends as the function does.
  pub answering_run :
      (job : Job) → OnlyIn i idle s → IsProper job → Answers d i s job (sequential job s.queue)
  answering_run job o p =
      rw (sequential-lem job s.queue p) (elim (Bool-cases (is_stuck job s.queue)) [
        | inl e ↦ rw e (denied-Answers job (entered job o p) e)
        | inr e ↦ rw e (done-Answers job (entered job o p) e)
      ])
