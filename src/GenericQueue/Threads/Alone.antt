-- ===== src/GenericQueue/Threads/Alone.antt =====
-- The steps of a thread that no other disturbs, with the calls of the pthread library that they
-- make.
use space_captain.Common.{
  ℕ, ◌≡◌, refl, sym, ap, ◌∙◌, Bool, true, false, List, [], ◌∷◌, ◌++◌, append_assoc, subst, ◌==◌,
  ==_iff, Bool-cases, inl, inr, arith,
}
use space_captain.GenericQueue.{
  Timespec, Sync, rw_unlock, mutex_lock, mutex_unlock, timedwait_not_full, timedwait_not_empty,
  signal_not_full, signal_not_empty, Queue, Outcome,
}
use space_captain.GenericQueue
use space_captain.GenericQueue.Threads.{
  Job, add, try_add, pop, try_pop, Cond, not_full, not_empty, Pc, idle, holding, leaving, asleep,
  signalling, awaited, announced, is_stuck, is_blocking, IsProper, is_asleep_for, locks, has_mutex,
  System, goto, work, Step, call, wrlock, stick, refuse, change, unlock_refused, unlock_stuck,
  unlock_changed, lock_to_wait, wait, end_wait, relock, again, give_up, lock_to_signal, signal_one,
  signal_none, unlock_signalled, call_status, rdlock, unlock_read,
}
use space_captain.GenericQueue.Threads.Wakeup.{OnlyIn}

abbrev pub signal : Cond → Sync
signal not_full = signal_not_full
signal not_empty = signal_not_empty

abbrev pub timedwait : Cond → Timespec → Sync
timedwait not_full = timedwait_not_full
timedwait not_empty = timedwait_not_empty

-- The call of the pthread library that begins or ends with a step; `deadline` is that of a wait.
abbrev pub calls_of : {s : System} {i : ℕ} {t : System} → Timespec → Step s i t → List Sync
calls_of deadline (call job e h) = []
calls_of deadline (wrlock job e h) = GenericQueue.wrlock ∷ []
calls_of deadline (stick job e h b) = []
calls_of deadline (refuse job e h b) = []
calls_of deadline (change job e h) = []
calls_of deadline (unlock_refused e) = rw_unlock ∷ []
calls_of deadline (unlock_stuck job e) = rw_unlock ∷ []
calls_of deadline (unlock_changed c e) = rw_unlock ∷ []
calls_of deadline (lock_to_wait job e h) = mutex_lock ∷ []
calls_of deadline (wait job e) = timedwait (awaited job) deadline ∷ []
calls_of deadline (end_wait job result e) = []
calls_of deadline (relock job result e h) = []
calls_of deadline (again job e) = mutex_unlock ∷ []
calls_of deadline (give_up job result e h) = mutex_unlock ∷ []
calls_of deadline (lock_to_signal c e h) = mutex_lock ∷ []
calls_of deadline (signal_one c j job e f a) = signal c ∷ []
calls_of deadline (signal_none c e h) = signal c ∷ []
calls_of deadline (unlock_signalled e) = mutex_unlock ∷ []
calls_of deadline (call_status e) = []
calls_of deadline (rdlock e h) = GenericQueue.rdlock ∷ []
calls_of deadline (unlock_read e) = rw_unlock ∷ []

-- The steps of one thread in a row, with the calls that they make.
pub data Runs (deadline : Timespec) (i : ℕ) (s : System) : List Sync → System → Type 0 where
  stays : Runs deadline i s [] s
  steps :
      {calls : List Sync} {t u : System}
      → Runs deadline i s calls t
      → (st : Step t i u) → Runs deadline i s (calls ++ calls_of deadline st) u

-- The calls `calls` lead the thread to `p`, while the others are outside.
pub record GetsTo (deadline : Timespec) (i : ℕ) (s : System) (calls : List Sync) (p : Pc)
    (queue : Queue) (popped : List ℕ) : Type 0 where
  pub state : System
  pub run : Runs deadline i s calls state
  pub only : OnlyIn i p state
  pub same_queue : state.queue ≡ queue
  pub same_popped : state.popped ≡ popped

only_moves : {i : ℕ} {p : Pc} (s : System) (p' : Pc) → OnlyIn i p s → OnlyIn i p' (goto s i p')
only_moves {i} {p} s p' h = (ground (arith, ==_iff i i), λ k d. ground (arith, h.1 k d))

only_has :
    (f : Pc → Bool) {i : ℕ} {p : Pc} (s : System)
    → OnlyIn i p s
    → f p ≡ false
    → f idle ≡ false
    → (k : ℕ) → f (s.pc k) ≡ false
only_has f {i} {p} s h fp fi k = elim (Bool-cases (i == k)) [
  | inl e ↦ ap (λ x. f (s.pc x)) (sym ((==_iff i k).0 e)) ∙ (ap f h.0 ∙ fp)
  | inr e ↦ ap f (h.1 k (ground arith)) ∙ fi
]

work-OnlyIn : {i : ℕ} {p : Pc} (job : Job) (s : System) → OnlyIn i p s → OnlyIn i p (work job s)
work-OnlyIn (add item) s h = h
work-OnlyIn (try_add item) s h = h
work-OnlyIn pop s h = h
work-OnlyIn try_pop s h = h

signaller_awake : (c : Cond) → is_asleep_for c (signalling c) ≡ false
signaller_awake not_full = refl
signaller_awake not_empty = refl

idle_awake : (c : Cond) → is_asleep_for c idle ≡ false
idle_awake not_full = refl
idle_awake not_empty = refl

module _ {d : Timespec} {i : ℕ} {s : System} where
  -- A step that leaves the queue alone.
  on :
      {cs : List Sync} {p p' : Pc} {q : Queue} {xs : List ℕ} (more : List Sync)
      → GetsTo d i s cs p q xs
      → (f : (t : System) → OnlyIn i p t → t.queue ≡ q → Step t i (goto t i p'))
      → ((t : System) (o : OnlyIn i p t) (e : t.queue ≡ q) → calls_of d (f t o e) ≡ more)
      → GetsTo d i s (cs ++ more) p' q xs
  on {cs} {p} {p'} more g f c = record {
    state = goto g.state i p';
    run =
        subst (λ m. Runs d i s (cs ++ m) (goto g.state i p')) (c g.state g.only g.same_queue)
          (steps g.run (f g.state g.only g.same_queue));
    only = only_moves g.state p' g.only;
    same_queue = g.same_queue;
    same_popped = g.same_popped;
  }

  pub entered :
      (job : Job)
      → OnlyIn i idle s
      → IsProper job
      → GetsTo d i s (GenericQueue.wrlock ∷ []) (holding job) s.queue s.popped
  entered job o proper =
      on (GenericQueue.wrlock ∷ []) (on [] here (λ t h e. call job h.0 proper) (λ t h e. refl))
        (λ t h e. wrlock job h.0 (only_has locks t h refl refl)) (λ t h e. refl)
    where
      here : GetsTo d i s [] idle s.queue s.popped
      here = record { state = s; run = stays; only = o; same_queue = refl; same_popped = refl }

  -- The test fails, and the call does not wait.
  pub refused :
      (job : Job)
      → GetsTo d i s (GenericQueue.wrlock ∷ []) (holding job) s.queue s.popped
      → is_stuck job s.queue ≡ true
      → is_blocking job ≡ false
      → GetsTo d i s (GenericQueue.wrlock ∷ rw_unlock ∷ []) idle s.queue s.popped
  refused job g stuck b =
      on (rw_unlock ∷ [])
        (on [] g (λ t h e. refuse job h.0 (ap (is_stuck job) e ∙ stuck) b) (λ t h e. refl))
        (λ t h e. unlock_refused h.0) (λ t h e. refl)

  -- The test fails, and the call waits.
  pub waits :
      (job : Job)
      → GetsTo d i s (GenericQueue.wrlock ∷ []) (holding job) s.queue s.popped
      → is_stuck job s.queue ≡ true
      → is_blocking job ≡ true
      → GetsTo d i s
          (GenericQueue.wrlock ∷ rw_unlock ∷ mutex_lock ∷ timedwait (awaited job) d ∷ [])
          (asleep job)
          s.queue
          s.popped
  waits job g stuck b =
      on (timedwait (awaited job) d ∷ [])
        (on (mutex_lock ∷ [])
          (on (rw_unlock ∷ [])
            (on [] g (λ t h e. stick job h.0 (ap (is_stuck job) e ∙ stuck) b) (λ t h e. refl))
            (λ t h e. unlock_stuck job h.0) (λ t h e. refl))
          (λ t h e. lock_to_wait job h.0 (only_has has_mutex t h refl refl)) (λ t h e. refl))
        (λ t h e. wait job h.0) (λ t h e. refl)

  -- The change, and the signal behind it.
  announces :
      {cs : List Sync} {q : Queue} {xs : List ℕ} (c : Cond)
      → GetsTo d i s cs (leaving c) q xs
      → GetsTo d i s (cs ++ GenericQueue.finish (signal c)) idle q xs
  announces {cs} {q} {xs} c g =
      subst (λ cs'. GetsTo d i s cs' idle q xs) (simp (append_assoc))
        (on (mutex_unlock ∷ [])
          (on (signal c ∷ [])
            (on (mutex_lock ∷ [])
              (on (rw_unlock ∷ []) g (λ t h e. unlock_changed c h.0) (λ t h e. refl))
              (λ t h e. lock_to_signal c h.0 (only_has has_mutex t h refl refl)) (λ t h e. refl))
            (λ t h e.
              signal_none c h.0 (only_has (is_asleep_for c) t h (signaller_awake c) (idle_awake c)))
            (λ t h e. refl))
          (λ t h e. unlock_signalled h.0) (λ t h e. refl))

  pub worked :
      (job : Job) (q : Queue) (xs : List ℕ)
      → GetsTo d i s (GenericQueue.wrlock ∷ []) (holding job) s.queue s.popped
      → is_stuck job s.queue ≡ false
      → ((t : System) → t.queue ≡ s.queue → (work job t).queue ≡ q)
      → ((t : System) → t.queue ≡ s.queue → t.popped ≡ s.popped → (work job t).popped ≡ xs)
      → GetsTo d i s (GenericQueue.wrlock ∷ GenericQueue.finish (signal (announced job))) idle q xs
  worked job q xs g free eq ex = announces (announced job) (record {
    state = goto (work job g.state) i (leaving (announced job));
    run = steps g.run (change job g.only.0 (ap (is_stuck job) g.same_queue ∙ free));
    only = only_moves (work job g.state) (leaving (announced job)) (work-OnlyIn job g.state g.only);
    same_queue = eq g.state g.same_queue;
    same_popped = ex g.state g.same_queue g.same_popped;
  })
