-- ===== src/GenericQueue/Threads/Stages.antt =====
-- The places of a call that no other thread disturbs, and what has happened when it is there.
use space_captain.Common.{
  ℕ, ◌≡◌, ◌≢◌, ◌⊎◌, inl, inr, refl, sym, ap, ap₂, ◌∙◌, Bool, true, false, List, [], ◌∷◌, ◌++◌,
  subst, ◌==◌, ==_iff, Bool-cases, arith,
}
use space_captain.GenericQueue.{Timespec, Sync, rw_unlock, mutex_lock, mutex_unlock, Queue, Outcome}
use space_captain.GenericQueue
use space_captain.GenericQueue.Threads.{
  Job, add, try_add, pop, try_pop, Cond, Pc, idle, locking, holding, parting, refusing, leaving,
  to_wait, waiting, asleep, woken, waking, to_signal, signalling, signalled, to_read, reading,
  awaited, announced, is_stuck, is_blocking, IsProper, System, goto, work, Step, call, wrlock,
  stick, refuse, change, unlock_refused, unlock_stuck, unlock_changed, lock_to_wait, wait, end_wait,
  relock, again, give_up, lock_to_signal, signal_one, signal_none, unlock_signalled, call_status,
  rdlock, unlock_read,
}
use space_captain.GenericQueue.Threads.Alone.{signal, timedwait, calls_of}
use space_captain.GenericQueue.Threads.Sequential.{taken, changed, done, work-queue, work-popped}

-- The thread has returned, or sleeps.
abbrev pub is_over : Pc → Bool
is_over idle = true
is_over (asleep job) = true
is_over _ = false

-- The steps of a call of the thread `i` in a row, up to its end or its sleep at most, with the
-- calls of the pthread library that they make.
pub data Calls (d : Timespec) (i : ℕ) (job : Job) (s : System) : List Sync → System → Type 0 where
  begins : s.pc i ≡ idle → IsProper job → Calls d i job s [] (goto s i (locking job))
  goes_on :
      {calls : List Sync} {t u : System}
      → Calls d i job s calls t
      → is_over (t.pc i) ≡ false
      → (st : Step t i u) → Calls d i job s (calls ++ calls_of d st) u

-- The others are outside.
abbrev pub Rest : ℕ → System → Type 0
Rest i t = (k : ℕ) → i ≢ k → t.pc k ≡ idle

others_stay : (i : ℕ) (t : System) (p : Pc) → Rest i t → Rest i (goto t i p)
others_stay i t p h k d = ground (arith, h k d)

work-Rest : (i : ℕ) (job : Job) (t : System) → Rest i t → Rest i (work job t)
work-Rest i (add item) t h = h
work-Rest i (try_add item) t h = h
work-Rest i pop t h = h
work-Rest i try_pop t h = h

module _ (d : Timespec) (i : ℕ) (job : Job) (s : System) where
  abbrev pub Same : List Sync → List Sync → Queue → List ℕ → Type 0
  Same expected cs q xs = (cs ≡ expected) × (q ≡ s.queue) × (xs ≡ s.popped)

  abbrev pub Blocked : List Sync → List Sync → Queue → List ℕ → Type 0
  Blocked expected cs q xs =
      (is_stuck job s.queue ≡ true) × (is_blocking job ≡ true) × Same expected cs q xs

  abbrev pub Refused : List Sync → List Sync → Queue → List ℕ → Type 0
  Refused expected cs q xs =
      (is_stuck job s.queue ≡ true) × (is_blocking job ≡ false) × Same expected cs q xs

  abbrev pub Done : List Sync → List Sync → Queue → List ℕ → Type 0
  Done expected cs q xs =
      (is_stuck job s.queue ≡ false)
      × (cs ≡ expected)
      × (q ≡ changed job s.queue)
      × (xs ≡ s.popped ++ taken (done job s.queue))

  -- What holds where the thread stands at a place.
  abbrev pub Stage : Pc → List Sync → Queue → List ℕ → Type 0
  Stage idle cs q xs =
      Refused (GenericQueue.wrlock ∷ rw_unlock ∷ []) cs q xs
      ⊎ Done (GenericQueue.wrlock ∷ GenericQueue.finish (signal (announced job))) cs q xs
  Stage (locking j) cs q xs = (j ≡ job) × Same [] cs q xs
  Stage (holding j) cs q xs = (j ≡ job) × Same (GenericQueue.wrlock ∷ []) cs q xs
  Stage (parting j) cs q xs = (j ≡ job) × Blocked (GenericQueue.wrlock ∷ []) cs q xs
  Stage refusing cs q xs = Refused (GenericQueue.wrlock ∷ []) cs q xs
  Stage (leaving c) cs q xs = (c ≡ announced job) × Done (GenericQueue.wrlock ∷ []) cs q xs
  Stage (to_wait j) cs q xs = (j ≡ job) × Blocked (GenericQueue.wrlock ∷ rw_unlock ∷ []) cs q xs
  Stage (waiting j) cs q xs =
      (j ≡ job) × Blocked (GenericQueue.wrlock ∷ rw_unlock ∷ mutex_lock ∷ []) cs q xs
  Stage (asleep j) cs q xs =
      (j ≡ job)
      × Blocked (GenericQueue.wrlock ∷ rw_unlock ∷ mutex_lock ∷ timedwait (awaited job) d ∷ []) cs q
          xs
  Stage (to_signal c) cs q xs =
      (c ≡ announced job) × Done (GenericQueue.wrlock ∷ rw_unlock ∷ []) cs q xs
  Stage (signalling c) cs q xs =
      (c ≡ announced job) × Done (GenericQueue.wrlock ∷ rw_unlock ∷ mutex_lock ∷ []) cs q xs
  Stage signalled cs q xs =
      Done (GenericQueue.wrlock ∷ rw_unlock ∷ mutex_lock ∷ signal (announced job) ∷ []) cs q xs
  Stage (woken j r) cs q xs = ⊥
  Stage (waking j r) cs q xs = ⊥
  Stage to_read cs q xs = ⊥
  Stage reading cs q xs = ⊥

  abbrev pub At : List Sync → System → Type 0
  At cs t = Stage (t.pc i) cs t.queue t.popped × Rest i t

  -- The thread stands where it has gone.
  lands :
      (cs : List Sync) (t : System) (p : Pc)
      → Stage p cs t.queue t.popped
      → Rest i t
      → At cs (goto t i p)
  lands cs t p h r =
      (subst (λ x. Stage x cs t.queue t.popped) (ground (arith, ==_iff i i)) h, others_stay i t p r)

  at : (cs : List Sync) (t : System) {p : Pc} → At cs t → t.pc i ≡ p → Stage p cs t.queue t.popped
  at cs t h e = subst (λ x. Stage x cs t.queue t.popped) e h.0

  over : (t : System) {p : Pc} → t.pc i ≡ p → is_over (t.pc i) ≡ false → is_over p ≡ false
  over t e h = sym (ap is_over e) ∙ h

  work-Stage :
      {cs : List Sync} (t : System)
      → Same (GenericQueue.wrlock ∷ []) cs t.queue t.popped
      → is_stuck job s.queue ≡ false
      → Stage (leaving (announced job)) cs (work job t).queue (work job t).popped
  work-Stage t (c, q, x) h =
      (refl, (h, c, work-queue job t s.queue q, work-popped job t s.queue s.popped q x))

  none_asleep :
      (t : System) {c : Cond} {j : ℕ} {other : Job}
      → Rest i t
      → t.pc i ≡ signalling c
      → t.pc j ≡ asleep other
      → ⊥
  none_asleep t {c} {j} {other} r e f = elim (Bool-cases (i == j)) [
    | inl same ↦
        let both : i ≡ j = (==_iff i j).0 same in
        let same_place : t.pc i ≡ t.pc j = ap t.pc both in cc
    | inr differ ↦ let outside : t.pc j ≡ idle = r j (ground arith) in cc
  ]

  step-At :
      (cs : List Sync) {t u : System} (st : Step t i u)
      → is_over (t.pc i) ≡ false
      → At cs t
      → At (cs ++ calls_of d st) u
  step-At cs {t} (call j e p) o h = absurd (ground (arith, over t e o))
  step-At cs {t} (wrlock j e f) o h =
      let (same, (c, q, x)) = at cs t h e in
      lands _ t (holding j) (same, (ap (λ cs. cs ++ (GenericQueue.wrlock ∷ [])) c, q, x)) h.1
  step-At cs {t} (stick j e stuck b) o h =
      let (same, (c, q, x)) = at cs t h e in
      lands _ t (parting j)
        (
          same,
          (
            sym (ap₂ is_stuck same q) ∙ stuck,
            sym (ap is_blocking same) ∙ b,
            (ap (λ cs. cs ++ []) c, q, x),
          ),
        )
        h.1
  step-At cs {t} (refuse j e stuck b) o h =
      let (same, (c, q, x)) = at cs t h e in
      lands _ t refusing
        (
          sym (ap₂ is_stuck same q) ∙ stuck,
          sym (ap is_blocking same) ∙ b,
          (ap (λ cs. cs ++ []) c, q, x),
        )
        h.1
  step-At cs {t} (change j e free) o h =
      let (same, (c, q, x)) = at cs t h e in
      subst (λ j. At (cs ++ []) (goto (work j t) i (leaving (announced j)))) (sym same)
        (lands (cs ++ []) (work job t) (leaving (announced job))
          (work-Stage t (ap (λ cs. cs ++ []) c, q, x) (sym (ap₂ is_stuck same q) ∙ free))
          (work-Rest i job t h.1))
  step-At cs {t} (unlock_refused e) o h =
      let (stuck, b, (c, q, x)) = at cs t h e in
      lands _ t idle (inl (stuck, b, (ap (λ cs. cs ++ (rw_unlock ∷ [])) c, q, x))) h.1
  step-At cs {t} (unlock_stuck j e) o h =
      let (same, (stuck, b, (c, q, x))) = at cs t h e in
      lands _ t (to_wait j) (same, (stuck, b, (ap (λ cs. cs ++ (rw_unlock ∷ [])) c, q, x))) h.1
  step-At cs {t} (unlock_changed n e) o h =
      let (same, (free, c, q, x)) = at cs t h e in
      lands _ t (to_signal n) (same, (free, ap (λ cs. cs ++ (rw_unlock ∷ [])) c, q, x)) h.1
  step-At cs {t} (lock_to_wait j e f) o h =
      let (same, (stuck, b, (c, q, x))) = at cs t h e in
      lands _ t (waiting j) (same, (stuck, b, (ap (λ cs. cs ++ (mutex_lock ∷ [])) c, q, x))) h.1
  step-At cs {t} (wait j e) o h =
      let (same, (stuck, b, (c, q, x))) = at cs t h e in
      lands _ t (asleep j)
        (same, (stuck, b, (ap₂ (λ cs j. cs ++ (timedwait (awaited j) d ∷ [])) c same, q, x))) h.1
  step-At cs {t} (end_wait j r e) o h = absurd (ground (arith, over t e o))
  step-At cs {t} (relock j r e f) o h = absurd (at cs t h e)
  step-At cs {t} (again j e) o h = absurd (at cs t h e)
  step-At cs {t} (give_up j r e f) o h = absurd (at cs t h e)
  step-At cs {t} (lock_to_signal n e f) o h =
      let (same, (free, c, q, x)) = at cs t h e in
      lands _ t (signalling n) (same, (free, ap (λ cs. cs ++ (mutex_lock ∷ [])) c, q, x)) h.1
  step-At cs {t} (signal_one n j other e f a) o h = absurd (none_asleep t h.1 e f)
  step-At cs {t} (signal_none n e f) o h =
      let (same, (free, c, q, x)) = at cs t h e in
      lands _ t signalled (free, ap₂ (λ cs n. cs ++ (signal n ∷ [])) c same, q, x) h.1
  step-At cs {t} (unlock_signalled e) o h =
      let (free, c, q, x) = at cs t h e in
      lands _ t idle (inr (free, ap (λ cs. cs ++ (mutex_unlock ∷ [])) c, q, x)) h.1
  step-At cs {t} (call_status e) o h = absurd (ground (arith, over t e o))
  step-At cs {t} (rdlock e f) o h = absurd (at cs t h e)
  step-At cs {t} (unlock_read e) o h = absurd (at cs t h e)

  pub calls-At : {cs : List Sync} {t : System} → Rest i s → Calls d i job s cs t → At cs t
  calls-At r (begins e p) = lands [] s (locking job) (refl, (refl, refl, refl)) r
  calls-At r (goes_on {calls} before o st) = step-At calls st o (calls-At r before)
