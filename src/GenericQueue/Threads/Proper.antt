-- ===== src/GenericQueue/Threads/Proper.antt =====
-- No thread is in a call with an item that is NULL.
use space_captain.Common.{ℕ, ◌≡◌, subst, ◌==◌, Bool-cases, inl, inr}
use space_captain.GenericQueue.{Queue}
use space_captain.GenericQueue.Threads.{
  Job, Pc, locking, holding, parting, to_wait, waiting, asleep, woken, waking, System, goto, work,
  add, try_add, pop, try_pop, IsProper, Step, call, wrlock, stick, refuse, change, unlock_refused,
  unlock_stuck, unlock_changed, lock_to_wait, wait, end_wait, relock, again, give_up,
  lock_to_signal, signal_one, signal_none, unlock_signalled, call_status, rdlock, unlock_read,
  Reach, here, next,
}

abbrev pub HasProper : Pc → Type 0
HasProper (locking job) = IsProper job
HasProper (holding job) = IsProper job
HasProper (parting job) = IsProper job
HasProper (to_wait job) = IsProper job
HasProper (waiting job) = IsProper job
HasProper (asleep job) = IsProper job
HasProper (woken job result) = IsProper job
HasProper (waking job result) = IsProper job
HasProper _ = Unit

abbrev pub AllProper : System → Type 0
AllProper s = (j : ℕ) → HasProper (s.pc j)

moved : (s : System) (i : ℕ) (p : Pc) → AllProper s → HasProper p → AllProper (goto s i p)
moved s i p h k j = elim (Bool-cases (i == j)) [ inl e ↦ rw e k | inr e ↦ rw e (h j) ]

at : (s : System) {i : ℕ} {p : Pc} → AllProper s → s.pc i ≡ p → HasProper p
at s {i} {p} h e = subst HasProper e (h i)

work-AllProper : (job : Job) (s : System) → AllProper s → AllProper (work job s)
work-AllProper (add item) s h = h
work-AllProper (try_add item) s h = h
work-AllProper pop s h = h
work-AllProper try_pop s h = h

Step-AllProper : {s : System} {i : ℕ} {t : System} → Step s i t → AllProper s → AllProper t
Step-AllProper {s} {i} (call job e p) h = moved s i _ h p
Step-AllProper {s} {i} (wrlock job e n) h = moved s i (holding job) h (at s h e)
Step-AllProper {s} {i} (stick job e k b) h = moved s i (parting job) h (at s h e)
Step-AllProper {s} {i} (refuse job e k b) h = moved s i _ h tt
Step-AllProper {s} {i} (change job e k) h = moved (work job s) i _ (work-AllProper job s h) tt
Step-AllProper {s} {i} (unlock_refused e) h = moved s i _ h tt
Step-AllProper {s} {i} (unlock_stuck job e) h = moved s i (to_wait job) h (at s h e)
Step-AllProper {s} {i} (unlock_changed c e) h = moved s i _ h tt
Step-AllProper {s} {i} (lock_to_wait job e n) h = moved s i (waiting job) h (at s h e)
Step-AllProper {s} {i} (wait job e) h = moved s i (asleep job) h (at s h e)
Step-AllProper {s} {i} (end_wait job result e) h = moved s i (woken job result) h (at s h e)
Step-AllProper {s} {i} (relock job result e n) h = moved s i (waking job result) h (at s h e)
Step-AllProper {s} {i} (again job e) h = moved s i (locking job) h (at s h e)
Step-AllProper {s} {i} (give_up job result e d) h = moved s i _ h tt
Step-AllProper {s} {i} (lock_to_signal c e n) h = moved s i _ h tt
Step-AllProper {s} {i} (signal_one c j job e f a) h =
    moved (goto s j (woken job 0)) i _ (moved s j (woken job 0) h (at s h f)) tt
Step-AllProper {s} {i} (signal_none c e n) h = moved s i _ h tt
Step-AllProper {s} {i} (unlock_signalled e) h = moved s i _ h tt
Step-AllProper {s} {i} (call_status e) h = moved s i _ h tt
Step-AllProper {s} {i} (rdlock e n) h = moved s i _ h tt
Step-AllProper {s} {i} (unlock_read e) h = moved s i _ h tt

pub Reach-AllProper : {n : ℕ} {q : Queue} {s : System} → Reach n q s → AllProper s
Reach-AllProper here = λ j. tt
Reach-AllProper (next i lt r st) = Step-AllProper st (Reach-AllProper r)
