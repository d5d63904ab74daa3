-- ===== src/GenericQueue/Threads/Exclusion.antt =====
-- The locks of the queue exclude each other as they should.
use space_captain.Common.{ℕ, ◌≡◌, refl, ap, Bool, true, false, arith}
use space_captain.GenericQueue.{Queue}
use space_captain.GenericQueue.Threads.{
  Job, Pc, woken, System, update, work, add, try_add, pop, try_pop, writes, locks, has_mutex, Step,
  call, wrlock, stick, refuse, change, unlock_refused, unlock_stuck, unlock_changed, lock_to_wait,
  wait, end_wait, relock, again, give_up, lock_to_signal, signal_one, signal_none, unlock_signalled,
  call_status, rdlock, unlock_read, Reach, here, next,
}

-- A thread for which `w` holds is the only one for which `l` holds.
module _ (w l : Pc → Bool) where
  abbrev pub Excludes : (ℕ → Pc) → Type 0
  Excludes pc = (i j : ℕ) → w (pc i) ≡ true → l (pc j) ≡ true → i ≡ j

  dropped :
      (pc : ℕ → Pc) (k : ℕ) (p : Pc)
      → w p ≡ false
      → l p ≡ false
      → Excludes pc
      → Excludes (update pc k p)
  dropped pc k p hw hl e i j = ground (arith, e i j)

  kept :
      (pc : ℕ → Pc) (k : ℕ) (p : Pc)
      → (w (pc k) ≡ true)
      → (l (pc k) ≡ true)
      → Excludes pc
      → Excludes (update pc k p)
  kept pc k p hw hl e i j = ground (arith, e i j, e k j, e i k)

  gained :
      (pc : ℕ → Pc) (k : ℕ) (p : Pc)
      → ((i : ℕ) → w (pc i) ≡ false)
      → ((j : ℕ) → l (pc j) ≡ false)
      → Excludes (update pc k p)
  gained pc k p hw hl i j = ground (arith, hw i, hl j)

  shared :
      (pc : ℕ → Pc) (k : ℕ) (p : Pc)
      → ((i : ℕ) → w (pc i) ≡ false)
      → w p ≡ false
      → Excludes (update pc k p)
  shared pc k p hw hp i j = ground (arith, hw i)

-- One thread at most writes, and then no other holds the lock; one thread at most has the mutex.
pub record IsExclusive (pc : ℕ → Pc) : Type 0 where
  pub writer : Excludes writes locks pc
  pub mutex : Excludes has_mutex has_mutex pc

writes_of_locks : (p : Pc) → locks p ≡ false → writes p ≡ false
writes_of_locks p h = ground arith

-- A thread moves on to a place without a lock.
frees :
    (pc : ℕ → Pc) (i : ℕ) (p : Pc)
    → locks p ≡ false
    → has_mutex p ≡ false
    → IsExclusive pc
    → IsExclusive (update pc i p)
frees pc i p hl hm v = record {
  writer = dropped writes locks pc i p (writes_of_locks p hl) hl v.writer;
  mutex = dropped has_mutex has_mutex pc i p hm hm v.mutex;
}

-- A thread keeps the write lock, or the mutex.
keeps_lock :
    (pc : ℕ → Pc) (i : ℕ) (p : Pc)
    → writes (pc i) ≡ true
    → has_mutex p ≡ false
    → IsExclusive pc
    → IsExclusive (update pc i p)
keeps_lock pc i p hw hm v = record {
  writer = kept writes locks pc i p hw (ground arith) v.writer;
  mutex = dropped has_mutex has_mutex pc i p hm hm v.mutex;
}

keeps_mutex :
    (pc : ℕ → Pc) (i : ℕ) (p : Pc)
    → has_mutex (pc i) ≡ true
    → locks p ≡ false
    → IsExclusive pc
    → IsExclusive (update pc i p)
keeps_mutex pc i p hm hl v = record {
  writer = dropped writes locks pc i p (writes_of_locks p hl) hl v.writer;
  mutex = kept has_mutex has_mutex pc i p hm hm v.mutex;
}

takes_mutex :
    (pc : ℕ → Pc) (i : ℕ) (p : Pc)
    → ((j : ℕ) → has_mutex (pc j) ≡ false)
    → locks p ≡ false
    → IsExclusive pc
    → IsExclusive (update pc i p)
takes_mutex pc i p hm hl v = record {
  writer = dropped writes locks pc i p (writes_of_locks p hl) hl v.writer;
  mutex = gained has_mutex has_mutex pc i p hm hm;
}

work-pc : (job : Job) (s : System) → (work job s).pc ≡ s.pc
work-pc (add item) s = refl
work-pc (try_add item) s = refl
work-pc pop s = refl
work-pc try_pop s = refl

Step-IsExclusive :
    {s : System} {i : ℕ} {t : System} → Step s i t → IsExclusive s.pc → IsExclusive t.pc
Step-IsExclusive {s} {i = i} (call job e h) v = frees s.pc i _ refl refl v
Step-IsExclusive {s} {i = i} (wrlock job e h) v = record {
  writer = gained writes locks s.pc i _ (λ j. writes_of_locks (s.pc j) (h j)) h;
  mutex = dropped has_mutex has_mutex s.pc i _ refl refl v.mutex;
}
Step-IsExclusive {s} {i = i} (stick job e h b) v = keeps_lock s.pc i _ (ap writes e) refl v
Step-IsExclusive {s} {i = i} (refuse job e h b) v = keeps_lock s.pc i _ (ap writes e) refl v
Step-IsExclusive {s} {i = i} (change job e h) v =
    rw (work-pc job s) (keeps_lock s.pc i _ (ap writes e) refl v)
Step-IsExclusive {s} {i = i} (unlock_refused e) v = frees s.pc i _ refl refl v
Step-IsExclusive {s} {i = i} (unlock_stuck job e) v = frees s.pc i _ refl refl v
Step-IsExclusive {s} {i = i} (unlock_changed c e) v = frees s.pc i _ refl refl v
Step-IsExclusive {s} {i = i} (lock_to_wait job e h) v = takes_mutex s.pc i _ h refl v
Step-IsExclusive {s} {i = i} (wait job e) v = frees s.pc i _ refl refl v
Step-IsExclusive {s} {i = i} (end_wait job result e) v = frees s.pc i _ refl refl v
Step-IsExclusive {s} {i = i} (relock job result e h) v = takes_mutex s.pc i _ h refl v
Step-IsExclusive {s} {i = i} (again job e) v = frees s.pc i _ refl refl v
Step-IsExclusive {s} {i = i} (give_up job result e h) v = frees s.pc i _ refl refl v
Step-IsExclusive {s} {i = i} (lock_to_signal c e h) v = takes_mutex s.pc i _ h refl v
Step-IsExclusive {s} {i = i} (signal_one c j job e f a) v =
    keeps_mutex (update s.pc j (woken job 0)) i _ (ground arith) refl (frees s.pc j _ refl refl v)
Step-IsExclusive {s} {i = i} (signal_none c e h) v = keeps_mutex s.pc i _ (ap has_mutex e) refl v
Step-IsExclusive {s} {i = i} (unlock_signalled e) v = frees s.pc i _ refl refl v
Step-IsExclusive {s} {i = i} (call_status e) v = frees s.pc i _ refl refl v
Step-IsExclusive {s} {i = i} (rdlock e h) v = record {
  writer = shared writes locks s.pc i _ h refl;
  mutex = dropped has_mutex has_mutex s.pc i _ refl refl v.mutex;
}
Step-IsExclusive {s} {i = i} (unlock_read e) v = frees s.pc i _ refl refl v

-- In every state that the threads reach, a thread that is inside with the write lock is the only
-- one that holds the lock for reading or writing, and at most one thread has the mutex of the
-- conditions.
pub Reach-IsExclusive : {n : ℕ} {q : Queue} {s : System} → Reach n q s → IsExclusive s.pc
Reach-IsExclusive here = record { writer = λ i j h. cc; mutex = λ i j h. cc }
Reach-IsExclusive (next i lt r st) = Step-IsExclusive st (Reach-IsExclusive r)
