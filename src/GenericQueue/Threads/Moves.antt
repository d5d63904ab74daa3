-- ===== src/GenericQueue/Threads/Moves.antt =====
-- The next steps of threads: whoever holds a lock can go on.
use space_captain.Common.{
  ltb, ℕ, zero, suc, ◌≤◌, ◌<◌, ◌≡◌, ◌⊎◌, inl, inr, refl, sym, ap, ◌∙◌, Bool, true, false, ◌==◌,
  ==_iff, Bool-cases, arith,
}
use space_captain.GenericQueue.{Queue}
use space_captain.GenericQueue.Threads.{
  Job, add, pop, try_add, try_pop, awaited, announced, is_stuck, is_blocking, Cond, not_full,
  not_empty, Pc, idle, locking, holding, parting, refusing, leaving, to_wait, waiting, asleep,
  woken, waking, to_signal, signalling, signalled, to_read, reading, is_asleep_for, locks,
  has_mutex, System, goto, work, update, Step, call, wrlock, stick, refuse, change, unlock_refused,
  unlock_stuck, unlock_changed, lock_to_wait, wait, end_wait, relock, again, give_up,
  lock_to_signal, signal_one, signal_none, unlock_signalled, call_status, rdlock, unlock_read,
  Reach, here, next,
}

find : (n : ℕ) (f : ℕ → Bool) → ((j : ℕ) × (j < n) × (f j ≡ true)) ⊎ ((j : ℕ) → j < n → f j ≡ false)
find zero f = inr (λ j h. absurd (omega arith))
find (suc n) f = elim (Bool-cases (f n)) [
  | inl e ↦ inl (n, omega arith, e)
  | inr e ↦ elim (find n f) [
    | inl (j, lt, h) ↦ inl (j, omega arith, h)
    | inr h ↦ inr (λ j lt. elim (Bool-cases (n == j)) [
      | inl same ↦ ap f (sym ((==_iff n j).0 same)) ∙ e
      | inr other ↦ h j (ground arith)
    ])
  ]
]

-- The numbers from `n` on are no threads.
pub IsOutside : ℕ → System → Type 0
IsOutside n s = (k : ℕ) → n ≤ k → s.pc k ≡ idle

moved :
    (n : ℕ) (pc : ℕ → Pc) (i : ℕ) (p : Pc) (k : ℕ)
    → i < n
    → n ≤ k
    → pc k ≡ idle
    → update pc i p k ≡ idle
moved n pc i p k lt le h = ground arith

work-pc : (job : Job) (s : System) → (work job s).pc ≡ s.pc
work-pc (add item) s = refl
work-pc (try_add item) s = refl
work-pc pop s = refl
work-pc try_pop s = refl

Step-IsOutside :
    {n : ℕ} {s : System} {i : ℕ} {t : System}
    → Step s i t
    → i < n
    → (k : ℕ) → n ≤ k
    → s.pc k ≡ idle
    → t.pc k ≡ idle
Step-IsOutside {n} {s} {i} (change job e h) lt k le o =
    rw (work-pc job s) (moved n s.pc i _ k lt le o)
Step-IsOutside {n} {s} {i} (signal_one c j job e f a) lt k le o =
    moved n (update s.pc j (woken job 0)) i _ k lt le (ground (arith, ==_iff j k))
Step-IsOutside {n} {s} {i} (call job e h) lt k le o = moved n s.pc i _ k lt le o
Step-IsOutside {n} {s} {i} (wrlock job e h) lt k le o = moved n s.pc i _ k lt le o
Step-IsOutside {n} {s} {i} (stick job e h b) lt k le o = moved n s.pc i _ k lt le o
Step-IsOutside {n} {s} {i} (refuse job e h b) lt k le o = moved n s.pc i _ k lt le o
Step-IsOutside {n} {s} {i} (unlock_refused e) lt k le o = moved n s.pc i _ k lt le o
Step-IsOutside {n} {s} {i} (unlock_stuck job e) lt k le o = moved n s.pc i _ k lt le o
Step-IsOutside {n} {s} {i} (unlock_changed c e) lt k le o = moved n s.pc i _ k lt le o
Step-IsOutside {n} {s} {i} (lock_to_wait job e h) lt k le o = moved n s.pc i _ k lt le o
Step-IsOutside {n} {s} {i} (wait job e) lt k le o = moved n s.pc i _ k lt le o
Step-IsOutside {n} {s} {i} (end_wait job result e) lt k le o = moved n s.pc i _ k lt le o
Step-IsOutside {n} {s} {i} (relock job result e h) lt k le o = moved n s.pc i _ k lt le o
Step-IsOutside {n} {s} {i} (again job e) lt k le o = moved n s.pc i _ k lt le o
Step-IsOutside {n} {s} {i} (give_up job result e h) lt k le o = moved n s.pc i _ k lt le o
Step-IsOutside {n} {s} {i} (lock_to_signal c e h) lt k le o = moved n s.pc i _ k lt le o
Step-IsOutside {n} {s} {i} (signal_none c e h) lt k le o = moved n s.pc i _ k lt le o
Step-IsOutside {n} {s} {i} (unlock_signalled e) lt k le o = moved n s.pc i _ k lt le o
Step-IsOutside {n} {s} {i} (call_status e) lt k le o = moved n s.pc i _ k lt le o
Step-IsOutside {n} {s} {i} (rdlock e h) lt k le o = moved n s.pc i _ k lt le o
Step-IsOutside {n} {s} {i} (unlock_read e) lt k le o = moved n s.pc i _ k lt le o

pub Reach-IsOutside : {n : ℕ} {q : Queue} {s : System} → Reach n q s → IsOutside n s
unfolding IsOutside
Reach-IsOutside here k le = refl
Reach-IsOutside (next i lt r st) k le = Step-IsOutside st lt k le (Reach-IsOutside r k le)

-- A thread with the property `f`, or none has it.
pub search_all :
    (n : ℕ) (s : System) (f : Pc → Bool)
    → IsOutside n s
    → f idle ≡ false
    → ((j : ℕ) × (j < n) × (f (s.pc j) ≡ true)) ⊎ ((j : ℕ) → f (s.pc j) ≡ false)
unfolding IsOutside
search_all n s f o fi = elim (find n (λ j. f (s.pc j))) [
  | inl found ↦ inl found
  | inr none ↦ inr (λ j. elim (Bool-cases (ltb j n)) [
    | inl lt ↦ none j (ground arith)
    | inr le ↦ ap f (o j (ground arith)) ∙ fi
  ])
]

-- A thread has a next step.
abbrev pub CanMove : System → ℕ → Type 0
CanMove s i = (t : System) × Step s i t

-- Under the write lock a call goes on, whatever it finds.
pub holding_moves : (s : System) (i : ℕ) (job : Job) → s.pc i ≡ holding job → CanMove s i
holding_moves s i job e = elim (Bool-cases (is_stuck job s.queue)) [
  | inl h ↦ elim (Bool-cases (is_blocking job)) [
    | inl b ↦ (goto s i (parting job), stick job e h b)
    | inr b ↦ (goto s i refusing, refuse job e h b)
  ]
  | inr h ↦ (goto (work job s) i (leaving (announced job)), change job e h)
]

pub lock_moves : (s : System) (i : ℕ) (p : Pc) → s.pc i ≡ p → locks p ≡ true → CanMove s i
lock_moves s i (holding job) e h = holding_moves s i job e
lock_moves s i (parting job) e h = (goto s i (to_wait job), unlock_stuck job e)
lock_moves s i refusing e h = (goto s i idle, unlock_refused e)
lock_moves s i (leaving c) e h = (goto s i (to_signal c), unlock_changed c e)
lock_moves s i reading e h = (goto s i idle, unlock_read e)
lock_moves s i idle e h = absurd (ground arith)
lock_moves s i (locking job) e h = absurd (ground arith)
lock_moves s i (to_wait job) e h = absurd (ground arith)
lock_moves s i (waiting job) e h = absurd (ground arith)
lock_moves s i (asleep job) e h = absurd (ground arith)
lock_moves s i (woken job result) e h = absurd (ground arith)
lock_moves s i (waking job result) e h = absurd (ground arith)
lock_moves s i (to_signal c) e h = absurd (ground arith)
lock_moves s i (signalling c) e h = absurd (ground arith)
lock_moves s i signalled e h = absurd (ground arith)
lock_moves s i to_read e h = absurd (ground arith)

asleep_for :
    (c : Cond) (p : Pc)
    → is_asleep_for c p ≡ true
    → (job : Job) × (p ≡ asleep job) × (awaited job ≡ c)
asleep_for not_full (asleep (add item)) h = (add item, refl, refl)
asleep_for not_empty (asleep pop) h = (pop, refl, refl)
asleep_for c p h = absurd (ground arith)

module _ (n : ℕ) (s : System) (o : IsOutside n s) where
  signal_moves : (i : ℕ) (c : Cond) → s.pc i ≡ signalling c → CanMove s i
  signal_moves i c e = elim (search_all n s (is_asleep_for c) o (quiet c)) [
    | inl (j, lt, h) ↦
        let (job, f, a) = asleep_for c (s.pc j) h in
        (goto (goto s j (woken job 0)) i signalled, signal_one c j job e f a)
    | inr h ↦ (goto s i signalled, signal_none c e h)
  ]
    where
      quiet : (c : Cond) → is_asleep_for c idle ≡ false
      quiet not_full = refl
      quiet not_empty = refl

  pub mutex_moves : (i : ℕ) (p : Pc) → s.pc i ≡ p → has_mutex p ≡ true → CanMove s i
  mutex_moves i (waiting job) e h = (goto s i (asleep job), wait job e)
  mutex_moves i (waking job zero) e h = (goto s i (locking job), again job e)
  mutex_moves i (waking job (suc r)) e h =
      (goto s i idle, give_up job (suc r) e (λ z. absurd (omega (arith, z))))
  mutex_moves i (signalling c) e h = signal_moves i c e
  mutex_moves i signalled e h = (goto s i idle, unlock_signalled e)
  mutex_moves i idle e h = absurd (ground arith)
  mutex_moves i (locking job) e h = absurd (ground arith)
  mutex_moves i (holding job) e h = absurd (ground arith)
  mutex_moves i (parting job) e h = absurd (ground arith)
  mutex_moves i refusing e h = absurd (ground arith)
  mutex_moves i (leaving c) e h = absurd (ground arith)
  mutex_moves i (to_wait job) e h = absurd (ground arith)
  mutex_moves i (asleep job) e h = absurd (ground arith)
  mutex_moves i (woken job r) e h = absurd (ground arith)
  mutex_moves i (to_signal c) e h = absurd (ground arith)
  mutex_moves i to_read e h = absurd (ground arith)
  mutex_moves i reading e h = absurd (ground arith)
