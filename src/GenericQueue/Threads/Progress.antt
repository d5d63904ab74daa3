-- ===== src/GenericQueue/Threads/Progress.antt =====
-- The calls do not block each other for ever: the locks are always given back.
use space_captain.Common.{
  ℕ, ◌<◌, ◌≡◌, ◌⊎◌, ◌||◌, inl, inr, refl, true, Bool-cases, arith, if◌then◌else◌,
}
use space_captain.GenericQueue.{Queue}
use space_captain.GenericQueue.Threads.{
  Pc, idle, locking, holding, parting, refusing, leaving, to_wait, waiting, asleep, woken, waking,
  to_signal, signalling, signalled, to_read, reading, locks, writes, has_mutex, System, goto,
  NoneLocks, NoneWrites, NoneHasMutex, wrlock, lock_to_wait, end_wait, relock, lock_to_signal,
  call_status, rdlock, Reach,
}
use space_captain.GenericQueue.Threads.Moves.{
  IsOutside, Reach-IsOutside, search_all, CanMove, lock_moves, mutex_moves,
}

locks_of_writes : (p : Pc) → writes p ≡ true → locks p ≡ true
locks_of_writes p h = ground arith

-- A thread that holds the lock or the mutex, and can go on.
abbrev pub HolderMoves : ℕ → System → Type 0
HolderMoves n s =
    (j : ℕ) × (j < n) × ((locks (s.pc j) ≡ true) ⊎ (has_mutex (s.pc j) ≡ true)) × CanMove s j

module _ (n : ℕ) (s : System) (o : IsOutside n s) where
  -- For a step that needs the lock, or the mutex, and gets it if nobody else has it.
  needs_lock : (i : ℕ) → (NoneLocks s → CanMove s i) → CanMove s i ⊎ HolderMoves n s
  needs_lock i go = elim (search_all n s locks o refl) [
    | inl (j, lt, h) ↦ inr (j, lt, inl h, lock_moves s j (s.pc j) refl h)
    | inr h ↦ inl (go h)
  ]

  needs_mutex : (i : ℕ) → (NoneHasMutex s → CanMove s i) → CanMove s i ⊎ HolderMoves n s
  needs_mutex i go = elim (search_all n s has_mutex o refl) [
    | inl (j, lt, h) ↦ inr (j, lt, inr h, mutex_moves n s o j (s.pc j) refl h)
    | inr h ↦ inl (go h)
  ]

  needs_no_writer : (i : ℕ) → (NoneWrites s → CanMove s i) → CanMove s i ⊎ HolderMoves n s
  needs_no_writer i go = elim (search_all n s writes o refl) [
    | inl (j, lt, h) ↦
        let l = locks_of_writes (s.pc j) h in inr (j, lt, inl l, lock_moves s j (s.pc j) refl l)
    | inr h ↦ inl (go h)
  ]

  goes_on : (i : ℕ) (p : Pc) → s.pc i ≡ p → CanMove s i ⊎ HolderMoves n s
  goes_on i idle e = inl (goto s i to_read, call_status e)
  goes_on i (locking job) e = needs_lock i (λ h. (goto s i (holding job), wrlock job e h))
  goes_on i (to_wait job) e = needs_mutex i (λ h. (goto s i (waiting job), lock_to_wait job e h))
  goes_on i (asleep job) e = inl (goto s i (woken job 0), end_wait job 0 e)
  goes_on i (woken job r) e = needs_mutex i (λ h. (goto s i (waking job r), relock job r e h))
  goes_on i (to_signal c) e = needs_mutex i (λ h. (goto s i (signalling c), lock_to_signal c e h))
  goes_on i to_read e = needs_no_writer i (λ h. (goto s i reading, rdlock e h))
  goes_on i (holding job) e = inl (lock_moves s i (holding job) e refl)
  goes_on i (parting job) e = inl (lock_moves s i (parting job) e refl)
  goes_on i refusing e = inl (lock_moves s i refusing e refl)
  goes_on i (leaving c) e = inl (lock_moves s i (leaving c) e refl)
  goes_on i reading e = inl (lock_moves s i reading e refl)
  goes_on i (waiting job) e = inl (mutex_moves n s o i (waiting job) e refl)
  goes_on i (waking job r) e = inl (mutex_moves n s o i (waking job r) e refl)
  goes_on i (signalling c) e = inl (mutex_moves n s o i (signalling c) e refl)
  goes_on i signalled e = inl (mutex_moves n s o i signalled e refl)

-- A thread with the lock or the mutex has a next step, and any other has one or such a thread has.
abbrev pub Progresses : ℕ → ℕ → System → Type 0
Progresses n i s =
    if locks (s.pc i) || has_mutex (s.pc i) then CanMove s i else CanMove s i ⊎ HolderMoves n s

progress : (n : ℕ) (s : System) → IsOutside n s → (i : ℕ) → Progresses n i s
progress n s o i = elim (Bool-cases (locks (s.pc i))) [
  | inl h ↦ rw h (lock_moves s i (s.pc i) refl h)
  | inr free ↦ elim (Bool-cases (has_mutex (s.pc i))) [
    | inl h ↦ rw (free, h) (mutex_moves n s o i (s.pc i) refl h)
    | inr none ↦ rw (free, none) (goes_on n s o i (s.pc i) refl)
  ]
]

-- In every state that the threads reach, each thread that holds the lock or the mutex has a next
-- step, so that no holder of the one waits for the other; and any other thread has one, or else a
-- thread that holds the lock or the mutex has one.
pub no_deadlock : {n : ℕ} {q : Queue} {s : System} → Reach n q s → (i : ℕ) → Progresses n i s
no_deadlock {n} {s = s} r i = progress n s (Reach-IsOutside r) i
