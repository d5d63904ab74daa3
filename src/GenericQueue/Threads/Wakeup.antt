-- ===== src/GenericQueue/Threads/Wakeup.antt =====
-- A signal that comes between the release of the lock and the wait is lost.
use space_captain.Common.{
  ℕ, ◌<◌, ◌≡◌, ◌≢◌, refl, sym, ap, ◌∙◌, Bool, false, [], ◌∷◌, ◌++◌, ◌==◌, ==_iff, Bool-cases, inl,
  inr, arith,
}
use space_captain.GenericQueue.{Queue, front, advance}
use space_captain.GenericQueue.Inv.{IsValid, size-advance}
use space_captain.GenericQueue.Refine.{capacity-advance}
use space_captain.GenericQueue.Threads.{
  add, pop, not_full, Pc, idle, locking, holding, leaving, to_wait, waiting, asleep, to_signal,
  signalling, signalled, is_asleep_for, locks, has_mutex, System, goto, work, Step, call, wrlock,
  change, unlock_changed, lock_to_wait, wait, lock_to_signal, signal_none, unlock_signalled, Reach,
  next,
}
use space_captain.GenericQueue.Threads.Order.{Reach-IsOrdered}

-- Every thread but `i` is outside of the functions of the queue.
abbrev pub OnlyIn : ℕ → Pc → System → Type 0
OnlyIn i p s = (s.pc i ≡ p) × ((k : ℕ) → i ≢ k → s.pc k ≡ idle)

-- One thread stands at `p`, another at `r`, and the others are outside.
record Pair (i : ℕ) (p : Pc) (j : ℕ) (r : Pc) (s : System) : Type 0 where
  first : s.pc i ≡ p
  second : s.pc j ≡ r
  rest : (k : ℕ) → i ≢ k → j ≢ k → s.pc k ≡ idle

second_moves :
    {i : ℕ} {p : Pc} {j : ℕ} {r : Pc} {s : System} (r' : Pc)
    → i ≢ j
    → Pair i p j r s
    → Pair i p j r' (goto s j r')
second_moves {i} {p} {j} {r} {s} r' d h = record {
  first = ground (arith, h.first);
  second = ground (arith, ==_iff j j);
  rest = λ k di dj. ground (arith, h.rest k di dj);
}

first_moves :
    {i : ℕ} {p : Pc} {j : ℕ} {r : Pc} {s : System} (p' : Pc)
    → i ≢ j
    → Pair i p j r s
    → Pair i p' j r (goto s i p')
first_moves {i} {p} {j} {r} {s} p' d h = record {
  first = ground (arith, ==_iff i i);
  second = ground (arith, h.second);
  rest = λ k di dj. ground (arith, h.rest k di dj);
}

-- No thread has a property that `p`, `r` and `idle` do not have.
none_has :
    (f : Pc → Bool) {i : ℕ} {p : Pc} {j : ℕ} {r : Pc} {s : System}
    → Pair i p j r s
    → f p ≡ false
    → f r ≡ false
    → f idle ≡ false
    → (k : ℕ) → f (s.pc k) ≡ false
none_has f {i} {p} {j} {r} {s} h fp fr fi k = elim (Bool-cases (i == k)) [
  | inl e ↦ ap (λ x. f (s.pc x)) (sym ((==_iff i k).0 e)) ∙ (ap f h.first ∙ fp)
  | inr e ↦ elim (Bool-cases (j == k)) [
    | inl e' ↦ ap (λ x. f (s.pc x)) (sym ((==_iff j k).0 e')) ∙ (ap f h.second ∙ fr)
    | inr e' ↦ ap f (h.rest k (ground arith) (ground arith)) ∙ fi
  ]
]

-- The steps of one thread in a row.
pub data Steps (i : ℕ) (s : System) : System → Type 0 where
  stays : Steps i s s
  then : {t u : System} → Steps i s t → Step t i u → Steps i s u

Steps-Reach :
    {n : ℕ} {q : Queue} {i : ℕ} {s t : System} → i < n → Reach n q s → Steps i s t → Reach n q t
Steps-Reach {i = i} lt r stays = r
Steps-Reach {i = i} lt r (then steps st) = next i lt (Steps-Reach lt r steps) st

-- The thread `j` has taken the oldest item since `s`, while `i` stood still.
record Taken (i : ℕ) (p : Pc) (j : ℕ) (r : Pc) (s : System) : Type 0 where
  state : System
  steps : Steps j s state
  pair : Pair i p j r state
  left : state.queue ≡ advance s.queue
  taken : state.popped ≡ s.popped ++ (front s.queue ∷ [])

module _ (i item j : ℕ) (s : System) (d : i ≢ j) where
  -- A pop that is not disturbed, while another thread is about to wait for room.
  pop_takes :
      Pair i (to_wait (add item)) j idle s
      → s.queue.size ≢ 0
      → Taken i (to_wait (add item)) j (leaving not_full) s
  pop_takes h filled =
      let h1 = second_moves (locking pop) d h in
      let s1 = then stays (call pop h.second tt) in
      let h2 = second_moves (holding pop) d h1 in
      let s2 = then s1 (wrlock pop h1.second (none_has locks h1 refl refl refl)) in
      let popped = work pop (goto (goto s j (locking pop)) j (holding pop)) in
      let h3 : Pair i (to_wait (add item)) j (holding pop) popped = record {
        first = h2.first;
        second = h2.second;
        rest = h2.rest;
      } in
      record {
        state = goto popped j (leaving not_full);
        steps = then s2 (change pop h2.second (ground arith));
        pair = second_moves (leaving not_full) d h3;
        left = refl;
        taken = refl;
      }

  -- The signal finds nobody.
  signal_lost :
      Taken i (to_wait (add item)) j (leaving not_full) s → Taken i (to_wait (add item)) j idle s
  signal_lost g =
      let h1 = second_moves (to_signal not_full) d g.pair in
      let s1 = then g.steps (unlock_changed not_full g.pair.second) in
      let h2 = second_moves (signalling not_full) d h1 in
      let s2 = then s1 (lock_to_signal not_full h1.second (none_has has_mutex h1 refl refl refl)) in
      let h3 = second_moves signalled d h2 in
      let s3 =
        then s2
          (signal_none not_full h2.second (none_has (is_asleep_for not_full) h2 refl refl refl)) in
      record {
        state =
            goto
              (goto (goto (goto g.state j (to_signal not_full)) j (signalling not_full)) j
                signalled)
              j idle;
        steps = then s3 (unlock_signalled h3.second);
        pair = second_moves idle d h3;
        left = g.left;
        taken = g.taken;
      }

-- The other thread goes to sleep: two steps.
abbrev asleep_from : ℕ → ℕ → System → System
asleep_from i item s = goto (goto s i (waiting (add item))) i (asleep (add item))

falls_asleep :
    (i item j : ℕ) (s : System)
    → i ≢ j
    → Pair i (to_wait (add item)) j idle s
    → Steps i s (asleep_from i item s) × Pair i (asleep (add item)) j idle (asleep_from i item s)
falls_asleep i item j s d h =
    let h1 = first_moves (waiting (add item)) d h in
    let s1 = then stays (lock_to_wait (add item) h.first (none_has has_mutex h refl refl refl)) in
    (then s1 (wait (add item) h1.first), first_moves (asleep (add item)) d h1)

-- A thread that sleeps until there is room, though there is room, and nobody will signal.
abbrev pub SleepsInVain : ℕ → ℕ → System → Type 0
SleepsInVain i item s = OnlyIn i (asleep (add item)) s × (s.queue.size < s.queue.capacity)

-- From `s`, the pop of the thread `j` ends, and then `i` falls asleep in vain.
abbrev pub LosesSignal : ℕ → Queue → ℕ → ℕ → ℕ → System → Type 0
LosesSignal n q i j item s =
    (u : System) × (t : System) × Steps j s u
    × (u.pc j ≡ idle)
    × (u.queue ≡ advance s.queue)
    × (u.popped ≡ s.popped ++ (front s.queue ∷ []))
    × Steps i u t
    × Reach n q t
    × (t.queue ≡ u.queue)
    × SleepsInVain i item t

-- Over a valid queue, if a thread that found the queue full has given up the lock and does not
-- have the mutex yet, while all others are outside of the functions and the queue is not empty,
-- then from there the steps of another thread alone lead through a pop, which takes the oldest
-- item, until it is outside again, and then steps of the first thread alone lead to its sleep for
-- room, though the queue has room and no other thread is in a call that would signal.
pub signal_can_be_lost :
    (n : ℕ) (q : Queue) (i j item : ℕ) (s : System)
    → IsValid q
    → i < n
    → j < n
    → i ≢ j
    → Reach n q s
    → OnlyIn i (to_wait (add item)) s
    → 0 < s.queue.size
    → LosesSignal n q i j item s
signal_can_be_lost n q i j item s v i_in j_in d r (at, others) filled = (
  g.state,
  asleep_from i item g.state,
  g.steps,
  g.pair.second,
  g.left,
  g.taken,
  sleeps.0,
  Steps-Reach i_in (Steps-Reach j_in r g.steps) sleeps.0,
  refl,
  ((sleeps.1.first, others_idle), room),
)
  where
    pair : Pair i (to_wait (add item)) j idle s
    pair = record { first = at; second = others j d; rest = λ k di dj. others k di }

    g : Taken i (to_wait (add item)) j idle s
    g = signal_lost i item j s d (pop_takes i item j s d pair (omega arith))

    sleeps :
        Steps i g.state (asleep_from i item g.state)
        × Pair i (asleep (add item)) j idle (asleep_from i item g.state)
    sleeps = falls_asleep i item j g.state d g.pair

    others_idle : (k : ℕ) → i ≢ k → (asleep_from i item g.state).pc k ≡ idle
    others_idle k di = elim (Bool-cases (j == k)) [
      | inl e ↦ ap (asleep_from i item g.state).pc (sym ((==_iff j k).0 e)) ∙ sleeps.1.second
      | inr e ↦ sleeps.1.rest k di (ground arith)
    ]

    valid : IsValid s.queue
    valid = (Reach-IsOrdered v r).valid

    room : g.state.queue.size < g.state.queue.capacity
    room =
        rw g.left
          (omega (arith, valid.size_in, size-advance valid (omega arith), capacity-advance s.queue))
