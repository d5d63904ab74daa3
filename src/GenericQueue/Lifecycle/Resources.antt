-- ===== src/GenericQueue/Lifecycle/Resources.antt =====
-- What `sc_generic_queue_init` acquires, and that it and the two destructors give back: no leak, no
-- double release, and no touch of the queue's fields after its block is freed.
use native.Mathlib.Nat.{mod-eq_of_lt}
use space_captain.Common
use space_captain.Common.{
  Event, acquire, release, ℕ, ◌≤◌, ◌<◌, ◌≡◌, ◌≢◌, ◌↔◌, ◌⊎◌, inl, inr, Option, none, some, List, [],
  ◌∷◌, Bool, true, false, not, ◌&&◌, ◌||◌, arith, refl, subst, length-replicate, if◌then◌else◌,
}
use space_captain.Portability.Exact.{mul_overflow_exact}
use space_captain.GenericQueue.Codes.{success, err_overflow, err_invalid, err_memory, err_thread}
use space_captain.GenericQueue.{Queue, max_capacity, sizeof_ptr}
use space_captain.GenericQueue.Inv.{IsValid}
use space_captain.GenericQueue.Refine.{contents}
use space_captain.GenericQueue.Lifecycle.{
  Resource, queue_block, buffer_block, rwlock, cond_mutex, cond_not_empty, cond_not_full, InitEnv,
  Init, init_result, fresh, init_sync, init, Act, take_lock, drain_items, drop_lock, gives_back,
}

abbrev same : Resource → Resource → Bool
same queue_block queue_block = true
same buffer_block buffer_block = true
same rwlock rwlock = true
same cond_mutex cond_mutex = true
same cond_not_empty cond_not_empty = true
same cond_not_full cond_not_full = true
same _ _ = false

pub owned : Option (List Resource) → List (Event Resource) → Option (List Resource)
unfolding Common.own_all
owned = Common.own_all same queue_block

-- The last acquired first.
abbrev pub all_resources : List Resource
all_resources =
    cond_not_full ∷ cond_not_empty ∷ cond_mutex ∷ rwlock ∷ buffer_block ∷ queue_block ∷ []

-- Both allocations and the four initialisations succeed.
pub record IsReady (env : InitEnv) : Type 0 where
  pub queue_memory : env.queue_memory ≡ true
  pub buffer_memory : env.buffer_memory ≡ true
  pub rwlock_init : env.rwlock_init ≡ 0
  pub mutex_init : env.mutex_init ≡ 0
  pub not_empty_init : env.not_empty_init ≡ 0
  pub not_full_init : env.not_full_init ≡ 0

-- Either a queue is returned with all its resources, or NULL with none.
abbrev pub IsClean : ℕ → Init → Type 0
IsClean capacity i =
    ((i.queue ≡ none) × (i.errno ≢ success) × (owned (some []) i.events ≡ some []))
    ⊎ ((i.queue ≡ some (fresh capacity))
        × (i.errno ≡ success)
        × (owned (some []) i.events ≡ some all_resources))

init_sync-IsClean : (env : InitEnv) (capacity : ℕ) → IsClean capacity (init_sync env capacity)
unfolding init_sync owned
init_sync-IsClean env capacity = ground arith

-- The branches of `init`. The overflow test never fires behind the test of the capacity.
abbrev InRange : ℕ → Type 0
InRange capacity = (0 < capacity) × (capacity ≤ max_capacity)

init_cases :
    (env : InitEnv) (capacity : ℕ)
    → ((capacity ≡ 0) × (init env capacity ≡ init_result none err_invalid []))
      ⊎ (((max_capacity < capacity) × (init env capacity ≡ init_result none err_overflow []))
          ⊎ ((InRange capacity
                × (env.queue_memory ≡ false)
                × (init env capacity ≡ init_result none err_memory []))
              ⊎ ((InRange capacity
                    × (env.buffer_memory ≡ false)
                    × (init env capacity
                        ≡ init_result none err_memory
                            (acquire queue_block ∷ release queue_block ∷ [])))
                  ⊎ (InRange capacity
                      × (env.queue_memory ≡ true)
                      × (env.buffer_memory ≡ true)
                      × (init env capacity ≡ init_sync env capacity)))))
unfolding init
init_cases env capacity = ground (arith, mul_overflow_exact capacity sizeof_ptr 0)

-- Whatever the allocator and the pthread library answer, init either returns the empty queue of
-- the given capacity and owns all six of its resources, or returns NULL with an error in
-- queue_errno and owns nothing; on the way nothing is released twice or outside the queue's block.
pub init-IsClean : (env : InitEnv) (capacity : ℕ) → IsClean capacity (init env capacity)
unfolding owned
init-IsClean env capacity = elim (init_cases env capacity) [
  | inl (z, e) ↦ rw e (inl (refl, (cc), refl))
  | inr (inl (big, e)) ↦ rw e (inl (refl, (cc), refl))
  | inr (inr (inl (r, m, e))) ↦ rw e (inl (refl, (cc), refl))
  | inr (inr (inr (inl (r, m, e)))) ↦ rw e (inl (refl, (cc), refl))
  | inr (inr (inr (inr (r, m, b, e)))) ↦ rw e (init_sync-IsClean env capacity)
]

init_sync_code :
    (env : InitEnv) (capacity : ℕ)
    → ((init_sync env capacity).errno ≡ success) ⊎ ((init_sync env capacity).errno ≡ err_thread)
unfolding init_sync
init_sync_code env capacity = ground arith

init_sync_ready_iff :
    (env : InitEnv) (capacity : ℕ)
    → ((init_sync env capacity).errno ≡ success) ↔ (
        (env.rwlock_init ≡ 0)
        × (env.mutex_init ≡ 0)
        × (env.not_empty_init ≡ 0)
        × (env.not_full_init ≡ 0))
unfolding init_sync
init_sync_ready_iff env capacity = ground arith

-- Init succeeds exactly if the capacity is positive and at most the maximum, both allocations
-- succeed and the four initialisations return 0; queue_errno is err_overflow exactly if the
-- capacity is above the maximum, so the overflow test behind that guard never fires.
pub init_errno_iff :
    (env : InitEnv) (capacity : ℕ)
    → (((init env capacity).errno ≡ success)
        ↔ ((0 < capacity) × (capacity ≤ max_capacity) × IsReady env))
      × (((init env capacity).errno ≡ err_overflow) ↔ (max_capacity < capacity))
init_errno_iff env capacity = elim (init_cases env capacity) [
  | inl (z, e) ↦ rw e (ground arith)
  | inr (inl (big, e)) ↦ rw e (ground arith)
  | inr (inr (inl (r, m, e))) ↦ rw e (ground arith)
  | inr (inr (inr (inl (r, m, e)))) ↦ rw e (ground arith)
  | inr (inr (inr (inr (r, m, b, e)))) ↦
      rw e (ground (arith, init_sync_ready_iff env capacity, init_sync_code env capacity))
]

-- A destructor holds the write lock or not, and owns resources; `none` if an act is not allowed.
abbrev pub Holding : Type 0
Holding = Option (Bool × List Resource)

abbrev is_rwlock : Event Resource → Bool
is_rwlock (release rwlock) = true
is_rwlock e = false

abbrev with_owned : Bool → Option (List Resource) → Holding
with_owned held none = none
with_owned held (some live) = some (held, live)

-- The write lock is taken and given up while it is there, the items are drained under it, and the
-- lock is not destroyed while it is held.
abbrev pub act : Bool → List Resource → Act → Holding
act held live take_lock =
    if not held && Common.owns same queue_block live rwlock then some (true, live) else none
act held live drain_items = if held then some (held, live) else none
act held live drop_lock =
    if held && Common.owns same queue_block live rwlock then some (false, live) else none
act held live (gives_back e) =
    if held && is_rwlock e then none else with_owned held (Common.own same queue_block live e)

unfoldable pub dismantled : Holding → List Act → Holding
dismantled none acts = none
dismantled (some h) [] = some h
dismantled (some (held, live)) (a ∷ acts) = dismantled (act held live a) acts

-- All resources but the lock.
abbrev pub without_rwlock : List Resource
without_rwlock = cond_not_full ∷ cond_not_empty ∷ cond_mutex ∷ buffer_block ∷ queue_block ∷ []

abbrev pub IsFresh : ℕ → Queue → Type 0
IsFresh capacity q = IsValid q × (contents q ≡ []) × (q.capacity ≡ capacity)

pub fresh-IsFresh :
    (capacity : ℕ) → 0 < capacity → capacity ≤ max_capacity → IsFresh capacity (fresh capacity)
unfolding fresh
fresh-IsFresh capacity pos fits = (
  record {
    storage = length-replicate capacity 0;
    some_room = pos;
    small = fits;
    head_in = pos;
    size_in = omega arith;
    tail_at = omega (arith, mod-eq_of_lt pos);
  },
  refl,
  refl,
)

-- A queue that init returns is valid, holds nothing, and has the capacity asked for.
init-IsValid :
    (env : InitEnv) (capacity : ℕ) {q : Queue}
    → (init env capacity).queue ≡ some q
    → IsValid q × (contents q ≡ []) × (q.capacity ≡ capacity)
init-IsValid env capacity {q} h = elim (init-IsClean env capacity) [
  | inl (missing, failed, clean) ↦ absurd (nothing missing)
  | inr (made, ok, owned) ↦
      let r : (0 < capacity) × (capacity ≤ max_capacity) × IsReady env =
        (init_errno_iff env capacity).0.0 ok in
      let same_queue : fresh capacity ≡ q = cc in
      subst (IsFresh capacity) same_queue (fresh-IsFresh capacity r.0 r.1)
]
  where
    nothing : (init env capacity).queue ≡ none → ⊥
    nothing e = cc
