-- ===== src/GenericQueue/Lifecycle.antt =====
-- The lifecycle of src/generic_queue.c: `init`, `nuke` and `nuke_with_cleanup`. What the allocator
-- and the pthread library answer is an argument, and what a call acquires and gives back is
-- recorded in its order.
pub mod Resources
pub mod Drain
use space_captain.Common.{
  Event, acquire, release, ℕ, zero, suc, ◌*◌, Bool, true, false, Option, none, some, List, [], ◌∷◌,
  ◌++◌, ltb, ◌==◌, ◌||◌, not, if◌then◌else◌, replicate,
}
use space_captain.Portability.{mul_overflow}
use space_captain.GenericQueue.Codes.{
  RetVal, success, err_overflow, err_invalid, err_memory, err_thread, err_null,
}
use space_captain.GenericQueue.{Queue, max_capacity, sizeof_ptr, front, advance}

-- The blocks and pthread objects of one queue.
pub data Resource : Type 0 where
  queue_block buffer_block rwlock cond_mutex cond_not_empty cond_not_full : Resource

-- Whether each `calloc` succeeds, and what each initialisation returns.
pub record InitEnv : Type 0 where
  pub queue_memory : Bool
  pub buffer_memory : Bool
  pub rwlock_init : ℕ
  pub mutex_init : ℕ
  pub not_empty_init : ℕ
  pub not_full_init : ℕ

pub record Init : Type 0 where
  pub queue : Option Queue
  pub errno : RetVal
  pub events : List (Event Resource)

abbrev pub init_result : Option Queue → RetVal → List (Event Resource) → Init
init_result q e es = record { queue = q; errno = e; events = es }

-- The queue after the four assignments of `init`.
unfoldable pub fresh : ℕ → Queue
fresh capacity = record {
  buffer = replicate capacity 0;
  capacity = capacity;
  size = 0;
  head = 0;
  tail = 0;
}

-- The initialisations of `sc_generic_queue_init`, with both blocks allocated.
unfoldable pub init_sync : InitEnv → ℕ → Init
init_sync env capacity =
    let blocks = acquire queue_block ∷ acquire buffer_block ∷ [] in
    let free_blocks = release buffer_block ∷ release queue_block ∷ [] in
    if not (env.rwlock_init == 0)
    then init_result none err_thread (blocks ++ free_blocks)
    else (let locked = blocks ++ (acquire rwlock ∷ []) in
        let drop_lock = release rwlock ∷ free_blocks in
        if not (env.mutex_init == 0)
        then init_result none err_thread (locked ++ drop_lock)
        else (let with_mutex = locked ++ (acquire cond_mutex ∷ []) in
            let drop_mutex = release cond_mutex ∷ drop_lock in
            if not (env.not_empty_init == 0)
            then init_result none err_thread (with_mutex ++ drop_mutex)
            else (let with_cond = with_mutex ++ (acquire cond_not_empty ∷ []) in
                if not (env.not_full_init == 0)
                then init_result none err_thread
                    (with_cond ++ (release cond_not_empty ∷ drop_mutex))
                else init_result (some (fresh capacity)) success
                    (with_cond ++ (acquire cond_not_full ∷ [])))))

-- `sc_generic_queue_init`. `*buffer_size` holds 0 before the multiplication.
unfoldable pub init : InitEnv → ℕ → Init
init env capacity =
    if (capacity == 0) || ltb max_capacity capacity
    then init_result none (if capacity == 0 then err_invalid else err_overflow) []
    else if not env.queue_memory
    then init_result none err_memory []
    else if (mul_overflow capacity sizeof_ptr 0).0
    then init_result none err_overflow (acquire queue_block ∷ release queue_block ∷ [])
    else if not env.buffer_memory
    then init_result none err_memory (acquire queue_block ∷ release queue_block ∷ [])
    else init_sync env capacity

pub record Nuke : Type 0 where
  pub ret : RetVal
  pub errno : RetVal
  pub events : List (Event Resource)

-- The lock is gone only if `pthread_rwlock_destroy`, which returns the argument, succeeds.
abbrev pub destroy_rwlock : ℕ → List (Event Resource)
destroy_rwlock destroyed = if destroyed == 0 then release rwlock ∷ [] else []

-- `sc_generic_queue_nuke`. The second argument is what `pthread_rwlock_destroy` returns.
unfoldable pub nuke : Option Queue → ℕ → Nuke
nuke none destroyed = record { ret = err_null; errno = err_null; events = [] }
nuke (some q) destroyed =
    let errno = if not (destroyed == 0) then err_thread else success in
    record {
      ret = errno;
      errno = errno;
      events =
          destroy_rwlock destroyed
          ++ (release cond_mutex
              ∷ release buffer_block
              ∷ release cond_not_empty
              ∷ release cond_not_full
              ∷ release queue_block
              ∷ []);
    }

-- The callback, over whatever `user_data` points to.
unfoldable pub apply_cleanup {ℓ} : {D : Type ℓ} → Option (ℕ → D → D) → ℕ → D → D
apply_cleanup none item user_data = user_data
apply_cleanup (some cleanup_fn) item user_data = cleanup_fn item user_data

-- The `while` of `nuke_with_cleanup`, with fuel: what `*user_data` and the queue are after it.
-- `Drain.drain_ends` shows that the size of the queue is fuel enough.
unfoldable pub drain {ℓ} : {D : Type ℓ} → ℕ → Option (ℕ → D → D) → Queue → D → D × Queue
unfolding apply_cleanup
drain zero cleanup_fn q user_data = (user_data, q)
drain (suc fuel) cleanup_fn q user_data =
    let rest = drain fuel cleanup_fn (advance q) (apply_cleanup cleanup_fn (front q) user_data) in
    if ltb 0 q.size then rest else (user_data, q)

-- What `nuke_with_cleanup` does, in its order: it takes and gives up the write lock, runs its
-- `while`, and gives resources back.
pub data Act : Type 0 where
  take_lock drain_items drop_lock : Act
  gives_back : Event Resource → Act

abbrev pub acts_of : List (Event Resource) → List Act
acts_of [] = []
acts_of (e ∷ es) = gives_back e ∷ acts_of es

pub record NukeCleanup {ℓ} (D : Type ℓ) : Type ℓ where
  pub errno : RetVal
  pub user_data : D
  pub acts : List Act

-- `sc_generic_queue_nuke_with_cleanup`. It leaves `queue_errno` as it was, but for NULL. The third
-- argument is what `pthread_rwlock_destroy` returns, which the function does not look at.
unfoldable pub nuke_with_cleanup {ℓ} :
    {D : Type ℓ} → RetVal → Option Queue → ℕ → Option (ℕ → D → D) → D → NukeCleanup D
nuke_with_cleanup errno none destroyed cleanup_fn user_data = record {
  errno = err_null;
  user_data = user_data;
  acts = [];
}
nuke_with_cleanup errno (some q) destroyed cleanup_fn user_data =
    let drained = drain q.size cleanup_fn q user_data in
    record {
      errno = errno;
      user_data = drained.0;
      acts =
          take_lock
          ∷ drain_items
          ∷ drop_lock
          ∷ gives_back (release buffer_block)
          ∷ (acts_of (destroy_rwlock destroyed)
              ++ acts_of (
                  release cond_mutex
                  ∷ release cond_not_empty
                  ∷ release cond_not_full
                  ∷ release queue_block
                  ∷ []));
    }
