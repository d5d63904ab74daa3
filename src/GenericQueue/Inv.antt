-- ===== src/GenericQueue/Inv.antt =====
-- The representation invariant of `sc_generic_queue_t`: the indices stay in the buffer, and no
-- `size_t` arithmetic wraps.
use native.Mathlib.Nat.{mod-add-mod}
use space_captain.Common.{
  ap, ◌∙◌, ℕ, ◌+◌, ◌-◌, ◌%◌, ◌≤◌, ◌<◌, ◌≡◌, ◌≢◌, Option, none, some, arith, length, length-set,
  inc_size, dec_size,
}
use space_captain.GenericQueue.{Queue, max_capacity, put, advance}

pub record IsValid (q : Queue) : Type 0 where
  pub storage : length q.buffer ≡ q.capacity
  pub some_room : 0 < q.capacity
  pub small : q.capacity ≤ max_capacity
  pub head_in : q.head < q.capacity
  pub size_in : q.size ≤ q.capacity
  pub tail_at : q.tail ≡ (q.head + q.size) % q.capacity

-- What a pointer to a queue must point to, if it is not NULL.
abbrev pub Valid? : Option Queue → Type 0
Valid? none = Unit
Valid? (some q) = IsValid q

-- The increments of `size`, `head` and `tail` do not wrap.
pub no_wrap :
    {q : Queue}
    → IsValid q
    → (inc_size q.size ≡ q.size + 1)
      × (inc_size q.head ≡ q.head + 1)
      × (inc_size q.tail ≡ q.tail + 1)
no_wrap v = omega arith

-- Both indices lie in the buffer.
pub in_bounds : {q : Queue} → IsValid q → (q.head < length q.buffer) × (q.tail < length q.buffer)
in_bounds v = omega arith

pub put-IsValid : {q : Queue} (item : ℕ) → IsValid q → q.size ≢ q.capacity → IsValid (put q item)
unfolding put
put-IsValid {q} item v room = record {
  storage = length-set q.buffer q.tail item ∙ v.storage;
  some_room = v.some_room;
  small = v.small;
  head_in = v.head_in;
  size_in = omega arith;
  tail_at = next_tail;
}
  where
    next_tail : inc_size q.tail % q.capacity ≡ (q.head + inc_size q.size) % q.capacity
    next_tail =
        rw ((no_wrap v).2, v.tail_at, (no_wrap v).0, mod-add-mod)
          (ap (λ k. k % q.capacity) (omega arith))

pub advance-IsValid : {q : Queue} → IsValid q → q.size ≢ 0 → IsValid (advance q)
unfolding advance
advance-IsValid {q} v filled = record {
  storage = v.storage;
  some_room = v.some_room;
  small = v.small;
  head_in = omega arith;
  size_in = omega arith;
  tail_at = same_tail;
}
  where
    same_tail : q.tail ≡ (inc_size q.head % q.capacity + dec_size q.size) % q.capacity
    same_tail = rw ((no_wrap v).1, v.tail_at, mod-add-mod) (ap (λ k. k % q.capacity) (omega arith))

pub size-advance : {q : Queue} → IsValid q → q.size ≢ 0 → (advance q).size ≡ q.size - 1
unfolding advance
size-advance v filled = omega arith

pub size-put :
    {q : Queue} (item : ℕ) → IsValid q → q.size ≢ q.capacity → (put q item).size ≡ q.size + 1
unfolding put
size-put item v room = omega arith
