-- ===== src/GenericQueue/Refine.antt =====
-- A valid circular buffer behaves as the bounded queue of the pointers that it holds.
use native.Mathlib.Nat.{mod-add-mod, mod-eq_of_lt, mod-eq-sub-mod}
use native.Mathlib.Decide.{dec_lt}
use space_captain.Common.{
  ℕ, suc, ◌+◌, ◌-◌, ◌%◌, ◌<◌, ◌≡◌, ◌≢◌, refl, ap, ap₂, ◌∙◌, List, [], ◌∷◌, ◌++◌, arith, length,
  get_or, tabulate, length-tabulate, tabulate_ext, tabulate_snoc, get_or-set_self, get_or-set_ne,
}
use space_captain.GenericQueue.{
  Queue, put, front, advance, try_add, try_pop, is_empty, is_full, get_size,
}
use space_captain.GenericQueue.Inv.{IsValid, no_wrap, in_bounds, put-IsValid, advance-IsValid}
use space_captain.GenericQueue.Fifo.{Op, Reply, step}
use space_captain.GenericQueue.Fifo
use space_captain.GenericQueue.Script.{call}
use space_captain.GenericQueue.Script

-- The pointer `k` places behind the oldest one.
abbrev pub nth_item : Queue → ℕ → ℕ
nth_item q k = get_or q.buffer ((q.head + k) % q.capacity) 0

-- What the queue holds, oldest first.
abbrev pub contents : Queue → List ℕ
contents q = tabulate (nth_item q) q.size

pub length-contents : (q : Queue) → length (contents q) ≡ q.size
length-contents q = length-tabulate (nth_item q) q.size

-- Two places of the buffer that are less than a whole turn apart are different places.
places_differ : (c h j k : ℕ) → h < c → j < k → k < c → (h + k) % c ≢ (h + j) % c
places_differ c h j k hh hj hk e = elim (dec_lt (h + k) c) [
  | yes p ↦ omega (arith, mod-eq_of_lt p, mod-eq_of_lt {n = h + j} {m = c} (omega arith))
  | no p ↦ elim (dec_lt (h + j) c) [
    | yes r ↦ omega (arith, mod-eq_of_lt r, once k p (omega arith))
    | no r ↦ omega (arith, once j r (omega arith), once k p (omega arith))
  ]
]
  where
    once : (i : ℕ) → ¬ (h + i < c) → i < c → (h + i) % c ≡ h + i - c
    once i out small =
        mod-eq-sub-mod {n = h + i} {m = c} (omega arith)
        ∙ mod-eq_of_lt {n = h + i - c} {m = c} (omega arith)

pub contents-put :
    {q : Queue} (item : ℕ)
    → IsValid q
    → q.size ≢ q.capacity
    → contents (put q item) ≡ contents q ++ (item ∷ [])
unfolding put
contents-put {q} item v room =
    ap (tabulate after) {y = suc q.size} (omega arith)
    ∙ (tabulate_snoc after q.size ∙ ap₂ (λ xs x. xs ++ (x ∷ [])) kept last)
  where
    after : ℕ → ℕ
    after = nth_item (put q item)

    kept : tabulate after q.size ≡ contents q
    kept = tabulate_ext after (nth_item q) q.size λ k lt.
        get_or-set_ne q.buffer item 0
          (rw v.tail_at (places_differ q.capacity q.head k q.size v.head_in lt (omega arith)))

    last : after q.size ≡ item
    last = rw (← v.tail_at) (get_or-set_self q.buffer q.tail item 0 (in_bounds v).1)

-- The oldest pointer is the front, and the others stay in their order.
pub contents-advance :
    {q : Queue} → IsValid q → q.size ≢ 0 → contents q ≡ front q ∷ contents (advance q)
unfolding advance front
contents-advance {q} v filled =
    ap (tabulate (nth_item q)) {y = suc (q.size - 1)} (omega arith)
    ∙ ap₂ ◌∷◌ oldest (others ∙ ap (tabulate (nth_item (advance q))) (omega arith))
  where
    oldest : nth_item q 0 ≡ get_or q.buffer q.head 0
    oldest =
        ap (λ i. get_or q.buffer i 0)
          (omega (arith, mod-eq_of_lt {n = q.head + 0} {m = q.capacity} (omega arith)))

    others :
        tabulate (λ k. nth_item q (suc k)) (q.size - 1)
        ≡ tabulate (nth_item (advance q)) (q.size - 1)
    others =
        tabulate_ext (λ k. nth_item q (suc k)) (nth_item (advance q)) (q.size - 1)
          λ k lt.
            ap (λ i. get_or q.buffer i 0)
              (rw ((no_wrap v).1, mod-add-mod) (ap (λ i. i % q.capacity) (omega arith)))

pub contents_empty : (q : Queue) → q.size ≡ 0 → contents q ≡ []
contents_empty q e = ap (tabulate (nth_item q)) e

pub capacity-put : (q : Queue) (item : ℕ) → (put q item).capacity ≡ q.capacity
unfolding put
capacity-put q item = refl

pub capacity-advance : (q : Queue) → (advance q).capacity ≡ q.capacity
unfolding advance
capacity-advance q = refl

-- What one call shows, and leaves.
pub record Agrees (q : Queue) (result : Reply × Queue) (expected : Reply × List ℕ) : Type 0 where
  pub reply : result.0 ≡ expected.0
  pub held : contents result.1 ≡ expected.1
  pub valid : IsValid result.1
  pub bound : result.1.capacity ≡ q.capacity

pub call-Agrees :
    {q : Queue} (slot : ℕ) (op : Op)
    → IsValid q
    → Agrees q (call slot q op) (step q.capacity (contents q) op)
unfolding try_add try_pop is_empty is_full get_size
call-Agrees {q} slot (Op.try_add item) v =
    ground (arith, length-contents q, contents-put item v, put-IsValid item v, capacity-put q item)
call-Agrees {q} slot Op.try_pop v =
    ground (arith, contents_empty q, contents-advance v, advance-IsValid v, capacity-advance q)
call-Agrees {q} slot Op.is_empty v = ground (arith, length-contents q)
call-Agrees {q} slot Op.is_full v = ground (arith, length-contents q)
call-Agrees {q} slot Op.get_size v = ground (arith, length-contents q)

-- No sequence of calls that do not block tells a valid queue from the bounded first-in first-out
-- list of the pointers that it holds: every call returns the same code, pointer, flag or number.
pub run_refines :
    (slot : ℕ) (ops : List Op) {q : Queue}
    → IsValid q
    → Script.run slot q ops ≡ Fifo.run q.capacity (contents q) ops
unfolding Script.run Fifo.run
run_refines slot [] v = refl
run_refines slot (op ∷ ops) {q} v =
    ap₂ ◌∷◌ reply (run_refines slot ops valid ∙ ap₂ (λ c xs. Fifo.run c xs ops) bound held)
  where
    open (call-Agrees slot op v) use {reply, held, valid, bound}
