-- ===== src/GenericQueue/Abstract.antt =====
-- The queue as an abstract data type: the circular buffers up to what a client can see of them.
mod Tests
use mathlib.Core.HLevel.{Σ_prop_path, Σ_set}
use mathlib.Core.List
use mathlib.Core.Quot
use mathlib.Core.Quot.{Quot, Quot-set}
use native.Mathlib.Bridge.{le_prop}
use native.Mathlib.Nat.{ℕ_set}
use native.Mathlib.Decide.{ℕ_discrete}
use space_captain.Common.{
  ℕ, ◌+◌, ◌≤◌, ◌<◌, ◌≡◌, ◌≢◌, refl, sym, ap, ap₂, ◌∙◌, subst, List, [], ◌∷◌, ◌++◌, append-nil,
  append_assoc, arith, length,
}
use space_captain.GenericQueue.{Queue, max_capacity, put}
use space_captain.GenericQueue.Codes.{RetVal}
use space_captain.GenericQueue.Fifo.{Op, Reply, step}
use space_captain.GenericQueue.Inv.{IsValid, put-IsValid, size-put}
use space_captain.GenericQueue.Lifecycle.{fresh}
use space_captain.GenericQueue.Lifecycle.Resources.{IsFresh, fresh-IsFresh}
use space_captain.GenericQueue.Observe.{Indistinguishable, Indistinguishable-iff}
use space_captain.GenericQueue.Refine.{
  contents, length-contents, contents-put, capacity-put, Agrees, call-Agrees,
}
use space_captain.GenericQueue.Script.{call}
use space_captain.GenericQueue.Script

-- A queue in memory, of one capacity.
abbrev pub Buffered : ℕ → Type 0
Buffered c = (q : Queue) × IsValid q × (q.capacity ≡ c)

-- Queues are the same if no client can tell them apart.
abbrev pub AbstractQueue : ℕ → Type 0
AbstractQueue c = Quot {α = Buffered c} (λ a b. Indistinguishable a.0 b.0)

-- The specification: lists of at most so many pointers.
abbrev pub Bounded : ℕ → Type 0
Bounded c = (xs : List ℕ) × (length xs ≤ c)

Bounded-set : (c : ℕ) → IsSet (Bounded c)
Bounded-set c = hlevel (List.is_set ℕ_set, le_prop)

Reply-set : IsSet Reply
Reply-set = hlevel ℕ_discrete

-- The pointers put into a queue one after the other.
fill : Queue → List ℕ → Queue
fill q [] = q
fill q (x ∷ xs) = fill (put q x) xs

fill_lem :
    (q : Queue) (xs : List ℕ)
    → IsValid q
    → q.size + length xs ≤ q.capacity
    → IsValid (fill q xs)
      × (contents (fill q xs) ≡ contents q ++ xs)
      × ((fill q xs).capacity ≡ q.capacity)
unfolding fill
fill_lem q [] v h = (v, sym (append-nil (contents q)), refl)
fill_lem q (x ∷ xs) v h =
    let room : q.size ≢ q.capacity = omega arith in
    let rest =
      fill_lem (put q x) xs (put-IsValid x v room)
        (omega (arith, capacity-put q x, size-put x v room)) in
    (
      rest.0,
      rest.1
          ∙ (ap (λ ys. ys ++ xs) (contents-put x v room) ∙ append_assoc (contents q) (x ∷ []) xs),
      rest.2 ∙ capacity-put q x,
    )

-- Calls leave indistinguishable queues indistinguishable, and answer alike.
same_after :
    (op : Op) (q p : Queue)
    → IsValid q
    → IsValid p
    → Indistinguishable q p
    → Indistinguishable (call 0 q op).1 (call 0 p op).1
same_after op q p v w h =
    let (bound, items) = (Indistinguishable-iff v w).0 h in
    let a = call-Agrees 0 op v in
    let b = call-Agrees 0 op w in
    (Indistinguishable-iff a.valid b.valid).1 (
      a.bound ∙ (bound ∙ sym b.bound),
      a.held ∙ (ap₂ (λ c xs. (step c xs op).1) bound items ∙ sym b.held),
    )

same_reply :
    (op : Op) (q p : Queue)
    → IsValid q
    → IsValid p
    → Indistinguishable q p
    → (call 0 q op).0 ≡ (call 0 p op).0
same_reply op q p v w h =
    let (bound, items) = (Indistinguishable-iff v w).0 h in
    let a = call-Agrees 0 op v in
    let b = call-Agrees 0 op w in
    a.reply ∙ (ap₂ (λ c xs. (step c xs op).0) bound items ∙ sym b.reply)

module _ (c : ℕ) where
  after_call : Op → Buffered c → Buffered c
  after_call op (q, v, e) = let a = call-Agrees 0 op v in ((call 0 q op).1, a.valid, a.bound ∙ e)

  -- The calls on abstract queues: what is left, and what is answered.
  pub act : Op → AbstractQueue c → AbstractQueue c
  unfolding after_call
  act op =
      Quot.lift Quot-set (λ b. Quot.mk (after_call op b))
        (λ a b h. Quot.sound (same_after op a.0 b.0 a.1 b.1 h))

  pub answer : Op → AbstractQueue c → Reply
  answer op =
      Quot.lift Reply-set (λ b. (call 0 b.0 op).0) (λ a b h. same_reply op a.0 b.0 a.1 b.1 h)

  held : Buffered c → Bounded c
  held (q, v, e) = (contents q, omega (arith, length-contents q, v.size_in, e))

  -- The list that an abstract queue stands for.
  pub meaning : AbstractQueue c → Bounded c
  unfolding held
  meaning =
      Quot.lift (Bounded-set c) held
        (λ a b h. Σ_prop_path (λ xs. le_prop) ((Indistinguishable-iff a.1 b.1).0 h).1)

  meaning-act :
      (op : Op) (a : AbstractQueue c) → (meaning (act op a)).0 ≡ (step c (meaning a).0 op).1
  unfolding meaning act
  meaning-act op =
      Quot.ind (λ a. List.is_set ℕ_set _ _)
        (λ b. let a = call-Agrees 0 op b.1 in a.held ∙ ap (λ c. (step c (contents b.0) op).1) b.2)

  answer-meaning : (op : Op) (a : AbstractQueue c) → answer op a ≡ (step c (meaning a).0 op).0
  unfolding meaning answer
  answer-meaning op =
      Quot.ind (λ a. Reply-set _ _)
        (λ b. let a = call-Agrees 0 op b.1 in a.reply ∙ ap (λ c. (step c (contents b.0) op).0) b.2)

  module _ (pos : 0 < c) (small : c ≤ max_capacity) where
    room : (xs : List ℕ) → length xs ≤ c → (fresh c).size + length xs ≤ (fresh c).capacity
    room xs l =
        let (v, e, k) = fresh-IsFresh c pos small in
        omega (arith, ap length e, length-contents (fresh c), k, l)

    filled : Bounded c → Buffered c
    filled (xs, l) =
        let (v, e, k) = fresh-IsFresh c pos small in
        let f = fill_lem (fresh c) xs v (room xs l) in (fill (fresh c) xs, f.0, f.2 ∙ k)

    contents-filled : (xs : Bounded c) → contents (filled xs).0 ≡ xs.0
    unfolding filled
    contents-filled (xs, l) =
        let (v, e, k) = fresh-IsFresh c pos small in
        (fill_lem (fresh c) xs v (room xs l)).1 ∙ ap (λ ys. ys ++ xs) e

    -- The abstract queue that a list stands for.
    pub queue_of : Bounded c → AbstractQueue c
    queue_of xs = Quot.mk (filled xs)

    meaning-queue_of : (xs : Bounded c) → meaning (queue_of xs) ≡ xs
    unfolding meaning queue_of
    meaning-queue_of xs = Σ_prop_path (λ ys. le_prop) (contents-filled xs)

    queue_of-meaning : (a : AbstractQueue c) → queue_of (meaning a) ≡ a
    unfolding meaning queue_of
    queue_of-meaning =
        Quot.ind (λ a. Quot-set _ _)
          (λ b.
            let again : Buffered c = filled (held b) in
            Quot.sound
              ((Indistinguishable-iff again.1 b.1).1 (again.2 ∙ sym b.2, contents-filled (held b))))

    -- For a capacity that is positive and at most the maximal one, the valid queues of it, taken
    -- as equal where no sequence of calls that do not block tells them apart, correspond one to
    -- one to the lists of at most so many pointers; and each of these calls, which is well defined
    -- on them, answers and leaves what the call on the list does.
    pub abstract_queue :
        ((xs : Bounded c) → meaning (queue_of xs) ≡ xs)
        × ((a : AbstractQueue c) → queue_of (meaning a) ≡ a)
        × ((op : Op) (a : AbstractQueue c)
            → (answer op a ≡ (step c (meaning a).0 op).0)
              × ((meaning (act op a)).0 ≡ (step c (meaning a).0 op).1))
    abstract_queue =
        (meaning-queue_of, queue_of-meaning, λ op a. (answer-meaning op a, meaning-act op a))
