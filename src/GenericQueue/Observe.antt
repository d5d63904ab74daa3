-- ===== src/GenericQueue/Observe.antt =====
-- What a client of the queue can see: exactly the capacity and the pointers in their order.
use space_captain.Common.{
  ℕ, zero, suc, ◌+◌, ◌≤◌, ◌≡◌, ◌≢◌, ◌-◌, subst, length-append, refl, sym, ap, ap₂, ◌∙◌, ◌↔◌, List,
  [], ◌∷◌, ◌++◌, arith, length,
}
use space_captain.GenericQueue.{Queue}
use space_captain.GenericQueue.Fifo
use space_captain.GenericQueue.Fifo.{Op, Reply, popped, flag, step}
use space_captain.GenericQueue.Inv.{IsValid}
use space_captain.GenericQueue.Refine.{contents, length-contents, run_refines}
use space_captain.GenericQueue.Script

-- No sequence of calls that do not block tells the queues apart.
abbrev pub Indistinguishable : Queue → Queue → Type 0
Indistinguishable q p = (slot : ℕ) (ops : List Op) → Script.run slot q ops ≡ Script.run slot p ops

-- The same of two abstract queues.
abbrev Alike : ℕ → List ℕ → ℕ → List ℕ → Type 0
Alike c xs d ys = (ops : List Op) → Fifo.run c xs ops ≡ Fifo.run d ys ops

first_reply : Reply → List Reply → Reply
first_reply r [] = r
first_reply r (s ∷ rs) = s

others : List Reply → List Reply
others [] = []
others (r ∷ rs) = rs

-- They answer the next call alike, and are alike after it.
Alike-reply :
    (c : ℕ) (xs : List ℕ) (d : ℕ) (ys : List ℕ)
    → Alike c xs d ys
    → (op : Op) → (step c xs op).0 ≡ (step d ys op).0
unfolding Fifo.run first_reply
Alike-reply c xs d ys h op = ap (first_reply (step c xs op).0) (h (op ∷ []))

Alike-step :
    (c : ℕ) (xs : List ℕ) (d : ℕ) (ys : List ℕ)
    → Alike c xs d ys
    → (op : Op) → Alike c (step c xs op).1 d (step d ys op).1
unfolding Fifo.run others
Alike-step c xs d ys h op ops = ap others (h (op ∷ ops))

same_items : (c : ℕ) (xs : List ℕ) (d : ℕ) (ys : List ℕ) → Alike c xs d ys → xs ≡ ys
same_items c [] d [] h = refl
same_items c [] d (y ∷ ys) h = absurd (ground (arith, Alike-reply c [] d (y ∷ ys) h Op.try_pop))
same_items c (x ∷ xs) d [] h = absurd (ground (arith, Alike-reply c (x ∷ xs) d [] h Op.try_pop))
same_items c (x ∷ xs) d (y ∷ ys) h =
    ap₂ ◌∷◌ (ground (arith, Alike-reply c (x ∷ xs) d (y ∷ ys) h Op.try_pop))
      (same_items c xs d ys (Alike-step c (x ∷ xs) d (y ∷ ys) h Op.try_pop))

grown : (c : ℕ) (xs : List ℕ) → length xs ≢ c → (step c xs (Op.try_add 1)).1 ≡ xs ++ (1 ∷ [])
grown c xs h = ground arith

-- The capacities are found by filling the queues up.
same_capacity :
    (k c : ℕ) (xs : List ℕ) (d : ℕ) → length xs + k ≡ c → length xs ≤ d → Alike c xs d xs → c ≡ d
same_capacity zero c xs d e l h = ground (arith, Alike-reply c xs d xs h Op.is_full)
same_capacity (suc k) c xs d e l h =
    same_capacity k c (xs ++ (1 ∷ [])) d (omega (arith, length-append xs (1 ∷ [])))
      (omega (arith, length-append xs (1 ∷ []), room))
      (subst (λ ys. Alike c ys d (xs ++ (1 ∷ []))) (grown c xs (omega arith))
        (subst (λ ys. Alike c (step c xs (Op.try_add 1)).1 d ys) (grown d xs room)
          (Alike-step c xs d xs h (Op.try_add 1))))
  where
    room : length xs ≢ d
    room = ground (arith, Alike-reply c xs d xs h Op.is_full)

-- Two valid queues get the same answers to all sequences of calls that do not block exactly if
-- they have the same capacity and hold the same pointers in the same order, wherever in their
-- buffers.
pub Indistinguishable-iff :
    {q p : Queue}
    → IsValid q
    → IsValid p
    → Indistinguishable q p ↔ ((q.capacity ≡ p.capacity) × (contents q ≡ contents p))
Indistinguishable-iff {q} {p} v w = (
  (λ h.
      let alike : Alike q.capacity (contents q) p.capacity (contents p) =
        λ ops. sym (run_refines 0 ops v) ∙ (h 0 ops ∙ run_refines 0 ops w) in
      let items : contents q ≡ contents p =
        same_items q.capacity (contents q) p.capacity (contents p) alike in
      (
        same_capacity (q.capacity - q.size) q.capacity (contents q) p.capacity
            (omega (arith, length-contents q, v.size_in))
            (omega (arith, ap length items, length-contents p, w.size_in))
            (subst (λ ys. Alike q.capacity (contents q) p.capacity ys) (sym items) alike),
        items,
      )),
  (λ e slot ops.
      run_refines slot ops v
      ∙ ap₂ (λ c xs. Fifo.run c xs ops) e.0 e.1
      ∙ sym (run_refines slot ops w)),
)
