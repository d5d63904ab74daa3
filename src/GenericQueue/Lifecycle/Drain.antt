-- ===== src/GenericQueue/Lifecycle/Drain.antt =====
-- `sc_generic_queue_nuke_with_cleanup` hands over every item once, oldest first.
use space_captain.Common.{ℕ, zero, suc, ◌≡◌, Option, some, List, [], ◌∷◌, arith, refl, lt→ltb}
use space_captain.GenericQueue.Codes.{RetVal}
use space_captain.GenericQueue.{Queue, front, advance}
use space_captain.GenericQueue.Inv.{IsValid, advance-IsValid, size-advance}
use space_captain.GenericQueue.Refine.{contents, contents-advance}
use space_captain.GenericQueue.Lifecycle.{apply_cleanup, drain, nuke_with_cleanup}

module _ {ℓ} {D : Type ℓ} (cleanup_fn : Option (ℕ → D → D)) where
  -- The callback on each item of a list in turn.
  pub cleanup_all : List ℕ → D → D
  cleanup_all [] user_data = user_data
  cleanup_all (x ∷ xs) user_data = cleanup_all xs (apply_cleanup cleanup_fn x user_data)

  drain_lem :
      (fuel : ℕ) (q : Queue) (user_data : D)
      → IsValid q
      → q.size ≡ fuel
      → ((drain fuel cleanup_fn q user_data).0 ≡ cleanup_all (contents q) user_data)
        × ((drain fuel cleanup_fn q user_data).1.size ≡ 0)
  unfolding drain cleanup_all
  drain_lem zero q user_data v e = (rw e, e)
  drain_lem (suc fuel) q user_data v e =
      rw (lt→ltb 0 q.size (omega arith), contents-advance v (omega arith))
        (drain_lem fuel (advance q) (apply_cleanup cleanup_fn (front q) user_data)
          (advance-IsValid v (omega arith)) (omega (arith, size-advance v)))

  -- Nuke_with_cleanup applies the callback to every item of a valid queue exactly once, oldest
  -- first, and its loop ends with the queue empty, within as many rounds as the queue has items.
  pub drain_ends :
      (errno : RetVal) (q : Queue) (destroyed : ℕ) (user_data : D)
      → IsValid q
      → ((nuke_with_cleanup errno (some q) destroyed cleanup_fn user_data).user_data
          ≡ cleanup_all (contents q) user_data)
        × ((drain q.size cleanup_fn q user_data).1.size ≡ 0)
  unfolding nuke_with_cleanup
  drain_ends errno q destroyed user_data v = drain_lem q.size q user_data v refl
