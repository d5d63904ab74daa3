-- ===== src/Common/Ownership.antt =====
-- Who owns what: a component that allocates blocks and initialises objects records what it acquires
-- and releases, in its order, and the record is checked here.
use mathlib.Core.Bool.{Bool, false, ◌||◌}
use mathlib.Core.Option.{Option, none, some}
use mathlib.Core.List.{List, [], ◌∷◌, ◌++◌}
use mathlib.Core.Path.{◌≡◌, refl}
use space_captain.Common.Tests.{if◌then◌else◌}

pub data Event (R : Type 0) : Type 0 where
  acquire release : R → Event R

-- `root` is the block that the other resources are part of.
module _ {R : Type 0} (same : R → R → Bool) (root : R) where
  abbrev pub owns : List R → R → Bool
  owns [] r = false
  owns (x ∷ xs) r = same x r || owns xs r

  abbrev pub drop_one : R → List R → List R
  drop_one r [] = []
  drop_one r (x ∷ xs) = if same x r then xs else x ∷ drop_one r xs

  abbrev pub is_only_root : List R → Bool
  is_only_root (x ∷ []) = same x root
  is_only_root _ = false

  -- A resource is acquired if it is not owned, and, but for the root, only while the root is owned.
  -- It is released if it is owned, the root only when nothing else is owned.
  abbrev pub own : List R → Event R → Option (List R)
  own live (acquire r) =
      if owns live r then none else if same r root || owns live root then some (r ∷ live) else none
  own live (release r) =
      if same r root
      then (if is_only_root live then some [] else none)
      else if owns live r
      then some (drop_one r live)
      else none

  -- What is owned after all the events, `none` if one of them is not allowed.
  unfoldable pub own_all : Option (List R) → List (Event R) → Option (List R)
  own_all none es = none
  own_all (some live) [] = some live
  own_all (some live) (e ∷ es) = own_all (own live e) es

  pub own_all-append :
      (live : Option (List R)) (es fs : List (Event R))
      → own_all live (es ++ fs) ≡ own_all (own_all live es) fs
  unfolding own_all
  own_all-append none es [] = refl
  own_all-append none es (f ∷ fs) = refl
  own_all-append (some live) [] fs = refl
  own_all-append (some live) (e ∷ es) fs = own_all-append (own live e) es fs
