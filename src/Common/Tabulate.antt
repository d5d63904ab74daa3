-- ===== src/Common/Tabulate.antt =====
-- The list of the values of a function at 0, 1, …, n - 1.
use Prim.Native.Nat.{ℕ, zero, suc, ◌<◌}
use mathlib.Core.Path.{◌≡◌, refl, ap, ap₂}
use mathlib.Core.List.{List, [], ◌∷◌, ◌++◌}
use native.Mathlib.Omega.{arith}
use space_captain.Common.Lists.{length}

module _ {ℓ} {A : Type ℓ} where
  abbrev pub tabulate : (ℕ → A) → ℕ → List A
  tabulate f zero = []
  tabulate f (suc n) = f 0 ∷ tabulate (λ k. f (suc k)) n

  pub length-tabulate : (f : ℕ → A) (n : ℕ) → length (tabulate f n) ≡ n
  length-tabulate f zero = refl
  length-tabulate f (suc n) = ap suc (length-tabulate (λ k. f (suc k)) n)

  -- Only the values below `n` count.
  pub tabulate_ext :
      (f g : ℕ → A) (n : ℕ) → ((k : ℕ) → k < n → f k ≡ g k) → tabulate f n ≡ tabulate g n
  tabulate_ext f g zero h = refl
  tabulate_ext f g (suc n) h =
      ap₂ ◌∷◌ (h 0 (omega arith))
        (tabulate_ext (λ k. f (suc k)) (λ k. g (suc k)) n (λ k lt. h (suc k) (omega arith)))

  -- The last value stands at the end.
  pub tabulate_snoc : (f : ℕ → A) (n : ℕ) → tabulate f (suc n) ≡ tabulate f n ++ (f n ∷ [])
  tabulate_snoc f zero = refl
  tabulate_snoc f (suc n) = ap (◌∷◌ (f 0)) (tabulate_snoc (λ k. f (suc k)) n)
