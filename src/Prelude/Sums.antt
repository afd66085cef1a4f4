-- ===== src/Prelude/Sums.antt =====
-- `Vec::swap_remove`, sums over a list, and how the changes of a list change them.
use Prim.Native.Nat.{ℕ, zero, suc, ◌+◌, ◌≤◌}
use mathlib.Core.Path.{◌≡◌, refl}
use mathlib.Core.List.{List, [], ◌∷◌, ◌++◌}
use native.Mathlib.Omega.{arith}
use felix.Prelude.Lists.{set}

module _ {ℓ} {A : Type ℓ} where
  -- `Vec::swap_remove`: the last element takes the place.
  unfoldable pub drop_last : List A → List A
  drop_last [] = []
  drop_last (p ∷ []) = []
  drop_last (p ∷ q ∷ qs) = p ∷ drop_last (q ∷ qs)

  unfoldable pub final : A → List A → A
  final p [] = p
  final p (q ∷ qs) = final q qs

  unfoldable pub swap_remove : List A → ℕ → List A
  swap_remove [] i = []
  swap_remove (p ∷ []) zero = []
  swap_remove (p ∷ q ∷ qs) zero = final q qs ∷ drop_last (q ∷ qs)
  swap_remove (p ∷ ps) (suc i) = p ∷ swap_remove ps i

  unfoldable pub total : (A → ℕ) → List A → ℕ
  total w [] = 0
  total w (p ∷ ps) = w p + total w ps

  pub total-cons : (w : A → ℕ) (p : A) (ps : List A) → total w (p ∷ ps) ≡ w p + total w ps
  unfolding total
  total-cons w p ps = refl

  pub total-append : (w : A → ℕ) (xs ys : List A) → total w (xs ++ ys) ≡ total w xs + total w ys
  unfolding total
  total-append w [] ys = omega arith
  total-append w (x ∷ xs) ys = omega (arith, total-append w xs ys)

  pub total-single : (w : A → ℕ) (p : A) → total w (p ∷ []) ≡ w p
  unfolding total
  total-single w p = omega arith

  -- An element that the list holds at an index.
  pub data Holds : List A → ℕ → A → Type ℓ where
    here : {p : A} {ps : List A} → Holds (p ∷ ps) zero p
    there : {p q : A} {ps : List A} {i : ℕ} → Holds ps i p → Holds (q ∷ ps) (suc i) p

  pub total-Holds : (w : A → ℕ) (xs : List A) (i : ℕ) (p : A) → Holds xs i p → w p ≤ total w xs
  unfolding total
  total-Holds w _ _ p here = omega arith
  total-Holds w (q ∷ ps) (suc i) p (there h) = omega (arith, total-Holds w ps i p h)

  pub total-set :
      (w : A → ℕ) (xs : List A) (i : ℕ) (p q : A)
      → Holds xs i p
      → total w (set xs i q) + w p ≡ total w xs + w q
  unfolding total
  total-set w [] i p q h = elim h [ ]
  total-set w (x ∷ ps) zero p q here = omega arith
  total-set w (x ∷ ps) (suc i) p q (there h) = omega (arith, total-set w ps i p q h)

  pub total-drop_last :
      (w : A → ℕ) (q : A) (qs : List A)
      → w (final q qs) + total w (drop_last (q ∷ qs)) ≡ w q + total w qs
  unfolding total final drop_last
  total-drop_last w q [] = omega arith
  total-drop_last w q (r ∷ rs) = omega (arith, total-drop_last w r rs)

  pub total-swap_remove :
      (w : A → ℕ) (xs : List A) (i : ℕ) (p : A)
      → Holds xs i p
      → total w (swap_remove xs i) + w p ≡ total w xs
  unfolding total swap_remove
  total-swap_remove w [] i p h = elim h [ ]
  total-swap_remove w (p ∷ []) zero _ here = omega arith
  total-swap_remove w (p ∷ q ∷ qs) zero _ here = omega (arith, total-drop_last w q qs)
  total-swap_remove w (x ∷ []) (suc i) p (there h) = elim h [ ]
  total-swap_remove w (x ∷ q ∷ qs) (suc i) p (there h) =
      omega (arith, total-swap_remove w (q ∷ qs) i p h)
