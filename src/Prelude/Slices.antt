-- ===== src/Prelude/Slices.antt =====
-- Parts of parts of a list.
use aeneas2isabelle.Prelude.Lists.{take, drop}
use Prim.Native.Nat.{ℕ, zero, suc, ◌+◌, ◌≤◌}
use mathlib.Core.Path.{◌≡◌, refl, ap}
use mathlib.Core.List.{List, [], ◌∷◌}
use native.Mathlib.Omega.{arith}

module _ {ℓ} {A : Type ℓ} where
  pub take-take : (n m : ℕ) (xs : List A) → n ≤ m → take n (take m xs) ≡ take n xs
  take-take zero m xs h = refl
  take-take (suc n) zero xs h = absurd (omega arith)
  take-take (suc n) (suc m) [] h = refl
  take-take (suc n) (suc m) (x ∷ xs) h = ap (λ t. x ∷ t) (take-take n m xs (omega arith))

  pub drop-drop : (n m k : ℕ) (xs : List A) → k ≡ n + m → drop m (drop n xs) ≡ drop k xs
  drop-drop zero m k xs h = ap (λ (i : ℕ). drop i xs) (omega arith)
  drop-drop (suc n) m zero xs h = absurd (omega arith)
  drop-drop (suc n) zero (suc k) [] h = refl
  drop-drop (suc n) (suc m) (suc k) [] h = refl
  drop-drop (suc n) m (suc k) (x ∷ xs) h = drop-drop n m k xs (omega arith)

  -- A part that lies in the first `w` elements.
  pub take-drop-take :
      (k n w : ℕ) (xs : List A) → k + n ≤ w → take n (drop k (take w xs)) ≡ take n (drop k xs)
  take-drop-take zero n w xs h = take-take n w xs (omega arith)
  take-drop-take (suc k) n zero xs h = absurd (omega arith)
  take-drop-take (suc k) n (suc w) [] h = refl
  take-drop-take (suc k) n (suc w) (x ∷ xs) h = take-drop-take k n w xs (omega arith)
