-- ===== src/Jit/Reference/Layout.antt =====
-- Sizes, starts and placement when an instruction is added at the end of a program.
use aeneas2isabelle.Prelude.{
  ℕ, suc, ◌+◌, ◌≡◌, refl, ap, ◌∙◌, Option, none, some, List, [], ◌∷◌, ◌++◌, arith, length,
  length-append,
}
use aeneas2isabelle.Prelude.Words.{le_bytes, length-le_bytes}
use aeneas2isabelle.Jit.Result.{Result, ok, bind, bind-eq-ok, bind_assoc, ok-injective}
use aeneas2isabelle.Jit.Reference.{
  Branch, Selected, code, head, branch_size, size_of, total, starts, place_branch, place_one, place,
}
use aeneas2isabelle.Prelude.{◌^◌}
use aeneas2isabelle.Prelude.Int.{wrap}
use aeneas2isabelle.Jit.State.{relative_offset}
use native.Mathlib.Nat.{add-zero, add_assoc}
use mathlib.Core.List.{append-nil, append_assoc}

pub total-snoc : (xs : List Selected) (x : Selected) → total (xs ++ x ∷ []) ≡ total xs + size_of x
total-snoc [] x = omega arith
total-snoc (y ∷ xs) x = omega (arith, total-snoc xs x)

pub length-starts : (at : ℕ) (xs : List Selected) → length (starts at xs) ≡ length xs
unfolding starts
length-starts at [] = refl
length-starts at (x ∷ xs) = ap suc (length-starts (at + size_of x) xs)

pub starts-snoc :
    (at : ℕ) (xs : List Selected) (x : Selected)
    → starts at (xs ++ x ∷ []) ≡ starts at xs ++ (at + total xs) ∷ []
unfolding starts
starts-snoc at [] x = ap (λ t. t ∷ []) (omega arith)
starts-snoc at (y ∷ xs) x =
    ap (λ t. at ∷ t)
      (starts-snoc (at + size_of y) xs x
        ∙ ap (λ (t : ℕ). starts (at + size_of y) xs ++ t ∷ []) (omega arith))

pub length-place_branch :
    (layout : ℕ → Result ℕ) (end : ℕ) (b : Option Branch) (bytes : List ℕ)
    → place_branch layout end b ≡ ok bytes
    → length bytes ≡ branch_size b
unfolding place_branch
length-place_branch layout end none bytes h = ground arith
length-place_branch layout end (some b) bytes h =
    let (d, _, h₁) = bind-eq-ok (layout b.target_pc) _ h in
    let (z, _, h₂) = bind-eq-ok (relative_offset d end) _ h₁ in
    omega (
      arith,
      ap (length {A = ℕ}) (ok-injective h₂),
      length-append (head b.condition) (le_bytes 4 (wrap (2 ^ 32) z)),
      length-le_bytes 4 (wrap (2 ^ 32) z),
    )

pub length-place_one :
    (layout : ℕ → Result ℕ) (at : ℕ) (x : Selected) (bytes : List ℕ)
    → place_one layout at x ≡ ok bytes
    → length bytes ≡ size_of x
unfolding place_one
length-place_one layout at x bytes h =
    let (c, p, h₁) = bind-eq-ok (place_branch layout (at + size_of x) x.branch) _ h in
    omega (
      arith,
      ap (length {A = ℕ}) (ok-injective h₁),
      length-append (code x.body) c,
      length-place_branch layout (at + size_of x) x.branch c p,
    )

pub length-place :
    (layout : ℕ → Result ℕ) (at : ℕ) (xs : List Selected) (bytes : List ℕ)
    → place layout at xs ≡ ok bytes
    → length bytes ≡ total xs
unfolding place
length-place layout at [] bytes h = omega (arith, ap (length {A = ℕ}) (ok-injective h))
length-place layout at (x ∷ xs) bytes h =
    let (c, p, h₁) = bind-eq-ok (place_one layout at x) _ h in
    let (r, q, h₂) = bind-eq-ok (place layout (at + size_of x) xs) _ h₁ in
    omega (
      arith,
      ap (length {A = ℕ}) (ok-injective h₂),
      length-append c r,
      length-place_one layout at x c p,
      length-place layout (at + size_of x) xs r q,
    )

-- Placing one more instruction places it at the end of the others.
pub place-snoc :
    (layout : ℕ → Result ℕ) (at : ℕ) (xs : List Selected) (x : Selected)
    → place layout at (xs ++ x ∷ [])
      ≡ bind
          (place layout at xs)
          (λ bytes. bind (place_one layout (at + total xs) x) (λ c. ok (bytes ++ c)))
unfolding place
place-snoc layout at [] x = simp (add-zero, append-nil)
place-snoc layout at (y ∷ xs) x =
    simp (bind_assoc, place-snoc layout (at + size_of y) xs x, append_assoc, add_assoc)

pub starts-append :
    (at : ℕ) (xs ys : List Selected)
    → starts at (xs ++ ys) ≡ starts at xs ++ starts (at + total xs) ys
unfolding starts
starts-append at [] ys = ap (λ (n : ℕ). starts n ys) (omega arith)
starts-append at (x ∷ xs) ys =
    ap (λ l. at ∷ l)
      (starts-append (at + size_of x) xs ys
        ∙ ap (λ (n : ℕ). starts (at + size_of x) xs ++ starts n ys) (omega arith))

pub total-append : (xs ys : List Selected) → total (xs ++ ys) ≡ total xs + total ys
total-append [] ys = omega arith
total-append (x ∷ xs) ys = omega (arith, total-append xs ys)
