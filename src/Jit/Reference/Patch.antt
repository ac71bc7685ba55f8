-- ===== src/Jit/Reference/Patch.antt =====
-- Patching pending jumps: in place, one after another, and in a text that grows at its end.
use aeneas2isabelle.Prelude.{
  ℕ, zero, suc, ◌+◌, ◌^◌, ◌≤◌, ◌≡◌, refl, sym, ap, ◌∙◌, List, [], ◌∷◌, ◌++◌, arith, length,
}
use Prim.Native.Nat.add
use aeneas2isabelle.Prelude.Int.{ℤ, wrap}
use aeneas2isabelle.Prelude.Words.{le_bytes, length-le_bytes}
use aeneas2isabelle.Jit.Types.{JumpModel}
use aeneas2isabelle.Jit.Result.{
  Result, ok, bind, bind-eq-ok, bind-ok, bind_assoc, bind_congr, ok-injective,
}
use aeneas2isabelle.Jit.State.{relative_offset, overwrite}

-- A write within the first part of a text leaves what follows it.
pub overwrite-append :
    (at : ℕ) (bytes text more : List ℕ)
    → at + length bytes ≤ length text
    → overwrite at bytes (text ++ more) ≡ overwrite at bytes text ++ more
unfolding overwrite
overwrite-append zero [] text more h = refl
overwrite-append zero (b ∷ bytes) [] more h = absurd (omega arith)
overwrite-append zero (b ∷ bytes) (x ∷ text) more h =
    ap (λ t. b ∷ t) (overwrite-append zero bytes text more (omega arith))
overwrite-append (suc n) bytes [] more h = absurd (omega arith)
overwrite-append (suc n) bytes (x ∷ text) more h =
    ap (λ t. x ∷ t) (overwrite-append n bytes text more (omega arith))

pub overwrite-shift :
    (text more : List ℕ) (at : ℕ) (bytes : List ℕ)
    → overwrite (length text + at) bytes (text ++ more) ≡ text ++ overwrite at bytes more
unfolding overwrite
overwrite-shift [] more at bytes = ap (λ (t : ℕ). overwrite t bytes more) (omega arith)
overwrite-shift (x ∷ text) more at bytes =
    rw add.suc (ap (λ t. x ∷ t) (overwrite-shift text more at bytes))

pub overwrite_whole :
    (bytes text : List ℕ) → length bytes ≡ length text → overwrite 0 bytes text ≡ bytes
unfolding overwrite
overwrite_whole [] [] h = refl
overwrite_whole [] (x ∷ text) h = absurd (omega arith)
overwrite_whole (b ∷ bytes) [] h = absurd (omega arith)
overwrite_whole (b ∷ bytes) (x ∷ text) h =
    ap (λ t. b ∷ t) (overwrite_whole bytes text (omega arith))

pub length-overwrite :
    (at : ℕ) (bytes text : List ℕ) → length (overwrite at bytes text) ≡ length text
unfolding overwrite
length-overwrite zero [] text = refl
length-overwrite zero (b ∷ bytes) [] = refl
length-overwrite zero (b ∷ bytes) (x ∷ text) = ap suc (length-overwrite zero bytes text)
length-overwrite (suc n) bytes [] = refl
length-overwrite (suc n) bytes (x ∷ text) = ap suc (length-overwrite n bytes text)

-- One relocation and all of them, under a layout, with no bound to check.
unfoldable pub patch_one : (ℕ → Result ℕ) → JumpModel → List ℕ → Result (List ℕ)
patch_one layout j text = bind (layout j.target_pc) λ destination.
    bind (relative_offset destination (j.location + 4))
      λ displacement. ok (overwrite j.location (le_bytes 4 (wrap (2 ^ 32) displacement)) text)

unfoldable pub patch : (ℕ → Result ℕ) → List JumpModel → List ℕ → Result (List ℕ)
unfolding patch_one
patch layout [] text = ok text
patch layout (j ∷ jumps) text = bind (patch_one layout j text) (patch layout jumps)

-- Every pending jump lies within a text of this size.
abbrev pub AllWithin : ℕ → List JumpModel → Type 0
AllWithin n [] = Unit
AllWithin n (j ∷ jumps) = (j.location + 4 ≤ n) × AllWithin n jumps

pub AllWithin-mono :
    (n m : ℕ) (jumps : List JumpModel) → n ≤ m → AllWithin n jumps → AllWithin m jumps
AllWithin-mono n m [] le h = tt
AllWithin-mono n m (j ∷ jumps) le (h, t) = (omega arith, AllWithin-mono n m jumps le t)

pub AllWithin-snoc :
    (n : ℕ) (jumps : List JumpModel) (j : JumpModel)
    → AllWithin n jumps
    → j.location + 4 ≤ n
    → AllWithin n (jumps ++ j ∷ [])
AllWithin-snoc n [] j h e = (e, tt)
AllWithin-snoc n (i ∷ jumps) j (h, t) e = (h, AllWithin-snoc n jumps j t e)

pub patch-snoc :
    (layout : ℕ → Result ℕ) (jumps : List JumpModel) (j : JumpModel) (text : List ℕ)
    → patch layout (jumps ++ j ∷ []) text ≡ bind (patch layout jumps text) (patch_one layout j)
unfolding patch
patch-snoc layout [] j text = bind-ok (patch_one layout j text)
patch-snoc layout (i ∷ jumps) j text =
    bind_congr (patch_one layout i text) _ _ (λ t _. patch-snoc layout jumps j t)
    ∙ sym (bind_assoc (patch_one layout i text) _ _)

pub patch_one-append :
    (layout : ℕ → Result ℕ) (j : JumpModel) (text more : List ℕ)
    → j.location + 4 ≤ length text
    → patch_one layout j (text ++ more)
      ≡ bind (patch_one layout j text) (λ bytes. ok (bytes ++ more))
unfolding patch_one
patch_one-append layout j text more h =
    bind_congr (layout j.target_pc) _ _ (λ d _.
      bind_congr (relative_offset d (j.location + 4)) _ _ (λ z _. ap ok (overwritten z))
      ∙ sym (bind_assoc (relative_offset d (j.location + 4)) _ _))
    ∙ sym (bind_assoc (layout j.target_pc) _ _)
  where
    overwritten :
        (z : ℤ)
        → overwrite j.location (le_bytes 4 (wrap (2 ^ 32) z)) (text ++ more)
          ≡ overwrite j.location (le_bytes 4 (wrap (2 ^ 32) z)) text ++ more
    overwritten z =
        overwrite-append j.location (le_bytes 4 (wrap (2 ^ 32) z)) text more
          (omega (arith, length-le_bytes 4 (wrap (2 ^ 32) z)))

length-patch_one :
    (layout : ℕ → Result ℕ) (j : JumpModel) (text out : List ℕ)
    → patch_one layout j text ≡ ok out
    → length out ≡ length text
unfolding patch_one
length-patch_one layout j text out h =
    let (d, _, h₁) = bind-eq-ok (layout j.target_pc) _ h in
    let (z, _, h₂) = bind-eq-ok (relative_offset d (j.location + 4)) _ h₁ in
    omega (
      arith,
      ap (length {A = ℕ}) (ok-injective h₂),
      length-overwrite j.location (le_bytes 4 (wrap (2 ^ 32) z)) text,
    )

-- Bytes added behind the pending jumps do not take part in the patching.
pub patch-append :
    (layout : ℕ → Result ℕ) (jumps : List JumpModel) (text more : List ℕ)
    → AllWithin (length text) jumps
    → patch layout jumps (text ++ more) ≡ bind (patch layout jumps text) (λ t. ok (t ++ more))
unfolding patch
patch-append layout [] text more h = refl
patch-append layout (j ∷ jumps) text more (here, later) =
    ap (λ r. bind r (patch layout jumps)) (patch_one-append layout j text more here)
    ∙ bind_assoc (patch_one layout j text) _ _
    ∙ bind_congr (patch_one layout j text) _ _
        (λ t p. patch-append layout jumps t more (rw (length-patch_one layout j text t p) later))
    ∙ sym (bind_assoc (patch_one layout j text) _ _)
