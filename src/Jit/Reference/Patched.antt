-- ===== src/Jit/Reference/Patched.antt =====
-- What patching the pending jumps of a text makes of it when the text grows by one instruction.
use aeneas2isabelle.Prelude.{
  ℕ, ◌+◌, ◌^◌, ◌≡◌, sym, ap, ◌∙◌, some, List, [], ◌∷◌, ◌++◌, arith, length,
}
use aeneas2isabelle.Prelude.Int.{ℤ, wrap}
use aeneas2isabelle.Prelude.Words.{le_bytes, length-le_bytes}
use aeneas2isabelle.Jit.Types.{JumpModel}
use aeneas2isabelle.Jit.Result.{Result, ok, bind, bind_assoc, bind_congr}
use aeneas2isabelle.Jit.State.{overwrite}
use aeneas2isabelle.X86.Types.{X86Instruction}
use aeneas2isabelle.Jit.Reference.{Branch, Selected, code, head, total, starts, place_one, place}
use aeneas2isabelle.Jit.Reference.Layout.{length-place, place-snoc}
use aeneas2isabelle.Jit.Reference.Patch.{
  overwrite-shift, overwrite_whole, patch_one, patch, AllWithin, patch-snoc, patch-append,
}
use aeneas2isabelle.Jit.Reference.Table.{Agrees}

-- The bytes of the program so far, once the pending jumps are patched, are those of the assembler,
-- whatever the layout of the rest of the program.
abbrev pub Patched : List Selected → List JumpModel → List ℕ → Type 0
Patched xs jumps text =
    (layout : ℕ → Result ℕ)
    → Agrees layout (starts 0 xs)
    → patch layout jumps text ≡ place layout 0 xs

-- Bytes that the layout settles at once.
pub patched_settled :
    (layout : ℕ → Result ℕ) (xs : List Selected) (x : Selected) (jumps : List JumpModel)
    (text chunk : List ℕ)
    → AllWithin (length text) jumps
    → patch layout jumps text ≡ place layout 0 xs
    → place_one layout (0 + total xs) x ≡ ok chunk
    → patch layout jumps (text ++ chunk) ≡ place layout 0 (xs ++ x ∷ [])
patched_settled layout xs x jumps text chunk inside before here =
    patch-append layout jumps text chunk inside
    ∙ ap (λ r. bind r (λ t. ok (t ++ chunk))) before
    ∙ ap (λ r. bind (place layout 0 xs) (λ t. bind r (λ c. ok (t ++ c)))) (sym here)
    ∙ sym (place-snoc layout 0 xs x)

overwrite_field :
    (t body hd zs new : List ℕ) (at : ℕ)
    → at ≡ length t + (length body + (length hd + 0))
    → length new ≡ length zs
    → overwrite at new (t ++ (body ++ (hd ++ zs))) ≡ t ++ (body ++ (hd ++ new))
overwrite_field t body hd zs new at e l =
    rw (e, overwrite-shift t, overwrite-shift body, overwrite-shift hd)
      (ap (λ u. t ++ (body ++ (hd ++ u))) (overwrite_whole new zs l))

-- Patching the last jump gives the bytes that the assembler places.
patch_last :
    (layout : ℕ → Result ℕ) (body : List X86Instruction) (b : Branch) (at : ℕ) (t zs : List ℕ)
    → length t ≡ at
    → length zs ≡ 4
    → patch_one layout
        (record {
          location = at + (length (code body) + length (head b.condition));
          target_pc = b.target_pc;
        })
        (t ++ (code body ++ (head b.condition ++ zs)))
      ≡ bind (place_one layout at (record { body = body; branch = some b })) (λ c. ok (t ++ c))
unfolding patch_one place_one
patch_last layout body b at t zs lt lz = simp (bind_assoc, written, ends)
  where
    ends :
        at + (length (code body) + length (head b.condition)) + 4
        ≡ at + (length (code body) + (length (head b.condition) + 4))
    ends = omega arith

    written :
        (z : ℤ)
        → overwrite
            (at + (length (code body) + length (head b.condition)))
            (le_bytes 4 (wrap (2 ^ 32) z))
            (t ++ (code body ++ (head b.condition ++ zs)))
          ≡ t ++ (code body ++ (head b.condition ++ le_bytes 4 (wrap (2 ^ 32) z)))
    written z =
        overwrite_field t (code body) (head b.condition) zs (le_bytes 4 (wrap (2 ^ 32) z)) _
          (omega arith) (omega (arith, length-le_bytes 4 (wrap (2 ^ 32) z)))

pub patched_pending :
    (layout : ℕ → Result ℕ) (xs : List Selected) (body : List X86Instruction) (b : Branch)
    (jumps : List JumpModel) (text zs : List ℕ)
    → AllWithin (length text) jumps
    → length zs ≡ 4
    → patch layout jumps text ≡ place layout 0 xs
    → patch layout
        (jumps
          ++ record {
            location = 0 + total xs + (length (code body) + length (head b.condition));
            target_pc = b.target_pc;
          }
            ∷ [])
        (text ++ (code body ++ (head b.condition ++ zs)))
      ≡ place layout 0 (xs ++ record { body = body; branch = some b } ∷ [])
patched_pending layout xs body b jumps text zs inside lz before =
    patch-snoc layout jumps _ _
    ∙ ap (λ r. bind r (patch_one layout last)) (patch-append layout jumps text chunk inside)
    ∙ bind_assoc (patch layout jumps text) _ _
    ∙ ap (λ r. bind r (λ t. patch_one layout last (t ++ chunk))) before
    ∙ bind_congr (place layout 0 xs) _ _ (λ t p.
      patch_last layout body b (0 + total xs) t zs (omega (arith, length-place layout 0 xs t p)) lz)
    ∙ sym (place-snoc layout 0 xs _)
  where
    chunk : List ℕ
    chunk = code body ++ (head b.condition ++ zs)

    last : JumpModel
    last = record {
      location = 0 + total xs + (length (code body) + length (head b.condition));
      target_pc = b.target_pc;
    }
