-- ===== src/Jit/Reference/Step.antt =====
-- The compiler's state after a prefix of the program, and what one instruction does to it.
use aeneas2isabelle.Prelude.{
  ℕ, ◌+◌, ◌^◌, ◌≡◌, sym, ap, subst, ◌∙◌, Option, none, some, List, [], ◌∷◌, ◌++◌, arith, length,
  length-append, get_elem?, ◌⊎◌, inl, inr,
}
use aeneas2isabelle.Prelude.Int.{ℤ, pos, wrap}
use aeneas2isabelle.Prelude.Words.{le_bytes, length-le_bytes}
use aeneas2isabelle.Jit.Types.{JitCompilerModel}
use aeneas2isabelle.Jit.Result.{Result, ok, done, done-injective, and_then-eq-done}
use aeneas2isabelle.Jit.State.{relative_to_target_pc, relative_offset, emit_bytes}
use aeneas2isabelle.X86.Types.{X86Instruction}
use aeneas2isabelle.Jit.Reference.{Branch, Selected, code, head, total, straight, starts, place_one}
use aeneas2isabelle.Jit.Reference.Layout.{total-snoc}
use aeneas2isabelle.Jit.Reference.Patch.{AllWithin, AllWithin-mono, AllWithin-snoc}
use aeneas2isabelle.Jit.Reference.Select.{emit_selected}
use mathlib.Core.List.{append-nil, append_assoc}
use aeneas2isabelle.Jit.Reference.Table.{table, get_elem?-table, Agrees-init}
use aeneas2isabelle.Jit.Reference.Patched.{Patched, patched_settled, patched_pending}

module _ (t k : ℕ) (s : JitCompilerModel) where
  abbrev later : JitCompilerModel
  later = record s {
    text_section_jumps =
        s.text_section_jumps ++ record { location = length s.text_section + k; target_pc = t } ∷ [];
  }

  relative_cases :
      (z : ℤ) (s' : JitCompilerModel)
      → relative_to_target_pc t (k + 4) s ≡ done z s'
      → ((d : ℕ) × (get_elem? s.pc_section t ≡ some (some d))
          × (relative_offset d (length s.text_section + (k + 4)) ≡ ok z)
          × (s' ≡ s))
        ⊎ ((get_elem? s.pc_section t ≡ some none) × (s' ≡ later) × (z ≡ pos 0))
  unfolding relative_to_target_pc
  relative_cases z s' h = ground arith

-- `xs` are the instructions emitted, and `m` PC slots are not set yet.
pub record IsAfter (xs : List Selected) (m : ℕ) (s : JitCompilerModel) : Type 0 where
  pub pcs : s.pc_section ≡ table (starts 0 xs) m
  pub size : length s.text_section ≡ total xs
  pub within : AllWithin (length s.text_section) s.text_section_jumps
  pub patched : Patched xs s.text_section_jumps s.text_section

-- The state once the start of the next instruction is set, and before its bytes are emitted.
pub record IsBefore (xs : List Selected) (x : Selected) (m : ℕ) (s : JitCompilerModel)
    : Type 0 where
  pub pcs : s.pc_section ≡ table (starts 0 (xs ++ x ∷ [])) m
  pub size : length s.text_section ≡ total xs
  pub within : AllWithin (length s.text_section) s.text_section_jumps
  pub patched : Patched xs s.text_section_jumps s.text_section

emit_straight-IsAfter :
    (xs : List Selected) (body : List X86Instruction) (m : ℕ) (s s' : JitCompilerModel)
    → IsBefore xs (record { body = body; branch = none }) m s
    → emit_selected (record { body = body; branch = none }) s ≡ done tt s'
    → IsAfter (xs ++ record { body = body; branch = none } ∷ []) m s'
unfolding emit_selected emit_bytes place_one
emit_straight-IsAfter xs body m s s' h e =
    subst (IsAfter (xs ++ straight body ∷ []) m) (done-injective e) after
  where
    after : IsAfter (xs ++ straight body ∷ []) m (emit_bytes (code body) s)
    after = record {
      pcs = h.pcs;
      size =
          omega (
            arith,
            length-append s.text_section (code body),
            total-snoc xs (straight body),
            h.size,
          );
      within =
          AllWithin-mono (length s.text_section) _ s.text_section_jumps
            (omega (arith, length-append s.text_section (code body))) h.within;
      patched = λ layout ag.
          patched_settled layout xs (straight body) s.text_section_jumps s.text_section (code body)
            h.within (h.patched layout (Agrees-init layout xs (straight body) ag))
            (ap ok (append-nil (code body)));
    }

place_known :
    (layout : ℕ → Result ℕ) (body : List X86Instruction) (b : Branch) (at d : ℕ) (z : ℤ)
    → layout b.target_pc ≡ ok d
    → relative_offset d (at + (length (code body) + (length (head b.condition) + 4))) ≡ ok z
    → place_one layout at (record { body = body; branch = some b })
      ≡ ok (code body ++ (head b.condition ++ le_bytes 4 (wrap (2 ^ 32) z)))
unfolding place_one
place_known layout body b at d z e f = rw (e, f)

-- A branch back: its displacement is known.
emit_known-IsAfter :
    (xs : List Selected) (body : List X86Instruction) (b : Branch) (m : ℕ) (s : JitCompilerModel)
    (d : ℕ) (z : ℤ)
    → IsBefore xs (record { body = body; branch = some b }) m s
    → get_elem? s.pc_section b.target_pc ≡ some (some d)
    → relative_offset d (0 + total xs + (length (code body) + (length (head b.condition) + 4)))
      ≡ ok z
    → IsAfter
        (xs ++ record { body = body; branch = some b } ∷ [])
        m
        (emit_bytes (head b.condition ++ le_bytes 4 (wrap (2 ^ 32) z)) (emit_bytes (code body) s))
unfolding emit_bytes place_one
emit_known-IsAfter xs body b m s d z h slot offset = record {
  pcs = h.pcs;
  size = omega (
    arith,
    length-append (s.text_section ++ code body) (head b.condition ++ le_bytes 4 (wrap (2 ^ 32) z)),
    length-append s.text_section (code body),
    length-append (head b.condition) (le_bytes 4 (wrap (2 ^ 32) z)),
    length-le_bytes 4 (wrap (2 ^ 32) z),
    total-snoc xs (record { body = body; branch = some b }),
    h.size,
  );
  within =
      AllWithin-mono (length s.text_section) _ s.text_section_jumps
        (omega (
          arith,
          length-append (s.text_section ++ code body)
              (head b.condition ++ le_bytes 4 (wrap (2 ^ 32) z)),
          length-append s.text_section (code body),
        ))
        h.within;
  patched = λ layout ag. rw append_assoc (
      patched_settled layout xs (record { body = body; branch = some b }) s.text_section_jumps
        s.text_section _ h.within (h.patched layout (Agrees-init layout xs _ ag))
        (place_known layout body b (0 + total xs) d z
          (ag b.target_pc d (get_elem?-table _ m b.target_pc d (rw h.pcs at slot))) offset));
}

-- A branch ahead: it is recorded, and written with a displacement of 0 for now.
emit_pending-IsAfter :
    (xs : List Selected) (body : List X86Instruction) (b : Branch) (m : ℕ) (s : JitCompilerModel)
    (zs : List ℕ)
    → IsBefore xs (record { body = body; branch = some b }) m s
    → length zs ≡ 4
    → IsAfter (xs ++ record { body = body; branch = some b } ∷ []) m (
        emit_bytes
          (head b.condition ++ zs)
          (later b.target_pc (length (head b.condition)) (emit_bytes (code body) s)))
unfolding emit_bytes
emit_pending-IsAfter xs body b m s zs h lz = record {
  pcs = h.pcs;
  size = omega (
    arith,
    length-append (s.text_section ++ code body) (head b.condition ++ zs),
    length-append s.text_section (code body),
    length-append (head b.condition) zs,
    total-snoc xs (record { body = body; branch = some b }),
    h.size,
  );
  within =
      AllWithin-snoc _ s.text_section_jumps _
        (AllWithin-mono (length s.text_section) _ s.text_section_jumps
          (omega (
            arith,
            length-append (s.text_section ++ code body) (head b.condition ++ zs),
            length-append s.text_section (code body),
          ))
          h.within)
        (omega (
          arith,
          length-append (s.text_section ++ code body) (head b.condition ++ zs),
          length-append (head b.condition) zs,
        ));
  patched = λ layout ag.
      rw (append_assoc, location)
        (patched_pending layout xs body b s.text_section_jumps s.text_section zs h.within lz
          (h.patched layout (Agrees-init layout xs _ ag)));
}
  where
    location :
        length (s.text_section ++ code body) + length (head b.condition)
        ≡ 0 + total xs + (length (code body) + length (head b.condition))
    location = omega (arith, length-append s.text_section (code body), h.size)

-- Emitting what was selected for an instruction keeps the correspondence.
pub emit_selected-IsAfter :
    (xs : List Selected) (body : List X86Instruction) (b : Option Branch) (m : ℕ)
    (s s' : JitCompilerModel)
    → IsBefore xs (record { body = body; branch = b }) m s
    → emit_selected (record { body = body; branch = b }) s ≡ done tt s'
    → IsAfter (xs ++ record { body = body; branch = b } ∷ []) m s'
unfolding emit_selected emit_bytes
emit_selected-IsAfter xs body none m s s' h e = emit_straight-IsAfter xs body m s s' h e
emit_selected-IsAfter xs body (some b) m s s' h e =
    let (z, t, found, rest) =
      and_then-eq-done
        (relative_to_target_pc b.target_pc (length (head b.condition) + 4)
          (emit_bytes (code body) s))
        _ e in
    elim (relative_cases b.target_pc (length (head b.condition)) (emit_bytes (code body) s) z t
      found) [
        | inl (d, slot, offset, same) ↦
            subst (IsAfter (xs ++ record { body = body; branch = some b } ∷ []) m)
              (ap (emit_bytes (head b.condition ++ le_bytes 4 (wrap (2 ^ 32) z))) (sym same)
                ∙ done-injective rest)
              (emit_known-IsAfter xs body b m s d z h slot (rw (← here) offset))
        | inr (_, same, _) ↦
            subst (IsAfter (xs ++ record { body = body; branch = some b } ∷ []) m)
              (ap (emit_bytes (head b.condition ++ le_bytes 4 (wrap (2 ^ 32) z))) (sym same)
                ∙ done-injective rest)
              (emit_pending-IsAfter xs body b m s (le_bytes 4 (wrap (2 ^ 32) z)) h
                (length-le_bytes 4 (wrap (2 ^ 32) z)))
      ]
  where
    here :
        length (s.text_section ++ code body) + (length (head b.condition) + 4)
        ≡ 0 + total xs + (length (code body) + (length (head b.condition) + 4))
    here = omega (arith, length-append s.text_section (code body), h.size)
