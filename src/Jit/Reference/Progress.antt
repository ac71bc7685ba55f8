-- ===== src/Jit/Reference/Progress.antt =====
-- Single steps of the compiler do not fail on a program that the two-pass assembler assembles.
use aeneas2isabelle.Prelude.{
  ℕ, zero, suc, ◌+◌, ◌^◌, ◌≤◌, ◌<◌, ◌≡◌, refl, sym, ap, subst, ◌∙◌, Option, none, some, List, [],
  ◌∷◌, ◌++◌, arith, length, length-append, get_elem?, get_elem?-lt,
}
use aeneas2isabelle.Prelude.Int.{ℤ, pos, wrap}
use aeneas2isabelle.Prelude.Words.{le_bytes}
use aeneas2isabelle.Jit.Types.{JumpModel, JitCompilerModel, invalid_program_counter}
use aeneas2isabelle.Jit.Result.{Result, ok, bind-eq-ok, ok_or-eq-ok, done, ok-injective}
use aeneas2isabelle.Jit.State.{
  relative_to_target_pc, relative_offset, resolve_jump, resolve_loop, emit_bytes,
}
use aeneas2isabelle.Jit.Reference.{
  Branch, Selected, code, head, size_of, total, starts, place_branch, place_one, layout_of,
}
use aeneas2isabelle.Jit.Reference.Layout.{length-starts, starts-append, total-append}
use aeneas2isabelle.Jit.Reference.Patch.{patch_one, patch, AllWithin, length-overwrite}
use aeneas2isabelle.Jit.Reference.Table.{
  table, length-table, get_elem?-table, get_elem?-append_left,
}
use aeneas2isabelle.Jit.Reference.Select.{emit_selected, emit_branch}
use aeneas2isabelle.Jit.Reference.Step.{IsBefore}
use aeneas2isabelle.X86.Types.{X86Instruction}
use aeneas2isabelle.Jit.Reference.Refines.{pc_layout}

resolve_jump-done :
    (j : JumpModel) (s : JitCompilerModel) (text : List ℕ)
    → j.location + 4 ≤ length s.text_section
    → length s.text_section < 2 ^ 64
    → patch_one (pc_layout s.pc_section) j s.text_section ≡ ok text
    → resolve_jump j s ≡ done tt (record s { text_section = text })
unfolding resolve_jump patch_one
resolve_jump-done j s text within small h = ground arith

length-patch_one :
    (layout : ℕ → Result ℕ) (j : JumpModel) (text new : List ℕ)
    → patch_one layout j text ≡ ok new
    → length new ≡ length text
unfolding patch_one
length-patch_one layout j text new h =
    let (d, _, h₁) = bind-eq-ok (layout j.target_pc) _ h in
    let (z, _, h₂) = bind-eq-ok (relative_offset d (j.location + 4)) _ h₁ in
    sym (ap (length {A = ℕ}) (ok-injective h₂))
    ∙ length-overwrite j.location (le_bytes 4 (wrap (2 ^ 32) z)) text

pub resolve_loop-done :
    (jumps : List JumpModel) (s : JitCompilerModel) (text : List ℕ)
    → AllWithin (length s.text_section) jumps
    → length s.text_section < 2 ^ 64
    → patch (pc_layout s.pc_section) jumps s.text_section ≡ ok text
    → (t : JitCompilerModel) × (resolve_loop jumps s ≡ done tt t)
unfolding resolve_loop patch
resolve_loop-done [] s text within small h = (s, refl)
resolve_loop-done (j ∷ jumps) s text (first, others) small h =
    let (new, e, h₁) = bind-eq-ok (patch_one (pc_layout s.pc_section) j s.text_section) _ h in
    let same = length-patch_one (pc_layout s.pc_section) j s.text_section new e in
    let (t, q) =
      resolve_loop-done jumps (record s { text_section = new }) text
        (subst (λ (n : ℕ). AllWithin n jumps) (sym same) others) (omega (arith, same)) h₁ in
    (t, rw (resolve_jump-done j s new first small e) q)

relative_to_target_pc-done :
    (t k : ℕ) (s : JitCompilerModel) (slot : Option ℕ)
    → get_elem? s.pc_section t ≡ some slot
    → length s.text_section + (k + 4) < 2 ^ 64
    → ((d : ℕ)
        → slot ≡ some d
        → (z : ℤ) × (relative_offset d (length s.text_section + (k + 4)) ≡ ok z))
    → (z : ℤ) × (u : JitCompilerModel) × (relative_to_target_pc t (k + 4) s ≡ done z u)
unfolding relative_to_target_pc
relative_to_target_pc-done t k s none e small h = (pos 0, pending, noted)
  where
    pending : JitCompilerModel
    pending = record s {
      text_section_jumps =
          s.text_section_jumps
          ++ record { location = length s.text_section + k; target_pc = t } ∷ [];
    }

    noted : relative_to_target_pc t (k + 4) s ≡ done (pos 0) pending
    noted = ground arith
relative_to_target_pc-done t k s (some d) e small h =
    let (z, f) = h d refl in
    let found : relative_to_target_pc t (k + 4) s ≡ done z s = ground arith in (z, s, found)

-- The slot of a target that the layout knows, while `m` slots are not set.
get_elem?-below : (ds : List ℕ) (t d : ℕ) → get_elem? ds t ≡ some d → t < length ds
get_elem?-below [] t d h = cc
get_elem?-below (e ∷ ds) zero d h = omega arith
get_elem?-below (e ∷ ds) (suc t) d h = omega (arith, get_elem?-below ds t d h)

target_slot :
    (zs : List Selected) (ds : List ℕ) (m t : ℕ) (d : ℕ)
    → length ds + m ≡ length zs
    → layout_of zs t ≡ ok d
    → (slot : Option ℕ) × (get_elem? (table ds m) t ≡ some slot)
target_slot zs ds m t d l e = get_elem?-lt (table ds m) t (
    omega (
      arith,
      length-table ds m,
      length-starts 0 zs,
      get_elem?-below (starts 0 zs) t d
          (ok_or-eq-ok (get_elem? (starts 0 zs) t) invalid_program_counter e),
    ))

-- A start that the emitted part of a program has is the start that the whole program has.
prefix_start :
    (xs ys zs : List Selected) (t d e : ℕ)
    → xs ++ ys ≡ zs
    → get_elem? (starts 0 xs) t ≡ some d
    → layout_of zs t ≡ ok e
    → d ≡ e
prefix_start xs ys zs t d e split found laid =
    let whole : get_elem? (starts 0 (xs ++ ys)) t ≡ some d =
      rw (starts-append 0 xs ys) (get_elem?-append_left (starts 0 xs) _ t d found) in
    let other : get_elem? (starts 0 zs) t ≡ some e =
      ok_or-eq-ok (get_elem? (starts 0 zs) t) invalid_program_counter laid in
    let same : get_elem? (starts 0 (xs ++ ys)) t ≡ get_elem? (starts 0 zs) t =
      ap (λ l. get_elem? (starts 0 l) t) split in
    cc

-- A branch that the assembler can place does not fail in the compiler.
emit_branch-done :
    (zs xs ys : List Selected) (body : List X86Instruction) (b : Branch) (s : JitCompilerModel)
    (bytes : List ℕ)
    → IsBefore xs (record { body = body; branch = some b }) (length ys) s
    → (xs ++ record { body = body; branch = some b } ∷ []) ++ ys ≡ zs
    → total zs < 2 ^ 64
    → place_one (layout_of zs) (0 + total xs) (record { body = body; branch = some b }) ≡ ok bytes
    → (z : ℤ) × (u : JitCompilerModel) × (relative_to_target_pc b.target_pc
          (length (head b.condition) + 4)
          (emit_bytes (code body) s)
        ≡ done z u)
unfolding place_one emit_bytes
emit_branch-done zs xs ys body b s bytes h split small placed =
    let (c, e₀, _) =
      bind-eq-ok
        (place_branch (layout_of zs)
          (0 + total xs + size_of (record { body = body; branch = some b })) (some b))
        _ placed in
    let (d, e₁, h₁) = bind-eq-ok (layout_of zs b.target_pc) _ (unfold place_branch in e₀) in
    let (z, e₂, _) =
      bind-eq-ok
        (relative_offset d (0 + total xs + size_of (record { body = body; branch = some b }))) _
        h₁ in
    let (slot, at_slot) =
      target_slot zs (starts 0 (xs ++ record { body = body; branch = some b } ∷ [])) (length ys)
        b.target_pc d
        (omega (
          arith,
          length-starts 0 (xs ++ record { body = body; branch = some b } ∷ []),
          ap (length {A = Selected}) split,
          length-append (xs ++ record { body = body; branch = some b } ∷ []) ys,
        ))
        e₁ in
    relative_to_target_pc-done b.target_pc (length (head b.condition)) (emit_bytes (code body) s)
      slot (rw (h.pcs) at_slot)
      (omega (
        arith,
        here,
        total-append xs (record { body = body; branch = some b } ∷ []),
        total-append (xs ++ record { body = body; branch = some b } ∷ []) ys,
        ap total split,
        small,
      ))
      λ e same. (
        z,
        ap (relative_offset e) here
            ∙ ap
                (λ (a : ℕ).
                  relative_offset a
                    (0 + total xs + size_of (record { body = body; branch = some b })))
                (prefix_start (xs ++ record { body = body; branch = some b } ∷ []) ys zs b.target_pc
                  e d split
                  (get_elem?-table (starts 0 (xs ++ record { body = body; branch = some b } ∷ []))
                    (length ys) b.target_pc e (at_slot ∙ ap some same))
                  e₁)
            ∙ e₂,
      )
  where
    here :
        length (s.text_section ++ code body) + (length (head b.condition) + 4)
        ≡ 0 + total xs + (length (code body) + (length (head b.condition) + 4))
    here = omega (arith, length-append s.text_section (code body), h.size)

pub emit_selected-done :
    (zs xs ys : List Selected) (body : List X86Instruction) (b : Option Branch)
    (s : JitCompilerModel) (bytes : List ℕ)
    → IsBefore xs (record { body = body; branch = b }) (length ys) s
    → (xs ++ record { body = body; branch = b } ∷ []) ++ ys ≡ zs
    → total zs < 2 ^ 64
    → place_one (layout_of zs) (0 + total xs) (record { body = body; branch = b }) ≡ ok bytes
    → (t : JitCompilerModel) × (emit_selected (record { body = body; branch = b }) s ≡ done tt t)
unfolding emit_selected emit_branch
emit_selected-done zs xs ys body none s bytes h split small placed = (_, refl)
emit_selected-done zs xs ys body (some b) s bytes h split small placed =
    let (z, u, e) = emit_branch-done zs xs ys body b s bytes h split small placed in
    (emit_bytes (head b.condition ++ le_bytes 4 (wrap (2 ^ 32) z)) u, rw e)
