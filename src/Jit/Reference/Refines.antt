-- ===== src/Jit/Reference/Refines.antt =====
-- The one-pass compiler with backpatching gives the bytes of the two-pass assembler.
use aeneas2isabelle.Prelude.{
  ℕ, zero, suc, ◌+◌, ◌≡◌, refl, sym, ap, subst, ◌∙◌, Option, some, List, [], ◌∷◌, ◌++◌, arith,
  length, length-append, get_elem?, set, drop, drop-get_elem?, drop-length,
}
use aeneas2isabelle.Jit.Types.{
  JumpModel, JitCompilerModel, JitInstruction, invalid_program_counter, program_counter_not_set,
}
use aeneas2isabelle.Jit.Result.{
  Result, ok, bind, done, lift, ok_or, and_then-eq-done, done-injective, lift-eq-done, ok_or-eq-ok,
  outcome_result-eq-ok, done-value,
}
use aeneas2isabelle.Jit.State.{
  new, set_program_counter, resolve_jumps, resolve_loop, resolve_jump, read_offset,
}
use aeneas2isabelle.Jit.Emit.{emit_jit_instruction}
use aeneas2isabelle.Jit.Compile.{compile, compile_loop}
use aeneas2isabelle.Jit.Reference.{
  Selected, total, starts, select, select_all, place, layout_of, assemble,
}
use aeneas2isabelle.Jit.Reference.Layout.{length-starts, starts-snoc}
use aeneas2isabelle.Jit.Reference.Patch.{patch_one, patch}
use aeneas2isabelle.Jit.Reference.Select.{emit_jit_instruction-select}
use aeneas2isabelle.Jit.Reference.Step.{IsAfter, IsBefore, emit_selected-IsAfter}
use aeneas2isabelle.Jit.Reference.Table.{table, set-table}
use mathlib.Core.Path.{fun_ext}
use native.Mathlib.Numerals.{add-one}
use mathlib.Core.List.{append-nil, append_assoc}

-- The layout that `resolve_jumps` reads from the PC table.
abbrev pub pc_layout : List (Option ℕ) → ℕ → Result ℕ
pc_layout pcs t = read_offset pcs t invalid_program_counter program_counter_not_set

resolve_jump-patch_one :
    (j : JumpModel) (s s' : JitCompilerModel)
    → resolve_jump j s ≡ done tt s'
    → (patch_one (pc_layout s.pc_section) j s.text_section ≡ ok s'.text_section)
      × (s'.pc_section ≡ s.pc_section)
unfolding resolve_jump patch_one
resolve_jump-patch_one j s s' h = ground arith

resolve_loop-patch :
    (jumps : List JumpModel) (s s' : JitCompilerModel)
    → resolve_loop jumps s ≡ done tt s'
    → patch (pc_layout s.pc_section) jumps s.text_section ≡ ok s'.text_section
unfolding resolve_loop patch
resolve_loop-patch [] s s' h = ap (λ t. ok t.text_section) (done-injective h)
resolve_loop-patch (j ∷ jumps) s s' h =
    let (_, t, e, rest) = and_then-eq-done (resolve_jump j s) _ h in
    let (p, q) = resolve_jump-patch_one j s t e in
    ap (λ r. bind r (patch (pc_layout s.pc_section) jumps)) p
    ∙ subst (λ pcs. patch (pc_layout pcs) jumps t.text_section ≡ ok s'.text_section) q
        (resolve_loop-patch jumps t s' rest)

resolve_jumps-patch :
    (s s' : JitCompilerModel)
    → resolve_jumps s ≡ done tt s'
    → patch (pc_layout s.pc_section) s.text_section_jumps s.text_section ≡ ok s'.text_section
unfolding resolve_jumps
resolve_jumps-patch s s' h =
    let (_, t, e, rest) = and_then-eq-done (resolve_loop s.text_section_jumps s) _ h in
    resolve_loop-patch s.text_section_jumps s t e
    ∙ ap (λ u. ok u.text_section) (done-injective rest)

set_program_counter-done :
    (pc : ℕ) (s t : JitCompilerModel)
    → set_program_counter pc s ≡ done tt t
    → record s { pc_section = set s.pc_section pc (some (length s.text_section)) } ≡ t
unfolding set_program_counter
set_program_counter-done pc s t h = ground arith

pub start_set :
    (xs : List Selected) (x : Selected) (m pc : ℕ) (s : JitCompilerModel)
    → length xs ≡ pc
    → IsAfter xs (suc m) s
    → IsBefore xs x m (record s { pc_section = set s.pc_section pc (some (length s.text_section)) })
start_set xs x m pc s l h = record {
  pcs =
      rw (h.pcs, h.size, starts-snoc 0 xs x)
        (ap (λ k. set (table (starts 0 xs) (suc m)) k (some (total xs)))
            (sym l ∙ sym (length-starts 0 xs))
          ∙ set-table (starts 0 xs) m (total xs)
          ∙ ap (λ (k : ℕ). table (starts 0 xs ++ k ∷ []) m) (omega arith));
  size = h.size;
  within = h.within;
  patched = h.patched;
}

-- A round of the loop that ends without an error.
compile_loop_round :
    (rounds pc : ℕ) (program : List JitInstruction) (xs : List Selected) (s s' : JitCompilerModel)
    → length xs ≡ pc
    → IsAfter xs (suc rounds) s
    → compile_loop (suc rounds) pc program s ≡ done tt s'
    → (i : JitInstruction) × (x : Selected) × (t : JitCompilerModel) × (get_elem? program pc
        ≡ some i)
      × (select i ≡ ok x)
      × IsAfter (xs ++ x ∷ []) rounds t
      × (compile_loop rounds (pc + 1) program t ≡ done tt s')
unfolding compile_loop
compile_loop_round rounds pc program xs s s' l h e =
    let (_, t, set_e, e₁) = and_then-eq-done (set_program_counter pc s) _ e in
    let (i, t₁, get_e, e₂) =
      and_then-eq-done (lift (ok_or (get_elem? program pc) invalid_program_counter) t) _ e₁ in
    let (_, t₂, emit_e, e₃) = and_then-eq-done (emit_jit_instruction i t₁) _ e₂ in
    let (found, same) = lift-eq-done (ok_or (get_elem? program pc) invalid_program_counter) get_e in
    let (x, t₃, select_e, emitted) =
      and_then-eq-done (lift (select i) t₁) _ (sym (emit_jit_instruction-select i t₁) ∙ emit_e) in
    let (selected, same') = lift-eq-done (select i) select_e in
    let before : IsBefore xs x rounds t₃ =
      subst (IsBefore xs x rounds) (set_program_counter-done pc s t set_e ∙ same ∙ same')
        (start_set xs x rounds pc s l h) in
    (
      i,
      x,
      t₂,
      ok_or-eq-ok (get_elem? program pc) invalid_program_counter found,
      selected,
      emit_selected-IsAfter xs x.body x.branch rounds t₃ t₂ before emitted,
      e₃,
    )

select_all-drop :
    (program : List JitInstruction) (pc : ℕ) (i : JitInstruction) (x : Selected)
    (ys : List Selected)
    → get_elem? program pc ≡ some i
    → select i ≡ ok x
    → select_all (drop (pc + 1) program) ≡ ok ys
    → select_all (drop pc program) ≡ ok (x ∷ ys)
unfolding select_all
select_all-drop program pc i x ys found selected q =
    let q' : select_all (drop (suc pc) program) ≡ ok ys = rw add-one at q in
    rw (drop-get_elem? program pc i found, selected, q')

-- The loop emits what selection gives for the rest of the program.
compile_loop-IsAfter :
    (rounds pc : ℕ) (program : List JitInstruction) (xs : List Selected) (s s' : JitCompilerModel)
    → pc + rounds ≡ length program
    → length xs ≡ pc
    → IsAfter xs rounds s
    → compile_loop rounds pc program s ≡ done tt s'
    → (ys : List Selected) × (select_all (drop pc program) ≡ ok ys) × IsAfter (xs ++ ys) 0 s'
unfolding compile_loop select_all
compile_loop-IsAfter zero pc program xs s s' n l h e =
    ([], rw (drop-length program pc (omega arith)), rw (append-nil, ← done-injective e) h)
compile_loop-IsAfter (suc rounds) pc program xs s s' n l h e =
    let (i, x, t, found, selected, after, rest) =
      compile_loop_round rounds pc program xs s s' l h e in
    let (ys, q, r) =
      compile_loop-IsAfter rounds (pc + 1) program (xs ++ x ∷ []) t s' (omega arith)
        (omega (arith, length-append xs (x ∷ []))) after rest in
    (x ∷ ys, select_all-drop program pc i x ys found selected q, rw append_assoc at r)

pub pc_layout-table :
    (ds : List ℕ) (t : ℕ)
    → pc_layout (table ds 0) t ≡ ok_or (get_elem? ds t) invalid_program_counter
unfolding read_offset
pc_layout-table [] t = refl
pc_layout-table (d ∷ ds) zero = refl
pc_layout-table (d ∷ ds) (suc t) = pc_layout-table ds t

pub start-IsAfter : (n : ℕ) → IsAfter [] n (new n 0)
unfolding new place patch starts
start-IsAfter n = record { pcs = refl; size = refl; within = tt; patched = λ layout ag. refl }

-- When the compiler of the source returns bytes, they are those of the two-pass assembler: every
-- instruction's code is in order, and every branch, patched or not, has the displacement from its
-- end to the start of its target.
pub compile-assemble :
    (program : List JitInstruction) (bytes : List ℕ)
    → compile program ≡ ok bytes
    → assemble program ≡ ok bytes
unfolding compile assemble
compile-assemble program bytes h =
    let (_, whole) = outcome_result-eq-ok _ h in
    let (_, s, loop_e, e₁) =
      and_then-eq-done (compile_loop (length program) 0 program (new (length program) 0)) _ whole in
    let (_, t, resolve_e, e₂) = and_then-eq-done (resolve_jumps s) _ e₁ in
    let (xs, selected, after) =
      compile_loop-IsAfter (length program) 0 program [] (new (length program) 0) s (omega arith)
        refl (start-IsAfter (length program)) loop_e in
    let layout : (pc_layout s.pc_section) ≡ layout_of xs =
      ap pc_layout after.pcs ∙ fun_ext (pc_layout-table (starts 0 xs)) in
    let bytes_of : t.text_section ≡ bytes = done-value e₂ in
    let patched : place (layout_of xs) 0 xs ≡ ok t.text_section =
      sym (after.patched (layout_of xs) (λ i d e. rw e))
      ∙ subst (λ l. patch l s.text_section_jumps s.text_section ≡ ok t.text_section) layout
          (resolve_jumps-patch s t resolve_e) in
    rw selected (patched ∙ ap ok bytes_of)
