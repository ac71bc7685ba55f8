-- ===== src/Jit/Reference/Complete.antt =====
-- A program that the two-pass assembler assembles is compiled, to the same bytes.
use aeneas2isabelle.Prelude.{
  ℕ, zero, suc, ◌+◌, ◌^◌, ◌<◌, ◌≡◌, ◌↔◌, refl, sym, ap, subst, ◌∙◌, Option, some, List, [], ◌∷◌,
  ◌++◌, arith, length, length-append, get_elem?, get_elem?-lt, drop, drop-get_elem?, set,
}
use aeneas2isabelle.Jit.Types.{JitCompilerModel, JitInstruction}
use aeneas2isabelle.Jit.Result.{Result, ok, bind-eq-ok, done, ok-injective}
use aeneas2isabelle.Jit.State.{new, set_program_counter, resolve_jumps}
use aeneas2isabelle.Jit.Compile.{compile, compile_loop}
use aeneas2isabelle.Jit.Reference.{
  Selected, size_of, total, starts, select, select_all, place_one, place, layout_of, assemble,
}
use aeneas2isabelle.Jit.Reference.Layout.{length-starts, length-place, total-snoc}
use aeneas2isabelle.Jit.Reference.Patch.{patch}
use aeneas2isabelle.Jit.Reference.Table.{length-table}
use aeneas2isabelle.Jit.Reference.Select.{emit_jit_instruction-select}
use aeneas2isabelle.Jit.Reference.Step.{IsAfter, IsBefore, emit_selected-IsAfter}
use aeneas2isabelle.Jit.Reference.Refines.{
  start_set, start-IsAfter, pc_layout, pc_layout-table, compile-assemble,
}
use aeneas2isabelle.Jit.Reference.Progress.{emit_selected-done, resolve_loop-done}
use mathlib.Core.Path.{fun_ext}
use mathlib.Core.List.{append-nil, append_assoc}
use native.Mathlib.Numerals.{add-one}

-- The state that `set_program_counter` leaves.
abbrev at_pc : ℕ → JitCompilerModel → JitCompilerModel
at_pc pc s = record s { pc_section = set s.pc_section pc (some (length s.text_section)) }

set_program_counter-set :
    (pc : ℕ) (s : JitCompilerModel)
    → pc < length s.pc_section
    → set_program_counter pc s ≡ done tt (at_pc pc s)
unfolding set_program_counter
set_program_counter-set pc s h = ground arith

-- The first instruction of the rest of a program, and its selection.
select_all-split :
    (program : List JitInstruction) (pc : ℕ) (ys : List Selected)
    → pc < length program
    → select_all (drop pc program) ≡ ok ys
    → (i : JitInstruction) × (x : Selected) × (rest : List Selected) × (get_elem? program pc
        ≡ some i)
      × (select i ≡ ok x)
      × (select_all (drop (pc + 1) program) ≡ ok rest)
      × (x ∷ rest ≡ ys)
unfolding select_all
select_all-split program pc ys below sel =
    let (i, found) = get_elem?-lt program pc below in
    let sel' = rw (drop-get_elem? program pc i found) at sel in
    let (x, e₁, h₁) = bind-eq-ok (select i) _ sel' in
    let (rest, e₂, h₂) = bind-eq-ok (select_all (drop (suc pc) program)) _ h₁ in
    (i, x, rest, found, e₁, rw add-one e₂, ok-injective h₂)

length-select_all :
    (program : List JitInstruction) (xs : List Selected)
    → select_all program ≡ ok xs
    → length xs ≡ length program
unfolding select_all
length-select_all [] xs h = sym (ap (length {A = Selected}) (ok-injective h))
length-select_all (i ∷ is) xs h =
    let (x, _, h₁) = bind-eq-ok (select i) _ h in
    let (ys, e, h₂) = bind-eq-ok (select_all is) _ h₁ in
    sym (ap (length {A = Selected}) (ok-injective h₂)) ∙ ap suc (length-select_all is ys e)

place-split :
    (layout : ℕ → Result ℕ) (xs ys : List Selected) (x : Selected) (bytes : List ℕ)
    → place layout (0 + total xs) (x ∷ ys) ≡ ok bytes
    → (c : List ℕ) × (rest : List ℕ) × (place_one layout (0 + total xs) x ≡ ok c)
      × (place layout (0 + total (xs ++ x ∷ [])) ys ≡ ok rest)
unfolding place
place-split layout xs ys x bytes h =
    let (c, e₁, h₁) = bind-eq-ok (place_one layout (0 + total xs) x) _ h in
    let (rest, e₂, _) = bind-eq-ok (place layout (0 + total xs + size_of x) ys) _ h₁ in
    (c, rest, e₁, ap (λ (n : ℕ). place layout n ys) (omega (arith, total-snoc xs x)) ∙ e₂)

-- The loop goes through on the rest of a program whose selection the assembler can place.
compile_loop-done :
    (rounds pc : ℕ) (program : List JitInstruction) (zs xs ys : List Selected)
    (s : JitCompilerModel) (bytes : List ℕ)
    → pc + rounds ≡ length program
    → length xs ≡ pc
    → length ys ≡ rounds
    → xs ++ ys ≡ zs
    → total zs < 2 ^ 64
    → select_all (drop pc program) ≡ ok ys
    → place (layout_of zs) (0 + total xs) ys ≡ ok bytes
    → IsAfter xs rounds s
    → (t : JitCompilerModel) × (compile_loop rounds pc program s ≡ done tt t) × IsAfter zs 0 t
unfolding compile_loop
compile_loop-done zero pc program zs xs [] s bytes n l m split small sel placed after =
    (s, refl, subst (λ k. IsAfter k 0 s) (sym (append-nil xs) ∙ split) after)
compile_loop-done zero pc program zs xs (y ∷ ys) s bytes n l m split small sel placed after =
    absurd (omega arith)
compile_loop-done (suc rounds) pc program zs xs ys s bytes n l m split small sel placed after =
    let (i, x, ys', found, selected, others, same) =
      select_all-split program pc ys (omega arith) sel in
    let (c, rest, p₁, p₂) = place-split (layout_of zs) xs ys' x bytes (rw same placed) in
    let left : rounds ≡ length ys' = omega (arith, ap (length {A = Selected}) same) in
    let before : IsBefore xs x rounds (at_pc pc s) = start_set xs x rounds pc s l after in
    let split' : (xs ++ x ∷ []) ++ ys' ≡ zs =
      append_assoc xs (x ∷ []) ys' ∙ ap (λ k. xs ++ k) same ∙ split in
    let (u, emitted) =
      emit_selected-done zs xs ys' x.body x.branch (at_pc pc s) c
        (subst (λ (k : ℕ). IsBefore xs x k (at_pc pc s)) left before) split' small p₁ in
    let (t, looped, final) =
      compile_loop-done rounds (pc + 1) program zs (xs ++ x ∷ []) ys' u rest (omega arith)
        (omega (arith, length-append xs (x ∷ []))) (sym left) split' small others p₂
        (emit_selected-IsAfter xs x.body x.branch rounds (at_pc pc s) u before emitted) in
    let started : pc < length s.pc_section = omega (
      arith,
      ap (length {A = Option ℕ}) after.pcs,
      length-table (starts 0 xs) (suc rounds),
      length-starts 0 xs,
    ) in
    (
      t,
      rw
          (
            set_program_counter-set pc s started,
            found,
            emit_jit_instruction-select i (at_pc pc s),
            selected,
            emitted,
          )
          looped,
      final,
    )

-- A program that the two-pass assembler assembles to fewer than 2 ^ 64 bytes compiles.
compile-done :
    (program : List JitInstruction) (bytes : List ℕ)
    → length bytes < 2 ^ 64
    → assemble program ≡ ok bytes
    → (code : List ℕ) × (compile program ≡ ok code)
unfolding assemble compile resolve_jumps
compile-done program bytes small h =
    let (zs, selected, placed) = bind-eq-ok (select_all program) _ h in
    let size = length-place (layout_of zs) 0 zs bytes placed in
    let (s, looped, after) =
      compile_loop-done (length program) 0 program zs [] zs (new (length program) 0) bytes
        (omega arith) refl (length-select_all program zs selected) refl (omega (arith, size))
        selected placed (start-IsAfter (length program)) in
    let layout : (pc_layout s.pc_section) ≡ layout_of zs =
      ap pc_layout after.pcs ∙ fun_ext (pc_layout-table (starts 0 zs)) in
    let patched : patch (pc_layout s.pc_section) s.text_section_jumps s.text_section ≡ ok bytes =
      rw layout (after.patched (layout_of zs) (λ i d e. rw e) ∙ placed) in
    let (t, resolved) =
      resolve_loop-done s.text_section_jumps s bytes after.within (omega (arith, size, after.size))
        patched in
    (t.text_section, rw (looped, resolved))

-- On a program whose code has fewer than 2 ^ 64 bytes, the compiler of the source returns some
-- bytes exactly when the two-pass assembler does: it fails on no program that can be assembled.
pub compile_iff :
    (program : List JitInstruction) (bytes : List ℕ)
    → length bytes < 2 ^ 64
    → (compile program ≡ ok bytes) ↔ (assemble program ≡ ok bytes)
compile_iff program bytes small = (
  compile-assemble program bytes,
  λ h.
      let (code, e) = compile-done program bytes small h in
      e ∙ sym (compile-assemble program code e) ∙ h,
)
