-- ===== src/Jit/Compile/Lowering.antt =====
-- `compile_sbpf` is lowering followed by `compile`.
use aeneas2isabelle.Prelude.{
  ℕ, zero, suc, ◌+◌, ◌≡◌, ◌↔◌, refl, sym, ap, ◌∙◌, some, List, [], ◌∷◌, arith, length, get_elem?,
  get_elem?-lt, drop, drop-get_elem?, drop-length, subst,
}
use aeneas2isabelle.Ebpf.Insn.{Insn}
use aeneas2isabelle.Jit.Types.{JitInstruction, JitCompilerModel, invalid_program_counter}
use aeneas2isabelle.Jit.Result.{
  Result, ok, bind, lift, ok_or, done, and_then, bind-eq-ok, and_then-eq-done, lift-eq-done,
  ok_or-eq-ok, outcome_result, outcome_result-eq-ok, ok-injective, and_then_congr, ◌>>◌,
}
use aeneas2isabelle.Jit.State.{new, set_program_counter, resolve_jumps}
use aeneas2isabelle.Jit.Emit.{emit_jit_instruction}
use aeneas2isabelle.Jit.Lower.{lower_sbpf_instruction}
use aeneas2isabelle.Jit.Compile.{compile, compile_loop, compile_sbpf, compile_sbpf_loop, finish}
use native.Mathlib.Numerals.{add-one}
use native.Mathlib.Nat.{add-zero, zero-add}

-- Every instruction lowered at its own program counter.
pub lower_all : ℕ → List Insn → Result (List JitInstruction)
lower_all pc [] = ok []
lower_all pc (i ∷ is) =
    bind (lower_sbpf_instruction pc i) λ x. bind (lower_all (pc + 1) is) λ xs. ok (x ∷ xs)

length-lower_all :
    (pc : ℕ) (is : List Insn) (xs : List JitInstruction)
    → lower_all pc is ≡ ok xs
    → length xs ≡ length is
unfolding lower_all
length-lower_all pc [] xs h = ap (length {A = JitInstruction}) (sym (ok-injective h))
length-lower_all pc (i ∷ is) xs h =
    let (x, _, h₁) = bind-eq-ok (lower_sbpf_instruction pc i) _ h in
    let (ys, p, h₂) = bind-eq-ok (lower_all (pc + 1) is) _ h₁ in
    ap (length {A = JitInstruction}) (sym (ok-injective h₂))
    ∙ ap suc (length-lower_all (pc + 1) is ys p)

-- What lowering says of one program counter.
lower_all-get_elem? :
    (pc k : ℕ) (is : List Insn) (xs : List JitInstruction) (i : Insn)
    → lower_all pc is ≡ ok xs
    → get_elem? is k ≡ some i
    → (x : JitInstruction) × (lower_sbpf_instruction (pc + k) i ≡ ok x) × (get_elem? xs k ≡ some x)
unfolding lower_all
lower_all-get_elem? pc k [] xs i h e = cc
lower_all-get_elem? pc zero (j ∷ is) xs i h e =
    let same : j ≡ i = cc in
    let (x, p, h₁) = bind-eq-ok (lower_sbpf_instruction pc j) _ h in
    let (ys, _, h₂) = bind-eq-ok (lower_all (pc + 1) is) _ h₁ in
    (x, rw (add-zero, ← same) p, ap (λ l. get_elem? l 0) (sym (ok-injective h₂)))
lower_all-get_elem? pc (suc k) (j ∷ is) xs i h e =
    let (x, p, h₁) = bind-eq-ok (lower_sbpf_instruction pc j) _ h in
    let (ys, q, h₂) = bind-eq-ok (lower_all (pc + 1) is) _ h₁ in
    let (y, r, found) = lower_all-get_elem? (pc + 1) k is ys i q e in
    (
      y,
      subst (λ (n : ℕ). lower_sbpf_instruction n i ≡ ok y) (omega arith) r,
      ap (λ l. get_elem? l (suc k)) (sym (ok-injective h₂)) ∙ found,
    )

-- The loops agree on a program that lowers.
compile_sbpf_loop-compile_loop :
    (rounds pc : ℕ) (is : List Insn) (xs : List JitInstruction) (s : JitCompilerModel)
    → pc + rounds ≡ length is
    → lower_all 0 is ≡ ok xs
    → compile_sbpf_loop rounds pc is s ≡ compile_loop rounds pc xs s
unfolding compile_sbpf_loop compile_loop
compile_sbpf_loop-compile_loop zero pc is xs s n h = refl
compile_sbpf_loop-compile_loop (suc rounds) pc is xs s n h =
    and_then_congr (set_program_counter pc s) _ _ λ _ t.
      let (i, fi) = get_elem?-lt is pc (omega arith) in
      let (x, low, fx) = lower_all-get_elem? 0 pc is xs i h fi in
      let low' : lower_sbpf_instruction pc i ≡ ok x = rw zero-add at low in
      rw (fi, fx, low')
        (and_then_congr (emit_jit_instruction x t) _ _
          λ _ u. compile_sbpf_loop-compile_loop rounds (pc + 1) is xs u (omega arith) h)

-- A loop that ends without an error has lowered every instruction.
compile_sbpf_loop-lower_all :
    (rounds pc : ℕ) (is : List Insn) (s s' : JitCompilerModel)
    → pc + rounds ≡ length is
    → compile_sbpf_loop rounds pc is s ≡ done tt s'
    → (xs : List JitInstruction) × (lower_all pc (drop pc is) ≡ ok xs)
unfolding compile_sbpf_loop lower_all
compile_sbpf_loop-lower_all zero pc is s s' n e = ([], rw (drop-length is pc (omega arith)))
compile_sbpf_loop-lower_all (suc rounds) pc is s s' n e =
    let (_, t, _, e₁) = and_then-eq-done (set_program_counter pc s) _ e in
    let (i, t₁, get_e, e₂) =
      and_then-eq-done (lift (ok_or (get_elem? is pc) invalid_program_counter) t) _ e₁ in
    let (x, t₂, lower_e, e₃) = and_then-eq-done (lift (lower_sbpf_instruction pc i) t₁) _ e₂ in
    let (_, t₃, _, e₄) = and_then-eq-done (emit_jit_instruction x t₂) _ e₃ in
    let (found, _) = lift-eq-done (ok_or (get_elem? is pc) invalid_program_counter) get_e in
    let (lowered, _) = lift-eq-done (lower_sbpf_instruction pc i) lower_e in
    let (xs, q) = compile_sbpf_loop-lower_all rounds (pc + 1) is t₃ s' (omega arith) e₄ in
    let q' : lower_all (pc + 1) (drop (suc pc) is) ≡ ok xs =
      subst (λ (k : ℕ). lower_all (pc + 1) (drop k is) ≡ ok xs) (add-one pc) q in
    (
      x ∷ xs,
      rw (
        drop-get_elem? is pc i (ok_or-eq-ok (get_elem? is pc) invalid_program_counter found),
        lowered,
        q',
      ),
    )

compile_sbpf-of_lower_all :
    (is : List Insn) (xs : List JitInstruction)
    → lower_all 0 is ≡ ok xs
    → compile_sbpf is ≡ compile xs
unfolding compile_sbpf compile
compile_sbpf-of_lower_all is xs h =
    ap (λ m. outcome_result (and_then m λ _. resolve_jumps >> finish))
      (compile_sbpf_loop-compile_loop (length is) 0 is xs (new (length is) 0) (omega arith) h
        ∙ ap (λ (n : ℕ). compile_loop n 0 xs (new n 0)) (sym (length-lower_all 0 is xs h)))

-- `compile_sbpf` returns some bytes exactly when every instruction lowers at its own program
-- counter and `compile` returns those bytes for the lowered program.
pub compile_sbpf_iff :
    (is : List Insn) (bytes : List ℕ)
    → (compile_sbpf is ≡ ok bytes)
      ↔ ((xs : List JitInstruction) × (lower_all 0 is ≡ ok xs) × (compile xs ≡ ok bytes))
unfolding compile_sbpf
compile_sbpf_iff is bytes = (
  λ h.
      let (_, whole) = outcome_result-eq-ok _ h in
      let (_, s, e, _) =
        and_then-eq-done (compile_sbpf_loop (length is) 0 is (new (length is) 0)) _ whole in
      let (xs, q) =
        compile_sbpf_loop-lower_all (length is) 0 is (new (length is) 0) s (omega arith) e in
      (xs, q, sym (compile_sbpf-of_lower_all is xs q) ∙ h),
  λ h. compile_sbpf-of_lower_all is h.0 h.1 ∙ h.2,
)
