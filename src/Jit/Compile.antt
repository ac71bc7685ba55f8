-- ===== src/Jit/Compile.antt =====
-- casestudy/sbpf/src/safe_mode/jit.rs: `compile` and `compile_sbpf`. The `while` loop runs
-- `program.len() - pc` rounds, which is the first argument of its model.
use aeneas2isabelle.Prelude.{ℕ, zero, suc, ◌+◌, List, length, get_elem?}
pub mod Lowering
use aeneas2isabelle.Ebpf.Insn.{Insn}
use aeneas2isabelle.Jit.Types.{JitInstruction, invalid_program_counter}
use aeneas2isabelle.Jit.Result.{Result, M, done, ◌>>=◌, ◌>>◌, lift, pure, ok_or, outcome_result}
use aeneas2isabelle.Jit.State.{new, set_program_counter, resolve_jumps}
use aeneas2isabelle.Jit.Emit.{emit_jit_instruction}
use aeneas2isabelle.Jit.Lower.{lower_sbpf_instruction}

unfoldable pub compile_loop : ℕ → ℕ → List JitInstruction → M (Unit {0})
compile_loop zero pc program = pure tt
compile_loop (suc rounds) pc program = do
  set_program_counter pc
  instruction ← lift (ok_or (get_elem? program pc) invalid_program_counter)
  emit_jit_instruction instruction
  compile_loop rounds (pc + 1) program

-- The bytes of the compiler that the run leaves.
abbrev pub finish : M (List ℕ)
finish s = done s.text_section s

unfoldable pub compile : List JitInstruction → Result (List ℕ)
unfolding compile_loop new
compile program =
    outcome_result
      ((do compile_loop (length program) 0 program; resolve_jumps; finish) (new (length program) 0))

unfoldable pub compile_sbpf_loop : ℕ → ℕ → List Insn → M (Unit {0})
compile_sbpf_loop zero pc program = pure tt
compile_sbpf_loop (suc rounds) pc program = do
  set_program_counter pc
  instruction ← lift (ok_or (get_elem? program pc) invalid_program_counter)
  instruction ← lift (lower_sbpf_instruction pc instruction)
  emit_jit_instruction instruction
  compile_sbpf_loop rounds (pc + 1) program

unfoldable pub compile_sbpf : List Insn → Result (List ℕ)
unfolding compile_sbpf_loop new
compile_sbpf program = outcome_result (
    (do compile_sbpf_loop (length program) 0 program; resolve_jumps; finish)
      (new (length program) 0))
