-- ===== src/Interpreter/Step.antt =====
-- casestudy/sbpf/src/interpreter.rs: `step`.
pub mod Supported
pub mod Arithmetic
use aeneas2isabelle.Prelude.{
  ℕ, ◌+◌, ◌*◌, ◌%◌, ◌^◌, Bool, true, false, ◌&&◌, Option, none, some, List, [], ◌∷◌, ◌++◌, leb,
  ◌==◌, if◌then◌else◌, length,
}
use aeneas2isabelle.Prelude.Int.{ℤ, pos, negsuc, ◌+ℤ◌, wrap}
use aeneas2isabelle.Ebpf.Opcodes.{insn_size}
use aeneas2isabelle.Ebpf.Insn.{Insn, get_insn_unchecked, augment_lddw_unchecked}
use aeneas2isabelle.Program.{SbpfVersion}
use aeneas2isabelle.Interpreter.Types.{
  ProgramResult, ok, err, divide_by_zero, divide_overflow, execution_overrun,
  exceeded_max_instructions, invalid_instruction, unsupported_instruction, Executable, Host, EbpfVm,
  Interpreter, Outcome, running, panic, ◌>>=◌, index, checked,
}
use aeneas2isabelle.Interpreter.Words.{imm_u64, wrapping_add}
use aeneas2isabelle.Interpreter.Arms.{
  Body, Op, is_zero, set_imm, set_dst, set_src, set_both, divide_imm, divide_reg, load, store_imm,
  store_reg, convert, jump_always, jump_imm, jump_reg, load_dw, call_register, call_immediate,
  exit_frame,
}
use aeneas2isabelle.Interpreter.Arms.Memory.{memory_ops}
use aeneas2isabelle.Interpreter.Arms.Alu32.{alu32_ops}
use aeneas2isabelle.Interpreter.Arms.Alu64.{alu64_ops}
use aeneas2isabelle.Interpreter.Arms.Pqr.{pqr_ops}
use aeneas2isabelle.Interpreter.Arms.Jmp32.{jmp32_ops}
use aeneas2isabelle.Interpreter.Arms.Jmp64.{jmp64_ops}
use aeneas2isabelle.Interpreter.Frames.{pc_reg, read_reg, write_reg, throw_error}
use aeneas2isabelle.Interpreter.Calls.{call_reg, call_imm, exit}

unfoldable pub first_op : ℕ → List Op → Option Body
first_op opcode [] = none
first_op opcode (o ∷ ops) =
    let rest = first_op opcode ops in if (o.opcode == opcode) && o.guard then some o.body else rest

unfoldable pub all_ops : SbpfVersion → Insn → List Op
unfolding memory_ops alu32_ops alu64_ops pqr_ops jmp32_ops jmp64_ops
all_ops version insn =
    memory_ops version
    ++ (alu32_ops version insn
        ++ (alu64_ops version insn
            ++ (pqr_ops version insn ++ (jmp32_ops version insn ++ jmp64_ops insn))))

-- The widths of the byte swaps.
abbrev pub swap_width : ℤ → Option ℕ
swap_width (pos n) =
    if n == 16 then some 2 else if n == 32 then some 4 else if n == 64 then some 8 else none
swap_width (negsuc n) = none

module _ {C : Type 0} where
  abbrev pub assign : Interpreter C → Insn → ℕ → ℕ → Outcome C (Interpreter C × ℕ)
  assign s insn next_pc v = write_reg s insn.dst v >>= λ s'. running (s', next_pc)

  abbrev pub jump_if : Interpreter C → Insn → ℕ → Bool → Outcome C (Interpreter C × ℕ)
  jump_if s insn next_pc condition =
      running (s, (if condition then imm_u64 (pos next_pc +ℤ insn.off) else next_pc))

  -- The byte swaps, with the width that the immediate gives.
  unfoldable pub run_convert :
      Option ℕ → (ℕ → ℕ → ℕ) → Insn → ℕ → Interpreter C → Outcome C (Interpreter C × ℕ)
  unfolding throw_error
  run_convert none f insn next_pc s = throw_error s invalid_instruction
  run_convert (some width) f insn next_pc s = do
    d ← read_reg s insn.dst
    assign s insn next_pc (f width d)

  -- What `translate_memory_access!` makes of the result of an access: the value, or the error.
  unfoldable pub after_access : ProgramResult × C → Interpreter C → Outcome C (ℕ × Interpreter C)
  unfolding throw_error
  after_access (ok value, context) s =
      running (value, record s { vm = record s.vm { context = context } })
  after_access (err error, context) s =
      throw_error (record s { vm = record s.vm { context = context } }) error

  module _ (host : Host C) (executable : Executable) where
    unfoldable pub run_load : ℕ → Insn → ℕ → Interpreter C → Outcome C (Interpreter C × ℕ)
    unfolding after_access
    run_load size insn next_pc s = do
      base ← read_reg s insn.src
      loaded ←
          after_access (host.load s.vm.context size (wrapping_add 64 base (wrap (2 ^ 64) insn.off)))
            s
      assign loaded.1 insn next_pc loaded.0

    unfoldable pub run_store : ℕ → ℕ → Insn → ℕ → Interpreter C → Outcome C (Interpreter C × ℕ)
    unfolding after_access
    run_store size value insn next_pc s = do
      base ← read_reg s insn.dst
      stored ←
          after_access
            (host.store s.vm.context size value (wrapping_add 64 base (wrap (2 ^ 64) insn.off))) s
      running (stored.1, next_pc)

    -- The immediate of two slots; the program counter moves on by the second slot.
    unfoldable pub run_load_dw : Insn → ℕ → Interpreter C → Outcome C (Interpreter C × ℕ)
    run_load_dw insn next_pc s = do
      long ← index (augment_lddw_unchecked executable.text_bytes insn)
      written ← write_reg s insn.dst (imm_u64 long.imm)
      pc ← read_reg written pc_reg
      moved ← checked (pc + 1)
      stepped ← write_reg written pc_reg moved
      next ← checked (next_pc + 1)
      running (stepped, next)

    -- The body of an arm, with the program counter that the step goes on at.
    unfoldable pub run_body : Body → Insn → ℕ → Interpreter C → Outcome C (Interpreter C × ℕ)
    unfolding run_convert run_load run_store run_load_dw call_reg call_imm exit throw_error
    run_body (set_imm v) insn next_pc s = assign s insn next_pc v
    run_body (set_dst f) insn next_pc s = do d ← read_reg s insn.dst; assign s insn next_pc (f d)
    run_body (set_src f) insn next_pc s = do v ← read_reg s insn.src; assign s insn next_pc (f v)
    run_body (set_both f) insn next_pc s = do
      d ← read_reg s insn.dst
      v ← read_reg s insn.src
      assign s insn next_pc (f d v)
    run_body (divide_imm divisor overflows f) insn next_pc s = do
      d ← read_reg s insn.dst
      if overflows d
          then throw_error s divide_overflow
          else if is_zero divisor insn.imm
          then panic
          else assign s insn next_pc (f d)
    run_body (divide_reg zero_divisor overflows f) insn next_pc s = do
      v ← read_reg s insn.src
      if zero_divisor v then throw_error s divide_by_zero else (do
        d ← read_reg s insn.dst
        if overflows d v then throw_error s divide_overflow else assign s insn next_pc (f d v))
    run_body (load size) insn next_pc s = run_load size insn next_pc s
    run_body (store_imm size) insn next_pc s =
        run_store size (wrap (256 ^ size) insn.imm) insn next_pc s
    run_body (store_reg size) insn next_pc s = do
      v ← read_reg s insn.src
      run_store size (v % 256 ^ size) insn next_pc s
    run_body (convert f) insn next_pc s = run_convert (swap_width insn.imm) f insn next_pc s
    run_body jump_always insn next_pc s = jump_if s insn next_pc true
    run_body (jump_imm condition) insn next_pc s = do
      d ← read_reg s insn.dst
      jump_if s insn next_pc (condition d)
    run_body (jump_reg condition) insn next_pc s = do
      d ← read_reg s insn.dst
      v ← read_reg s insn.src
      jump_if s insn next_pc (condition d v)
    run_body load_dw insn next_pc s = run_load_dw insn next_pc s
    run_body call_register insn next_pc s = call_reg host executable insn s
    run_body call_immediate insn next_pc s = call_imm host executable insn next_pc s
    run_body exit_frame insn next_pc s = exit host executable s

    -- The arm of an instruction, if there is one.
    unfoldable pub dispatch : Option Body → Insn → ℕ → Interpreter C → Outcome C (Interpreter C × ℕ)
    unfolding run_body throw_error
    dispatch none insn next_pc s = throw_error s unsupported_instruction
    dispatch (some body) insn next_pc s = run_body body insn next_pc s

    abbrev pub traced : Interpreter C → Interpreter C
    traced s = record s {
      vm = record s.vm {
        register_trace =
            (if executable.config.enable_register_tracing
              then s.vm.register_trace ++ (s.reg ∷ [])
              else s.vm.register_trace);
      };
    }

    -- A step after the checks of the instruction meter, with the instruction counted.
    unfoldable pub run_insn : Interpreter C → Outcome C (Interpreter C)
    unfolding dispatch first_op all_ops throw_error
    run_insn s = do
      pc ← read_reg s pc_reg
      offset ← checked (pc * insn_size)
      if leb (length executable.text_bytes) offset then throw_error s execution_overrun else (do
        insn ← index (get_insn_unchecked executable.text_bytes pc)
        done ←
            dispatch (first_op insn.opc (all_ops executable.version insn)) insn (pc + 1) (traced s)
        write_reg done.0 pc_reg done.1)

    unfoldable pub step : Interpreter C → Outcome C (Interpreter C)
    unfolding run_insn throw_error
    step s =
        if executable.config.enable_instruction_meter
          && leb s.vm.previous_instruction_meter s.vm.due_insn_count
        then throw_error s exceeded_max_instructions
        else (do
          due_insn_count ← checked (s.vm.due_insn_count + 1)
          run_insn (record s { vm = record s.vm { due_insn_count = due_insn_count } }))
