-- ===== src/Jit/Reference.antt =====
-- A two-pass assembler for the safe subset of casestudy/sbpf/src/safe_mode/jit.rs: it selects the
-- machine instructions of each instruction, lays their sizes out, and only then writes every
-- branch with the offset of its target. The compiler of the source makes one pass and patches
-- forward branches at its end; the modules below compare the two.
pub mod Layout
pub mod Patch
pub mod Select
pub mod Table
pub mod Patched
pub mod Step
pub mod Refines
pub mod Progress
pub mod Complete
use aeneas2isabelle.Prelude.{
  ℕ, ◌+◌, ◌^◌, Option, none, some, List, [], ◌∷◌, ◌++◌, length, get_elem?, if◌then◌else◌,
}
use aeneas2isabelle.Prelude.Int.{pos, in_i32, wrap}
use aeneas2isabelle.Prelude.Words.{le_bytes}
use aeneas2isabelle.X86.Types.{OperandSize, s64, X86Register, rcx, X86Instruction}
use aeneas2isabelle.X86.Encode.{encode}
use aeneas2isabelle.X86.Instruction
use aeneas2isabelle.Jit.Types.{
  ShiftOperation, JumpCondition, not_equal, JitInstruction, load_immediate, move_register,
  alu_immediate, alu_register, shift_immediate, shift_register, jump, jump_immediate, jump_register,
  jump_test_immediate, jump_test_register, return, invalid_program_counter,
}
use aeneas2isabelle.Jit.Result.{Result, ok, bind, ok_or}
use aeneas2isabelle.Jit.State.{relative_offset}
use aeneas2isabelle.Jit.Registers.{
  mapped_register, register_scratch, alu_encoding, shift_opcode_extension, jump_opcode,
}
use aeneas2isabelle.Jit.Emit.{is_rcx, is_s32, load_value}

-- A branch with the condition under which it is taken, if it has one.
pub record Branch : Type 0 where
  pub condition : Option JumpCondition
  pub target_pc : ℕ

-- The machine instructions that an instruction becomes, and the branch at their end.
pub record Selected : Type 0 where
  pub body : List X86Instruction
  pub branch : Option Branch

abbrev pub straight : List X86Instruction → Selected
straight body = record { body = body; branch = none }

abbrev pub branching : List X86Instruction → Option JumpCondition → ℕ → Selected
branching body condition target_pc = record {
  body = body;
  branch = some (record { condition = condition; target_pc = target_pc });
}

abbrev pub shift_by_rcx : OperandSize → ℕ → X86Register → X86Register → List X86Instruction
shift_by_rcx size extension source destination =
    if is_rcx source
    then Instruction.alu_immediate size 0xd3 extension destination (pos 0) none ∷ []
    else if is_rcx destination
    then Instruction.push source none
      ∷ Instruction.xchg s64 source rcx none
      ∷ Instruction.alu_immediate size 0xd3 extension source (pos 0) none
      ∷ Instruction.mov s64 source rcx
      ∷ Instruction.pop source
      ∷ []
    else Instruction.push rcx none
      ∷ Instruction.mov s64 source rcx
      ∷ Instruction.alu_immediate size 0xd3 extension destination (pos 0) none
      ∷ Instruction.pop rcx
      ∷ []

abbrev pub shift_code :
    OperandSize → ShiftOperation → X86Register → X86Register → List X86Instruction
shift_code size operation source destination =
    (if is_s32 size then Instruction.mov size destination destination ∷ [] else [])
    ++ shift_by_rcx size (shift_opcode_extension operation) source destination

unfoldable pub select : JitInstruction → Result Selected
select (load_immediate size destination value) =
    bind (mapped_register destination)
      λ d. bind (load_value size value) λ v. ok (straight (Instruction.load_immediate d v ∷ []))
select (move_register size source destination) =
    bind (mapped_register source)
      λ s. bind (mapped_register destination) λ d. ok (straight (Instruction.mov size s d ∷ []))
select (alu_immediate size operation destination value) = bind (mapped_register destination) λ d.
    ok (
      straight (
        if in_i32 value
        then Instruction.alu_immediate size 0x81 (alu_encoding operation).1 d value none ∷ []
        else Instruction.load_immediate register_scratch value
          ∷ Instruction.alu size (alu_encoding operation).0 register_scratch d none
          ∷ []))
select (alu_register size operation source destination) = bind (mapped_register source) λ s.
    bind (mapped_register destination)
      λ d. ok (straight (Instruction.alu size (alu_encoding operation).0 s d none ∷ []))
select (shift_immediate size operation destination amount) = bind (mapped_register destination) λ d.
    ok (
      straight (
        Instruction.alu_immediate size 0xc1 (shift_opcode_extension operation) d (pos amount) none
        ∷ []))
select (shift_register size operation source destination) =
    bind (mapped_register source)
      λ s. bind (mapped_register destination) λ d. ok (straight (shift_code size operation s d))
select (jump target_pc) = ok (branching [] none target_pc)
select (jump_immediate size condition destination value target_pc) =
    bind (mapped_register destination) λ d.
      ok (branching (Instruction.cmp_immediate size d value none ∷ []) (some condition) target_pc)
select (jump_register size condition source destination target_pc) =
    bind (mapped_register source) λ s.
      bind (mapped_register destination)
        λ d. ok (branching (Instruction.cmp size s d none ∷ []) (some condition) target_pc)
select (jump_test_immediate size destination value target_pc) =
    bind (mapped_register destination) λ d.
      ok (branching (Instruction.test_immediate size d value none ∷ []) (some not_equal) target_pc)
select (jump_test_register size source destination target_pc) = bind (mapped_register source) λ s.
    bind (mapped_register destination)
      λ d. ok (branching (Instruction.test size s d none ∷ []) (some not_equal) target_pc)
select return = ok (straight (Instruction.return_near ∷ []))

unfoldable pub select_all : List JitInstruction → Result (List Selected)
select_all [] = ok []
select_all (i ∷ is) = bind (select i) λ x. bind (select_all is) λ xs. ok (x ∷ xs)

unfoldable pub code : List X86Instruction → List ℕ
code [] = []
code (i ∷ is) = encode i ++ code is

-- The bytes of a branch before its displacement.
unfoldable pub head : Option JumpCondition → List ℕ
head none = 0xe9 ∷ []
head (some condition) = 0x0f ∷ jump_opcode condition ∷ []

abbrev pub branch_size : Option Branch → ℕ
branch_size none = 0
branch_size (some b) = length (head b.condition) + 4

abbrev pub size_of : Selected → ℕ
size_of x = length (code x.body) + branch_size x.branch

abbrev pub total : List Selected → ℕ
total [] = 0
total (x ∷ xs) = size_of x + total xs

-- The offset at which each instruction starts.
unfoldable pub starts : ℕ → List Selected → List ℕ
starts at [] = []
starts at (x ∷ xs) = at ∷ starts (at + size_of x) xs

-- The bytes of a branch whose end has a given offset, under a layout.
unfoldable pub place_branch : (ℕ → Result ℕ) → ℕ → Option Branch → Result (List ℕ)
place_branch layout end none = ok []
place_branch layout end (some b) = bind (layout b.target_pc) λ destination.
    bind (relative_offset destination end)
      λ displacement. ok (head b.condition ++ le_bytes 4 (wrap (2 ^ 32) displacement))

unfoldable pub place_one : (ℕ → Result ℕ) → ℕ → Selected → Result (List ℕ)
unfolding place_branch
place_one layout at x =
    bind (place_branch layout (at + size_of x) x.branch) λ bytes. ok (code x.body ++ bytes)

unfoldable pub place : (ℕ → Result ℕ) → ℕ → List Selected → Result (List ℕ)
place layout at [] = ok []
place layout at (x ∷ xs) =
    bind (place_one layout at x)
      λ bytes. bind (place layout (at + size_of x) xs) λ rest. ok (bytes ++ rest)

abbrev pub layout_of : List Selected → ℕ → Result ℕ
layout_of xs t = ok_or (get_elem? (starts 0 xs) t) invalid_program_counter

unfoldable pub assemble : List JitInstruction → Result (List ℕ)
assemble program = bind (select_all program) λ xs. place (layout_of xs) 0 xs
