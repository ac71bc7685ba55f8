-- ===== src/Lib.antt =====
-- The sBPF virtual machine in casestudy/sbpf: its verifier, its interpreter, and the safe mode of its
-- JIT compiler, the part that is written in safe Rust, from the decoded instruction to the bytes of
-- machine code.
--
-- The parts of the program and the files that model them:
--   * casestudy/sbpf/src/ebpf.rs, the instruction format: Ebpf.Opcodes has the constants, Ebpf.Insn
--     the record `Insn`, `to_array`, `to_vec`, `get_insn`, `get_insn_unchecked`,
--     `is_pc_in_program` and `augment_lddw_unchecked`.
--   * casestudy/sbpf/src/program.rs, the versions: Program has `SBPFVersion` and its feature tests,
--     Program.Registry `FunctionRegistry`.
--   * casestudy/sbpf/src/verifier.rs, the verifier: Verifier.Types has its errors, Verifier.Checks the
--     checks of one instruction, Verifier.Arms the arms of the `match` of `verify`, and
--     Verifier.Verify `RequisiteVerifier::verify`.
--   * casestudy/sbpf/src/interpreter.rs, the interpreter, with vm.rs and error.rs: Interpreter.Types
--     has the configuration, the machine and the errors, Interpreter.Words the casts and the
--     arithmetic of machine integers, Interpreter.Arms the arms of the `match` of `step`,
--     Interpreter.Frames `push_frame` and `throw_error!`, Interpreter.Calls calls, returns and
--     `dispatch_syscall` with the wrapper of a built-in function in program.rs, Interpreter.Step
--     `step`, and Interpreter.Run `EbpfVm::new`, the loop and `execute_program`. Interpreter.Safety
--     follows a program that the verifier accepts.
--   * casestudy/sbpf/src/memory_region.rs, the translation of addresses: Memory has `MemoryRegion` with
--     `vm_to_host`. Memory.Mapping has `AlignedMemoryMapping`, and of `MemoryMapping` its `map` methods
--     and its `replace_region`, which is `replace_region_checked`; Memory.Mapping.Initialize has
--     `initialize`, whose loop takes as fuel two steps more than the largest index of a region, which
--     ends it; and Memory.Cache has `MappingCache`.
--   * casestudy/sbpf/src/elf_parser, the parser of ELF files: Elf.Types and Elf.Consts have its
--     structures and constants, Elf.Result its errors, Elf.Bytes the tables in the file, Elf.Headers the
--     headers with their checks, Elf.Strings the string tables, Elf.Parser `Elf64` with its accessors,
--     Elf.Dynamic the dynamic table, Elf.Parse `Elf64::parse`, and Elf.Methods the other methods.
--   * casestudy/sbpf/src/insn_builder.rs, the builder of programs: Builder, and Builder.Methods the
--     methods of `BpfCode` with the names that ebpf.rs has for their instructions.
--   * casestudy/sbpf/src/safe_mode/x86.rs, the encoder: X86.Types has the registers, addressing
--     modes and `X86Instruction`, X86.Instruction.Alu, .Memory and .Control its constructors, and
--     X86.Encode `encode` with `emit_variable_length`. X86.Decode is an independent decoder.
--   * casestudy/sbpf/src/safe_mode/jit.rs, the compiler: Jit.Types has its data, Jit.Result the
--     fallible methods on its state, Jit.State the byte buffer, the PC and anchor tables and the
--     relocations, Jit.Registers the tables, Jit.Emit `emit_jit_instruction`, Jit.Lower
--     `lower_sbpf_instruction`, and Jit.Compile `compile` and `compile_sbpf`. Jit.Reference is an
--     independent two-pass assembler.
-- `compile_sbpf` lowers each `Insn` of Ebpf to a `JitInstruction`, which Jit.Emit turns into
-- `X86Instruction`s, whose bytes go to the buffer. A jump back has its displacement at once; a jump
-- ahead is recorded, and `resolve_jumps` writes its displacement when all offsets are known. The
-- interpreter reads the bytes of the same programs, and relies on what the verifier has checked of
-- them: it does not check registers, jump targets or immediate divisors again.
--
-- How the code is written here: bytes and unsigned integers are natural numbers below their bound,
-- with wrap-around written out; an `i16`, `i32` or `i64` is an integer, whose range is a hypothesis
-- where it matters; a cast to an unsigned type is `wrap`. A `usize` has 64 bits. A `&mut self` method
-- that can fail is a function from the compiler to its result and the compiler it leaves. A panic is
-- `none`. The `debug_assert`s of x86.rs, also those in `exclude_operand_sizes`, are skipped as a
-- release build skips them, with those of `encode` in `encode_asserts`; the one of `get_insn` is kept
-- as a debug build keeps it. The loops of `compile` and `compile_sbpf` recurse on the rounds that are
-- left, `program.len() - pc`, which is exactly the number of rounds that the loop makes, so that no
-- fuel can run out. The loop of `verify` moves forward by one or two slots in each round, so that as
-- many rounds as the program has slots are enough: when they are used up, `insn_ptr` is past the last
-- slot and the loop condition is false.
--
-- The interpreter is a function from a machine to an outcome: the machine it goes on with, the machine
-- it stopped at, or a panic, which is an index out of range, an overflow of `u64` as a debug build
-- checks it, or a division by zero. Its loop recurses on fuel, and is still running when the fuel is
-- used up. The context object with its memory mapping, and the host's built-in functions, which a
-- machine calls by number, are a parameter, `Host`, so that the address translation of Memory stands
-- for itself; `IsMetered` has what the interpreter relies on.
-- Registers are lists of twelve words. Numbers that the source keeps below 2 ^ 61 by an earlier
-- overflow check, such as the next program counter, are added without another one.
--
-- The parser of ELF files works on a list of bytes with the address at which it lies, since it checks
-- alignment; a pointer cast reads the fields of the structure in little-endian order. An index out of
-- range is its `panic`. Each structure of the instruction builder is a constructor with its fields.
--
-- Not modelled: the unaligned mapping apart from its cache, and the
-- bytes of the host's memory, the legacy registration of functions and lookups by name, loading of
-- ELF files, the production JIT with its executable memory, the debugger hooks of the interpreter,
-- assembler, disassembler, analysis, debugger and drivers of casestudy/sbpf, the hash of symbol
-- names (another crate), and the translator and its proof backends, which are not written in Rust.
pub mod Prelude
pub mod X86
pub mod Ebpf
pub mod Program
pub mod Verifier
pub mod Builder
pub mod Jit
pub mod Memory
pub mod Elf
pub mod Interpreter
pub mod Tests
