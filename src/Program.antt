-- ===== src/Program.antt =====
-- casestudy/sbpf/src/program.rs: the versions of the bytecode and the features that each one has.
pub mod Registry
use aeneas2isabelle.Prelude.{ℕ, Bool, ◌||◌, leb, ◌==◌}

pub data SbpfVersion : Type 0 where
  v0 v1 v2 v3 v4 reserved : SbpfVersion

-- The derived order of the variants.
abbrev pub version_index : SbpfVersion → ℕ
version_index v0 = 0
version_index v1 = 1
version_index v2 = 2
version_index v3 = 3
version_index v4 = 4
version_index reserved = 5

abbrev is_version : SbpfVersion → SbpfVersion → Bool
is_version v w = version_index v == version_index w

abbrev is_at_least : SbpfVersion → SbpfVersion → Bool
is_at_least v w = leb (version_index w) (version_index v)

abbrev pub manual_stack_frame_bump : SbpfVersion → Bool
manual_stack_frame_bump version = is_version version v1 || is_version version v2

abbrev pub stack_frame_gaps : SbpfVersion → Bool
stack_frame_gaps version = is_version version v0

abbrev pub enable_pqr : SbpfVersion → Bool
enable_pqr version = is_version version v2

abbrev pub explicit_sign_extension_of_results : SbpfVersion → Bool
explicit_sign_extension_of_results version = is_version version v2

abbrev pub swap_sub_reg_imm_operands : SbpfVersion → Bool
swap_sub_reg_imm_operands version = is_version version v2

abbrev pub disable_neg : SbpfVersion → Bool
disable_neg version = is_version version v2

abbrev pub callx_uses_src_reg : SbpfVersion → Bool
callx_uses_src_reg version = is_version version v2

abbrev pub disable_lddw : SbpfVersion → Bool
disable_lddw version = is_version version v2

abbrev pub disable_le : SbpfVersion → Bool
disable_le version = is_version version v2

abbrev pub move_memory_instruction_classes : SbpfVersion → Bool
move_memory_instruction_classes version = is_version version v2

abbrev pub static_syscalls : SbpfVersion → Bool
static_syscalls version = is_at_least version v3

abbrev pub enable_stricter_elf_headers : SbpfVersion → Bool
enable_stricter_elf_headers version = is_at_least version v3

abbrev pub enable_lower_rodata_vaddr : SbpfVersion → Bool
enable_lower_rodata_vaddr version = is_at_least version v3

abbrev pub enable_jmp32 : SbpfVersion → Bool
enable_jmp32 version = is_at_least version v3

abbrev pub callx_uses_dst_reg : SbpfVersion → Bool
callx_uses_dst_reg version = is_at_least version v3
