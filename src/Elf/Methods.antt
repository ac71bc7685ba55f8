-- ===== src/Elf/Methods.antt =====
-- casestudy/sbpf/src/elf_parser/mod.rs: the methods of the structures of an ELF file.
use aeneas2isabelle.Prelude.{
  ℕ, ◌/◌, ◌%◌, Bool, not, Option, none, some, ◌==◌, if◌then◌else◌, bit_and, bit_or,
}
use aeneas2isabelle.Memory.{saturating_add}
use aeneas2isabelle.Elf.Consts.{pt_load, sht_nobits, shf_write, shf_alloc, stt_func}
use aeneas2isabelle.Elf.Types.{Elf64Phdr, Elf64Shdr, Elf64Sym, Elf64Rel}
use aeneas2isabelle.Elf.Bytes.{Range}

pub segment_file_range : Elf64Phdr → Option Range
segment_file_range h =
    if h.p_type == pt_load
    then some (record { start = h.p_offset; end = saturating_add h.p_offset h.p_filesz })
    else none

pub segment_vm_range : Elf64Phdr → Range
segment_vm_range h = record { start = h.p_vaddr; end = saturating_add h.p_vaddr h.p_memsz }

pub is_writable : Elf64Shdr → Bool
is_writable h = bit_and h.sh_flags (bit_or shf_alloc shf_write) == bit_or shf_alloc shf_write

unfoldable pub section_file_range : Elf64Shdr → Option Range
section_file_range h =
    if not (h.sh_type == sht_nobits)
    then some (record { start = h.sh_offset; end = saturating_add h.sh_offset h.sh_size })
    else none

pub section_vm_range : Elf64Shdr → Range
section_vm_range h = record { start = h.sh_addr; end = saturating_add h.sh_addr h.sh_size }

pub is_function : Elf64Sym → Bool
is_function symbol = symbol.st_info % 16 == stt_func

pub r_type : Elf64Rel → ℕ
r_type relocation = relocation.r_info % 0x1_0000_0000

pub r_sym : Elf64Rel → ℕ
r_sym relocation = relocation.r_info / 0x1_0000_0000 % 0x1_0000_0000
