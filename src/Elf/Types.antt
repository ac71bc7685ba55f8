-- ===== src/Elf/Types.antt =====
-- casestudy/sbpf/src/elf_parser/types.rs and consts.rs: the structures of an ELF file and the
-- constants that the parser tests.
use aeneas2isabelle.Prelude.{ℕ, List, take, drop}
use aeneas2isabelle.Prelude.Words.{from_le_bytes}

pub record ElfIdent : Type 0 where
  pub ei_mag : List ℕ
  pub ei_class : ℕ
  pub ei_data : ℕ
  pub ei_version : ℕ
  pub ei_osabi : ℕ
  pub ei_abiversion : ℕ
  pub ei_pad : List ℕ

pub record Elf64Ehdr : Type 0 where
  pub e_ident : ElfIdent
  pub e_type : ℕ
  pub e_machine : ℕ
  pub e_version : ℕ
  pub e_entry : ℕ
  pub e_phoff : ℕ
  pub e_shoff : ℕ
  pub e_flags : ℕ
  pub e_ehsize : ℕ
  pub e_phentsize : ℕ
  pub e_phnum : ℕ
  pub e_shentsize : ℕ
  pub e_shnum : ℕ
  pub e_shstrndx : ℕ

pub record Elf64Phdr : Type 0 where
  pub p_type : ℕ
  pub p_flags : ℕ
  pub p_offset : ℕ
  pub p_vaddr : ℕ
  pub p_paddr : ℕ
  pub p_filesz : ℕ
  pub p_memsz : ℕ
  pub p_align : ℕ

pub record Elf64Shdr : Type 0 where
  pub sh_name : ℕ
  pub sh_type : ℕ
  pub sh_flags : ℕ
  pub sh_addr : ℕ
  pub sh_offset : ℕ
  pub sh_size : ℕ
  pub sh_link : ℕ
  pub sh_info : ℕ
  pub sh_addralign : ℕ
  pub sh_entsize : ℕ

pub record Elf64Sym : Type 0 where
  pub st_name : ℕ
  pub st_info : ℕ
  pub st_other : ℕ
  pub st_shndx : ℕ
  pub st_value : ℕ
  pub st_size : ℕ

pub record Elf64Dyn : Type 0 where
  pub d_tag : ℕ
  pub d_val : ℕ

pub record Elf64Rel : Type 0 where
  pub r_offset : ℕ
  pub r_info : ℕ

-- The layout that `repr(C)` gives a structure: its size and alignment, and the value that a pointer
-- cast reads from that many bytes on a little-endian machine.
pub record Layout (A : Type 0) : Type 0 where
  pub size : ℕ
  pub align : ℕ
  pub read : List ℕ → A

-- A field of `n` bytes at an offset.
abbrev field_at : ℕ → ℕ → List ℕ → ℕ
field_at offset n bytes = from_le_bytes (take n (drop offset bytes))

read_ident : List ℕ → ElfIdent
read_ident bytes = record {
  ei_mag = take 4 bytes;
  ei_class = field_at 4 1 bytes;
  ei_data = field_at 5 1 bytes;
  ei_version = field_at 6 1 bytes;
  ei_osabi = field_at 7 1 bytes;
  ei_abiversion = field_at 8 1 bytes;
  ei_pad = take 7 (drop 9 bytes);
}

unfoldable pub read_ehdr : List ℕ → Elf64Ehdr
unfolding read_ident from_le_bytes
read_ehdr bytes = record {
  e_ident = read_ident bytes;
  e_type = field_at 16 2 bytes;
  e_machine = field_at 18 2 bytes;
  e_version = field_at 20 4 bytes;
  e_entry = field_at 24 8 bytes;
  e_phoff = field_at 32 8 bytes;
  e_shoff = field_at 40 8 bytes;
  e_flags = field_at 48 4 bytes;
  e_ehsize = field_at 52 2 bytes;
  e_phentsize = field_at 54 2 bytes;
  e_phnum = field_at 56 2 bytes;
  e_shentsize = field_at 58 2 bytes;
  e_shnum = field_at 60 2 bytes;
  e_shstrndx = field_at 62 2 bytes;
}

unfoldable pub read_phdr : List ℕ → Elf64Phdr
unfolding from_le_bytes
read_phdr bytes = record {
  p_type = field_at 0 4 bytes;
  p_flags = field_at 4 4 bytes;
  p_offset = field_at 8 8 bytes;
  p_vaddr = field_at 16 8 bytes;
  p_paddr = field_at 24 8 bytes;
  p_filesz = field_at 32 8 bytes;
  p_memsz = field_at 40 8 bytes;
  p_align = field_at 48 8 bytes;
}

unfoldable pub read_shdr : List ℕ → Elf64Shdr
unfolding from_le_bytes
read_shdr bytes = record {
  sh_name = field_at 0 4 bytes;
  sh_type = field_at 4 4 bytes;
  sh_flags = field_at 8 8 bytes;
  sh_addr = field_at 16 8 bytes;
  sh_offset = field_at 24 8 bytes;
  sh_size = field_at 32 8 bytes;
  sh_link = field_at 40 4 bytes;
  sh_info = field_at 44 4 bytes;
  sh_addralign = field_at 48 8 bytes;
  sh_entsize = field_at 56 8 bytes;
}

unfoldable pub read_sym : List ℕ → Elf64Sym
unfolding from_le_bytes
read_sym bytes = record {
  st_name = field_at 0 4 bytes;
  st_info = field_at 4 1 bytes;
  st_other = field_at 5 1 bytes;
  st_shndx = field_at 6 2 bytes;
  st_value = field_at 8 8 bytes;
  st_size = field_at 16 8 bytes;
}

unfoldable pub read_dyn : List ℕ → Elf64Dyn
unfolding from_le_bytes
read_dyn bytes = record { d_tag = field_at 0 8 bytes; d_val = field_at 8 8 bytes }

unfoldable pub read_rel : List ℕ → Elf64Rel
unfolding from_le_bytes
read_rel bytes = record { r_offset = field_at 0 8 bytes; r_info = field_at 8 8 bytes }

abbrev pub phdr_layout : Layout Elf64Phdr
phdr_layout = record { size = 56; align = 8; read = read_phdr }

abbrev pub shdr_layout : Layout Elf64Shdr
shdr_layout = record { size = 64; align = 8; read = read_shdr }

abbrev pub sym_layout : Layout Elf64Sym
sym_layout = record { size = 24; align = 8; read = read_sym }

abbrev pub dyn_layout : Layout Elf64Dyn
dyn_layout = record { size = 16; align = 8; read = read_dyn }

abbrev pub rel_layout : Layout Elf64Rel
rel_layout = record { size = 16; align = 8; read = read_rel }
