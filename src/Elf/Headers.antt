-- ===== src/Elf/Headers.antt =====
-- casestudy/sbpf/src/elf_parser/mod.rs: the file header, the two header tables, and the checks that
pub mod Segments
pub mod Tables
pub mod Order
-- `Elf64::parse` makes of them.
use aeneas2isabelle.Prelude.{
  ℕ, ◌+◌, Bool, true, false, not, ◌&&◌, ◌||◌, Option, none, some, List, [], ◌∷◌, ltb, leb, ◌==◌,
  if◌then◌else◌, length, get_elem?,
}
use aeneas2isabelle.Memory.{saturating_add}
use aeneas2isabelle.Elf.Consts.{
  elfmag, elfclass64, elfdata2lsb, ev_current, pt_load, sht_null, sht_nobits, shf_write, shf_alloc,
  shn_undef, stt_func,
}
use aeneas2isabelle.Elf.Types.{
  ElfIdent, Elf64Ehdr, Elf64Phdr, Elf64Shdr, Elf64Sym, Elf64Rel, read_ehdr, phdr_layout,
  shdr_layout,
}
use aeneas2isabelle.Elf.Result.{
  Parsed, ok, err, ◌>>=◌, ◌>>◌, guard, ok_or, err_checked_add, err_checked_mul, map_some,
  invalid_program_header, invalid_section_header, out_of_bounds, section_not_in_order,
  invalid_alignment,
}
use aeneas2isabelle.Elf.Bytes.{
  ElfBytes, Range, get, is_multiple, slice_from_bytes, check_that_there_is_no_overlap,
}

unfoldable pub bytes_eq : List ℕ → List ℕ → Bool
bytes_eq [] [] = true
bytes_eq [] (_ ∷ _) = false
bytes_eq (_ ∷ _) [] = false
bytes_eq (a ∷ xs) (b ∷ ys) = a == b && bytes_eq xs ys

unfoldable pub parse_file_header : ElfBytes → Parsed (Range × Elf64Ehdr)
unfolding get read_ehdr
parse_file_header elf_bytes = do
  let file_header_range : Range = record { start = 0; end = 64 }
  file_header_bytes ← ok_or (get elf_bytes file_header_range) out_of_bounds
  guard (is_multiple elf_bytes.addr 8) invalid_alignment
  ok (file_header_range, read_ehdr file_header_bytes)

-- The condition under which `parse` goes on with a file header.
unfoldable pub is_valid_file_header : Elf64Ehdr → Bool
unfolding bytes_eq
is_valid_file_header h =
    bytes_eq h.e_ident.ei_mag elfmag
    && h.e_ident.ei_class == elfclass64
    && h.e_ident.ei_data == elfdata2lsb
    && h.e_ident.ei_version == ev_current
    && h.e_version == ev_current
    && h.e_ehsize == 64
    && h.e_phentsize == 56
    && h.e_shentsize == 64
    && ltb h.e_shstrndx h.e_shnum

unfoldable pub parse_program_header_table :
    ElfBytes → Range → Elf64Ehdr → Parsed (Range × List Elf64Phdr)
unfolding err_checked_mul err_checked_add check_that_there_is_no_overlap slice_from_bytes
parse_program_header_table elf_bytes file_header_range file_header = do
  len ← err_checked_mul 56 file_header.e_phnum
  end ← err_checked_add len file_header.e_phoff
  let table_range : Range = record { start = file_header.e_phoff; end = end }
  check_that_there_is_no_overlap file_header_range table_range
  table ← slice_from_bytes phdr_layout elf_bytes table_range
  ok (table_range, table)

unfoldable pub parse_section_header_table :
    ElfBytes → Range → Elf64Ehdr → Range → Parsed (Range × List Elf64Shdr)
unfolding err_checked_mul err_checked_add check_that_there_is_no_overlap slice_from_bytes
parse_section_header_table elf_bytes file_header_range file_header program_header_table_range = do
  len ← err_checked_mul 64 file_header.e_shnum
  end ← err_checked_add len file_header.e_shoff
  let table_range : Range = record { start = file_header.e_shoff; end = end }
  check_that_there_is_no_overlap file_header_range table_range
  check_that_there_is_no_overlap program_header_table_range table_range
  table ← slice_from_bytes shdr_layout elf_bytes table_range
  ok (table_range, table)

-- `section_header_table.first().filter(..).ok_or(..)?`.
unfoldable pub check_first_section : List Elf64Shdr → Parsed (Unit {0})
check_first_section [] = err invalid_section_header
check_first_section (section_header ∷ _) =
    guard (section_header.sh_type == sht_null) invalid_section_header

-- The loop over the program headers: the segments to load ascend and lie in the file.
unfoldable pub check_program_headers : ElfBytes → ℕ → List Elf64Phdr → Parsed (Unit {0})
unfolding err_checked_add
check_program_headers elf_bytes vaddr [] = ok tt
check_program_headers elf_bytes vaddr (program_header ∷ rest) =
    let continue = check_program_headers elf_bytes vaddr rest in
    let load = do
      guard (leb vaddr program_header.p_vaddr) invalid_program_header
      end ← err_checked_add program_header.p_offset program_header.p_filesz
      guard (leb end (length elf_bytes.bytes)) out_of_bounds
      check_program_headers elf_bytes program_header.p_vaddr rest
    in if program_header.p_type == pt_load then load else continue

-- The loop over the sections: they ascend, lie in the file and overlap no header.
unfoldable pub check_sections :
    ElfBytes → Range → Range → Range → ℕ → List Elf64Shdr → Parsed (Unit {0})
unfolding err_checked_add check_that_there_is_no_overlap
check_sections elf_bytes file_header programs sections offset [] = ok tt
check_sections elf_bytes file_header programs sections offset (section_header ∷ rest) =
    let continue = check_sections elf_bytes file_header programs sections offset rest in
    let check = do
      end ← err_checked_add section_header.sh_offset section_header.sh_size
      let section_range : Range = record { start = section_header.sh_offset; end = end }
      check_that_there_is_no_overlap section_range file_header
      check_that_there_is_no_overlap section_range programs
      check_that_there_is_no_overlap section_range sections
      guard (leb offset section_header.sh_offset) section_not_in_order
      guard (leb end (length elf_bytes.bytes)) out_of_bounds
      check_sections elf_bytes file_header programs sections end rest
    in if section_header.sh_type == sht_nobits then continue else check

-- `(e_shstrndx != SHN_UNDEF).then(|| ..).transpose()?`.
unfoldable pub section_names : Elf64Ehdr → List Elf64Shdr → Parsed (Option Elf64Shdr)
section_names file_header section_header_table =
    if file_header.e_shstrndx == shn_undef
    then ok none
    else map_some (ok_or (get_elem? section_header_table file_header.e_shstrndx) out_of_bounds)
