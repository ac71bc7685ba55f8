-- ===== src/Elf/Dynamic.antt =====
-- casestudy/sbpf/src/elf_parser/mod.rs: the dynamic table, with its relocations and symbols.
use aeneas2isabelle.Prelude.{
  ℕ, ◌&&◌, Option, none, some, List, [], ◌∷◌, ltb, leb, ◌==◌, if◌then◌else◌, length, get_elem?, set,
}
use aeneas2isabelle.Elf.Consts.{
  pt_dynamic, sht_dynamic, dt_null, dt_num, dt_symtab, dt_rel, dt_relsz, dt_relent,
}
use aeneas2isabelle.Elf.Types.{
  Elf64Phdr, Elf64Shdr, Elf64Sym, Elf64Dyn, Elf64Rel, dyn_layout, rel_layout,
}
use aeneas2isabelle.Elf.Result.{
  Parsed, ok, panic, ◌>>=◌, ◌>>◌, guard, ok_or, ok_of, map_err, map_some, err_checked_add,
  err_checked_sub, invalid_dynamic_section_table,
}
use aeneas2isabelle.Elf.Bytes.{
  ElfBytes, slice_from_bytes, slice_from_program_header, slice_from_section_header,
}
use aeneas2isabelle.Elf.Parser.{Elf64, get_symbol_table_of_section}

-- `iter().find(..)` of each table.
unfoldable pub find_program_header : ℕ → List Elf64Phdr → Option Elf64Phdr
find_program_header type [] = none
find_program_header type (header ∷ rest) =
    if header.p_type == type then some header else find_program_header type rest

unfoldable pub find_section_of_type : ℕ → List Elf64Shdr → Option Elf64Shdr
find_section_of_type type [] = none
find_section_of_type type (header ∷ rest) =
    if header.sh_type == type then some header else find_section_of_type type rest

unfoldable pub find_section_at : ℕ → List Elf64Shdr → Option Elf64Shdr
find_section_at vaddr [] = none
find_section_at vaddr (header ∷ rest) =
    if header.sh_addr == vaddr then some header else find_section_at vaddr rest

-- Reads and writes of `dynamic_table`, which panic out of range.
unfoldable pub dynamic_entry : List ℕ → ℕ → Parsed ℕ
dynamic_entry table tag = elim (get_elem? table tag) [ none ↦ panic | some value ↦ ok value ]

unfoldable pub set_dynamic_entry : List ℕ → ℕ → ℕ → Parsed (List ℕ)
set_dynamic_entry table tag value =
    if ltb tag (length table) then ok (set table tag value) else panic

-- PT_DYNAMIC, if it is there and valid.
abbrev pub segment_dynamic_table : ElfBytes → Option Elf64Phdr → Parsed (Option (List Elf64Dyn))
segment_dynamic_table elf_bytes none = ok none
segment_dynamic_table elf_bytes (some header) =
    ok_of (slice_from_program_header dyn_layout elf_bytes header)

-- SHT_DYNAMIC, if there is no such segment.
abbrev pub section_dynamic_table : ElfBytes → Option Elf64Shdr → Parsed (Option (List Elf64Dyn))
section_dynamic_table elf_bytes none = ok none
section_dynamic_table elf_bytes (some header) =
    map_some (
      map_err (slice_from_section_header dyn_layout elf_bytes header) invalid_dynamic_section_table)

abbrev pub or_section_dynamic_table :
    Elf64 → Option (List Elf64Dyn) → Parsed (Option (List Elf64Dyn))
or_section_dynamic_table p none =
    section_dynamic_table p.elf_bytes (find_section_of_type sht_dynamic p.section_header_table)
or_section_dynamic_table p (some table) = ok (some table)

-- The loop that expands the entries into the table.
unfoldable pub expand_dynamic : List Elf64Dyn → List ℕ → Parsed (List ℕ)
unfolding set_dynamic_entry
expand_dynamic [] table = ok table
expand_dynamic (dyn_info ∷ rest) table =
    let continue = expand_dynamic rest table in
    let store = do
      written ← set_dynamic_entry table dyn_info.d_tag dyn_info.d_val
      expand_dynamic rest written
    in if dyn_info.d_tag == dt_null
      then ok table
      else if leb dt_num dyn_info.d_tag
      then continue
      else store

-- The segment whose addresses hold `vaddr`.
unfoldable pub program_header_for_vaddr : ℕ → List Elf64Phdr → Parsed (Option Elf64Phdr)
unfolding err_checked_add
program_header_for_vaddr vaddr [] = ok none
program_header_for_vaddr vaddr (header ∷ rest) = do
  end ← err_checked_add header.p_vaddr header.p_memsz
  if leb header.p_vaddr vaddr && ltb vaddr end
      then ok (some header)
      else program_header_for_vaddr vaddr rest

-- The file offset of the relocations, by segment or, for files without one, by section.
abbrev pub relocations_offset : Elf64 → ℕ → Option Elf64Phdr → Parsed ℕ
relocations_offset p vaddr none = do
  header ← ok_or (find_section_at vaddr p.section_header_table) invalid_dynamic_section_table
  ok header.sh_offset
relocations_offset p vaddr (some header) = do
  distance ← err_checked_sub vaddr header.p_vaddr
  err_checked_add distance header.p_offset

unfoldable pub parse_relocations_at : Elf64 → ℕ → Parsed (Option (List Elf64Rel))
unfolding dynamic_entry program_header_for_vaddr slice_from_bytes err_checked_add err_checked_sub
parse_relocations_at p vaddr = do
  entry_size ← dynamic_entry p.dynamic_table dt_relent
  guard (entry_size == 16) invalid_dynamic_section_table
  size ← dynamic_entry p.dynamic_table dt_relsz
  guard (ltb 0 size) invalid_dynamic_section_table
  header ← program_header_for_vaddr vaddr p.program_header_table
  offset ← relocations_offset p vaddr header
  end ← err_checked_add offset size
  map_some (
      map_err (slice_from_bytes rel_layout p.elf_bytes (record { start = offset; end = end }))
        invalid_dynamic_section_table)

unfoldable pub parse_dynamic_relocations : Elf64 → Parsed (Option (List Elf64Rel))
unfolding parse_relocations_at
parse_dynamic_relocations p = do
  vaddr ← dynamic_entry p.dynamic_table dt_rel
  if vaddr == 0 then ok none else parse_relocations_at p vaddr

unfoldable pub parse_dynamic_symbol_table : Elf64 → Parsed (Option (List Elf64Sym))
unfolding dynamic_entry find_section_at get_symbol_table_of_section
parse_dynamic_symbol_table p = do
  vaddr ← dynamic_entry p.dynamic_table dt_symtab
  if vaddr == 0 then ok none else (do
    header ← ok_or (find_section_at vaddr p.section_header_table) invalid_dynamic_section_table
    map_some (get_symbol_table_of_section p header))

-- `parse_dynamic` from the table that was found on; without one the file is static.
unfoldable pub parse_dynamic_table : Elf64 → Option (List Elf64Dyn) → Parsed Elf64
unfolding expand_dynamic parse_dynamic_relocations parse_dynamic_symbol_table
parse_dynamic_table p none = ok p
parse_dynamic_table p (some entries) = do
  table ← expand_dynamic entries p.dynamic_table
  let expanded = record p { dynamic_table = table }
  relocations ← parse_dynamic_relocations expanded
  symbols ← parse_dynamic_symbol_table expanded
  ok (record expanded { dynamic_relocations_table = relocations; dynamic_symbol_table = symbols })

unfoldable pub parse_dynamic : Elf64 → Parsed Elf64
unfolding parse_dynamic_table find_program_header find_section_of_type slice_from_program_header
    slice_from_section_header
parse_dynamic p = do
  segment ←
      segment_dynamic_table p.elf_bytes (find_program_header pt_dynamic p.program_header_table)
  entries ← or_section_dynamic_table p segment
  parse_dynamic_table p entries
