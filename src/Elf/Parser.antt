-- ===== src/Elf/Parser.antt =====
-- casestudy/sbpf/src/elf_parser/mod.rs: the state of `Elf64`, its sections and its accessors.
use aeneas2isabelle.Prelude.{ℕ, ◌||◌, Option, none, some, List, [], ◌∷◌, ◌==◌, if◌then◌else◌}
use aeneas2isabelle.Elf.Consts.{sht_symtab, sht_dynsym}
use aeneas2isabelle.Elf.Types.{Elf64Ehdr, Elf64Phdr, Elf64Shdr, Elf64Sym, Elf64Rel, sym_layout}
use aeneas2isabelle.Elf.Result.{
  Parsed, ok, err, ◌>>=◌, ◌>>◌, guard, ok_or, map_some, invalid_section_header,
  no_section_name_string_table, no_string_table, no_dynamic_string_table,
}
use aeneas2isabelle.Elf.Bytes.{ElfBytes, slice_from_section_header}
use aeneas2isabelle.Elf.Headers.{bytes_eq}
use aeneas2isabelle.Elf.Strings.{
  section_name_length_maximum, symbol_name_length_maximum, get_string_in_section,
}

pub record Elf64 : Type 0 where
  pub elf_bytes : ElfBytes
  pub file_header : Elf64Ehdr
  pub program_header_table : List Elf64Phdr
  pub section_header_table : List Elf64Shdr
  pub section_names_section_header : Option Elf64Shdr
  pub symbol_section_header : Option Elf64Shdr
  pub symbol_names_section_header : Option Elf64Shdr
  pub dynamic_table : List ℕ
  pub dynamic_relocations_table : Option (List Elf64Rel)
  pub dynamic_symbol_table : Option (List Elf64Sym)
  pub dynamic_symbol_names_section_header : Option Elf64Shdr

-- The names that `parse_sections` looks for.
abbrev pub symtab_name : List ℕ
symtab_name = b'.' ∷ b's' ∷ b'y' ∷ b'm' ∷ b't' ∷ b'a' ∷ b'b' ∷ []

abbrev pub strtab_name : List ℕ
strtab_name = b'.' ∷ b's' ∷ b't' ∷ b'r' ∷ b't' ∷ b'a' ∷ b'b' ∷ []

abbrev pub dynstr_name : List ℕ
dynstr_name = b'.' ∷ b'd' ∷ b'y' ∷ b'n' ∷ b's' ∷ b't' ∷ b'r' ∷ []

-- The field of a section that is found for the first time.
abbrev pub first_found : Option Elf64Shdr → Elf64Shdr → Parsed (Option Elf64Shdr)
first_found none section_header = ok (some section_header)
first_found (some _) section_header = err invalid_section_header

-- The arms of `section_header_by_name!`.
unfoldable pub section_header_by_name : Elf64 → Elf64Shdr → List ℕ → Parsed Elf64
unfolding bytes_eq
section_header_by_name p section_header section_name =
    if bytes_eq section_name symtab_name
    then (do
      found ← first_found p.symbol_section_header section_header
      ok (record p { symbol_section_header = found }))
    else if bytes_eq section_name strtab_name
    then (do
      found ← first_found p.symbol_names_section_header section_header
      ok (record p { symbol_names_section_header = found }))
    else if bytes_eq section_name dynstr_name
    then (do
      found ← first_found p.dynamic_symbol_names_section_header section_header
      ok (record p { dynamic_symbol_names_section_header = found }))
    else ok p

-- The loop of `parse_sections`.
unfoldable pub parse_named_sections : Elf64Shdr → List Elf64Shdr → Elf64 → Parsed Elf64
unfolding get_string_in_section section_header_by_name
parse_named_sections names [] p = ok p
parse_named_sections names (section_header ∷ rest) p = do
  section_name ←
      get_string_in_section p.elf_bytes names section_header.sh_name section_name_length_maximum
  found ← section_header_by_name p section_header section_name
  parse_named_sections names rest found

unfoldable pub parse_sections : Elf64 → Parsed Elf64
unfolding parse_named_sections
parse_sections p = do
  names ← ok_or p.section_names_section_header no_section_name_string_table
  parse_named_sections names p.section_header_table p

unfoldable pub get_symbol_table_of_section : Elf64 → Elf64Shdr → Parsed (List Elf64Sym)
unfolding slice_from_section_header
get_symbol_table_of_section p section_header = do
  guard (section_header.sh_type == sht_symtab || section_header.sh_type == sht_dynsym)
      invalid_section_header
  slice_from_section_header sym_layout p.elf_bytes section_header

unfoldable pub section_name : Elf64 → ℕ → Parsed (List ℕ)
unfolding get_string_in_section
section_name p sh_name = do
  names ← ok_or p.section_names_section_header no_section_name_string_table
  get_string_in_section p.elf_bytes names sh_name section_name_length_maximum

unfoldable pub symbol_name : Elf64 → ℕ → Parsed (List ℕ)
unfolding get_string_in_section
symbol_name p st_name = do
  names ← ok_or p.symbol_names_section_header no_string_table
  get_string_in_section p.elf_bytes names st_name symbol_name_length_maximum

unfoldable pub dynamic_symbol_name : Elf64 → ℕ → Parsed (List ℕ)
unfolding get_string_in_section
dynamic_symbol_name p st_name = do
  names ← ok_or p.dynamic_symbol_names_section_header no_dynamic_string_table
  get_string_in_section p.elf_bytes names st_name symbol_name_length_maximum

-- The symbol table, if there is a section for it.
abbrev pub symbol_table_in : Elf64 → Option Elf64Shdr → Parsed (Option (List Elf64Sym))
symbol_table_in p none = ok none
symbol_table_in p (some section_header) = map_some (get_symbol_table_of_section p section_header)

unfoldable pub symbol_table : Elf64 → Parsed (Option (List Elf64Sym))
unfolding get_symbol_table_of_section
symbol_table p = symbol_table_in p p.symbol_section_header
