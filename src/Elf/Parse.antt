-- ===== src/Elf/Parse.antt =====
-- casestudy/sbpf/src/elf_parser/mod.rs: `Elf64::parse`.
pub mod Names
pub mod Sound
pub mod Steps
pub mod WellFormed
use aeneas2isabelle.Prelude.{none, Option, List, replicate}
use aeneas2isabelle.Elf.Consts.{dt_num}
use aeneas2isabelle.Elf.Types.{Elf64Ehdr, Elf64Phdr, Elf64Shdr}
use aeneas2isabelle.Elf.Result.{Parsed, ◌>>=◌, ◌>>◌, guard, invalid_file_header}
use aeneas2isabelle.Elf.Bytes.{ElfBytes}
use aeneas2isabelle.Elf.Headers.{
  parse_file_header, is_valid_file_header, parse_program_header_table, parse_section_header_table,
  check_first_section, check_program_headers, check_sections, section_names,
}
use aeneas2isabelle.Elf.Parser.{Elf64, parse_sections}
use aeneas2isabelle.Elf.Dynamic.{parse_dynamic}

-- The parser before it has looked into the sections.
abbrev pub initial :
    ElfBytes → Elf64Ehdr → List Elf64Phdr → List Elf64Shdr → Option Elf64Shdr → Elf64
initial elf_bytes file_header programs sections names = record {
  elf_bytes = elf_bytes;
  file_header = file_header;
  program_header_table = programs;
  section_header_table = sections;
  section_names_section_header = names;
  symbol_section_header = none;
  symbol_names_section_header = none;
  dynamic_table = replicate dt_num 0;
  dynamic_relocations_table = none;
  dynamic_symbol_table = none;
  dynamic_symbol_names_section_header = none;
}

unfoldable pub parse : ElfBytes → Parsed Elf64
unfolding parse_file_header is_valid_file_header parse_program_header_table
    parse_section_header_table check_first_section check_program_headers check_sections
    section_names parse_sections parse_dynamic
parse elf_bytes = do
  (file_header_range, file_header) ← parse_file_header elf_bytes
  guard (is_valid_file_header file_header) invalid_file_header
  (programs_range, programs) ← parse_program_header_table elf_bytes file_header_range file_header
  (sections_range, sections) ←
      parse_section_header_table elf_bytes file_header_range file_header programs_range
  check_first_section sections
  check_program_headers elf_bytes 0 programs
  check_sections elf_bytes file_header_range programs_range sections_range 0 sections
  names ← section_names file_header sections
  parser ← parse_sections (initial elf_bytes file_header programs sections names)
  parse_dynamic parser
