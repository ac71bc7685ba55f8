-- ===== src/Tests/ElfFile.antt =====
-- A small ELF file, parsed, with the names of its sections.
use aeneas2isabelle.Prelude.{ℕ, ◌≡◌, ◌≢◌, ◌↔◌, refl, some, List, [], ◌∷◌, ◌++◌, replicate}
use aeneas2isabelle.Elf.Types.{Elf64Shdr, read_ehdr, read_shdr}
use aeneas2isabelle.Elf.Result.{ok, err, panic, invalid_alignment}
use aeneas2isabelle.Elf.Bytes.{ElfBytes}
use aeneas2isabelle.Elf.Strings.{get_string_in_section}
use aeneas2isabelle.Elf.Strings.Found.{HasWindow, IsStringAt, get_string_in_section_iff}
use aeneas2isabelle.Elf.Parser.{Elf64, section_name}
use aeneas2isabelle.Elf.Parse.{initial, parse}
use aeneas2isabelle.Elf.Parse.WellFormed.{IsWellFormed}
use aeneas2isabelle.Elf.Parse.Sound.{parse-ne-panic, parse-IsWellFormed}
use aeneas2isabelle.Elf.Parse.Names.{parse-section_name}

-- A file header, no program headers, a null section and a string table.
abbrev header_bytes : List ℕ
header_bytes =
    127 ∷ 69 ∷ 76 ∷ 70 ∷ 2 ∷ 1 ∷ 1 ∷ 0 ∷ 0 ∷ 0 ∷ 0 ∷ 0 ∷ 0 ∷ 0 ∷ 0 ∷ 0 ∷ 3 ∷ 0 ∷ 7 ∷ 1 ∷ 1 ∷ 0 ∷ 0
    ∷ 0 ∷ 0 ∷ 0 ∷ 0 ∷ 0 ∷ 0 ∷ 0 ∷ 0 ∷ 0 ∷ 64 ∷ 0 ∷ 0 ∷ 0 ∷ 0 ∷ 0 ∷ 0 ∷ 0 ∷ 64 ∷ 0 ∷ 0 ∷ 0 ∷ 0 ∷ 0
    ∷ 0 ∷ 0 ∷ 0 ∷ 0 ∷ 0 ∷ 0 ∷ 64 ∷ 0 ∷ 56 ∷ 0 ∷ 0 ∷ 0 ∷ 64 ∷ 0 ∷ 2 ∷ 0 ∷ 1 ∷ 0 ∷ []

abbrev string_section_bytes : List ℕ
string_section_bytes =
    1 ∷ 0 ∷ 0 ∷ 0 ∷ 3 ∷ 0 ∷ 0 ∷ 0 ∷ 0 ∷ 0 ∷ 0 ∷ 0 ∷ 0 ∷ 0 ∷ 0 ∷ 0 ∷ 0 ∷ 0 ∷ 0 ∷ 0 ∷ 0 ∷ 0 ∷ 0 ∷ 0
    ∷ 192 ∷ 0 ∷ 0 ∷ 0 ∷ 0 ∷ 0 ∷ 0 ∷ 0 ∷ 5 ∷ 0 ∷ 0 ∷ 0 ∷ 0 ∷ 0 ∷ 0 ∷ 0 ∷ 0 ∷ 0 ∷ 0 ∷ 0 ∷ 0 ∷ 0 ∷ 0
    ∷ 0 ∷ 1 ∷ 0 ∷ 0 ∷ 0 ∷ 0 ∷ 0 ∷ 0 ∷ 0 ∷ 0 ∷ 0 ∷ 0 ∷ 0 ∷ 0 ∷ 0 ∷ 0 ∷ 0 ∷ []

abbrev small_file : ElfBytes
small_file = record {
  addr = 4096;
  bytes =
      header_bytes ++ (replicate 64 0 ++ (string_section_bytes ++ (0 ∷ 46 ∷ 115 ∷ 116 ∷ 0 ∷ [])));
}

abbrev null_section : Elf64Shdr
null_section = record {
  sh_name = 0;
  sh_type = 0;
  sh_flags = 0;
  sh_addr = 0;
  sh_offset = 0;
  sh_size = 0;
  sh_link = 0;
  sh_info = 0;
  sh_addralign = 0;
  sh_entsize = 0;
}

abbrev string_section : Elf64Shdr
string_section = record null_section {
  sh_name = 1;
  sh_type = 3;
  sh_offset = 192;
  sh_size = 5;
  sh_addralign = 1;
}

abbrev small_parsed : Elf64
small_parsed =
    initial small_file (read_ehdr header_bytes) [] (null_section ∷ string_section ∷ [])
      (some string_section)

small_file-parsed : parse small_file ≡ ok small_parsed
unfolding parse read_shdr
small_file-parsed = refl

-- The same file at an address that is not aligned.
misaligned : parse (record small_file { addr = 4097 }) ≡ err invalid_alignment
unfolding parse
misaligned = refl

parse-ne-panic_example : parse small_file ≢ panic
parse-ne-panic_example = parse-ne-panic small_file

parse-IsWellFormed_example : IsWellFormed small_file small_parsed
parse-IsWellFormed_example = parse-IsWellFormed small_file small_parsed small_file-parsed

parse-section_name_example : (s : List ℕ) × (section_name small_parsed 1 ≡ ok s)
parse-section_name_example =
    parse-section_name small_file small_parsed 1 string_section small_file-parsed refl

get_string_in_section_iff_example :
    (get_string_in_section small_file string_section 1 16 ≡ ok (46 ∷ 115 ∷ 116 ∷ [])) ↔ (
      HasWindow small_file.bytes string_section 1 16
      × IsStringAt small_file.bytes string_section 1 16 (46 ∷ 115 ∷ 116 ∷ []))
get_string_in_section_iff_example =
    get_string_in_section_iff small_file string_section 1 16 (46 ∷ 115 ∷ 116 ∷ [])
