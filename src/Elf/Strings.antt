-- ===== src/Elf/Strings.antt =====
-- casestudy/sbpf/src/elf_parser/mod.rs: the strings of a string table.
pub mod Found
use aeneas2isabelle.Prelude.{
  ℕ, ◌+◌, Bool, Option, none, some, List, [], ◌∷◌, ◌==◌, if◌then◌else◌, take,
}
use Prim.Native.Nat.{min}
use mathlib.Core.Option
use aeneas2isabelle.Elf.Consts.{sht_strtab}
use aeneas2isabelle.Elf.Types.{Elf64Shdr}
use aeneas2isabelle.Elf.Result.{
  Parsed, ok, err, ◌>>=◌, ◌>>◌, guard, ok_or, err_checked_add, invalid_section_header,
  out_of_bounds, string_too_long,
}
use aeneas2isabelle.Elf.Bytes.{ElfBytes, Range, get}

abbrev pub section_name_length_maximum : ℕ
section_name_length_maximum = 16

abbrev pub symbol_name_length_maximum : ℕ
symbol_name_length_maximum = 64

-- `bytes.iter().position(|byte| *byte == 0x00)`.
unfoldable pub position_zero : List ℕ → Option ℕ
position_zero [] = none
position_zero (byte ∷ bytes) =
    if byte == 0 then some 0 else Option.map (λ i. i + 1) (position_zero bytes)

unfoldable pub terminated : List ℕ → ℕ → Parsed (List ℕ)
unfolding position_zero
terminated bytes maximum_length =
    ok_or (Option.map (λ string_length. take string_length bytes) (position_zero bytes))
      (string_too_long bytes maximum_length)

unfoldable pub get_string_in_section : ElfBytes → Elf64Shdr → ℕ → ℕ → Parsed (List ℕ)
unfolding err_checked_add get terminated
get_string_in_section elf_bytes section_header offset_in_section maximum_length = do
  guard (section_header.sh_type == sht_strtab) invalid_section_header
  offset_in_file ← err_checked_add section_header.sh_offset offset_in_section
  section_end ← err_checked_add section_header.sh_offset section_header.sh_size
  string_end ← err_checked_add offset_in_file maximum_length
  let string_range : Range = record { start = offset_in_file; end = min section_end string_end }
  unterminated_string_bytes ← ok_or (get elf_bytes string_range) out_of_bounds
  terminated unterminated_string_bytes maximum_length
