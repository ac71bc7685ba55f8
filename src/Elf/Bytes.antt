-- ===== src/Elf/Bytes.antt =====
-- casestudy/sbpf/src/elf_parser/mod.rs: byte ranges of the file and the tables that they hold.
use aeneas2isabelle.Prelude.{
  ℕ, zero, suc, ◌+◌, ◌-◌, ◌/◌, ◌%◌, Bool, not, ◌&&◌, ◌||◌, Option, none, some, List, [], ◌∷◌, leb,
  ◌==◌, if◌then◌else◌, length, take, drop,
}
use aeneas2isabelle.Elf.Result.{
  Parsed, ok, ◌>>=◌, ◌>>◌, guard, ok_or, err_checked_add, out_of_bounds, invalid_size,
  invalid_alignment, overlap,
}
use aeneas2isabelle.Elf.Types.{Layout, Elf64Phdr, Elf64Shdr}

-- A slice of bytes with the address at which it lies in memory.
pub record ElfBytes : Type 0 where
  pub addr : ℕ
  pub bytes : List ℕ

pub record Range : Type 0 where
  pub start : ℕ
  pub end : ℕ

abbrev pub range_bytes : List ℕ → Range → List ℕ
range_bytes bytes range = take (range.end - range.start) (drop range.start bytes)

-- `elf_bytes.get(range)`.
unfoldable pub get : ElfBytes → Range → Option (List ℕ)
get elf_bytes range =
    if leb range.start range.end && leb range.end (length elf_bytes.bytes)
    then some (range_bytes elf_bytes.bytes range)
    else none

-- `n` structures in a row.
unfoldable pub read_all : {A : Type 0} → Layout A → ℕ → List ℕ → List A
read_all layout zero bytes = []
read_all layout (suc n) bytes =
    layout.read (take layout.size bytes) ∷ read_all layout n (drop layout.size bytes)

-- `checked_rem(..).map(|remainder| remainder != 0).unwrap_or(true)`, negated.
abbrev pub is_multiple : ℕ → ℕ → Bool
is_multiple n m = not (m == 0) && n % m == 0

unfoldable pub slice_from_bytes : {A : Type 0} → Layout A → ElfBytes → Range → Parsed (List A)
unfolding get read_all
slice_from_bytes layout elf_bytes range = do
  let len = range.end - range.start
  guard (is_multiple len layout.size) invalid_size
  bytes ← ok_or (get elf_bytes range) out_of_bounds
  guard (is_multiple (elf_bytes.addr + range.start) layout.align) invalid_alignment
  ok (read_all layout (len / layout.size) bytes)

unfoldable pub slice_from_program_header :
    {A : Type 0} → Layout A → ElfBytes → Elf64Phdr → Parsed (List A)
unfolding slice_from_bytes err_checked_add
slice_from_program_header layout elf_bytes program_header = do
  end ← err_checked_add program_header.p_offset program_header.p_filesz
  slice_from_bytes layout elf_bytes (record { start = program_header.p_offset; end = end })

unfoldable pub slice_from_section_header :
    {A : Type 0} → Layout A → ElfBytes → Elf64Shdr → Parsed (List A)
unfolding slice_from_bytes err_checked_add
slice_from_section_header layout elf_bytes section_header = do
  end ← err_checked_add section_header.sh_offset section_header.sh_size
  slice_from_bytes layout elf_bytes (record { start = section_header.sh_offset; end = end })

unfoldable pub check_that_there_is_no_overlap : Range → Range → Parsed (Unit {0})
check_that_there_is_no_overlap range_a range_b =
    guard (leb range_a.end range_b.start || leb range_b.end range_a.start) overlap
