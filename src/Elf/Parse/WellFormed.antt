-- ===== src/Elf/Parse/WellFormed.antt =====
-- What a file that was parsed is known to satisfy.
use aeneas2isabelle.Prelude.{
  ℕ, ◌+◌, ◌*◌, ◌≤◌, ◌<◌, ◌≡◌, ◌≢◌, some, List, [], ◌∷◌, length, get_elem?, take, refl, sym, ◌∙◌, ap,
  subst, arith, true,
}
use aeneas2isabelle.Elf.Consts.{elfmag, sht_null, sht_nobits, pt_load}
use aeneas2isabelle.Elf.Types.{Elf64Ehdr, Elf64Phdr, Elf64Shdr, read_ehdr, phdr_layout, shdr_layout}
use aeneas2isabelle.Elf.Result.{
  ok, >>=-eq-ok, guard-eq-ok, err_checked_mul, err_checked_mul-eq-ok, err_checked_add,
  err_checked_add-eq-ok,
}
use aeneas2isabelle.Elf.Bytes.{
  ElfBytes, Range, get, slice_from_bytes, check_that_there_is_no_overlap,
}
use aeneas2isabelle.Elf.Headers.{
  bytes_eq, parse_file_header, is_valid_file_header, parse_program_header_table,
  parse_section_header_table, check_first_section, check_program_headers, check_sections,
}
use aeneas2isabelle.Elf.Headers.Order.{
  Disjoint, section_range, check_that_there_is_no_overlap-Disjoint, check_sections-Fits,
  check_sections-order,
}
use aeneas2isabelle.Elf.Headers.Segments.{
  check_program_headers-in_file, check_program_headers-order,
}
use aeneas2isabelle.Elf.Headers.Tables.{IsTable, slice_from_bytes-IsTable}
use aeneas2isabelle.Elf.Parser.{Elf64}

abbrev pub file_header_range : Range
file_header_range = record { start = 0; end = 64 }

abbrev pub programs_range : Elf64Ehdr → Range
programs_range h = record { start = h.e_phoff; end = 56 * h.e_phnum + h.e_phoff }

abbrev pub sections_range : Elf64Ehdr → Range
sections_range h = record { start = h.e_shoff; end = 64 * h.e_shnum + h.e_shoff }

-- The file header and the two tables are read from the bytes, and lie in the file without overlap.
pub record HasHeaders (bytes : List ℕ) (h : Elf64Ehdr) (programs : List Elf64Phdr)
    (sections : List Elf64Shdr) : Type 0 where
  pub file_header : h ≡ read_ehdr (take 64 bytes)
  pub magic : h.e_ident.ei_mag ≡ elfmag
  pub names_below : h.e_shstrndx < h.e_shnum
  pub programs_table : IsTable phdr_layout bytes h.e_phoff h.e_phnum programs
  pub sections_table : IsTable shdr_layout bytes h.e_shoff h.e_shnum sections
  pub off_programs : Disjoint file_header_range (programs_range h)
  pub off_sections : Disjoint file_header_range (sections_range h)
  pub tables_apart : Disjoint (programs_range h) (sections_range h)

-- The segments that are loaded lie in the file, and their addresses do not descend.
pub record HasSegments (bytes : List ℕ) (programs : List Elf64Phdr) : Type 0 where
  pub in_file :
      (i : ℕ) (h : Elf64Phdr)
      → get_elem? programs i ≡ some h
      → h.p_type ≡ pt_load
      → h.p_offset + h.p_filesz ≤ length bytes
  pub ordered :
      (i j : ℕ) (h k : Elf64Phdr)
      → i < j
      → get_elem? programs i ≡ some h
      → get_elem? programs j ≡ some k
      → h.p_type ≡ pt_load
      → k.p_type ≡ pt_load
      → h.p_vaddr ≤ k.p_vaddr

-- The sections with bytes in the file lie in it, in their order and without overlap, and overlap
-- no header; the first section is the null section.
pub record HasSections (bytes : List ℕ) (h : Elf64Ehdr) (sections : List Elf64Shdr) : Type 0 where
  pub first : Elf64Shdr
  pub has_first : get_elem? sections 0 ≡ some first
  pub first_null : first.sh_type ≡ sht_null
  pub in_file :
      (i : ℕ) (s : Elf64Shdr)
      → get_elem? sections i ≡ some s
      → s.sh_type ≢ sht_nobits
      → (s.sh_offset + s.sh_size ≤ length bytes)
        × Disjoint (section_range s) file_header_range
        × Disjoint (section_range s) (programs_range h)
        × Disjoint (section_range s) (sections_range h)
  pub ordered :
      (i j : ℕ) (s t : Elf64Shdr)
      → i < j
      → get_elem? sections i ≡ some s
      → get_elem? sections j ≡ some t
      → s.sh_type ≢ sht_nobits
      → t.sh_type ≢ sht_nobits
      → s.sh_offset + s.sh_size ≤ t.sh_offset

pub record IsWellFormed (elf_bytes : ElfBytes) (e : Elf64) : Type 0 where
  pub has_headers :
      HasHeaders elf_bytes.bytes e.file_header e.program_header_table e.section_header_table
  pub has_segments : HasSegments elf_bytes.bytes e.program_header_table
  pub has_sections : HasSections elf_bytes.bytes e.file_header e.section_header_table

bytes_eq-eq : (xs ys : List ℕ) → bytes_eq xs ys ≡ true → xs ≡ ys
unfolding bytes_eq
bytes_eq-eq [] [] h = refl
bytes_eq-eq [] (y ∷ ys) h = cc
bytes_eq-eq (x ∷ xs) [] h = cc
bytes_eq-eq (x ∷ xs) (y ∷ ys) h = ground (arith, bytes_eq-eq xs ys)

pub is_valid_file_header-facts :
    (h : Elf64Ehdr)
    → is_valid_file_header h ≡ true
    → (h.e_ident.ei_mag ≡ elfmag) × (h.e_shstrndx < h.e_shnum)
unfolding is_valid_file_header
is_valid_file_header-facts h e = ground (arith, bytes_eq-eq h.e_ident.ei_mag elfmag)

pub parse_file_header-eq-ok :
    (elf_bytes : ElfBytes) {range : Range} {h : Elf64Ehdr}
    → parse_file_header elf_bytes ≡ ok (range, h)
    → (range ≡ file_header_range) × (h ≡ read_ehdr (take 64 elf_bytes.bytes))
unfolding parse_file_header get
parse_file_header-eq-ok elf_bytes e = ground arith

pub parse_program_header_table-eq-ok :
    (elf_bytes : ElfBytes) (h : Elf64Ehdr) {range : Range} {table : List Elf64Phdr}
    → parse_program_header_table elf_bytes file_header_range h ≡ ok (range, table)
    → (range ≡ programs_range h)
      × Disjoint file_header_range (programs_range h)
      × IsTable phdr_layout elf_bytes.bytes h.e_phoff h.e_phnum table
unfolding parse_program_header_table
parse_program_header_table-eq-ok elf_bytes h {range} {table} e =
    let (len, is_len, e1) = >>=-eq-ok (err_checked_mul 56 h.e_phnum) _ e in
    let (end, is_end, e2) = >>=-eq-ok (err_checked_add len h.e_phoff) _ e1 in
    let found : Range = record { start = h.e_phoff; end = end } in
    let (_, apart, e3) = >>=-eq-ok (check_that_there_is_no_overlap file_header_range found) _ e2 in
    let (entries, sliced, e4) = >>=-eq-ok (slice_from_bytes phdr_layout elf_bytes found) _ e3 in
    let sum : end ≡ 56 * h.e_phnum + h.e_phoff =
      (err_checked_add-eq-ok _ _ is_end).0
      ∙ ap (λ (n : ℕ). n + h.e_phoff) (err_checked_mul-eq-ok _ _ is_len) in
    let is_range : found ≡ range = cc in
    let is_table : entries ≡ table = cc in
    (
      sym is_range ∙ ap (λ (n : ℕ). record { start = h.e_phoff; end = n }) sum,
      rw sum at (check_that_there_is_no_overlap-Disjoint file_header_range found apart),
      subst (IsTable phdr_layout elf_bytes.bytes h.e_phoff h.e_phnum) is_table (
          slice_from_bytes-IsTable phdr_layout elf_bytes h.e_phoff h.e_phnum (omega arith)
            (rw sum at sliced)),
    )

pub parse_section_header_table-eq-ok :
    (elf_bytes : ElfBytes) (h : Elf64Ehdr) {range : Range} {table : List Elf64Shdr}
    → parse_section_header_table elf_bytes file_header_range h (programs_range h)
      ≡ ok (range, table)
    → (range ≡ sections_range h)
      × Disjoint file_header_range (sections_range h)
      × Disjoint (programs_range h) (sections_range h)
      × IsTable shdr_layout elf_bytes.bytes h.e_shoff h.e_shnum table
unfolding parse_section_header_table
parse_section_header_table-eq-ok elf_bytes h {range} {table} e =
    let (len, is_len, e1) = >>=-eq-ok (err_checked_mul 64 h.e_shnum) _ e in
    let (end, is_end, e2) = >>=-eq-ok (err_checked_add len h.e_shoff) _ e1 in
    let found : Range = record { start = h.e_shoff; end = end } in
    let (_, off_header, e3) =
      >>=-eq-ok (check_that_there_is_no_overlap file_header_range found) _ e2 in
    let (_, off_programs, e4) =
      >>=-eq-ok (check_that_there_is_no_overlap (programs_range h) found) _ e3 in
    let (entries, sliced, e5) = >>=-eq-ok (slice_from_bytes shdr_layout elf_bytes found) _ e4 in
    let sum : end ≡ 64 * h.e_shnum + h.e_shoff =
      (err_checked_add-eq-ok _ _ is_end).0
      ∙ ap (λ (n : ℕ). n + h.e_shoff) (err_checked_mul-eq-ok _ _ is_len) in
    let is_range : found ≡ range = cc in
    let is_table : entries ≡ table = cc in
    (
      sym is_range ∙ ap (λ (n : ℕ). record { start = h.e_shoff; end = n }) sum,
      rw sum at (check_that_there_is_no_overlap-Disjoint file_header_range found off_header),
      rw sum at (check_that_there_is_no_overlap-Disjoint (programs_range h) found off_programs),
      subst (IsTable shdr_layout elf_bytes.bytes h.e_shoff h.e_shnum) is_table (
          slice_from_bytes-IsTable shdr_layout elf_bytes h.e_shoff h.e_shnum (omega arith)
            (rw sum at sliced)),
    )

check_first_section-eq-ok :
    (sections : List Elf64Shdr)
    → check_first_section sections ≡ ok tt
    → (s : Elf64Shdr) × (get_elem? sections 0 ≡ some s) × (s.sh_type ≡ sht_null)
unfolding check_first_section
check_first_section-eq-ok [] e = cc
check_first_section-eq-ok (s ∷ _) e = let is_null = guard-eq-ok _ _ e in (s, refl, ground arith)

pub checks-HasSegments :
    (elf_bytes : ElfBytes) (programs : List Elf64Phdr)
    → check_program_headers elf_bytes 0 programs ≡ ok tt
    → HasSegments elf_bytes.bytes programs
checks-HasSegments elf_bytes programs e = record {
  in_file = λ i h at load. (check_program_headers-in_file elf_bytes 0 programs i h e at load).1;
  ordered = λ i j h k. check_program_headers-order elf_bytes 0 programs i j h k e;
}

pub checks-HasSections :
    (elf_bytes : ElfBytes) (h : Elf64Ehdr) (sections : List Elf64Shdr)
    → check_first_section sections ≡ ok tt
    → check_sections elf_bytes file_header_range (programs_range h) (sections_range h) 0 sections
      ≡ ok tt
    → HasSections elf_bytes.bytes h sections
checks-HasSections elf_bytes h sections first e =
    let (null, has_first, is_null) = check_first_section-eq-ok sections first in
    record {
      first = null;
      has_first = has_first;
      first_null = is_null;
      in_file = λ i s at bits.
          let f =
            check_sections-Fits elf_bytes file_header_range (programs_range h) (sections_range h) 0
              sections i s e at bits in
          (f.in_file, f.off_file_header, f.off_programs, f.off_sections);
      ordered = λ i j s t.
          check_sections-order elf_bytes file_header_range (programs_range h) (sections_range h) 0
            sections i j s t e;
    }
