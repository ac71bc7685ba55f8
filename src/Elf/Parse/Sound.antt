-- ===== src/Elf/Parse/Sound.antt =====
-- Parsing does not panic, and a file that it accepts is well-formed.
use aeneas2isabelle.Prelude.{ℕ, ◌≡◌, ◌≢◌, refl, sym, subst, List, length, [], ◌∷◌, true, Option}
use aeneas2isabelle.Elf.Consts.{dt_num}
use aeneas2isabelle.Elf.Types.{Elf64Ehdr, Elf64Phdr, Elf64Shdr}
use aeneas2isabelle.Elf.Result.{
  Parsed, ok, panic, guard, ◌>>=◌, >>=-eq-ok, guard-eq-ok, invalid_file_header,
}
use aeneas2isabelle.Elf.Result.Gives.{
  Gives, gives, fails, Total, >>=-Gives, >>=-Total, Gives-ok, Gives-ne-panic, guard-Total, total,
}
use aeneas2isabelle.Elf.Bytes.{ElfBytes, Range, check_that_there_is_no_overlap}
use aeneas2isabelle.Elf.Headers.{
  parse_file_header, is_valid_file_header, parse_program_header_table, parse_section_header_table,
  check_first_section, check_program_headers, check_sections, section_names,
}
use aeneas2isabelle.Elf.Parser.{Elf64, parse_sections}
use aeneas2isabelle.Elf.Dynamic.{parse_dynamic}
use aeneas2isabelle.Elf.Parse.{initial, parse}
use aeneas2isabelle.Elf.Parse.Steps.{
  Keeps, Gives-Keeps, parse_sections-Keeps, parse_dynamic-Keeps, slice_from_bytes-Total,
}
use aeneas2isabelle.Elf.Parse.WellFormed.{
  HasHeaders, HasSegments, HasSections, IsWellFormed, is_valid_file_header-facts,
  parse_file_header-eq-ok, parse_program_header_table-eq-ok, parse_section_header_table-eq-ok,
  checks-HasSegments, checks-HasSections,
}

no_overlap-Total : (a b : Range) → Total (check_that_there_is_no_overlap a b)
unfolding check_that_there_is_no_overlap
no_overlap-Total a b = search total

parse_file_header-Total : (b : ElfBytes) → Total (parse_file_header b)
unfolding parse_file_header
parse_file_header-Total b = search total

parse_program_header_table-Total :
    (b : ElfBytes) (r : Range) (h : Elf64Ehdr) → Total (parse_program_header_table b r h)
unfolding parse_program_header_table
parse_program_header_table-Total b r h =
    search (total, no_overlap-Total, slice_from_bytes-Total) depth 10

parse_section_header_table-Total :
    (b : ElfBytes) (r : Range) (h : Elf64Ehdr) (q : Range)
    → Total (parse_section_header_table b r h q)
unfolding parse_section_header_table
parse_section_header_table-Total b r h q =
    search (total, no_overlap-Total, slice_from_bytes-Total) depth 12

check_first_section-Total : (sections : List Elf64Shdr) → Total (check_first_section sections)
unfolding check_first_section
check_first_section-Total [] = fails
check_first_section-Total (s ∷ _) = guard-Total _ _

check_program_headers-Total :
    (b : ElfBytes) (vaddr : ℕ) (programs : List Elf64Phdr)
    → Total (check_program_headers b vaddr programs)
unfolding check_program_headers
check_program_headers-Total b vaddr [] = gives tt
check_program_headers-Total b vaddr (h ∷ rest) =
    search
      (
        total,
        check_program_headers-Total b vaddr rest,
        check_program_headers-Total b h.p_vaddr rest,
      )
      depth 10

check_sections-Total :
    (b : ElfBytes) (f p s : Range) (offset : ℕ) (sections : List Elf64Shdr)
    → Total (check_sections b f p s offset sections)
unfolding check_sections
check_sections-Total b f p s offset [] = gives tt
check_sections-Total b f p s offset (h ∷ rest) =
    let continue = check_sections-Total b f p s offset rest in
    let next = λ (end : ℕ). check_sections-Total b f p s end rest in
    search (total, no_overlap-Total, continue, next) depth 14

section_names-Total : (h : Elf64Ehdr) (sections : List Elf64Shdr) → Total (section_names h sections)
unfolding section_names
section_names-Total h sections = search total

Gives-Total : {A : Type 0} {P : A → Type 0} (m : Parsed A) → Gives P m → Total m
Gives-Total _ (gives h) = gives tt
Gives-Total _ fails = fails

-- The last two steps keep the headers.
pub finish-Keeps :
    (p : Elf64)
    → length p.dynamic_table ≡ dt_num
    → Gives (Keeps p) (parse_sections p >>= parse_dynamic)
finish-Keeps p full =
    >>=-Gives (parse_sections p) parse_dynamic (parse_sections-Keeps p full)
      (λ q k. Gives-Keeps (parse_dynamic q) k (parse_dynamic-Keeps q k.full))

-- Parsing never panics, whatever the bytes and their address.
pub parse-ne-panic : (elf_bytes : ElfBytes) → parse elf_bytes ≢ panic
unfolding parse
parse-ne-panic b =
    let finish =
      λ (h : Elf64Ehdr) (ps : List Elf64Phdr) (ss : List Elf64Shdr) (names : Option Elf64Shdr).
        Gives-Total _ (finish-Keeps (initial b h ps ss names) refl) in
    Gives-ne-panic _ (
      >>=-Total (parse_file_header b) _ (parse_file_header-Total b) λ (r, h).
        >>=-Total (guard (is_valid_file_header h) invalid_file_header) _ (guard-Total _ _) λ _.
          >>=-Total (parse_program_header_table b r h) _ (parse_program_header_table-Total b r h)
            λ (rp, ps).
              >>=-Total (parse_section_header_table b r h rp) _
                (parse_section_header_table-Total b r h rp)
                λ (rs, ss). >>=-Total (check_first_section ss) _ (check_first_section-Total ss) λ _.
                  >>=-Total (check_program_headers b 0 ps) _ (check_program_headers-Total b 0 ps)
                    λ _.
                      >>=-Total (check_sections b r rp rs 0 ss) _
                        (check_sections-Total b r rp rs 0 ss)
                        λ _.
                          >>=-Total (section_names h ss) _ (section_names-Total h ss)
                            λ names. finish h ps ss names)

-- The steps that succeed, put together.
steps-IsWellFormed :
    (b : ElfBytes) (e : Elf64) (r rp rs : Range) (h : Elf64Ehdr) (ps : List Elf64Phdr)
    (ss : List Elf64Shdr) (names : Option Elf64Shdr)
    → parse_file_header b ≡ ok (r, h)
    → is_valid_file_header h ≡ true
    → parse_program_header_table b r h ≡ ok (rp, ps)
    → parse_section_header_table b r h rp ≡ ok (rs, ss)
    → check_first_section ss ≡ ok tt
    → check_program_headers b 0 ps ≡ ok tt
    → check_sections b r rp rs 0 ss ≡ ok tt
    → (parse_sections (initial b h ps ss names) >>= parse_dynamic) ≡ ok e
    → IsWellFormed b e
steps-IsWellFormed b e r rp rs h ps ss names header valid programs sections first loads checked
      last =
    let (is_r, is_h) = parse_file_header-eq-ok b header in
    let (is_rp, off_programs, ps_table) =
      parse_program_header_table-eq-ok b h (rw is_r at programs) in
    let (is_rs, off_sections, apart, ss_table) =
      parse_section_header_table-eq-ok b h (rw (is_r, is_rp) at sections) in
    let (magic, below) = is_valid_file_header-facts h valid in
    let headers : HasHeaders b.bytes h ps ss = record {
      file_header = is_h;
      magic = magic;
      names_below = below;
      programs_table = ps_table;
      sections_table = ss_table;
      off_programs = off_programs;
      off_sections = off_sections;
      tables_apart = apart;
    } in
    let kept = Gives-ok _ (finish-Keeps (initial b h ps ss names) refl) last in
    record {
      has_headers =
          subst
            (λ (h' : Elf64Ehdr).
              HasHeaders b.bytes h' e.program_header_table e.section_header_table)
            (sym kept.file_header)
            (subst (λ (ps' : List Elf64Phdr). HasHeaders b.bytes h ps' e.section_header_table)
              (sym kept.programs) (subst (HasHeaders b.bytes h ps) (sym kept.sections) headers));
      has_segments =
          subst (HasSegments b.bytes) (sym kept.programs) (checks-HasSegments b ps loads);
      has_sections =
          subst (λ (h' : Elf64Ehdr). HasSections b.bytes h' e.section_header_table)
            (sym kept.file_header)
            (subst (HasSections b.bytes h) (sym kept.sections)
              (checks-HasSections b h ss first (rw (is_r, is_rp, is_rs) at checked)));
    }

-- A file that is parsed is well-formed: its file header and its two header tables are read from its
-- bytes, at the places that the header names, and do not overlap; each segment to load lies in the
-- file and their addresses do not descend; the first section is the null section, and the sections
-- with bytes in the file lie in it, in their order, and overlap neither each other nor a header.
pub parse-IsWellFormed :
    (elf_bytes : ElfBytes) (e : Elf64) → parse elf_bytes ≡ ok e → IsWellFormed elf_bytes e
unfolding parse
parse-IsWellFormed b e parsed =
    let ((r, h), header, e1) = >>=-eq-ok (parse_file_header b) _ parsed in
    let (_, valid, e2) = >>=-eq-ok (guard (is_valid_file_header h) invalid_file_header) _ e1 in
    let ((rp, ps), programs, e3) = >>=-eq-ok (parse_program_header_table b r h) _ e2 in
    let ((rs, ss), sections, e4) = >>=-eq-ok (parse_section_header_table b r h rp) _ e3 in
    let (_, first, e5) = >>=-eq-ok (check_first_section ss) _ e4 in
    let (_, loads, e6) = >>=-eq-ok (check_program_headers b 0 ps) _ e5 in
    let (_, checked, e7) = >>=-eq-ok (check_sections b r rp rs 0 ss) _ e6 in
    let (names, _, e8) = >>=-eq-ok (section_names h ss) _ e7 in
    steps-IsWellFormed b e r rp rs h ps ss names header (guard-eq-ok _ _ valid) programs sections
      first loads checked e8
