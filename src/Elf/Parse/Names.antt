-- ===== src/Elf/Parse/Names.antt =====
-- Of a file that was parsed, every section has a name.
use aeneas2isabelle.Prelude.{
  ℕ, zero, suc, ◌≡◌, refl, sym, ◌∙◌, ap, subst, some, List, [], ◌∷◌, length, get_elem?,
}
use aeneas2isabelle.Elf.Consts.{dt_num}
use aeneas2isabelle.Elf.Types.{Elf64Shdr}
use aeneas2isabelle.Elf.Result.{
  ok, ◌>>=◌, guard, ok_or, >>=-eq-ok, ok_or-eq-ok, no_section_name_string_table,
  invalid_file_header,
}
use aeneas2isabelle.Elf.Result.Gives.{Gives-ok}
use aeneas2isabelle.Elf.Bytes.{ElfBytes}
use aeneas2isabelle.Elf.Headers.{
  parse_file_header, is_valid_file_header, parse_program_header_table, parse_section_header_table,
  check_first_section, check_program_headers, check_sections, section_names,
}
use aeneas2isabelle.Elf.Strings.{get_string_in_section}
use aeneas2isabelle.Elf.Parser.{
  Elf64, section_header_by_name, parse_named_sections, parse_sections, section_name,
}
use aeneas2isabelle.Elf.Dynamic.{parse_dynamic}
use aeneas2isabelle.Elf.Parse.{initial, parse}
use aeneas2isabelle.Elf.Parse.Steps.{section_header_by_name-Keeps}
use aeneas2isabelle.Elf.Parse.Sound.{finish-Keeps}

parse_named_sections-named :
    (names : Elf64Shdr) (table : List Elf64Shdr) (p q : Elf64)
    → length p.dynamic_table ≡ dt_num
    → parse_named_sections names table p ≡ ok q
    → (i : ℕ) (h : Elf64Shdr) → get_elem? table i ≡ some h
    → (s : List ℕ) × (get_string_in_section p.elf_bytes names h.sh_name 16 ≡ ok s)
unfolding parse_named_sections
parse_named_sections-named names [] p q full e i h at = cc
parse_named_sections-named names (first ∷ rest) p q full e zero h at =
    let (s, found, _) = >>=-eq-ok (get_string_in_section p.elf_bytes names first.sh_name 16) _ e in
    let same : first ≡ h = cc in
    (
      s,
      subst (λ (t : Elf64Shdr). get_string_in_section p.elf_bytes names t.sh_name 16 ≡ ok s) same
          found,
    )
parse_named_sections-named names (first ∷ rest) p q full e (suc i) h at =
    let (s, _, e1) = >>=-eq-ok (get_string_in_section p.elf_bytes names first.sh_name 16) _ e in
    let (next, stored, e2) = >>=-eq-ok (section_header_by_name p first s) _ e1 in
    let k = Gives-ok _ (section_header_by_name-Keeps p first s full) stored in
    let (name, named) = parse_named_sections-named names rest next q k.full e2 i h at in
    (
      name,
      subst (λ (b : ElfBytes). get_string_in_section b names h.sh_name 16 ≡ ok name) k.elf_bytes
          named,
    )

-- The names are found again in the parser that is returned.
finish-section_name :
    (p e : Elf64)
    → length p.dynamic_table ≡ dt_num
    → (parse_sections p >>= parse_dynamic) ≡ ok e
    → (i : ℕ) (h : Elf64Shdr) → get_elem? e.section_header_table i ≡ some h
    → (s : List ℕ) × (section_name e h.sh_name ≡ ok s)
unfolding parse_sections section_name
finish-section_name p e full last i h at =
    let kept = Gives-ok _ (finish-Keeps p full) last in
    let (q, parsed, _) = >>=-eq-ok (parse_sections p) _ last in
    let (names, has_names, named) =
      >>=-eq-ok (ok_or p.section_names_section_header no_section_name_string_table) _ parsed in
    let (s, found) =
      parse_named_sections-named names p.section_header_table p q full named i h
        (ap (λ (l : List Elf64Shdr). get_elem? l i) (sym kept.sections) ∙ at) in
    let is_names = kept.names ∙ ok_or-eq-ok _ _ has_names in
    (
      s,
      rw is_names (
          subst (λ (b : ElfBytes). get_string_in_section b names h.sh_name 16 ≡ ok s)
            (sym kept.elf_bytes) found),
    )

-- After a file is parsed, the name of each of its sections can be read, whether the parser looks
-- for that name or not.
pub parse-section_name :
    (elf_bytes : ElfBytes) (e : Elf64) (i : ℕ) (h : Elf64Shdr)
    → parse elf_bytes ≡ ok e
    → get_elem? e.section_header_table i ≡ some h
    → (s : List ℕ) × (section_name e h.sh_name ≡ ok s)
unfolding parse
parse-section_name b e i h parsed at =
    let ((r, fh), _, e1) = >>=-eq-ok (parse_file_header b) _ parsed in
    let (_, _, e2) = >>=-eq-ok (guard (is_valid_file_header fh) invalid_file_header) _ e1 in
    let ((rp, ps), _, e3) = >>=-eq-ok (parse_program_header_table b r fh) _ e2 in
    let ((rs, ss), _, e4) = >>=-eq-ok (parse_section_header_table b r fh rp) _ e3 in
    let (_, _, e5) = >>=-eq-ok (check_first_section ss) _ e4 in
    let (_, _, e6) = >>=-eq-ok (check_program_headers b 0 ps) _ e5 in
    let (_, _, e7) = >>=-eq-ok (check_sections b r rp rs 0 ss) _ e6 in
    let (names, _, e8) = >>=-eq-ok (section_names fh ss) _ e7 in
    finish-section_name (initial b fh ps ss names) e refl e8 i h at
