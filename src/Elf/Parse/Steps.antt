-- ===== src/Elf/Parse/Steps.antt =====
-- The steps of the parser do not panic, and keep what was parsed before.
use aeneas2isabelle.Prelude.{
  ℕ, ◌<◌, ◌≡◌, refl, true, Option, none, some, List, [], ◌∷◌, leb, ltb, ◌==◌, ◌∙◌, length,
  length-set, get_elem?-lt, set, inl, inr, Bool-cases, arith,
}
use aeneas2isabelle.Elf.Consts.{dt_num, dt_null, dt_rel, dt_relsz, dt_relent, dt_symtab, pt_dynamic}
use aeneas2isabelle.Elf.Types.{Layout, Elf64Phdr, Elf64Shdr, Elf64Dyn, dyn_layout}
use aeneas2isabelle.Elf.Result.{Parsed, no_section_name_string_table, ok_or}
use aeneas2isabelle.Elf.Result.Gives.{
  Gives, gives, fails, Total, >>=-Gives, >>=-Total, if-Total, ok_or-Total, ok_of-Total,
  map_err-Total, map_some-Total, total,
}
use aeneas2isabelle.Elf.Bytes.{
  ElfBytes, Range, slice_from_bytes, slice_from_program_header, slice_from_section_header,
}
use aeneas2isabelle.Elf.Headers.{bytes_eq}
use aeneas2isabelle.Elf.Strings.{terminated, get_string_in_section}
use aeneas2isabelle.Elf.Parser.{
  Elf64, first_found, section_header_by_name, parse_named_sections, parse_sections,
  get_symbol_table_of_section, symtab_name, strtab_name, dynstr_name,
}
use aeneas2isabelle.Elf.Dynamic.{
  find_program_header, dynamic_entry, set_dynamic_entry, segment_dynamic_table,
  section_dynamic_table, or_section_dynamic_table, expand_dynamic, program_header_for_vaddr,
  relocations_offset, parse_relocations_at, parse_dynamic_relocations, parse_dynamic_symbol_table,
  parse_dynamic_table, parse_dynamic,
}

pub slice_from_bytes-Total :
    {A : Type 0} (layout : Layout A) (elf_bytes : ElfBytes) (range : Range)
    → Total (slice_from_bytes layout elf_bytes range)
unfolding slice_from_bytes
slice_from_bytes-Total layout elf_bytes range = search total

slice_from_program_header-Total :
    {A : Type 0} (layout : Layout A) (elf_bytes : ElfBytes) (h : Elf64Phdr)
    → Total (slice_from_program_header layout elf_bytes h)
unfolding slice_from_program_header
slice_from_program_header-Total layout elf_bytes h = search (total, slice_from_bytes-Total) depth 14

slice_from_section_header-Total :
    {A : Type 0} (layout : Layout A) (elf_bytes : ElfBytes) (h : Elf64Shdr)
    → Total (slice_from_section_header layout elf_bytes h)
unfolding slice_from_section_header
slice_from_section_header-Total layout elf_bytes h = search (total, slice_from_bytes-Total) depth 14

get_string_in_section-Total :
    (elf_bytes : ElfBytes) (h : Elf64Shdr) (offset maximum : ℕ)
    → Total (get_string_in_section elf_bytes h offset maximum)
unfolding get_string_in_section terminated
get_string_in_section-Total elf_bytes h offset maximum = search total depth 9

get_symbol_table_of_section-Total :
    (p : Elf64) (h : Elf64Shdr) → Total (get_symbol_table_of_section p h)
unfolding get_symbol_table_of_section
get_symbol_table_of_section-Total p h = search (total, slice_from_section_header-Total)

-- The parser `q` has the bytes and headers of `p`, and a dynamic table of the full length.
pub record Keeps (p q : Elf64) : Type 0 where
  pub elf_bytes : q.elf_bytes ≡ p.elf_bytes
  pub file_header : q.file_header ≡ p.file_header
  pub programs : q.program_header_table ≡ p.program_header_table
  pub sections : q.section_header_table ≡ p.section_header_table
  pub names : q.section_names_section_header ≡ p.section_names_section_header
  pub full : length q.dynamic_table ≡ dt_num

Keeps-trans : {p q r : Elf64} → Keeps p q → Keeps q r → Keeps p r
Keeps-trans h k = record {
  elf_bytes = k.elf_bytes ∙ h.elf_bytes;
  file_header = k.file_header ∙ h.file_header;
  programs = k.programs ∙ h.programs;
  sections = k.sections ∙ h.sections;
  names = k.names ∙ h.names;
  full = k.full;
}

first_found-Total : (o : Option Elf64Shdr) (h : Elf64Shdr) → Total (first_found o h)
first_found-Total none h = gives tt
first_found-Total (some _) h = fails

Keeps-of :
    {p q : Elf64}
    → q.elf_bytes ≡ p.elf_bytes
    → q.file_header ≡ p.file_header
    → q.program_header_table ≡ p.program_header_table
    → q.section_header_table ≡ p.section_header_table
    → q.section_names_section_header ≡ p.section_names_section_header
    → length q.dynamic_table ≡ dt_num
    → Keeps p q
Keeps-of a b c d e full = record {
  elf_bytes = a;
  file_header = b;
  programs = c;
  sections = d;
  names = e;
  full = full;
}

pub section_header_by_name-Keeps :
    (p : Elf64) (h : Elf64Shdr) (name : List ℕ)
    → length p.dynamic_table ≡ dt_num
    → Gives (Keeps p) (section_header_by_name p h name)
unfolding section_header_by_name
section_header_by_name-Keeps p h name full = elim (Bool-cases (bytes_eq name symtab_name)) [
  | inl symtab ↦ rw symtab (
      >>=-Gives (first_found p.symbol_section_header h) _ (first_found-Total _ h)
        (λ _ _. gives (Keeps-of refl refl refl refl refl full)))
  | inr not_symtab ↦ rw not_symtab (elim (Bool-cases (bytes_eq name strtab_name)) [
    | inl strtab ↦ rw strtab (
        >>=-Gives (first_found p.symbol_names_section_header h) _ (first_found-Total _ h)
          (λ _ _. gives (Keeps-of refl refl refl refl refl full)))
    | inr not_strtab ↦ rw not_strtab (elim (Bool-cases (bytes_eq name dynstr_name)) [
      | inl dynstr ↦ rw dynstr (
          >>=-Gives (first_found p.dynamic_symbol_names_section_header h) _ (first_found-Total _ h)
            (λ _ _. gives (Keeps-of refl refl refl refl refl full)))
      | inr not_dynstr ↦ rw not_dynstr (gives (Keeps-of refl refl refl refl refl full))
    ])
  ])
]

-- What is kept by a step from a later state is kept from the earlier one.
pub Gives-Keeps :
    {p q : Elf64} (m : Parsed Elf64) → Keeps p q → Gives (Keeps q) m → Gives (Keeps p) m
Gives-Keeps _ h (gives k) = gives (Keeps-trans h k)
Gives-Keeps _ h fails = fails

parse_named_sections-Keeps :
    (names : Elf64Shdr) (table : List Elf64Shdr) (p : Elf64)
    → length p.dynamic_table ≡ dt_num
    → Gives (Keeps p) (parse_named_sections names table p)
unfolding parse_named_sections
parse_named_sections-Keeps names [] p full = gives (Keeps-of refl refl refl refl refl full)
parse_named_sections-Keeps names (h ∷ rest) p full =
    >>=-Gives _ _ (get_string_in_section-Total p.elf_bytes names h.sh_name 16) λ name _.
      >>=-Gives _ _ (section_header_by_name-Keeps p h name full)
        λ q k. Gives-Keeps _ k (parse_named_sections-Keeps names rest q k.full)

pub parse_sections-Keeps :
    (p : Elf64) → length p.dynamic_table ≡ dt_num → Gives (Keeps p) (parse_sections p)
unfolding parse_sections
parse_sections-Keeps p full =
    >>=-Gives (ok_or p.section_names_section_header no_section_name_string_table) _
      (ok_or-Total _ _) (λ names _. parse_named_sections-Keeps names p.section_header_table p full)

-- Every index into the dynamic table is in range.
dynamic_entry-Total :
    (table : List ℕ) (tag : ℕ) → tag < length table → Total (dynamic_entry table tag)
unfolding dynamic_entry
dynamic_entry-Total table tag below =
    let (v, e) = get_elem?-lt table tag below in rw (e, dynamic_entry) (gives tt)

expand_dynamic-length :
    (entries : List Elf64Dyn) (table : List ℕ)
    → length table ≡ dt_num
    → Gives (λ t. length t ≡ dt_num) (expand_dynamic entries table)
unfolding expand_dynamic set_dynamic_entry
expand_dynamic-length [] table full = gives full
expand_dynamic-length (d ∷ rest) table full = elim (Bool-cases (d.d_tag == dt_null)) [
  | inl last ↦ rw last (gives full)
  | inr more ↦ rw more (elim (Bool-cases (leb dt_num d.d_tag)) [
    | inl reserved ↦ rw reserved (expand_dynamic-length rest table full)
    | inr small ↦
        let below : ltb d.d_tag (length table) ≡ true = ground arith in
        rw (small, below)
          (expand_dynamic-length rest (set table d.d_tag d.d_val)
            (length-set table d.d_tag d.d_val ∙ full))
  ])
]

program_header_for_vaddr-Total :
    (vaddr : ℕ) (table : List Elf64Phdr) → Total (program_header_for_vaddr vaddr table)
unfolding program_header_for_vaddr
program_header_for_vaddr-Total vaddr [] = gives tt
program_header_for_vaddr-Total vaddr (h ∷ rest) =
    search (total, program_header_for_vaddr-Total vaddr rest)

relocations_offset-Total :
    (p : Elf64) (vaddr : ℕ) (o : Option Elf64Phdr) → Total (relocations_offset p vaddr o)
relocations_offset-Total p vaddr none = search total
relocations_offset-Total p vaddr (some h) = search total

parse_relocations_at-Total :
    (p : Elf64) (vaddr : ℕ) → length p.dynamic_table ≡ dt_num → Total (parse_relocations_at p vaddr)
unfolding parse_relocations_at
parse_relocations_at-Total p vaddr full =
    let entry_size = dynamic_entry-Total p.dynamic_table dt_relent (omega arith) in
    let size = dynamic_entry-Total p.dynamic_table dt_relsz (omega arith) in
    search
      (
        total, entry_size, size, program_header_for_vaddr-Total, relocations_offset-Total,
        slice_from_bytes-Total,
      )
      depth 14

parse_dynamic_relocations-Total :
    (p : Elf64) → length p.dynamic_table ≡ dt_num → Total (parse_dynamic_relocations p)
unfolding parse_dynamic_relocations
parse_dynamic_relocations-Total p full =
    >>=-Total (dynamic_entry p.dynamic_table dt_rel) _
      (dynamic_entry-Total p.dynamic_table dt_rel (omega arith))
      (λ vaddr. if-Total (vaddr == 0) _ _ (gives tt) (parse_relocations_at-Total p vaddr full))

parse_dynamic_symbol_table-Total :
    (p : Elf64) → length p.dynamic_table ≡ dt_num → Total (parse_dynamic_symbol_table p)
unfolding parse_dynamic_symbol_table
parse_dynamic_symbol_table-Total p full =
    >>=-Total (dynamic_entry p.dynamic_table dt_symtab) _
      (dynamic_entry-Total p.dynamic_table dt_symtab (omega arith))
      (λ vaddr.
        if-Total (vaddr == 0) _ _ (gives tt) (search (total, get_symbol_table_of_section-Total)))

parse_dynamic_table-Keeps :
    (p : Elf64) (o : Option (List Elf64Dyn))
    → length p.dynamic_table ≡ dt_num
    → Gives (Keeps p) (parse_dynamic_table p o)
unfolding parse_dynamic_table
parse_dynamic_table-Keeps p none full = gives (Keeps-of refl refl refl refl refl full)
parse_dynamic_table-Keeps p (some entries) full =
    >>=-Gives _ _ (expand_dynamic-length entries _ full) λ table expanded.
      >>=-Gives _ _ (parse_dynamic_relocations-Total (record p { dynamic_table = table }) expanded)
        λ _ _.
          >>=-Gives _ _
            (parse_dynamic_symbol_table-Total (record p { dynamic_table = table }) expanded)
            λ _ _. gives (Keeps-of refl refl refl refl refl expanded)

segment_dynamic_table-Total :
    (elf_bytes : ElfBytes) (o : Option Elf64Phdr) → Total (segment_dynamic_table elf_bytes o)
segment_dynamic_table-Total elf_bytes none = gives tt
segment_dynamic_table-Total elf_bytes (some h) =
    ok_of-Total _ (slice_from_program_header-Total dyn_layout elf_bytes h)

section_dynamic_table-Total :
    (elf_bytes : ElfBytes) (o : Option Elf64Shdr) → Total (section_dynamic_table elf_bytes o)
section_dynamic_table-Total elf_bytes none = gives tt
section_dynamic_table-Total elf_bytes (some h) =
    map_some-Total _ (map_err-Total _ _ (slice_from_section_header-Total dyn_layout elf_bytes h))

or_section_dynamic_table-Total :
    (p : Elf64) (o : Option (List Elf64Dyn)) → Total (or_section_dynamic_table p o)
or_section_dynamic_table-Total p none = section_dynamic_table-Total p.elf_bytes _
or_section_dynamic_table-Total p (some table) = gives tt

pub parse_dynamic-Keeps :
    (p : Elf64) → length p.dynamic_table ≡ dt_num → Gives (Keeps p) (parse_dynamic p)
unfolding parse_dynamic
parse_dynamic-Keeps p full =
    >>=-Gives _ _
      (segment_dynamic_table-Total p.elf_bytes
        (find_program_header pt_dynamic p.program_header_table))
      λ segment _.
        >>=-Gives _ _ (or_section_dynamic_table-Total p segment)
          λ entries _. parse_dynamic_table-Keeps p entries full
