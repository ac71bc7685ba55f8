-- ===== src/Elf/Headers/Order.antt =====
-- What the loop over the sections has checked.
use aeneas2isabelle.Prelude.{
  ℕ, zero, suc, ◌+◌, ◌≤◌, ◌<◌, ◌≡◌, ◌≢◌, ◌⊎◌, inl, inr, true, some, List, [], ◌∷◌, leb, ◌==◌,
  length, get_elem?, arith, subst, Bool-cases,
}
use aeneas2isabelle.Elf.Consts.{sht_nobits}
use aeneas2isabelle.Elf.Types.{Elf64Shdr}
use aeneas2isabelle.Elf.Result.{
  ok, >>=-eq-ok, guard-eq-ok, err_checked_add, err_checked_add-eq-ok, section_not_in_order,
  out_of_bounds, guard,
}
use aeneas2isabelle.Elf.Bytes.{ElfBytes, Range, check_that_there_is_no_overlap}
use aeneas2isabelle.Elf.Headers.{check_sections}

abbrev pub Disjoint : Range → Range → Type 0
Disjoint a b = (a.end ≤ b.start) ⊎ (b.end ≤ a.start)

pub check_that_there_is_no_overlap-Disjoint :
    (a b : Range) {u : Unit {0}} → check_that_there_is_no_overlap a b ≡ ok u → Disjoint a b
unfolding check_that_there_is_no_overlap
check_that_there_is_no_overlap-Disjoint a b h = elim (Bool-cases (leb a.end b.start)) [
  | inl e ↦ inl (ground arith)
  | inr e ↦ inr (let h' = rw e at (guard-eq-ok _ _ h) in ground arith)
]

abbrev pub section_range : Elf64Shdr → Range
section_range h = record { start = h.sh_offset; end = h.sh_offset + h.sh_size }

module _ (elf_bytes : ElfBytes) (file_header programs sections : Range) where
  -- A section starts at or behind an offset, ends in the file, and overlaps no header.
  pub record Fits (offset : ℕ) (h : Elf64Shdr) : Type 0 where
    pub behind : offset ≤ h.sh_offset
    pub in_file : h.sh_offset + h.sh_size ≤ length elf_bytes.bytes
    pub off_file_header : Disjoint (section_range h) file_header
    pub off_programs : Disjoint (section_range h) programs
    pub off_sections : Disjoint (section_range h) sections

  abbrev ending_at : Elf64Shdr → ℕ → Range
  ending_at h end = record { start = h.sh_offset; end = end }

  checks-Fits :
      (offset end : ℕ) (h : Elf64Shdr)
      → end ≡ h.sh_offset + h.sh_size
      → check_that_there_is_no_overlap (ending_at h end) file_header ≡ ok tt
      → check_that_there_is_no_overlap (ending_at h end) programs ≡ ok tt
      → check_that_there_is_no_overlap (ending_at h end) sections ≡ ok tt
      → leb offset h.sh_offset ≡ true
      → leb end (length elf_bytes.bytes) ≡ true
      → Fits offset h
  checks-Fits offset end h sum file table names ascends ends = record {
    behind = ground arith;
    in_file = ground arith;
    off_file_header = rw sum at (check_that_there_is_no_overlap-Disjoint _ _ file);
    off_programs = rw sum at (check_that_there_is_no_overlap-Disjoint _ _ table);
    off_sections = rw sum at (check_that_there_is_no_overlap-Disjoint _ _ names);
  }

  abbrev Checked : ℕ → List Elf64Shdr → Type 0
  Checked offset rest = check_sections elf_bytes file_header programs sections offset rest ≡ ok tt

  check_sections-cons :
      (offset : ℕ) (h : Elf64Shdr) (rest : List Elf64Shdr)
      → Checked offset (h ∷ rest)
      → ((h.sh_type ≡ sht_nobits) × Checked offset rest)
        ⊎ (Fits offset h × Checked (h.sh_offset + h.sh_size) rest)
  unfolding check_sections
  check_sections-cons offset h rest e = elim (Bool-cases (h.sh_type == sht_nobits)) [
    | inl nobits ↦ inl (ground arith, rw nobits at e)
    | inr bits ↦
        let e0 = rw bits at e in
        let (end, is_end, e1) = >>=-eq-ok (err_checked_add h.sh_offset h.sh_size) _ e0 in
        let r = ending_at h end in
        let (_, file, e2) = >>=-eq-ok (check_that_there_is_no_overlap r file_header) _ e1 in
        let (_, table, e3) = >>=-eq-ok (check_that_there_is_no_overlap r programs) _ e2 in
        let (_, names, e4) = >>=-eq-ok (check_that_there_is_no_overlap r sections) _ e3 in
        let (_, ascends, e5) =
          >>=-eq-ok (guard (leb offset h.sh_offset) section_not_in_order) _ e4 in
        let (_, ends, e6) =
          >>=-eq-ok (guard (leb end (length elf_bytes.bytes)) out_of_bounds) _ e5 in
        let (sum, small) = err_checked_add-eq-ok _ _ is_end in
        inr (
          checks-Fits offset end h sum file table names (guard-eq-ok _ _ ascends)
              (guard-eq-ok _ _ ends),
          rw sum at e6,
        )
  ]

  -- Each section with bytes in the file fits, and each two of them are in their order.
  pub check_sections-Fits :
      (offset : ℕ) (table : List Elf64Shdr) (i : ℕ) (h : Elf64Shdr)
      → Checked offset table
      → get_elem? table i ≡ some h
      → h.sh_type ≢ sht_nobits
      → Fits offset h
  check_sections-Fits offset [] i h e at bits = cc
  check_sections-Fits offset (first ∷ rest) zero h e at bits =
      elim (check_sections-cons offset first rest e) [
        | inl (nobits, _) ↦ absurd (bits cc)
        | inr (fits, _) ↦ subst (λ (s : Elf64Shdr). Fits offset s) (cc) fits
      ]
  check_sections-Fits offset (first ∷ rest) (suc i) h e at bits =
      elim (check_sections-cons offset first rest e) [
        | inl (_, later) ↦ check_sections-Fits offset rest i h later at bits
        | inr (fits, later) ↦
            let f = check_sections-Fits (first.sh_offset + first.sh_size) rest i h later at bits in
            record {
              behind = omega (arith, fits.behind, f.behind);
              in_file = f.in_file;
              off_file_header = f.off_file_header;
              off_programs = f.off_programs;
              off_sections = f.off_sections;
            }
      ]

  pub check_sections-order :
      (offset : ℕ) (table : List Elf64Shdr) (i j : ℕ) (h k : Elf64Shdr)
      → Checked offset table
      → i < j
      → get_elem? table i ≡ some h
      → get_elem? table j ≡ some k
      → h.sh_type ≢ sht_nobits
      → k.sh_type ≢ sht_nobits
      → h.sh_offset + h.sh_size ≤ k.sh_offset
  check_sections-order offset [] i j h k e less at_i at_j bits_h bits_k = cc
  check_sections-order offset (first ∷ rest) i zero h k e less at_i at_j bits_h bits_k =
      absurd (omega arith)
  check_sections-order offset (first ∷ rest) zero (suc j) h k e less at_i at_j bits_h bits_k =
      elim (check_sections-cons offset first rest e) [
        | inl (nobits, _) ↦ absurd (bits_h cc)
        | inr (_, later) ↦
            let f =
              check_sections-Fits (first.sh_offset + first.sh_size) rest j k later at_j bits_k in
            let same : first ≡ h = cc in
            subst (λ (s : Elf64Shdr). s.sh_offset + s.sh_size ≤ k.sh_offset) same f.behind
      ]
  check_sections-order offset (first ∷ rest) (suc i) (suc j) h k e less at_i at_j bits_h bits_k =
      elim (check_sections-cons offset first rest e) [
        | inl (_, later) ↦
            check_sections-order offset rest i j h k later (omega arith) at_i at_j bits_h bits_k
        | inr (_, later) ↦
            check_sections-order (first.sh_offset + first.sh_size) rest i j h k later (omega arith)
              at_i at_j bits_h bits_k
      ]
