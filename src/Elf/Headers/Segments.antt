-- ===== src/Elf/Headers/Segments.antt =====
-- What the loop over the program headers has checked: each segment to load lies in the file, and
-- the addresses of these segments do not descend.
use aeneas2isabelle.Prelude.{
  ℕ, zero, suc, ◌+◌, ◌≤◌, ◌<◌, ◌≡◌, ◌≢◌, inl, inr, ◌⊎◌, some, List, [], ◌∷◌, leb, ◌==◌, length,
  get_elem?, subst, arith, Bool-cases,
}
use aeneas2isabelle.Elf.Consts.{pt_load}
use aeneas2isabelle.Elf.Types.{Elf64Phdr}
use aeneas2isabelle.Elf.Result.{
  ok, >>=-eq-ok, guard-eq-ok, err_checked_add, err_checked_add-eq-ok, out_of_bounds,
  invalid_program_header, guard,
}
use aeneas2isabelle.Elf.Bytes.{ElfBytes}
use aeneas2isabelle.Elf.Headers.{check_program_headers}

module _ (elf_bytes : ElfBytes) where
  abbrev Loads : ℕ → List Elf64Phdr → Type 0
  Loads vaddr table = check_program_headers elf_bytes vaddr table ≡ ok tt

  check_program_headers-cons :
      (vaddr : ℕ) (h : Elf64Phdr) (rest : List Elf64Phdr)
      → Loads vaddr (h ∷ rest)
      → ((h.p_type ≢ pt_load) × Loads vaddr rest)
        ⊎ ((vaddr ≤ h.p_vaddr)
            × (h.p_offset + h.p_filesz ≤ length elf_bytes.bytes)
            × Loads h.p_vaddr rest)
  unfolding check_program_headers
  check_program_headers-cons vaddr h rest e = elim (Bool-cases (h.p_type == pt_load)) [
    | inl load ↦
        let e0 = rw load at e in
        let (_, ascends, e1) =
          >>=-eq-ok (guard (leb vaddr h.p_vaddr) invalid_program_header) _ e0 in
        let (end, is_end, e2) = >>=-eq-ok (err_checked_add h.p_offset h.p_filesz) _ e1 in
        let (_, ends, e3) =
          >>=-eq-ok (guard (leb end (length elf_bytes.bytes)) out_of_bounds) _ e2 in
        let above = guard-eq-ok _ _ ascends in
        let below = rw (err_checked_add-eq-ok _ _ is_end).0 at (guard-eq-ok _ _ ends) in
        inr (ground arith, ground arith, e3)
    | inr other ↦ inl (ground arith, rw other at e)
  ]

  pub check_program_headers-in_file :
      (vaddr : ℕ) (table : List Elf64Phdr) (i : ℕ) (h : Elf64Phdr)
      → Loads vaddr table
      → get_elem? table i ≡ some h
      → h.p_type ≡ pt_load
      → (vaddr ≤ h.p_vaddr) × (h.p_offset + h.p_filesz ≤ length elf_bytes.bytes)
  check_program_headers-in_file vaddr [] i h e at load = cc
  check_program_headers-in_file vaddr (first ∷ rest) zero h e at load =
      elim (check_program_headers-cons vaddr first rest e) [
        | inl (other, _) ↦ absurd (other cc)
        | inr (above, inside, _) ↦
            let same : first ≡ h = cc in
            subst
              (λ (s : Elf64Phdr).
                (vaddr ≤ s.p_vaddr) × (s.p_offset + s.p_filesz ≤ length elf_bytes.bytes))
              same (above, inside)
      ]
  check_program_headers-in_file vaddr (first ∷ rest) (suc i) h e at load =
      elim (check_program_headers-cons vaddr first rest e) [
        | inl (_, later) ↦ check_program_headers-in_file vaddr rest i h later at load
        | inr (above, _, later) ↦
            let (first_below, inside) =
              check_program_headers-in_file first.p_vaddr rest i h later at load in
            (omega arith, inside)
      ]

  pub check_program_headers-order :
      (vaddr : ℕ) (table : List Elf64Phdr) (i j : ℕ) (h k : Elf64Phdr)
      → Loads vaddr table
      → i < j
      → get_elem? table i ≡ some h
      → get_elem? table j ≡ some k
      → h.p_type ≡ pt_load
      → k.p_type ≡ pt_load
      → h.p_vaddr ≤ k.p_vaddr
  check_program_headers-order vaddr [] i j h k e less at_i at_j load_h load_k = cc
  check_program_headers-order vaddr (first ∷ rest) i zero h k e less at_i at_j load_h load_k =
      absurd (omega arith)
  check_program_headers-order vaddr (first ∷ rest) zero (suc j) h k e less at_i at_j load_h load_k =
      elim (check_program_headers-cons vaddr first rest e) [
        | inl (other, _) ↦ absurd (other cc)
        | inr (_, _, later) ↦
            let same : first ≡ h = cc in
            subst (λ (s : Elf64Phdr). s.p_vaddr ≤ k.p_vaddr) same
              (check_program_headers-in_file first.p_vaddr rest j k later at_j load_k).0
      ]
  check_program_headers-order vaddr (first ∷ rest) (suc i) (suc j) h k e less at_i at_j load_h
        load_k =
      elim (check_program_headers-cons vaddr first rest e) [
        | inl (_, later) ↦
            check_program_headers-order vaddr rest i j h k later (omega arith) at_i at_j load_h
              load_k
        | inr (_, _, later) ↦
            check_program_headers-order first.p_vaddr rest i j h k later (omega arith) at_i at_j
              load_h load_k
      ]
