-- ===== src/Elf/Headers/Tables.antt =====
-- What a table holds, and what the loop over the program headers has checked.
use aeneas2isabelle.Prelude.{
  ℕ, zero, suc, ◌+◌, ◌-◌, ◌*◌, ◌/◌, ◌≤◌, ◌<◌, ◌≡◌, refl, sym, ◌∙◌, ap, some, List, length,
  get_elem?, take, drop, take-drop-take, drop-drop, subst, arith,
}
use aeneas2isabelle.Elf.Types.{Layout}
use aeneas2isabelle.Elf.Result.{
  ok, ok_or, >>=-eq-ok, ok_or-eq-ok, invalid_size, out_of_bounds, invalid_alignment, guard,
}
use aeneas2isabelle.Elf.Bytes.{
  ElfBytes, Range, range_bytes, get, read_all, is_multiple, slice_from_bytes,
}

-- A table of `n` structures, of which the one at index `i` is read from the bytes at `start` and
-- `i` sizes more.
pub record IsTable {A : Type 0} (layout : Layout A) (bytes : List ℕ) (start n : ℕ) (table : List A)
    : Type 0 where
  pub in_file : start + layout.size * n ≤ length bytes
  pub count : length table ≡ n
  pub entry :
      (i : ℕ)
      → i < n
      → get_elem? table i
        ≡ some (layout.read (take layout.size (drop (start + layout.size * i) bytes)))

module _ {A : Type 0} (layout : Layout A) where
  length-read_all : (n : ℕ) (bytes : List ℕ) → length (read_all layout n bytes) ≡ n
  unfolding read_all
  length-read_all zero bytes = refl
  length-read_all (suc n) bytes = ap suc (length-read_all n _)

  get_elem?-read_all :
      (n : ℕ) (bytes : List ℕ) (i : ℕ)
      → i < n
      → get_elem? (read_all layout n bytes) i
        ≡ some (layout.read (take layout.size (drop (layout.size * i) bytes)))
  unfolding read_all
  get_elem?-read_all zero bytes i h = absurd (omega arith)
  get_elem?-read_all (suc n) bytes zero h =
      ap (λ (k : ℕ). some (layout.read (take layout.size (drop k bytes))))
        (let e : 0 ≡ layout.size * 0 = grind arith in e)
  get_elem?-read_all (suc n) bytes (suc i) h =
      get_elem?-read_all n (drop layout.size bytes) i (omega arith)
      ∙ ap (λ (bs : List ℕ). some (layout.read (take layout.size bs)))
          (drop-drop layout.size (layout.size * i) (layout.size * suc i) bytes (grind arith))

  read_all-IsTable :
      (bytes : List ℕ) (start n w : ℕ)
      → w ≡ layout.size * n
      → start + layout.size * n ≤ length bytes
      → IsTable layout bytes start n (read_all layout n (take w (drop start bytes)))
  read_all-IsTable bytes start n w is_w inside = record {
    in_file = inside;
    count = length-read_all n _;
    entry = λ i below.
        get_elem?-read_all n _ i below
        ∙ ap (λ (bs : List ℕ). some (layout.read bs))
            (take-drop-take (layout.size * i) layout.size w (drop start bytes) (grind arith)
              ∙ ap (take layout.size) (drop-drop start (layout.size * i) _ bytes refl));
  }

  get-eq-some :
      (elf_bytes : ElfBytes) (range : Range) {bytes : List ℕ}
      → get elf_bytes range ≡ some bytes
      → (range.start ≤ range.end)
        × (range.end ≤ length elf_bytes.bytes)
        × (bytes ≡ range_bytes elf_bytes.bytes range)
  unfolding get
  get-eq-some elf_bytes range h = ground arith

  pub slice_from_bytes-IsTable :
      (elf_bytes : ElfBytes) (start n : ℕ) {table : List A}
      → (layout.size * n + start - start) / layout.size ≡ n
      → slice_from_bytes layout elf_bytes (record { start = start; end = layout.size * n + start })
        ≡ ok table
      → IsTable layout elf_bytes.bytes start n table
  unfolding slice_from_bytes
  slice_from_bytes-IsTable elf_bytes start n {table} counts h =
      let range : Range = record { start = start; end = layout.size * n + start } in
      let len = layout.size * n + start - start in
      let (_, sized, h1) = >>=-eq-ok (guard (is_multiple len layout.size) invalid_size) _ h in
      let (bytes, got, h2) = >>=-eq-ok (ok_or (get elf_bytes range) out_of_bounds) _ h1 in
      let (_, aligned, h3) =
        >>=-eq-ok (guard (is_multiple (elf_bytes.addr + start) layout.align) invalid_alignment) _
          h2 in
      let (ordered, inside, is_range) = get-eq-some elf_bytes range (ok_or-eq-ok _ _ got) in
      let is_table : read_all layout (len / layout.size) bytes ≡ table = cc in
      let same : read_all layout n (take len (drop start elf_bytes.bytes)) ≡ table =
        ap (λ (k : ℕ). read_all layout k (take len (drop start elf_bytes.bytes))) (sym counts)
        ∙ ap (read_all layout (len / layout.size)) (sym is_range)
        ∙ is_table in
      subst (IsTable layout elf_bytes.bytes start n) same
        (read_all-IsTable elf_bytes.bytes start n len (omega arith) (omega arith))
