-- ===== src/Elf/Strings/Found.antt =====
-- What a string of a string table is.
use aeneas2isabelle.Prelude.{
  ℕ, zero, suc, ◌+◌, ◌-◌, ◌≤◌, ◌<◌, ◌≡◌, ◌≢◌, ◌↔◌, refl, sym, ap, ◌∙◌, subst, true, false, some,
  List, [], ◌∷◌, ◌++◌, ◌==◌, length, take, drop, take-take, take-append_left, length-take,
  length-drop, inl, inr, Bool-cases, Option-cases, arith,
}
use Prim.Native.Nat.{min}
use aeneas2isabelle.Memory.{word_end}
use aeneas2isabelle.Elf.Consts.{sht_strtab}
use aeneas2isabelle.Elf.Types.{Elf64Shdr}
use aeneas2isabelle.Elf.Result.{
  ok, guard, ok_or, >>=-eq-ok, guard-eq-ok, ok_or-eq-ok, err_checked_add, err_checked_add-eq-ok,
  err_checked_add-of, invalid_section_header, out_of_bounds,
}
use aeneas2isabelle.Elf.Bytes.{ElfBytes, Range, range_bytes, get}
use aeneas2isabelle.Elf.Strings.{position_zero, terminated, get_string_in_section}

abbrev pub NoZero : List ℕ → Type 0
NoZero [] = Unit
NoZero (b ∷ bs) = (b ≢ 0) × NoZero bs

-- The bytes at an offset of a string table are the string and a zero byte, in the section and in
-- the length that is allowed.
pub record IsStringAt (bytes : List ℕ) (h : Elf64Shdr) (offset maximum : ℕ) (s : List ℕ)
    : Type 0 where
  pub string_table : h.sh_type ≡ sht_strtab
  pub no_zero : NoZero s
  pub at : take (suc (length s)) (drop (h.sh_offset + offset) bytes) ≡ s ++ 0 ∷ []
  pub in_section : offset + length s < h.sh_size
  pub short : length s < maximum

-- The bytes that may be searched have addresses of 64 bits and lie in the file.
pub record HasWindow (bytes : List ℕ) (h : Elf64Shdr) (offset maximum : ℕ) : Type 0 where
  pub section : h.sh_offset + h.sh_size < word_end
  pub string : h.sh_offset + offset + maximum < word_end
  pub in_file : min (h.sh_offset + h.sh_size) (h.sh_offset + offset + maximum) ≤ length bytes

position_zero-eq-some :
    (bytes : List ℕ) (n : ℕ)
    → position_zero bytes ≡ some n
    → NoZero (take n bytes) × (take (suc n) bytes ≡ take n bytes ++ 0 ∷ []) × (n < length bytes)
unfolding position_zero
position_zero-eq-some [] n h = cc
position_zero-eq-some (b ∷ rest) zero h = elim (Bool-cases (b == 0)) [
  | inl is_zero ↦ let same : b ≡ 0 = ground arith in (tt, ap (λ (x : ℕ). x ∷ []) same, omega arith)
  | inr other ↦
      let h' = rw other at h in
      elim (Option-cases (position_zero rest)) [
        | inl absent ↦ absurd (let h'' = rw absent at h' in cc)
        | inr (m, found) ↦ absurd (let h'' = rw found at h' in ground arith)
      ]
]
position_zero-eq-some (b ∷ rest) (suc n) h = elim (Bool-cases (b == 0)) [
  | inl is_zero ↦ absurd (let h' = rw is_zero at h in ground arith)
  | inr other ↦
      let h' = rw other at h in
      elim (Option-cases (position_zero rest)) [
        | inl absent ↦ absurd (let h'' = rw absent at h' in cc)
        | inr (m, found) ↦
            let h'' = rw found at h' in
            let same : m ≡ n = ground arith in
            let (no_zero, ends, below) = position_zero-eq-some rest n (found ∙ ap some same) in
            ((ground arith, no_zero), ap (λ (l : List ℕ). b ∷ l) ends, omega arith)
      ]
]

position_zero-of :
    (s bytes : List ℕ)
    → NoZero s
    → take (suc (length s)) bytes ≡ s ++ 0 ∷ []
    → position_zero bytes ≡ some (length s)
unfolding position_zero
position_zero-of [] [] free h = cc
position_zero-of [] (b ∷ rest) free h =
    let same : b ≡ 0 = cc in let test : (b == 0) ≡ true = ground arith in rw test
position_zero-of (a ∷ s) [] free h = cc
position_zero-of (a ∷ s) (b ∷ rest) free h =
    let same : b ≡ a = cc in
    let later : take (suc (length s)) rest ≡ s ++ 0 ∷ [] = cc in
    let first = free.0 in
    let test : (b == 0) ≡ false = ground arith in
    let found = position_zero-of s rest free.1 later in
    rw (test, found) (ap some (let e : length s + 1 ≡ suc (length s) = omega arith in e))

-- The string of a window is the one that ends at the first zero byte.
terminated-eq-ok :
    (bytes : List ℕ) (maximum : ℕ) (s : List ℕ)
    → terminated bytes maximum ≡ ok s
    → NoZero s × (take (suc (length s)) bytes ≡ s ++ 0 ∷ []) × (length s < length bytes)
unfolding terminated
terminated-eq-ok bytes maximum s h = elim (Option-cases (position_zero bytes)) [
  | inl absent ↦ absurd (let h' = rw absent at h in cc)
  | inr (n, found) ↦
      let h' = rw found at h in
      let is_s : take n bytes ≡ s = cc in
      let (free, ends, below) = position_zero-eq-some bytes n found in
      let long : length s ≡ n = ap length (sym is_s) ∙ length-take n bytes (omega arith) in
      (
        subst NoZero is_s free,
        ap (λ (k : ℕ). take (suc k) bytes) long ∙ ends ∙ ap (λ (l : List ℕ). l ++ 0 ∷ []) is_s,
        omega arith,
      )
]

terminated-of :
    (bytes : List ℕ) (maximum : ℕ) (s : List ℕ)
    → NoZero s
    → take (suc (length s)) bytes ≡ s ++ 0 ∷ []
    → terminated bytes maximum ≡ ok s
unfolding terminated
terminated-of bytes maximum s free h = rw (position_zero-of s bytes free h) (
    ap ok (
      sym (take-take (length s) (suc (length s)) bytes (omega arith))
      ∙ ap (take (length s)) h
      ∙ take-append_left s (0 ∷ []) (length s) refl))

abbrev window : Elf64Shdr → ℕ → ℕ → Range
window h offset maximum = record {
  start = h.sh_offset + offset;
  end = min (h.sh_offset + h.sh_size) (h.sh_offset + offset + maximum);
}

get-eq-some :
    (elf_bytes : ElfBytes) (range : Range) (bytes : List ℕ)
    → get elf_bytes range ≡ some bytes
    → (range.start ≤ range.end)
      × (range.end ≤ length elf_bytes.bytes)
      × (range_bytes elf_bytes.bytes range ≡ bytes)
unfolding get
get-eq-some elf_bytes range bytes h = ground arith

get-of :
    (elf_bytes : ElfBytes) (range : Range)
    → range.start ≤ range.end
    → range.end ≤ length elf_bytes.bytes
    → get elf_bytes range ≡ some (range_bytes elf_bytes.bytes range)
unfolding get
get-of elf_bytes range ordered inside = ground arith

window-IsStringAt :
    (elf_bytes : ElfBytes) (h : Elf64Shdr) (offset maximum : ℕ) (s bytes : List ℕ)
    → h.sh_type ≡ sht_strtab
    → get elf_bytes (window h offset maximum) ≡ some bytes
    → terminated bytes maximum ≡ ok s
    → (min (h.sh_offset + h.sh_size) (h.sh_offset + offset + maximum) ≤ length elf_bytes.bytes)
      × IsStringAt elf_bytes.bytes h offset maximum s
window-IsStringAt elf_bytes h offset maximum s bytes is_table got found =
    let r = window h offset maximum in
    let (ordered, inside, same) = get-eq-some elf_bytes r bytes got in
    let (free, ends, below) = terminated-eq-ok bytes maximum s found in
    let rest = drop r.start elf_bytes.bytes in
    let enough = length-drop r.start elf_bytes.bytes (omega arith) in
    let long : length bytes ≡ r.end - r.start =
      ap length (sym same) ∙ length-take (r.end - r.start) rest (omega arith) in
    (
      inside,
      record {
        string_table = is_table;
        no_zero = free;
        at =
            sym (take-take (suc (length s)) (r.end - r.start) rest (omega arith))
            ∙ ap (take (suc (length s))) same
            ∙ ends;
        in_section = omega arith;
        short = omega arith;
      },
    )

module _ (elf_bytes : ElfBytes) (h : Elf64Shdr) (offset maximum : ℕ) (s : List ℕ) where
  found-IsStringAt :
      get_string_in_section elf_bytes h offset maximum ≡ ok s
      → HasWindow elf_bytes.bytes h offset maximum × IsStringAt elf_bytes.bytes h offset maximum s
  unfolding get_string_in_section
  found-IsStringAt e =
      let (_, table, e1) = >>=-eq-ok (guard (h.sh_type == sht_strtab) invalid_section_header) _ e in
      let (start, is_start, e2) = >>=-eq-ok (err_checked_add h.sh_offset offset) _ e1 in
      let (section_end, is_section, e3) = >>=-eq-ok (err_checked_add h.sh_offset h.sh_size) _ e2 in
      let (string_end, is_string, e4) = >>=-eq-ok (err_checked_add start maximum) _ e3 in
      let r : Range = record { start = start; end = min section_end string_end } in
      let (bytes, got, found) = >>=-eq-ok (ok_or (get elf_bytes r) out_of_bounds) _ e4 in
      let (start_sum, small_start) = err_checked_add-eq-ok _ _ is_start in
      let (section_sum, small_section) = err_checked_add-eq-ok _ _ is_section in
      let (string_sum, small_string) = err_checked_add-eq-ok _ _ is_string in
      let is_window : r ≡ window h offset maximum =
        ap (λ (n : ℕ). record { start = n; end = min section_end string_end }) start_sum
        ∙ ap (λ (n : ℕ). record { start = h.sh_offset + offset; end = n })
            (let ends : min section_end string_end
                  ≡ min (h.sh_offset + h.sh_size) (h.sh_offset + offset + maximum) =
                omega arith in
              ends) in
      let is_table = guard-eq-ok _ _ table in
      let (inside, is_string_at) =
        window-IsStringAt elf_bytes h offset maximum s bytes (ground arith)
          (ap (get elf_bytes) (sym is_window) ∙ ok_or-eq-ok _ _ got) found in
      (record { section = omega arith; string = omega arith; in_file = inside }, is_string_at)

  IsStringAt-found :
      HasWindow elf_bytes.bytes h offset maximum
      → IsStringAt elf_bytes.bytes h offset maximum s
      → get_string_in_section elf_bytes h offset maximum ≡ ok s
  unfolding get_string_in_section
  IsStringAt-found w i =
      let r = window h offset maximum in
      let table : (h.sh_type == sht_strtab) ≡ true = let e = i.string_table in ground arith in
      let inside = w.in_file in
      let got = get-of elf_bytes r (omega (arith, i.in_section, i.short)) inside in
      rw
        (
          table,
          err_checked_add-of h.sh_offset offset (omega (arith, w.string)),
          err_checked_add-of h.sh_offset h.sh_size w.section,
          err_checked_add-of (h.sh_offset + offset) maximum w.string,
          got,
        )
        (terminated-of _ maximum s i.no_zero (
          take-take (suc (length s)) (r.end - r.start) (drop r.start elf_bytes.bytes)
            (omega (arith, i.in_section, i.short))
          ∙ i.at))

  -- A string is found exactly if the window to search lies in the file and the string stands
  -- there: without a zero byte, but with one behind it that is still in the section and in the
  -- length that is allowed.
  pub get_string_in_section_iff :
      (get_string_in_section elf_bytes h offset maximum ≡ ok s)
      ↔ (HasWindow elf_bytes.bytes h offset maximum × IsStringAt elf_bytes.bytes h offset maximum s)
  get_string_in_section_iff = (found-IsStringAt, λ (w, i). IsStringAt-found w i)
