-- ===== src/Memory/Mapping/Exact.antt =====
-- When the initialization of an aligned mapping succeeds, if the place zero is allowed.
use aeneas2isabelle.Prelude.{
  ℕ, zero, suc, ◌+◌, ◌≤◌, ◌≡◌, ◌↔◌, refl, ap, true, false, List, [], ◌∷◌, ltb, arith, Bool-cases,
  inl, inr,
}
use aeneas2isabelle.Memory.{MemoryRegion}
use aeneas2isabelle.Memory.Mapping.{AlignedMemoryMapping, region_index}
use aeneas2isabelle.Memory.Mapping.Initialize.{
  placed, initialized, precedes, insert_sorted, sort, fill_gaps, last_index, place_regions,
  initialize,
}
use aeneas2isabelle.Memory.Mapping.Placed.{insert_sorted-Memᴰ, sort-Memᴰ, keep-eq-placed}
use aeneas2isabelle.Memory.Mapping.Found.{with_regions-eq-initialized}
use aeneas2isabelle.Memory.Mapping.Apart.{
  Ascends, done, next, AreApart, apart_nil, apart_cons, initialize-AreApart,
}
use mathlib.Core.List.{Memᴰ}
use mathlib.Core.List.Memᴰ.{head, tail}

Ascends-weaken :
    (first later : ℕ) (regions : List MemoryRegion)
    → first ≤ later
    → Ascends later regions
    → Ascends first regions
Ascends-weaken first later [] h done = done
Ascends-weaken first later (region ∷ regions) h (next from up) = next (omega arith) up

not_later : (first place : ℕ) → ltb first place ≡ false → ltb place first ≡ false → first ≡ place
not_later first place dense here = ground arith

fill_gaps-Ascends :
    (host_addr fuel first : ℕ) (regions out : List MemoryRegion)
    → fill_gaps host_addr fuel first regions ≡ placed out
    → Ascends first regions
unfolding fill_gaps
fill_gaps-Ascends host_addr fuel first [] out h = done
fill_gaps-Ascends host_addr zero first (region ∷ regions) out h = cc
fill_gaps-Ascends host_addr (suc fuel) first (region ∷ regions) out h =
    elim (Bool-cases (ltb first (region_index region.vm_addr))) [
      | inl gap ↦
          let (after, there, same) = keep-eq-placed _ _ out (rw gap at h) in
          Ascends-weaken first (first + 1) (region ∷ regions) (omega arith)
            (fill_gaps-Ascends host_addr fuel (first + 1) (region ∷ regions) after there)
      | inr dense ↦ elim (Bool-cases (ltb (region_index region.vm_addr) first)) [
        | inl before ↦ absurd (let h' = rw (dense, before) at h in cc)
        | inr here ↦
            let (after, there, same) = keep-eq-placed region _ out (rw (dense, here) at h) in
            let place = not_later _ _ dense here in
            let up = fill_gaps-Ascends host_addr fuel (first + 1) regions after there in
            next (omega arith) (
              Ascends-weaken (region_index region.vm_addr + 1) (first + 1) regions (omega arith) up)
      ]
    ]

Ascends-Memᴰ :
    (first : ℕ) (regions : List MemoryRegion) (x : MemoryRegion)
    → Ascends first regions
    → Memᴰ x regions
    → first ≤ region_index x.vm_addr
Ascends-Memᴰ first [] x up m = elim m [ ]
Ascends-Memᴰ first (y ∷ regions) x (next from up) (head same) =
    let same_index = ap (λ (r : MemoryRegion). region_index r.vm_addr) same in omega arith
Ascends-Memᴰ first (y ∷ regions) x (next from up) (tail m) =
    let later = Ascends-Memᴰ (region_index y.vm_addr + 1) regions x up m in omega arith

Ascends-AreApart :
    (regions : List MemoryRegion) (first : ℕ) → Ascends first regions → AreApart regions
Ascends-AreApart [] first up = apart_nil
Ascends-AreApart (x ∷ regions) first (next from up) =
    apart_cons
      (λ other m same.
        let later = Ascends-Memᴰ (region_index x.vm_addr + 1) regions other up m in omega arith)
      (Ascends-AreApart regions _ up)

swapped :
    (x y : MemoryRegion) (regions : List MemoryRegion)
    → AreApart (y ∷ insert_sorted x regions)
    → (AreApart (insert_sorted x regions) → AreApart (x ∷ regions))
    → AreApart (x ∷ y ∷ regions)
swapped x y regions (apart_cons apart rest) sorted_apart = elim (sorted_apart rest) [
  | apart_cons x_apart rest' ↦
      apart_cons
        (λ other m same. elim m [
          | head e ↦
              let same_index = ap (λ (r : MemoryRegion). region_index r.vm_addr) e in
              apart x (insert_sorted-Memᴰ x x regions (head refl)) (omega arith)
          | tail m' ↦ x_apart other m' same
        ])
        (apart_cons (λ other m. apart other (insert_sorted-Memᴰ other x regions (tail m))) rest')
]

insert_sorted-AreApart :
    (x : MemoryRegion) (regions : List MemoryRegion)
    → AreApart (insert_sorted x regions)
    → AreApart (x ∷ regions)
unfolding insert_sorted
insert_sorted-AreApart x [] apart = apart
insert_sorted-AreApart x (y ∷ regions) apart = elim (Bool-cases (precedes x y)) [
  | inl e ↦ rw e at apart
  | inr e ↦ swapped x y regions (rw e at apart) (insert_sorted-AreApart x regions)
]

sort-AreApart : (regions : List MemoryRegion) → AreApart (sort regions) → AreApart regions
unfolding sort
sort-AreApart [] apart = apart
sort-AreApart (x ∷ regions) apart = elim (insert_sorted-AreApart x (sort regions) apart) [
  | apart_cons x_apart rest ↦
      apart_cons (λ other m. x_apart other (sort-Memᴰ other regions m)) (sort-AreApart regions rest)
]

-- Where the place zero is allowed, the initialization succeeds exactly if no two regions have one
-- place.
pub initialize_iff :
    (host_addr : ℕ) (mapping : AlignedMemoryMapping)
    → mapping.allow_memory_region_zero ≡ true
    → ((after : AlignedMemoryMapping) × (initialize host_addr mapping ≡ initialized after))
      ↔ AreApart mapping.regions
unfolding initialize place_regions
initialize_iff host_addr mapping allowed = (
  λ (after, h).
      let (out, there, same) = with_regions-eq-initialized mapping after _ h in
      sort-AreApart mapping.regions (
        Ascends-AreApart (sort mapping.regions) 0 (
          fill_gaps-Ascends host_addr (last_index mapping.regions + 2) 0 (sort mapping.regions) out
            (rw allowed at there))),
  λ apart. initialize-AreApart host_addr mapping allowed apart,
)
