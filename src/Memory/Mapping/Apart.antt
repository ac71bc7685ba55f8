-- ===== src/Memory/Mapping/Apart.antt =====
-- The initialization of an aligned mapping succeeds where the regions are apart.
use aeneas2isabelle.Prelude.{
  ℕ, zero, suc, ◌+◌, ◌≤◌, ◌≡◌, ◌≢◌, refl, true, false, List, [], ◌∷◌, ltb, arith, Bool-cases, inl,
  inr, ltb→lt,
}
use aeneas2isabelle.Memory.{MemoryRegion}
use aeneas2isabelle.Memory.Mapping.{AlignedMemoryMapping, region_index}
use aeneas2isabelle.Memory.Mapping.Initialize.{
  Placed, placed, misplaced, out_of_fuel, initialized, precedes, insert_sorted, sort, keep,
  fill_gaps, last_index, place_regions, with_regions, initialize,
}
use aeneas2isabelle.Memory.Mapping.Placed.{Memᴰ-sort}
use aeneas2isabelle.Memory.Mapping.Total.{place_regions-ne-out_of_fuel}
use mathlib.Core.List.{Memᴰ}
use mathlib.Core.List.Memᴰ.{head, tail}

-- The places of the regions ascend from a first one on.
pub data Ascends : ℕ → List MemoryRegion → Type 0 where
  done : {first : ℕ} → Ascends first []
  next :
      {first : ℕ} {region : MemoryRegion} {regions : List MemoryRegion}
      → first ≤ region_index region.vm_addr
      → Ascends (region_index region.vm_addr + 1) regions
      → Ascends first (region ∷ regions)

-- No region of the list has the place of a region.
abbrev pub IsApart : MemoryRegion → List MemoryRegion → Type 0
IsApart region regions =
    (other : MemoryRegion)
    → Memᴰ other regions
    → region_index region.vm_addr ≢ region_index other.vm_addr

-- No two regions have one place.
pub data AreApart : List MemoryRegion → Type 0 where
  apart_nil : AreApart []
  apart_cons :
      {region : MemoryRegion} {regions : List MemoryRegion}
      → IsApart region regions
      → AreApart regions
      → AreApart (region ∷ regions)

insert_sorted-Ascends :
    (first : ℕ) (x : MemoryRegion) (regions : List MemoryRegion)
    → first ≤ region_index x.vm_addr
    → IsApart x regions
    → Ascends first regions
    → Ascends first (insert_sorted x regions)
unfolding insert_sorted
insert_sorted-Ascends first x [] below apart h = next below done
insert_sorted-Ascends first x (y ∷ regions) below apart (next from h) =
    let ne = apart y (head refl) in
    elim (Bool-cases (precedes x y)) [
      | inl e ↦ rw e (next below (next (ground arith) h))
      | inr e ↦ rw e (
          next from (
            insert_sorted-Ascends (region_index y.vm_addr + 1) x regions (ground arith)
              (λ other m. apart other (tail m)) h))
    ]

sort-Ascends : (regions : List MemoryRegion) → AreApart regions → Ascends 0 (sort regions)
unfolding sort
sort-Ascends [] apart_nil = done
sort-Ascends (x ∷ regions) (apart_cons apart rest) =
    insert_sorted-Ascends 0 x (sort regions) (omega arith)
      (λ other m. apart other (Memᴰ-sort other regions m)) (sort-Ascends regions rest)

keep-eq-misplaced :
    (region : MemoryRegion) (rest : Placed) (index : ℕ)
    → keep region rest ≡ misplaced index
    → rest ≡ misplaced index
keep-eq-misplaced region (placed regions) index h = cc
keep-eq-misplaced region (misplaced i) index h = h
keep-eq-misplaced region out_of_fuel index h = cc

next_place : (first place : ℕ) → first ≤ place → ltb first place ≡ false → first + 1 ≡ place + 1
next_place first place from dense = ground arith

fill_gaps-ne-misplaced :
    (host_addr fuel first index : ℕ) (regions : List MemoryRegion)
    → Ascends first regions
    → fill_gaps host_addr fuel first regions ≢ misplaced index
unfolding fill_gaps
fill_gaps-ne-misplaced host_addr fuel first index [] up h = cc
fill_gaps-ne-misplaced host_addr zero first index (region ∷ regions) up h = cc
fill_gaps-ne-misplaced host_addr (suc fuel) first index (region ∷ regions) (next from up) h =
    elim (Bool-cases (ltb first (region_index region.vm_addr))) [
      | inl gap ↦
          fill_gaps-ne-misplaced host_addr fuel (first + 1) index (region ∷ regions)
            (next (let lt = ltb→lt _ _ gap in omega arith) up)
            (keep-eq-misplaced _ _ index (rw gap at h))
      | inr dense ↦ elim (Bool-cases (ltb (region_index region.vm_addr) first)) [
        | inl before ↦ absurd (let lt = ltb→lt _ _ before in omega arith)
        | inr here ↦
            let same = next_place _ _ from dense in
            fill_gaps-ne-misplaced host_addr fuel (first + 1) index regions (rw same up)
              (keep-eq-misplaced region _ index (rw (dense, here) at h))
      ]
    ]

place_regions-ne-misplaced :
    (host_addr index : ℕ) (mapping : AlignedMemoryMapping)
    → mapping.allow_memory_region_zero ≡ true
    → AreApart mapping.regions
    → place_regions host_addr mapping ≢ misplaced index
unfolding place_regions
place_regions-ne-misplaced host_addr index mapping allowed apart h =
    fill_gaps-ne-misplaced host_addr (last_index mapping.regions + 2) 0 index (sort mapping.regions)
      (sort-Ascends mapping.regions apart) (rw allowed at h)

with_regions-initialized :
    (mapping : AlignedMemoryMapping) (result : Placed)
    → result ≢ out_of_fuel
    → ((index : ℕ) → result ≢ misplaced index)
    → (after : AlignedMemoryMapping) × (with_regions mapping result ≡ initialized after)
with_regions-initialized mapping (placed regions) ends places = (_, refl)
with_regions-initialized mapping (misplaced index) ends places = absurd (places index refl)
with_regions-initialized mapping out_of_fuel ends places = absurd (ends refl)

-- Where the place zero is allowed and no two regions have one place, the initialization succeeds.
pub initialize-AreApart :
    (host_addr : ℕ) (mapping : AlignedMemoryMapping)
    → mapping.allow_memory_region_zero ≡ true
    → AreApart mapping.regions
    → (after : AlignedMemoryMapping) × (initialize host_addr mapping ≡ initialized after)
unfolding initialize
initialize-AreApart host_addr mapping allowed apart =
    with_regions-initialized mapping _ (place_regions-ne-out_of_fuel host_addr mapping)
      (λ index. place_regions-ne-misplaced host_addr index mapping allowed apart)
