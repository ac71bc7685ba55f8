-- ===== src/Memory/Mapping/Total.antt =====
-- The initialization of an aligned mapping ends within its fuel.
use aeneas2isabelle.Prelude.{
  ℕ, zero, suc, ◌+◌, ◌≤◌, ◌≡◌, ◌≢◌, refl, not, List, [], ◌∷◌, ◌++◌, ltb, ◌==◌, arith, Bool-cases,
  inl, inr,
}
use aeneas2isabelle.Memory.{MemoryRegion}
use aeneas2isabelle.Memory.Mapping.{AlignedMemoryMapping, region_index}
use aeneas2isabelle.Memory.Mapping.Initialize.{
  Placed, placed, misplaced, out_of_fuel, unfinished, precedes, insert_sorted, sort, keep,
  empty_region, fill_gaps, check_places, last_index, place_regions, with_regions, initialize,
}

last_index-insert_sorted :
    (x : MemoryRegion) (regions : List MemoryRegion) (bound : ℕ)
    → region_index x.vm_addr ≤ bound
    → last_index regions ≤ bound
    → last_index (insert_sorted x regions) ≤ bound
unfolding insert_sorted last_index
last_index-insert_sorted x [] bound hx h = omega arith
last_index-insert_sorted x (y ∷ regions) bound hx h = elim (Bool-cases (precedes x y)) [
  | inl e ↦ rw e (omega arith)
  | inr e ↦
      let rest = last_index-insert_sorted x regions bound hx (omega arith) in rw e (omega arith)
]

pub last_index-sort :
    (regions : List MemoryRegion) (bound : ℕ)
    → last_index regions ≤ bound
    → last_index (sort regions) ≤ bound
unfolding sort last_index
last_index-sort [] bound h = h
last_index-sort (x ∷ regions) bound h =
    last_index-insert_sorted x (sort regions) bound (omega arith)
      (last_index-sort regions bound (omega arith))

keep-eq-out_of_fuel :
    (region : MemoryRegion) (rest : Placed) → keep region rest ≡ out_of_fuel → rest ≡ out_of_fuel
keep-eq-out_of_fuel region (placed regions) h = cc
keep-eq-out_of_fuel region (misplaced index) h = cc
keep-eq-out_of_fuel region out_of_fuel h = refl

check_places-ne-out_of_fuel :
    (first : ℕ) (regions : List MemoryRegion) → check_places first regions ≢ out_of_fuel
unfolding check_places
check_places-ne-out_of_fuel first [] h = cc
check_places-ne-out_of_fuel first (region ∷ regions) h =
    elim (Bool-cases (not (region_index region.vm_addr == first))) [
      | inl e ↦ let h' = rw e at h in cc
      | inr e ↦
          check_places-ne-out_of_fuel (first + 1) regions (keep-eq-out_of_fuel region _ (rw e at h))
    ]

pub fill_gaps-ne-out_of_fuel :
    (host_addr fuel first bound : ℕ) (regions : List MemoryRegion)
    → last_index regions ≤ bound
    → first ≤ bound + 1
    → bound + 2 ≤ fuel + first
    → fill_gaps host_addr fuel first regions ≢ out_of_fuel
unfolding fill_gaps last_index
fill_gaps-ne-out_of_fuel host_addr fuel first bound [] last below enough h = cc
fill_gaps-ne-out_of_fuel host_addr zero first bound (region ∷ regions) last below enough h =
    absurd (omega arith)
fill_gaps-ne-out_of_fuel host_addr (suc fuel) first bound (region ∷ regions) last below enough h =
    elim (Bool-cases (ltb first (region_index region.vm_addr))) [
      | inl gap ↦
          fill_gaps-ne-out_of_fuel host_addr fuel (first + 1) bound (region ∷ regions) last
            (ground arith) (omega arith) (keep-eq-out_of_fuel _ _ (rw gap at h))
      | inr dense ↦ elim (Bool-cases (ltb (region_index region.vm_addr) first)) [
        | inl before ↦ let h' = rw (dense, before) at h in cc
        | inr here ↦
            fill_gaps-ne-out_of_fuel host_addr fuel (first + 1) bound regions (omega arith)
              (ground arith) (omega arith) (keep-eq-out_of_fuel region _ (rw (dense, here) at h))
      ]
    ]

pub place_regions-ne-out_of_fuel :
    (host_addr : ℕ) (mapping : AlignedMemoryMapping) → place_regions host_addr mapping ≢ out_of_fuel
unfolding place_regions
place_regions-ne-out_of_fuel host_addr mapping h =
    elim (Bool-cases mapping.allow_memory_region_zero) [
      | inl e ↦
          fill_gaps-ne-out_of_fuel host_addr _ 0 (last_index mapping.regions) (sort mapping.regions)
            (last_index-sort mapping.regions _ (omega arith)) (omega arith) (omega arith)
            (rw e at h)
      | inr e ↦
          check_places-ne-out_of_fuel 0 (sort (mapping.regions ++ empty_region host_addr 0 ∷ []))
            (rw e at h)
    ]

with_regions-ne-unfinished :
    (mapping : AlignedMemoryMapping) (result : Placed)
    → result ≢ out_of_fuel
    → with_regions mapping result ≢ unfinished
with_regions-ne-unfinished mapping (placed regions) ne h = cc
with_regions-ne-unfinished mapping (misplaced index) ne h = cc
with_regions-ne-unfinished mapping out_of_fuel ne h = ne refl

-- The fuel of an initialization is enough for its loop, whatever the regions.
pub initialize-ne-unfinished :
    (host_addr : ℕ) (mapping : AlignedMemoryMapping) → initialize host_addr mapping ≢ unfinished
unfolding initialize
initialize-ne-unfinished host_addr mapping =
    with_regions-ne-unfinished mapping _ (place_regions-ne-out_of_fuel host_addr mapping)
