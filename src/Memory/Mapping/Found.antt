-- ===== src/Memory/Mapping/Found.antt =====
-- The regions that an initialized aligned mapping finds.
use aeneas2isabelle.Prelude.{
  ℕ, suc, ◌≡◌, refl, sym, ap, subst, true, ◌||◌, some, List, [], ◌∷◌, ◌++◌, ltb, length, get_elem?,
  get_elem?-eq-none, arith, Bool-cases, inl, inr,
}
use aeneas2isabelle.Memory.{MemoryRegion}
use aeneas2isabelle.Memory.Mapping.{AlignedMemoryMapping, region_index, find_region}
use aeneas2isabelle.Memory.Mapping.Initialize.{
  Placed, placed, misplaced, out_of_fuel, initialized, sort, empty_region, place_regions,
  with_regions, initialize,
}
use aeneas2isabelle.Memory.Mapping.Placed.{
  sort-Memᴰ, Memᴰ-sort, ArePlaced, check_places-IsPlacing, AreWords, fill_gaps-IsPlacing,
}
use mathlib.Core.List.{Memᴰ}
use mathlib.Core.List.Memᴰ.{head, tail}

Memᴰ-get_elem? :
    (x : MemoryRegion) (regions : List MemoryRegion)
    → Memᴰ x regions
    → (i : ℕ) × (get_elem? regions i ≡ some x)
Memᴰ-get_elem? x [] m = elim m [ ]
Memᴰ-get_elem? x (y ∷ regions) (head same) = (0, ap some (sym same))
Memᴰ-get_elem? x (y ∷ regions) (tail m) = let (i, at) = Memᴰ-get_elem? x regions m in (suc i, at)

Memᴰ-append_left :
    (x : MemoryRegion) (regions others : List MemoryRegion)
    → Memᴰ x regions
    → Memᴰ x (regions ++ others)
Memᴰ-append_left x [] others m = elim m [ ]
Memᴰ-append_left x (y ∷ regions) others (head same) = head same
Memᴰ-append_left x (y ∷ regions) others (tail m) = tail (Memᴰ-append_left x regions others m)

-- The regions are those that were given, and empty ones.
record Places (mapping : AlignedMemoryMapping) (out : List MemoryRegion) : Type 0 where
  are_placed : ArePlaced 0 out
  kept : (x : MemoryRegion) → Memᴰ x mapping.regions → Memᴰ x out

sort-AreWords : (regions : List MemoryRegion) → AreWords regions → AreWords (sort regions)
sort-AreWords regions words = record { small = λ x m. words.small x (Memᴰ-sort x regions m) }

place_regions-Places :
    (host_addr : ℕ) (mapping : AlignedMemoryMapping) (out : List MemoryRegion)
    → AreWords mapping.regions
    → place_regions host_addr mapping ≡ placed out
    → Places mapping out
unfolding place_regions
place_regions-Places host_addr mapping out words h =
    elim (Bool-cases mapping.allow_memory_region_zero) [
      | inl e ↦
          let placing =
            fill_gaps-IsPlacing host_addr _ 0 (sort mapping.regions) out
              (sort-AreWords mapping.regions words) (rw e at h) in
          record {
            are_placed = placing.are_placed;
            kept = λ x m. placing.kept x (sort-Memᴰ x mapping.regions m);
          }
      | inr e ↦
          let with_empty = mapping.regions ++ empty_region host_addr 0 ∷ [] in
          let placing = check_places-IsPlacing 0 (sort with_empty) out (rw e at h) in
          record {
            are_placed = placing.are_placed;
            kept = λ x m.
                placing.kept x (sort-Memᴰ x with_empty (Memᴰ-append_left x mapping.regions _ m));
          }
    ]

pub with_regions-eq-initialized :
    (mapping after : AlignedMemoryMapping) (result : Placed)
    → with_regions mapping result ≡ initialized after
    → (out : List MemoryRegion) × (result ≡ placed out) × (record mapping { regions = out } ≡ after)
with_regions-eq-initialized mapping after (placed out) h = (out, refl, cc)
with_regions-eq-initialized mapping after (misplaced index) h = cc
with_regions-eq-initialized mapping after out_of_fuel h = cc

find_region-at :
    (mapping : AlignedMemoryMapping) (vm_addr : ℕ) (region : MemoryRegion)
    → (ltb 0 (region_index vm_addr) || mapping.allow_memory_region_zero) ≡ true
    → get_elem? mapping.regions (region_index vm_addr) ≡ some region
    → find_region mapping vm_addr ≡ some region
unfolding find_region
find_region-at mapping vm_addr region allowed at =
    elim (Bool-cases (ltb (region_index vm_addr) (length mapping.regions))) [
      | inl inside ↦ rw (inside, allowed) at
      | inr outside ↦ absurd (
          let beyond = get_elem?-eq-none mapping.regions (region_index vm_addr) (ground arith) in
          cc)
    ]

-- Where an aligned mapping of regions at 64-bit addresses is initialized, every region stands at the
-- place of its address, those that were put in for gaps as well.
pub initialize-ArePlaced :
    (host_addr : ℕ) (mapping after : AlignedMemoryMapping)
    → AreWords mapping.regions
    → initialize host_addr mapping ≡ initialized after
    → ArePlaced 0 after.regions
unfolding initialize
initialize-ArePlaced host_addr mapping after words h =
    let (out, there, same) = with_regions-eq-initialized mapping after _ h in
    let places = place_regions-Places host_addr mapping out words there in
    subst (λ (m : AlignedMemoryMapping). ArePlaced 0 m.regions) same places.are_placed

-- Where an aligned mapping of regions at 64-bit addresses is initialized, every address in the place
-- of a region that was given finds this region, unless the place is zero and is not allowed.
pub initialize-find_region :
    (host_addr : ℕ) (mapping after : AlignedMemoryMapping) (region : MemoryRegion) (vm_addr : ℕ)
    → AreWords mapping.regions
    → initialize host_addr mapping ≡ initialized after
    → Memᴰ region mapping.regions
    → region_index vm_addr ≡ region_index region.vm_addr
    → (ltb 0 (region_index vm_addr) || mapping.allow_memory_region_zero) ≡ true
    → find_region after vm_addr ≡ some region
unfolding initialize
initialize-find_region host_addr mapping after region vm_addr words h m e allowed =
    let (out, there, same) = with_regions-eq-initialized mapping after _ h in
    let places = place_regions-Places host_addr mapping out words there in
    let (i, at) = Memᴰ-get_elem? region out (places.kept region m) in
    let place = places.are_placed.at i region at in
    let index : i ≡ region_index vm_addr = omega arith in
    subst (λ (m : AlignedMemoryMapping). find_region m vm_addr ≡ some region) same
      (find_region-at (record mapping { regions = out }) vm_addr region allowed (rw index at at))
