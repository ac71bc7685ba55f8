-- ===== src/Memory/Mapping/Initialize.antt =====
-- casestudy/sbpf/src/memory_region.rs: `initialize` of `AlignedMemoryMapping`, which sorts the
-- regions and fills the gaps between them. The regions that a failed initialization leaves are not
-- part of the result, and the host address of an empty slice is a parameter.
use aeneas2isabelle.Prelude.{
  ℕ, zero, suc, ◌+◌, ◌^◌, Bool, false, not, List, [], ◌∷◌, ◌++◌, ltb, leb, ◌==◌, if◌then◌else◌,
}
use aeneas2isabelle.Memory.{MemoryRegion, saturating_mul}
use aeneas2isabelle.Memory.Mapping.{AlignedMemoryMapping, region_index}
use Prim.Native.Nat.{max}

-- The regions, the index of a region that is not in its place, or no fuel left.
pub data Placed : Type 0 where
  placed : List MemoryRegion → Placed
  misplaced : ℕ → Placed
  out_of_fuel : Placed

pub data Initialized : Type 0 where
  initialized : AlignedMemoryMapping → Initialized
  invalid_region : ℕ → Initialized
  unfinished : Initialized

-- The order of regions, and the stable sort of the standard library in that order.
abbrev pub precedes : MemoryRegion → MemoryRegion → Bool
precedes region other = leb region.vm_addr other.vm_addr

unfoldable pub insert_sorted : MemoryRegion → List MemoryRegion → List MemoryRegion
insert_sorted region [] = region ∷ []
insert_sorted region (other ∷ regions) =
    if precedes region other then region ∷ other ∷ regions else other ∷ insert_sorted region regions

unfoldable pub sort : List MemoryRegion → List MemoryRegion
unfolding insert_sorted
sort [] = []
sort (region ∷ regions) = insert_sorted region (sort regions)

-- One region in front of the others.
abbrev pub keep : MemoryRegion → Placed → Placed
keep region (placed regions) = placed (region ∷ regions)
keep region (misplaced index) = misplaced index
keep region out_of_fuel = out_of_fuel

-- The loop that accepts no gaps.
unfoldable pub check_places : ℕ → List MemoryRegion → Placed
check_places index [] = placed []
check_places index (region ∷ regions) =
    let rest = check_places (index + 1) regions in
    if not (region_index region.vm_addr == index) then misplaced index else keep region rest

-- The largest index of a region, so that the loop ends within two more steps.
unfoldable pub last_index : List MemoryRegion → ℕ
last_index [] = 0
last_index (region ∷ regions) = max (region_index region.vm_addr) (last_index regions)

abbrev pub with_regions : AlignedMemoryMapping → Placed → Initialized
with_regions mapping (placed regions) = initialized (record mapping { regions = regions })
with_regions mapping (misplaced index) = invalid_region index
with_regions mapping out_of_fuel = unfinished

-- The host address is that of an empty slice.
module _ (host_addr : ℕ) where
  -- `MemoryRegion::new` of an empty slice.
  abbrev pub empty_region : ℕ → MemoryRegion
  empty_region vm_addr = record {
    host_addr = host_addr;
    vm_addr = vm_addr;
    len = 0;
    vm_gap_shift = 63;
    writable = false;
  }

  -- The loop, with the regions from the expected index on. A region that is put in leaves them.
  unfoldable pub fill_gaps : ℕ → ℕ → List MemoryRegion → Placed
  fill_gaps fuel expected_region_index [] = placed []
  fill_gaps zero expected_region_index (region ∷ regions) = out_of_fuel
  fill_gaps (suc fuel) expected_region_index (region ∷ regions) =
      let actual_region_index = region_index region.vm_addr in
      let is_gap = ltb expected_region_index actual_region_index in
      let rest =
        fill_gaps fuel (expected_region_index + 1) (if is_gap then region ∷ regions else regions) in
      if is_gap
      then keep (empty_region (saturating_mul expected_region_index (2 ^ 32))) rest
      else if ltb actual_region_index expected_region_index
      then misplaced actual_region_index
      else keep region rest

  unfoldable pub place_regions : AlignedMemoryMapping → Placed
  unfolding sort fill_gaps check_places last_index
  place_regions mapping =
      if mapping.allow_memory_region_zero
      then fill_gaps (last_index mapping.regions + 2) 0 (sort mapping.regions)
      else check_places 0 (sort (mapping.regions ++ empty_region 0 ∷ []))

  unfoldable pub initialize : AlignedMemoryMapping → Initialized
  unfolding place_regions
  initialize mapping = with_regions mapping (place_regions mapping)
