-- ===== src/Tests/Mapping.antt =====
-- The theorems on memory regions at a mapping of two regions.
use aeneas2isabelle.Prelude.{
  ℕ, ◌+◌, ◌-◌, ◌≤◌, ◌≡◌, refl, true, false, none, some, [], ◌∷◌, ◌↔◌, arith,
}
use aeneas2isabelle.Memory.{AccessType, load_access, store_access, MemoryRegion, vm_to_host}
use aeneas2isabelle.Memory.Bounds.{IsInside, vm_to_host-IsInside, vm_to_host_iff}
use aeneas2isabelle.Memory.Mapping.{
  mapped, AlignedMemoryMapping, replace_region_checked, map, map_with_access_violation_handler,
  violated, invalid_memory_region,
}
use aeneas2isabelle.Memory.Mapping.Starts.{starts, map_with_access_violation_handler-starts}
use aeneas2isabelle.Memory.Mapping.Inside.{IsMapped, map_with_access_violation_handler-IsMapped}

abbrev empty_region : MemoryRegion
empty_region = record { host_addr = 1; vm_addr = 0; len = 0; vm_gap_shift = 63; writable = false }

abbrev data_region : MemoryRegion
data_region = record {
  host_addr = 4096;
  vm_addr = 0x1_0000_0000;
  len = 16;
  vm_gap_shift = 63;
  writable = false;
}

-- Frames of 8 bytes with gaps of 8 bytes between them.
abbrev stack_region : MemoryRegion
stack_region = record data_region { vm_gap_shift = 3; writable = true }

abbrev two_regions : AlignedMemoryMapping
two_regions = record { regions = empty_region ∷ data_region ∷ []; allow_memory_region_zero = true }

-- A handler that makes a region writable.
abbrev unlock : MemoryRegion → ℕ → AccessType → ℕ → ℕ → MemoryRegion
unlock region bytes access_type vm_addr size = record region { writable = true }

abbrev unlocked : AlignedMemoryMapping
unlocked = record {
  regions = empty_region ∷ record data_region { writable = true } ∷ [];
  allow_memory_region_zero = true;
}

maps_gapped : vm_to_host stack_region store_access 0x1_0000_0012 4 ≡ some 4106
unfolding vm_to_host
maps_gapped = refl

rejects_gap : vm_to_host stack_region store_access 0x1_0000_000a 4 ≡ none
unfolding vm_to_host
rejects_gap = refl

rejects_store : map two_regions store_access 0x1_0000_0004 8 ≡ violated store_access 0x1_0000_0004 8
unfolding map vm_to_host
rejects_store = refl

maps_unlocked :
    map_with_access_violation_handler unlock two_regions store_access 0x1_0000_0004 8
    ≡ (mapped 4100, unlocked)
unfolding map_with_access_violation_handler vm_to_host replace_region_checked
maps_unlocked = refl

vm_to_host-IsInside_example :
    IsInside stack_region 4106 4 × (store_access ≡ store_access → stack_region.writable ≡ true)
vm_to_host-IsInside_example =
    vm_to_host-IsInside stack_region store_access 0x1_0000_0012 4 4106 (omega arith) maps_gapped

vm_to_host_iff_example : (vm_to_host data_region load_access 0x1_0000_0004 8 ≡ some 4100) ↔ (
    (load_access ≡ store_access → data_region.writable ≡ true)
    × (0x1_0000_0000 ≤ 0x1_0000_0004)
    × (0x1_0000_0004 + 8 ≤ 0x1_0000_0000 + 16)
    × (4100 ≡ 4096 + (0x1_0000_0004 - 0x1_0000_0000)))
vm_to_host_iff_example =
    vm_to_host_iff data_region load_access 0x1_0000_0004 8 4100 refl (omega arith)

map_with_access_violation_handler-IsMapped_example :
    IsMapped unlocked store_access 0x1_0000_0004 8 4100
map_with_access_violation_handler-IsMapped_example =
    map_with_access_violation_handler-IsMapped unlock two_regions unlocked store_access
      0x1_0000_0004 8 4100 maps_unlocked

-- A handler that moves a region within its place.
abbrev moved : MemoryRegion → ℕ → AccessType → ℕ → ℕ → MemoryRegion
moved region bytes access_type vm_addr size = record region {
  vm_addr = region.vm_addr + 4;
  writable = true;
}

rejects_moved :
    map_with_access_violation_handler moved two_regions store_access 0x1_0000_0004 8
    ≡ (invalid_memory_region 1, two_regions)
unfolding map_with_access_violation_handler vm_to_host replace_region_checked
rejects_moved = refl

map_with_access_violation_handler-starts_example :
    starts (map_with_access_violation_handler unlock two_regions store_access 0x1_0000_0004 8).1
    ≡ starts two_regions
map_with_access_violation_handler-starts_example =
    map_with_access_violation_handler-starts unlock two_regions store_access 0x1_0000_0004 8
