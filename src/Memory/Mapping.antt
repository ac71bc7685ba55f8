-- ===== src/Memory/Mapping.antt =====
-- casestudy/sbpf/src/memory_region.rs: `AlignedMemoryMapping`, and the translation that
-- `MemoryMapping` makes with it, with address translation enabled. A region begins at each multiple
-- of 2 ^ 32. The access violation handler is a function from a region, the bytes up to the next
-- region and the access to a region.
pub mod Inside
pub mod Starts
pub mod Initialize
pub mod Placed
pub mod Found
pub mod Total
pub mod Apart
pub mod Exact
use aeneas2isabelle.Prelude.{
  ℕ, ◌+◌, ◌-◌, ◌/◌, ◌^◌, Bool, false, not, ◌&&◌, ◌||◌, Option, none, some, List, ltb, leb, ◌==◌,
  if◌then◌else◌, length, get_elem?, set,
}
use aeneas2isabelle.Memory.{
  AccessType, MemoryRegion, word_end, saturating_add, vm_to_host, vm_addr_range,
}

-- An address of the host, the access that is violated, or a region that does not fit its place.
pub data Mapped : Type 0 where
  mapped : ℕ → Mapped
  violated : AccessType → ℕ → ℕ → Mapped
  invalid_memory_region : ℕ → Mapped

pub record AlignedMemoryMapping : Type 0 where
  pub regions : List MemoryRegion
  pub allow_memory_region_zero : Bool

abbrev pub region_index : ℕ → ℕ
region_index vm_addr = vm_addr / 2 ^ 32

unfoldable pub find_region : AlignedMemoryMapping → ℕ → Option MemoryRegion
find_region mapping vm_addr =
    if ltb (region_index vm_addr) (length mapping.regions)
      && (ltb 0 (region_index vm_addr) || mapping.allow_memory_region_zero)
    then get_elem? mapping.regions (region_index vm_addr)
    else none

-- `none` is the error for an invalid region.
unfoldable pub replace_region :
    AlignedMemoryMapping → ℕ → MemoryRegion → Option AlignedMemoryMapping
replace_region mapping index region =
    if not (region_index region.vm_addr == index)
      || not (region_index (saturating_add region.vm_addr (region.len - 1)) == index)
    then none
    else some (record mapping { regions = set mapping.regions index region })

-- The translation by a region that was found, if one was.
abbrev pub translate : Option MemoryRegion → AccessType → ℕ → ℕ → Option ℕ
translate none access_type vm_addr size = none
translate (some region) access_type vm_addr size = vm_to_host region access_type vm_addr size

abbrev pub map_result : Option ℕ → AccessType → ℕ → ℕ → Mapped
map_result none access_type vm_addr size = violated access_type vm_addr size
map_result (some host_addr) access_type vm_addr size = mapped host_addr

unfoldable pub map : AlignedMemoryMapping → AccessType → ℕ → ℕ → Mapped
unfolding find_region
map mapping access_type vm_addr size =
    map_result (translate (find_region mapping vm_addr) access_type vm_addr size) access_type
      vm_addr size

-- The start of the region behind an index, or the largest word.
abbrev pub next_region_start : AlignedMemoryMapping → ℕ → ℕ
next_region_start mapping index = elim (get_elem? mapping.regions (index + 1)) [
  | none ↦ word_end - 1
  | some next_region ↦ next_region.vm_addr
]

-- Whether a region starts where the one that it replaces does, and ends before the next one.
abbrev pub fits_between : Option MemoryRegion → ℕ → MemoryRegion → Bool
fits_between none next_start region = false
fits_between (some old) next_start region =
    old.vm_addr == region.vm_addr && leb (vm_addr_range region).1 next_start

-- `MemoryMapping::replace_region`, around the one of the aligned mapping.
unfoldable pub replace_region_checked :
    AlignedMemoryMapping → ℕ → MemoryRegion → Option AlignedMemoryMapping
unfolding replace_region vm_addr_range
replace_region_checked mapping index region =
    if fits_between (get_elem? mapping.regions index) (next_region_start mapping index) region
    then replace_region mapping index region
    else none

-- The bytes up to the next region.
abbrev pub max_len : AlignedMemoryMapping → ℕ → MemoryRegion → ℕ
max_len mapping index region = next_region_start mapping index - region.vm_addr

-- The second attempt, with the region that the handler left.
abbrev pub replaced :
    Option AlignedMemoryMapping → AlignedMemoryMapping → ℕ → ℕ → Mapped × AlignedMemoryMapping
replaced none mapping index host_addr = (invalid_memory_region index, mapping)
replaced (some after) mapping index host_addr = (mapped host_addr, after)

abbrev pub retry :
    Option ℕ
    → AlignedMemoryMapping
    → MemoryRegion
    → AccessType
    → ℕ
    → ℕ
    → Mapped × AlignedMemoryMapping
retry none mapping region access_type vm_addr size = (violated access_type vm_addr size, mapping)
retry (some host_addr) mapping region access_type vm_addr size =
    replaced (replace_region_checked mapping (region_index vm_addr) region) mapping
      (region_index vm_addr) host_addr

module _ (handler : MemoryRegion → ℕ → AccessType → ℕ → ℕ → MemoryRegion) where
  abbrev pub handled : AlignedMemoryMapping → MemoryRegion → AccessType → ℕ → ℕ → MemoryRegion
  handled mapping region access_type vm_addr size =
      handler region (max_len mapping (region_index vm_addr) region) access_type vm_addr size

  -- The first attempt, with the region that was found.
  unfoldable pub map_in_region :
      Option ℕ
      → AlignedMemoryMapping
      → MemoryRegion
      → AccessType
      → ℕ
      → ℕ
      → Mapped × AlignedMemoryMapping
  map_in_region (some host_addr) mapping region access_type vm_addr size =
      (mapped host_addr, mapping)
  map_in_region none mapping region access_type vm_addr size =
      let after = handled mapping region access_type vm_addr size in
      retry (vm_to_host after access_type vm_addr size) mapping after access_type vm_addr size

  unfoldable pub map_found :
      Option MemoryRegion
      → AlignedMemoryMapping
      → AccessType
      → ℕ
      → ℕ
      → Mapped × AlignedMemoryMapping
  unfolding map_in_region
  map_found none mapping access_type vm_addr size = (violated access_type vm_addr size, mapping)
  map_found (some region) mapping access_type vm_addr size =
      map_in_region (vm_to_host region access_type vm_addr size) mapping region access_type vm_addr
        size

  unfoldable pub map_with_access_violation_handler :
      AlignedMemoryMapping → AccessType → ℕ → ℕ → Mapped × AlignedMemoryMapping
  unfolding find_region map_found
  map_with_access_violation_handler mapping access_type vm_addr size =
      map_found (find_region mapping vm_addr) mapping access_type vm_addr size
