-- ===== src/Memory.antt =====
-- casestudy/sbpf/src/memory_region.rs: `MemoryRegion` and the translation of addresses.
pub mod Bounds
pub mod Cache
pub mod Mapping
use aeneas2isabelle.Prelude.{
  ℕ, ◌+◌, ◌-◌, ◌*◌, ◌/◌, ◌^◌, Bool, true, false, not, ◌&&◌, Option, none, some, ltb, leb, ◌==◌,
  if◌then◌else◌, bit_and, bit_or,
}
use Prim.Native.Nat.{min}

pub data AccessType : Type 0 where
  load_access store_access : AccessType

-- The payload of a region, which no translation reads, is left out.
pub record MemoryRegion : Type 0 where
  pub host_addr : ℕ
  pub vm_addr : ℕ
  pub len : ℕ
  pub vm_gap_shift : ℕ
  pub writable : Bool

abbrev pub word_end : ℕ
word_end = 0x1_0000_0000_0000_0000

-- The operations of `u64` that saturate, or fail where the result does not fit.
abbrev pub saturating_add : ℕ → ℕ → ℕ
saturating_add a b = min (word_end - 1) (a + b)

abbrev pub saturating_mul : ℕ → ℕ → ℕ
saturating_mul a b = min (word_end - 1) (a * b)

abbrev pub checked_add : ℕ → ℕ → Option ℕ
checked_add a b = if ltb (a + b) word_end then some (a + b) else none

-- `checked_shr(..).unwrap_or(0)`, and `(-1i64).checked_shl(..).unwrap_or(0) as u64`.
abbrev pub shift_right_or_zero : ℕ → ℕ → ℕ
shift_right_or_zero a n = if ltb n 64 then a / 2 ^ n else 0

abbrev pub gap_mask : ℕ → ℕ
gap_mask n = if ltb n 64 then word_end - 2 ^ n else 0

-- The range of virtual addresses, as its start and its end.
unfoldable pub vm_addr_range : MemoryRegion → ℕ × ℕ
vm_addr_range region =
    if region.vm_gap_shift == 63
    then (region.vm_addr, saturating_add region.vm_addr region.len)
    else (region.vm_addr, saturating_add region.vm_addr (saturating_mul region.len 2))

abbrev pub is_store_access : AccessType → Bool
is_store_access load_access = false
is_store_access store_access = true

-- The host address of an offset, if the access from there has an end and ends in the region.
abbrev pub host_of : MemoryRegion → ℕ → Option ℕ → Option ℕ
host_of region offset none = none
host_of region offset (some end_offset) =
    if leb end_offset region.len then some (saturating_add region.host_addr offset) else none

unfoldable pub offset_to_host : MemoryRegion → ℕ → ℕ → Option ℕ
offset_to_host region offset size = host_of region offset (checked_add offset size)

abbrev pub is_in_gap : MemoryRegion → ℕ → Bool
is_in_gap region begin_offset =
    bit_and (shift_right_or_zero begin_offset region.vm_gap_shift) 1 == 1

-- The offset with the gaps taken out.
abbrev pub gapped_offset : MemoryRegion → ℕ → ℕ
gapped_offset region begin_offset =
    let mask = gap_mask region.vm_gap_shift in
    bit_or (bit_and begin_offset mask / 2) (bit_and begin_offset (word_end - 1 - mask))

unfoldable pub vm_to_host : MemoryRegion → AccessType → ℕ → ℕ → Option ℕ
unfolding offset_to_host
vm_to_host region access_type vm_addr size =
    if is_store_access access_type && not region.writable
    then none
    else if ltb vm_addr region.vm_addr
    then none
    else (let begin_offset = vm_addr - region.vm_addr in
        if region.vm_gap_shift == 63
        then offset_to_host region begin_offset size
        else if is_in_gap region begin_offset
        then none
        else offset_to_host region (gapped_offset region begin_offset) size)
