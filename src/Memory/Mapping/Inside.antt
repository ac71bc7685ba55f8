-- ===== src/Memory/Mapping/Inside.antt =====
-- Whatever the access violation handler does, an access that is mapped lies in a region.
use aeneas2isabelle.Prelude.{
  ℕ, ◌+◌, ◌-◌, ◌<◌, ◌≡◌, refl, true, not, ◌&&◌, ◌||◌, Option, none, some, List, ltb, ◌==◌, length,
  get_elem?, ◌∙◌, get_elem?-eq-none, get_elem?-set_self, ap, subst, set, arith, Bool-cases,
  Option-cases, inl, inr,
}
use aeneas2isabelle.Memory.{
  AccessType, store_access, MemoryRegion, word_end, saturating_add, vm_to_host,
}
use aeneas2isabelle.Memory.Bounds.{IsInside, vm_to_host-IsInside}
use aeneas2isabelle.Memory.Mapping.{
  Mapped, mapped, violated, invalid_memory_region, AlignedMemoryMapping, region_index, find_region,
  replace_region, replace_region_checked, fits_between, next_region_start, retry, replaced, handled,
  map_in_region, map_found, map_with_access_violation_handler,
}

-- The region at the place of an address has the access in its host memory, if that ends below
-- 2 ^ 64, and is writable if the access is a store.
pub record IsMapped (mapping : AlignedMemoryMapping) (access_type : AccessType)
    (vm_addr size host : ℕ) : Type 0 where
  pub region : MemoryRegion
  pub at : get_elem? mapping.regions (region_index vm_addr) ≡ some region
  pub inside :
      region.host_addr + region.len < word_end
      → IsInside region host size × (access_type ≡ store_access → region.writable ≡ true)

find_region-get_elem? :
    (mapping : AlignedMemoryMapping) (vm_addr : ℕ) (region : MemoryRegion)
    → find_region mapping vm_addr ≡ some region
    → get_elem? mapping.regions (region_index vm_addr) ≡ some region
unfolding find_region
find_region-get_elem? mapping vm_addr region h =
    elim (Bool-cases (
      ltb (region_index vm_addr) (length mapping.regions)
      && (ltb 0 (region_index vm_addr) || mapping.allow_memory_region_zero))) [
        | inl e ↦ rw e at h
        | inr e ↦ absurd (let h' = rw e at h in cc)
      ]

index-lt :
    (regions : List MemoryRegion) (i : ℕ) (region : MemoryRegion)
    → get_elem? regions i ≡ some region
    → i < length regions
index-lt regions i region h = elim (Bool-cases (ltb i (length regions))) [
  | inl e ↦ ground arith
  | inr e ↦ absurd (let none_at = get_elem?-eq-none regions i (ground arith) in cc)
]

replace_region-eq-some :
    (mapping after : AlignedMemoryMapping) (index : ℕ) (region : MemoryRegion)
    → replace_region mapping index region ≡ some after
    → record mapping { regions = set mapping.regions index region } ≡ after
unfolding replace_region
replace_region-eq-some mapping after index region h =
    elim (Bool-cases (
      not (region_index region.vm_addr == index)
      || not (region_index (saturating_add region.vm_addr (region.len - 1)) == index))) [
        | inl e ↦ absurd (let h' = rw e at h in cc)
        | inr e ↦ (let h' = rw e at h in cc)
      ]

pub replace_region_checked-eq-some :
    (mapping after : AlignedMemoryMapping) (index : ℕ) (region : MemoryRegion)
    → replace_region_checked mapping index region ≡ some after
    → record mapping { regions = set mapping.regions index region } ≡ after
unfolding replace_region_checked
replace_region_checked-eq-some mapping after index region h =
    elim (Bool-cases
      (fits_between (get_elem? mapping.regions index) (next_region_start mapping index) region)) [
        | inl e ↦ replace_region-eq-some mapping after index region (rw e at h)
        | inr e ↦ absurd (let h' = rw e at h in cc)
      ]

-- A region in its place that translates an access.
translated-IsMapped :
    (mapping : AlignedMemoryMapping) (region : MemoryRegion) (access_type : AccessType)
    (vm_addr size host : ℕ)
    → get_elem? mapping.regions (region_index vm_addr) ≡ some region
    → vm_to_host region access_type vm_addr size ≡ some host
    → IsMapped mapping access_type vm_addr size host
translated-IsMapped mapping region access_type vm_addr size host at e = record {
  region = region;
  at = at;
  inside = λ small. vm_to_host-IsInside region access_type vm_addr size host small e;
}

replaced-IsMapped :
    (mapping after : AlignedMemoryMapping) (old region : MemoryRegion) (access_type : AccessType)
    (vm_addr size host_addr host : ℕ)
    → vm_to_host region access_type vm_addr size ≡ some host_addr
    → get_elem? mapping.regions (region_index vm_addr) ≡ some old
    → replaced
        (replace_region_checked mapping (region_index vm_addr) region)
        mapping
        (region_index vm_addr)
        host_addr
      ≡ (mapped host, after)
    → IsMapped after access_type vm_addr size host
replaced-IsMapped mapping after old region access_type vm_addr size host_addr host e at h =
    elim (Option-cases (replace_region_checked mapping (region_index vm_addr) region)) [
      | inl fails ↦
          let h' = rw fails at h in
          let wrong : invalid_memory_region (region_index vm_addr) ≡ mapped host =
            ap (λ (p : Mapped × AlignedMemoryMapping). p.0) h' in
          absurd cc
      | inr (next, works) ↦
          let h' = rw works at h in
          let result : mapped host_addr ≡ mapped host =
            ap (λ (p : Mapped × AlignedMemoryMapping). p.0) h' in
          let same : host_addr ≡ host = cc in
          let is_next : next ≡ after = ap (λ (p : Mapped × AlignedMemoryMapping). p.1) h' in
          let is_set =
            replace_region_checked-eq-some mapping next (region_index vm_addr) region works in
          subst (λ (m : AlignedMemoryMapping). IsMapped m access_type vm_addr size host)
            (is_set ∙ is_next)
            (translated-IsMapped _ region access_type vm_addr size host
              (get_elem?-set_self mapping.regions (region_index vm_addr) region
                (index-lt mapping.regions _ old at))
              (e ∙ ap some same))
    ]

retry-IsMapped :
    (o : Option ℕ) (mapping after : AlignedMemoryMapping) (old region : MemoryRegion)
    (access_type : AccessType) (vm_addr size host : ℕ)
    → vm_to_host region access_type vm_addr size ≡ o
    → get_elem? mapping.regions (region_index vm_addr) ≡ some old
    → retry o mapping region access_type vm_addr size ≡ (mapped host, after)
    → IsMapped after access_type vm_addr size host
retry-IsMapped none mapping after old region access_type vm_addr size host e at h =
    let wrong : violated access_type vm_addr size ≡ mapped host =
      ap (λ (p : Mapped × AlignedMemoryMapping). p.0) h in
    absurd cc
retry-IsMapped (some host_addr) mapping after old region access_type vm_addr size host e at h =
    replaced-IsMapped mapping after old region access_type vm_addr size host_addr host e at h

module _ (handler : MemoryRegion → ℕ → AccessType → ℕ → ℕ → MemoryRegion) where
  map_in_region-IsMapped :
      (o : Option ℕ) (mapping after : AlignedMemoryMapping) (region : MemoryRegion)
      (access_type : AccessType) (vm_addr size host : ℕ)
      → vm_to_host region access_type vm_addr size ≡ o
      → get_elem? mapping.regions (region_index vm_addr) ≡ some region
      → map_in_region handler o mapping region access_type vm_addr size ≡ (mapped host, after)
      → IsMapped after access_type vm_addr size host
  unfolding map_in_region
  map_in_region-IsMapped none mapping after region access_type vm_addr size host e at h =
      retry-IsMapped _ mapping after region
        (handled handler mapping region access_type vm_addr size) access_type vm_addr size host refl
        at h
  map_in_region-IsMapped (some host_addr) mapping after region access_type vm_addr size host e at
        h =
      let result : mapped host_addr ≡ mapped host =
        ap (λ (p : Mapped × AlignedMemoryMapping). p.0) h in
      let same : host_addr ≡ host = cc in
      subst (λ (m : AlignedMemoryMapping). IsMapped m access_type vm_addr size host)
        (ap (λ (p : Mapped × AlignedMemoryMapping). p.1) h)
        (translated-IsMapped mapping region access_type vm_addr size host at (e ∙ ap some same))

  -- Whatever region the access violation handler returns: if an access is mapped to a host
  -- address, then in the mapping that is left the region at the place of the address has the
  -- access in its host memory, if that memory ends below 2 ^ 64, and is writable if the access is
  -- a store.
  pub map_with_access_violation_handler-IsMapped :
      (mapping after : AlignedMemoryMapping) (access_type : AccessType) (vm_addr size host : ℕ)
      → map_with_access_violation_handler handler mapping access_type vm_addr size
        ≡ (mapped host, after)
      → IsMapped after access_type vm_addr size host
  unfolding map_with_access_violation_handler map_found
  map_with_access_violation_handler-IsMapped mapping after access_type vm_addr size host h =
      elim (Option-cases (find_region mapping vm_addr)) [
        | inl absent ↦
            let h' = rw absent at h in
            let wrong : violated access_type vm_addr size ≡ mapped host =
              ap (λ (p : Mapped × AlignedMemoryMapping). p.0) h' in
            absurd cc
        | inr (region, found) ↦
            map_in_region-IsMapped _ mapping after region access_type vm_addr size host refl
              (find_region-get_elem? mapping vm_addr region found) (rw found at h)
      ]
