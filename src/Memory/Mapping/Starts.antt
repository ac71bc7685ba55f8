-- ===== src/Memory/Mapping/Starts.antt =====
-- Whatever the access violation handler does, the regions stay where they start.
use aeneas2isabelle.Prelude.{
  ℕ, zero, suc, ◌≡◌, refl, ap, sym, true, ◌∙◌, Option, none, some, List, [], ◌∷◌, map, get_elem?,
  set, Bool-cases, inl, inr, arith,
}
use aeneas2isabelle.Memory.{AccessType, MemoryRegion}
use aeneas2isabelle.Memory.Mapping.{
  AlignedMemoryMapping, region_index, find_region, replace_region_checked, fits_between,
  next_region_start, retry, replaced, handled, map_in_region, map_found,
  map_with_access_violation_handler,
}
use aeneas2isabelle.Memory.Mapping.Inside.{replace_region_checked-eq-some}

-- The addresses at which the regions of a mapping start, in their order.
abbrev pub starts : AlignedMemoryMapping → List ℕ
starts mapping = map (λ (region : MemoryRegion). region.vm_addr) mapping.regions

set-starts :
    (regions : List MemoryRegion) (index : ℕ) (old region : MemoryRegion)
    → get_elem? regions index ≡ some old
    → old.vm_addr ≡ region.vm_addr
    → map (λ (r : MemoryRegion). r.vm_addr) (set regions index region)
      ≡ map (λ (r : MemoryRegion). r.vm_addr) regions
set-starts [] index old region at same = refl
set-starts (r ∷ regions) zero old region at same =
    let is_old : r ≡ old = cc in
    ap (λ (a : ℕ). a ∷ map (λ (r : MemoryRegion). r.vm_addr) regions)
      (sym (ap (λ (r : MemoryRegion). r.vm_addr) is_old ∙ same))
set-starts (r ∷ regions) (suc index) old region at same =
    ap (λ (rest : List ℕ). r.vm_addr ∷ rest) (set-starts regions index old region at same)

fits_between-start :
    (o : Option MemoryRegion) (next_start : ℕ) (region : MemoryRegion)
    → fits_between o next_start region ≡ true
    → (old : MemoryRegion) × (o ≡ some old) × (old.vm_addr ≡ region.vm_addr)
fits_between-start none next_start region h = cc
fits_between-start (some old) next_start region h = (old, refl, ground arith)

replace_region_checked-starts :
    (mapping after : AlignedMemoryMapping) (index : ℕ) (region : MemoryRegion)
    → replace_region_checked mapping index region ≡ some after
    → starts after ≡ starts mapping
unfolding replace_region_checked
replace_region_checked-starts mapping after index region h =
    elim (Bool-cases
      (fits_between (get_elem? mapping.regions index) (next_region_start mapping index) region)) [
        | inl e ↦
            let (old, at, same) = fits_between-start _ _ region e in
            ap (λ (m : AlignedMemoryMapping). starts m)
              (sym (replace_region_checked-eq-some mapping after index region h))
            ∙ set-starts mapping.regions index old region at same
        | inr e ↦ absurd (let h' = rw e at h in cc)
      ]

replaced-starts :
    (o : Option AlignedMemoryMapping) (mapping : AlignedMemoryMapping) (index host_addr : ℕ)
    → ((after : AlignedMemoryMapping) → o ≡ some after → starts after ≡ starts mapping)
    → starts (replaced o mapping index host_addr).1 ≡ starts mapping
replaced-starts none mapping index host_addr h = refl
replaced-starts (some after) mapping index host_addr h = h after refl

retry-starts :
    (o : Option ℕ) (mapping : AlignedMemoryMapping) (region : MemoryRegion)
    (access_type : AccessType) (vm_addr size : ℕ)
    → starts (retry o mapping region access_type vm_addr size).1 ≡ starts mapping
retry-starts none mapping region access_type vm_addr size = refl
retry-starts (some host_addr) mapping region access_type vm_addr size =
    replaced-starts _ mapping (region_index vm_addr) host_addr
      λ after. replace_region_checked-starts mapping after (region_index vm_addr) region

module _ (handler : MemoryRegion → ℕ → AccessType → ℕ → ℕ → MemoryRegion) where
  map_in_region-starts :
      (o : Option ℕ) (mapping : AlignedMemoryMapping) (region : MemoryRegion)
      (access_type : AccessType) (vm_addr size : ℕ)
      → starts (map_in_region handler o mapping region access_type vm_addr size).1 ≡ starts mapping
  unfolding map_in_region
  map_in_region-starts none mapping region access_type vm_addr size =
      retry-starts _ mapping (handled handler mapping region access_type vm_addr size) access_type
        vm_addr size
  map_in_region-starts (some host_addr) mapping region access_type vm_addr size = refl

  map_found-starts :
      (o : Option MemoryRegion) (mapping : AlignedMemoryMapping) (access_type : AccessType)
      (vm_addr size : ℕ)
      → starts (map_found handler o mapping access_type vm_addr size).1 ≡ starts mapping
  unfolding map_found
  map_found-starts none mapping access_type vm_addr size = refl
  map_found-starts (some region) mapping access_type vm_addr size =
      map_in_region-starts _ mapping region access_type vm_addr size

  -- Whatever region the access violation handler returns, and whatever comes of the access, the
  -- regions of the mapping start where they started before.
  pub map_with_access_violation_handler-starts :
      (mapping : AlignedMemoryMapping) (access_type : AccessType) (vm_addr size : ℕ)
      → starts (map_with_access_violation_handler handler mapping access_type vm_addr size).1
        ≡ starts mapping
  unfolding map_with_access_violation_handler
  map_with_access_violation_handler-starts mapping access_type vm_addr size =
      map_found-starts (find_region mapping vm_addr) mapping access_type vm_addr size
