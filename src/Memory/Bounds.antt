-- ===== src/Memory/Bounds.antt =====
-- The translation of addresses stays inside the host memory of a region.
use aeneas2isabelle.Prelude.{
  ℕ, ◌+◌, ◌-◌, ◌≤◌, ◌<◌, ◌≡◌, refl, Bool, true, false, not, ◌&&◌, none, some, ltb, leb, ◌==◌,
  if◌then◌else◌, arith, Bool-cases, inl, inr, ◌↔◌,
}
use aeneas2isabelle.Memory.{
  AccessType, load_access, store_access, MemoryRegion, word_end, saturating_add, is_store_access,
  gapped_offset, offset_to_host, vm_to_host,
}

-- An access of `size` bytes at a host address lies in the memory of a region.
pub record IsInside (region : MemoryRegion) (host size : ℕ) : Type 0 where
  pub starts : region.host_addr ≤ host
  pub ends : host + size ≤ region.host_addr + region.len

offset_to_host-IsInside :
    (region : MemoryRegion) (offset size host : ℕ)
    → region.host_addr + region.len < word_end
    → offset_to_host region offset size ≡ some host
    → IsInside region host size
unfolding offset_to_host
offset_to_host-IsInside region offset size host small h =
    elim (Bool-cases (ltb (offset + size) word_end)) [
      | inl fits ↦ elim (Bool-cases (leb (offset + size) region.len)) [
        | inl inside ↦
            let h' = rw (fits, inside) at h in
            let is_host : saturating_add region.host_addr offset ≡ host = cc in
            record { starts = ground arith; ends = ground arith }
        | inr outside ↦ absurd (let h' = rw (fits, outside) at h in cc)
      ]
      | inr wraps ↦ absurd (let h' = rw wraps at h in cc)
    ]

in_range :
    (region : MemoryRegion) (offset size host : ℕ) (flat gap : Bool)
    → region.host_addr + region.len < word_end
    → (if flat
        then offset_to_host region offset size
        else if gap
        then none
        else offset_to_host region (gapped_offset region offset) size)
      ≡ some host
    → IsInside region host size
in_range region offset size host true gap small h =
    offset_to_host-IsInside region offset size host small h
in_range region offset size host false true small h = cc
in_range region offset size host false false small h =
    offset_to_host-IsInside region (gapped_offset region offset) size host small h

writes :
    (access_type : AccessType) (writable : Bool)
    → (is_store_access access_type && not writable) ≡ false
    → access_type ≡ store_access
    → writable ≡ true
writes load_access writable h e = cc
writes store_access true h e = refl
writes store_access false h e = cc

-- The address that a region translates to, and the access of that size from there on, lie in the
-- host memory of the region, if that ends below 2 ^ 64; and a store is translated only if the
-- region is writable.
pub vm_to_host-IsInside :
    (region : MemoryRegion) (access_type : AccessType) (vm_addr size host : ℕ)
    → region.host_addr + region.len < word_end
    → vm_to_host region access_type vm_addr size ≡ some host
    → IsInside region host size × (access_type ≡ store_access → region.writable ≡ true)
unfolding vm_to_host
vm_to_host-IsInside region access_type vm_addr size host small h =
    elim (Bool-cases (is_store_access access_type && not region.writable)) [
      | inl denied ↦ absurd (let h' = rw denied at h in cc)
      | inr allowed ↦ elim (Bool-cases (ltb vm_addr region.vm_addr)) [
        | inl before ↦ absurd (let h' = rw (allowed, before) at h in cc)
        | inr after ↦ (
          in_range region _ size host _ _ small (rw (allowed, after) at h),
          λ e. writes access_type region.writable allowed e,
        )
      ]
    ]

offset_to_host_iff :
    (region : MemoryRegion) (offset size host : ℕ)
    → region.host_addr + region.len < word_end
    → (offset_to_host region offset size ≡ some host)
      ↔ ((offset + size ≤ region.len) × (host ≡ region.host_addr + offset))
unfolding offset_to_host
offset_to_host_iff region offset size host small =
    elim (Bool-cases (ltb (offset + size) word_end)) [
      | inl fits ↦ elim (Bool-cases (leb (offset + size) region.len)) [
        | inl inside ↦ rw (fits, inside) (ground arith)
        | inr outside ↦ rw (fits, outside) (ground arith)
      ]
      | inr wraps ↦ rw wraps (ground arith)
    ]

may_access :
    (access_type : AccessType) (writable : Bool)
    → (access_type ≡ store_access → writable ≡ true)
    → (is_store_access access_type && not writable) ≡ false
may_access load_access writable h = refl
may_access store_access true h = refl
may_access store_access false h = absurd (let e = h refl in cc)

-- In a region without gaps, an access is translated exactly if it is allowed and lies in the
-- region, and then to the host address at the same distance from the start.
pub vm_to_host_iff :
    (region : MemoryRegion) (access_type : AccessType) (vm_addr size host : ℕ)
    → region.vm_gap_shift ≡ 63
    → region.host_addr + region.len < word_end
    → (vm_to_host region access_type vm_addr size ≡ some host) ↔ (
        (access_type ≡ store_access → region.writable ≡ true)
        × (region.vm_addr ≤ vm_addr)
        × (vm_addr + size ≤ region.vm_addr + region.len)
        × (host ≡ region.host_addr + (vm_addr - region.vm_addr)))
unfolding vm_to_host
vm_to_host_iff region access_type vm_addr size host flat small =
    let (there, back) = offset_to_host_iff region (vm_addr - region.vm_addr) size host small in
    let contiguous : (region.vm_gap_shift == 63) ≡ true = ground arith in
    (
      λ h. elim (Bool-cases (is_store_access access_type && not region.writable)) [
        | inl denied ↦ absurd (let h' = rw denied at h in cc)
        | inr allowed ↦ elim (Bool-cases (ltb vm_addr region.vm_addr)) [
          | inl before ↦ absurd (let h' = rw (allowed, before) at h in cc)
          | inr after ↦
              let (fits, is_host) = there (rw (allowed, after, contiguous) at h) in
              (
                λ e. writes access_type region.writable allowed e,
                ground arith,
                ground arith,
                is_host,
              )
        ]
      ],
      λ (may, starts, ends, is_host).
          let allowed = may_access access_type region.writable may in
          let after : ltb vm_addr region.vm_addr ≡ false = ground arith in
          rw (allowed, after, contiguous) (back (omega arith, is_host)),
    )
