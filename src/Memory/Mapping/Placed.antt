-- ===== src/Memory/Mapping/Placed.antt =====
-- Initialization of an aligned mapping puts every region at the place of its addresses.
use aeneas2isabelle.Prelude.{
  ℕ, zero, suc, ◌+◌, ◌^◌, ◌<◌, ◌≡◌, refl, ap, subst, not, some, List, [], ◌∷◌, ltb, ◌==◌, get_elem?,
  arith, Bool-cases, inl, inr,
}
use aeneas2isabelle.Memory.{MemoryRegion, word_end, saturating_mul}
use aeneas2isabelle.Memory.Mapping.{region_index}
use aeneas2isabelle.Memory.Mapping.Initialize.{
  Placed, placed, misplaced, out_of_fuel, precedes, insert_sorted, sort, keep, empty_region,
  fill_gaps, check_places,
}
use mathlib.Core.List.{Memᴰ}
use mathlib.Core.List.Memᴰ.{head, tail}

pub insert_sorted-Memᴰ :
    (x y : MemoryRegion) (regions : List MemoryRegion)
    → Memᴰ x (y ∷ regions)
    → Memᴰ x (insert_sorted y regions)
unfolding insert_sorted
insert_sorted-Memᴰ x y [] m = m
insert_sorted-Memᴰ x y (z ∷ regions) m = elim (Bool-cases (precedes y z)) [
  | inl e ↦ rw e m
  | inr e ↦ rw e (elim m [
    | head same ↦ tail (insert_sorted-Memᴰ x y regions (head same))
    | tail (head same) ↦ head same
    | tail (tail m') ↦ tail (insert_sorted-Memᴰ x y regions (tail m'))
  ])
]

pub sort-Memᴰ :
    (x : MemoryRegion) (regions : List MemoryRegion) → Memᴰ x regions → Memᴰ x (sort regions)
unfolding sort
sort-Memᴰ x [] m = elim m [ ]
sort-Memᴰ x (y ∷ regions) (head same) = insert_sorted-Memᴰ x y (sort regions) (head same)
sort-Memᴰ x (y ∷ regions) (tail m) =
    insert_sorted-Memᴰ x y (sort regions) (tail (sort-Memᴰ x regions m))

Memᴰ-insert_sorted :
    (x y : MemoryRegion) (regions : List MemoryRegion)
    → Memᴰ x (insert_sorted y regions)
    → Memᴰ x (y ∷ regions)
unfolding insert_sorted
Memᴰ-insert_sorted x y [] m = m
Memᴰ-insert_sorted x y (z ∷ regions) m = elim (Bool-cases (precedes y z)) [
  | inl e ↦ rw e at m
  | inr e ↦
      (let m' : Memᴰ x (z ∷ insert_sorted y regions) = rw e at m in
        elim m' [
          | head same ↦ tail (head same)
          | tail m'' ↦ elim (Memᴰ-insert_sorted x y regions m'') [
            | head same ↦ head same
            | tail k ↦ tail (tail k)
          ]
        ])
]

pub Memᴰ-sort :
    (x : MemoryRegion) (regions : List MemoryRegion) → Memᴰ x (sort regions) → Memᴰ x regions
unfolding sort
Memᴰ-sort x [] m = elim m [ ]
Memᴰ-sort x (y ∷ regions) m = elim (Memᴰ-insert_sorted x y (sort regions) m) [
  | head same ↦ head same
  | tail m' ↦ tail (Memᴰ-sort x regions m')
]

-- Every region is at the distance of its addresses from the first place.
pub record ArePlaced (first : ℕ) (regions : List MemoryRegion) : Type 0 where
  pub at :
      (i : ℕ) (region : MemoryRegion)
      → get_elem? regions i ≡ some region
      → region_index region.vm_addr ≡ first + i

cons_at :
    (first : ℕ) (region : MemoryRegion) (regions : List MemoryRegion)
    → region_index region.vm_addr ≡ first
    → ArePlaced (first + 1) regions
    → (i : ℕ) (r : MemoryRegion) → get_elem? (region ∷ regions) i ≡ some r
    → region_index r.vm_addr ≡ first + i
cons_at first region regions e rest zero r h =
    let same : region ≡ r = cc in
    let same_index = ap (λ (q : MemoryRegion). region_index q.vm_addr) same in omega arith
cons_at first region regions e rest (suc i) r h = let later = rest.at i r h in omega arith

-- What a loop that ends with regions has done: all regions are in their places, and none is lost.
pub record IsPlacing (first : ℕ) (regions out : List MemoryRegion) : Type 0 where
  pub are_placed : ArePlaced first out
  pub kept : (x : MemoryRegion) → Memᴰ x regions → Memᴰ x out

pub keep-eq-placed :
    (region : MemoryRegion) (rest : Placed) (out : List MemoryRegion)
    → keep region rest ≡ placed out
    → (after : List MemoryRegion) × (rest ≡ placed after) × (region ∷ after ≡ out)
keep-eq-placed region (placed after) out h = (after, refl, cc)
keep-eq-placed region (misplaced index) out h = cc
keep-eq-placed region out_of_fuel out h = cc

kept_region :
    (first : ℕ) (region : MemoryRegion) (regions out : List MemoryRegion)
    → region_index region.vm_addr ≡ first
    → IsPlacing (first + 1) regions out
    → IsPlacing first (region ∷ regions) (region ∷ out)
kept_region first region regions out e rest = record {
  are_placed = record { at = cons_at first region out e rest.are_placed };
  kept = λ x m. elim m [ head same ↦ head same | tail m' ↦ tail (rest.kept x m') ];
}

none_placed : (first : ℕ) → IsPlacing first [] []
none_placed first = record { are_placed = record { at = λ i r h. cc }; kept = λ x m. m }

empty_out : {out : List MemoryRegion} → placed [] ≡ placed out → [] ≡ out
empty_out h = cc

pub check_places-IsPlacing :
    (first : ℕ) (regions out : List MemoryRegion)
    → check_places first regions ≡ placed out
    → IsPlacing first regions out
unfolding check_places
check_places-IsPlacing first [] out h = subst (IsPlacing first []) (empty_out h) (none_placed first)
check_places-IsPlacing first (region ∷ regions) out h =
    elim (Bool-cases (not (region_index region.vm_addr == first))) [
      | inl e ↦ absurd (let h' = rw e at h in cc)
      | inr e ↦
          let (after, there, same) = keep-eq-placed region _ out (rw e at h) in
          subst (IsPlacing first (region ∷ regions)) same (
            kept_region first region regions after (ground arith)
              (check_places-IsPlacing (first + 1) regions after there))
    ]

-- The region that is put in for an index at which a later region leaves a gap.
empty_region-region_index :
    (host_addr index : ℕ) (later : MemoryRegion)
    → later.vm_addr < word_end
    → index < region_index later.vm_addr
    → region_index (empty_region host_addr (saturating_mul index (2 ^ 32))).vm_addr ≡ index
empty_region-region_index host_addr index later small gap = omega arith

-- The addresses of the regions are machine words.
pub record AreWords (regions : List MemoryRegion) : Type 0 where
  pub small : (x : MemoryRegion) → Memᴰ x regions → x.vm_addr < word_end

gap_filled :
    (host_addr first : ℕ) (region : MemoryRegion) (regions out : List MemoryRegion)
    → region.vm_addr < word_end
    → first < region_index region.vm_addr
    → IsPlacing (first + 1) (region ∷ regions) out
    → IsPlacing first
        (region ∷ regions)
        (empty_region host_addr (saturating_mul first (2 ^ 32)) ∷ out)
gap_filled host_addr first region regions out small gap rest = record {
  are_placed = record {
    at =
        cons_at first _ out (empty_region-region_index host_addr first region small gap)
          (rest.are_placed);
  };
  kept = λ x m. tail (rest.kept x m);
}

pub fill_gaps-IsPlacing :
    (host_addr fuel first : ℕ) (regions out : List MemoryRegion)
    → AreWords regions
    → fill_gaps host_addr fuel first regions ≡ placed out
    → IsPlacing first regions out
unfolding fill_gaps
fill_gaps-IsPlacing host_addr fuel first [] out words h =
    subst (IsPlacing first []) (empty_out h) (none_placed first)
fill_gaps-IsPlacing host_addr zero first (region ∷ regions) out words h = cc
fill_gaps-IsPlacing host_addr (suc fuel) first (region ∷ regions) out words h =
    elim (Bool-cases (ltb first (region_index region.vm_addr))) [
      | inl gap ↦
          let (after, there, same) = keep-eq-placed _ _ out (rw gap at h) in
          subst (IsPlacing first (region ∷ regions)) same (
            gap_filled host_addr first region regions after (words.small region (head refl))
              (ground arith)
              (fill_gaps-IsPlacing host_addr fuel (first + 1) (region ∷ regions) after words there))
      | inr dense ↦ elim (Bool-cases (ltb (region_index region.vm_addr) first)) [
        | inl before ↦ absurd (let h' = rw (dense, before) at h in cc)
        | inr here ↦
            let (after, there, same) = keep-eq-placed region _ out (rw (dense, here) at h) in
            subst (IsPlacing first (region ∷ regions)) same (
              kept_region first region regions after (ground arith) (
                fill_gaps-IsPlacing host_addr fuel (first + 1) regions after
                  (record { small = λ x m. words.small x (tail m) }) there))
      ]
    ]
