-- ===== src/Tests/Placing.antt =====
-- The initialization of an aligned mapping of two regions, which are given in the wrong order.
use aeneas2isabelle.Prelude.{◌≡◌, ◌≢◌, refl, ap, true, false, some, [], ◌∷◌, arith, ◌↔◌}
use aeneas2isabelle.Memory.{MemoryRegion}
use aeneas2isabelle.Memory.Mapping.{AlignedMemoryMapping, find_region}
use aeneas2isabelle.Memory.Mapping.Initialize.{
  initialized, invalid_region, unfinished, initialize, empty_region,
}
use aeneas2isabelle.Memory.Mapping.Placed.{ArePlaced, AreWords}
use aeneas2isabelle.Memory.Mapping.Found.{initialize-ArePlaced, initialize-find_region}
use aeneas2isabelle.Memory.Mapping.Total.{initialize-ne-unfinished}
use aeneas2isabelle.Memory.Mapping.Apart.{AreApart, apart_nil, apart_cons}
use aeneas2isabelle.Memory.Mapping.Exact.{initialize_iff}
use mathlib.Core.List.Memᴰ.{head, tail}

abbrev third_region : MemoryRegion
third_region = record {
  host_addr = 4096;
  vm_addr = 0x3_0000_0100;
  len = 16;
  vm_gap_shift = 63;
  writable = false;
}

abbrev first_region : MemoryRegion
first_region = record {
  host_addr = 8192;
  vm_addr = 0x1_0000_0000;
  len = 32;
  vm_gap_shift = 63;
  writable = true;
}

abbrev unordered : AlignedMemoryMapping
unordered = record { regions = third_region ∷ first_region ∷ []; allow_memory_region_zero = true }

abbrev ordered : AlignedMemoryMapping
ordered = record {
  regions = empty_region 1 0 ∷ first_region ∷ empty_region 1 0x2_0000_0000 ∷ third_region ∷ [];
  allow_memory_region_zero = true;
}

fills_gaps : initialize 1 unordered ≡ initialized ordered
unfolding initialize
fills_gaps = refl

-- Without the place zero, a gap is refused at the place where it is.
rejects_gap :
    initialize 1 (record unordered { allow_memory_region_zero = false }) ≡ invalid_region 2
unfolding initialize
rejects_gap = refl

-- Two regions in one place.
rejects_twice :
    initialize 1 (record unordered { regions = first_region ∷ first_region ∷ [] })
    ≡ invalid_region 1
unfolding initialize
rejects_twice = refl

unordered-AreWords : AreWords unordered.regions
unordered-AreWords = record {
  small = λ x m. elim m [
    | head e ↦ (let same = ap (λ (r : MemoryRegion). r.vm_addr) e in omega arith)
    | tail (head e) ↦ (let same = ap (λ (r : MemoryRegion). r.vm_addr) e in omega arith)
    | tail (tail none_left) ↦ elim none_left [ ]
  ];
}

unordered-AreApart : AreApart unordered.regions
unordered-AreApart =
    apart_cons
      (λ other m same. elim m [
        | head e ↦ (let addr = ap (λ (r : MemoryRegion). r.vm_addr) e in omega arith)
        | tail none_left ↦ elim none_left [ ]
      ])
      (apart_cons (λ other m. elim m [ ]) apart_nil)

initialize-ArePlaced_example : ArePlaced 0 ordered.regions
initialize-ArePlaced_example =
    initialize-ArePlaced 1 unordered ordered unordered-AreWords fills_gaps

initialize-find_region_example : find_region ordered 0x3_0000_0104 ≡ some third_region
initialize-find_region_example =
    initialize-find_region 1 unordered ordered third_region 0x3_0000_0104 unordered-AreWords
      fills_gaps (head refl) refl refl

initialize-ne-unfinished_example : initialize 1 unordered ≢ unfinished
initialize-ne-unfinished_example = initialize-ne-unfinished 1 unordered

initialize_iff_example :
    ((after : AlignedMemoryMapping) × (initialize 1 unordered ≡ initialized after))
    ↔ AreApart unordered.regions
initialize_iff_example = initialize_iff 1 unordered refl

-- The other direction gives the mapping that the run above has.
unordered_succeeds : (after : AlignedMemoryMapping) × (initialize 1 unordered ≡ initialized after)
unordered_succeeds = (initialize_iff 1 unordered refl).1 unordered-AreApart
