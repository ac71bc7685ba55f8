-- ===== src/Memory/Cache.antt =====
-- casestudy/sbpf/src/memory_region.rs: `MappingCache`, the last ranges of addresses that were
-- looked up in an unaligned mapping. A range is its start and its end.
pub mod View
use aeneas2isabelle.Prelude.{
  ℕ, zero, suc, ◌+◌, ◌-◌, ◌*◌, ◌%◌, Bool, ◌&&◌, Option, none, some, List, ltb, leb, if◌then◌else◌,
  get_elem?, set, replicate,
}
use aeneas2isabelle.Memory.{word_end}

pub record CacheEntry : Type 0 where
  pub start : ℕ
  pub end : ℕ
  pub index : ℕ

abbrev pub contains : CacheEntry → ℕ → Bool
contains entry vm_addr = leb entry.start vm_addr && ltb vm_addr entry.end

abbrev pub cache_size : ℕ
cache_size = 4

pub record MappingCache : Type 0 where
  pub entries : List CacheEntry
  pub head : ℕ

-- An entry that no address is in.
abbrev pub empty_entry : CacheEntry
empty_entry = record { start = 0; end = 0; index = 0 }

abbrev pub new : MappingCache
new = record { entries = replicate cache_size empty_entry; head = 0 }

abbrev pub get_entry : List CacheEntry → ℕ → CacheEntry
get_entry entries index = elim (get_elem? entries index) [ none ↦ empty_entry | some entry ↦ entry ]

-- The loop of `find`, with the steps that are left.
unfoldable pub find_from : MappingCache → ℕ → ℕ → ℕ → Option ℕ
find_from cache vm_addr i zero = none
find_from cache vm_addr i (suc steps) =
    let entry = get_entry cache.entries ((cache.head + i) % word_end % cache_size) in
    let rest = find_from cache vm_addr (i + 1) steps in
    if contains entry vm_addr then some entry.index else rest

unfoldable pub find : MappingCache → ℕ → Option ℕ
unfolding find_from
find cache vm_addr = find_from cache vm_addr 0 cache_size

-- The head moves back by one, from zero by way of the largest word.
abbrev pub head_before : ℕ → ℕ
head_before head = (head + (word_end - 1)) % word_end % cache_size

unfoldable pub insert : MappingCache → CacheEntry → MappingCache
insert cache entry = record {
  entries = set cache.entries (head_before cache.head) entry;
  head = head_before cache.head;
}

abbrev pub flush : MappingCache → MappingCache
flush cache = record { entries = replicate cache_size empty_entry; head = 0 }
