-- ===== src/Memory/Cache/View.antt =====
-- The cache is a list of the last four entries, newest first.
use aeneas2isabelle.Prelude.{
  ℕ, zero, suc, ◌≡◌, refl, subst, ◌∙◌, take-take, Option, none, some, List, [], ◌∷◌, ◌++◌, take,
  if◌then◌else◌, arith, replicate,
}
use aeneas2isabelle.Memory.Cache.{
  CacheEntry, contains, MappingCache, empty_entry, new, find, insert, flush,
}

-- What a cache promises: the first of the entries that contains an address.
unfoldable pub lookup : List CacheEntry → ℕ → Option ℕ
lookup [] vm_addr = none
lookup (entry ∷ entries) vm_addr =
    let rest = lookup entries vm_addr in if contains entry vm_addr then some entry.index else rest

-- The last entries, newest first, are those from the head on, around the end of the array.
pub data Represents : MappingCache → List CacheEntry → Type 0 where
  at_0 :
      (a b c d : CacheEntry)
      → Represents (record { entries = a ∷ b ∷ c ∷ d ∷ []; head = 0 }) (a ∷ b ∷ c ∷ d ∷ [])
  at_1 :
      (a b c d : CacheEntry)
      → Represents (record { entries = a ∷ b ∷ c ∷ d ∷ []; head = 1 }) (b ∷ c ∷ d ∷ a ∷ [])
  at_2 :
      (a b c d : CacheEntry)
      → Represents (record { entries = a ∷ b ∷ c ∷ d ∷ []; head = 2 }) (c ∷ d ∷ a ∷ b ∷ [])
  at_3 :
      (a b c d : CacheEntry)
      → Represents (record { entries = a ∷ b ∷ c ∷ d ∷ []; head = 3 }) (d ∷ a ∷ b ∷ c ∷ [])

find-lookup :
    {cache : MappingCache} {view : List CacheEntry} (vm_addr : ℕ)
    → Represents cache view
    → find cache vm_addr ≡ lookup view vm_addr
unfolding find lookup
find-lookup vm_addr (at_0 a b c d) = refl
find-lookup vm_addr (at_1 a b c d) = refl
find-lookup vm_addr (at_2 a b c d) = refl
find-lookup vm_addr (at_3 a b c d) = refl

insert-Represents :
    {cache : MappingCache} {view : List CacheEntry} (entry : CacheEntry)
    → Represents cache view
    → Represents (insert cache entry) (entry ∷ take 3 view)
unfolding insert
insert-Represents entry (at_0 a b c d) = at_3 a b c entry
insert-Represents entry (at_1 a b c d) = at_0 entry b c d
insert-Represents entry (at_2 a b c d) = at_1 a entry c d
insert-Represents entry (at_3 a b c d) = at_2 a b entry d

-- The operations that change a cache, the last one first.
pub data Operation : Type 0 where
  inserted : CacheEntry → Operation
  flushed : Operation

unfoldable pub run : List Operation → MappingCache
unfolding insert
run [] = new
run (inserted entry ∷ operations) = insert (run operations) entry
run (flushed ∷ operations) = flush (run operations)

-- The entries since the last flush, newest first.
unfoldable pub recent : List Operation → List CacheEntry
recent [] = []
recent (inserted entry ∷ operations) = entry ∷ recent operations
recent (flushed ∷ operations) = []

run-Represents :
    (operations : List Operation)
    → Represents (run operations) (take 4 (recent operations ++ replicate 4 empty_entry))
unfolding run recent
run-Represents [] = at_0 empty_entry empty_entry empty_entry empty_entry
run-Represents (inserted entry ∷ operations) =
    subst (λ (view : List CacheEntry). Represents (insert (run operations) entry) (entry ∷ view))
      (take-take 3 4 (recent operations ++ replicate 4 empty_entry) (omega arith))
      (insert-Represents entry (run-Represents operations))
run-Represents (flushed ∷ operations) = at_0 empty_entry empty_entry empty_entry empty_entry

lookup-empty : (n m : ℕ) (vm_addr : ℕ) → lookup (take n (replicate m empty_entry)) vm_addr ≡ none
unfolding lookup
lookup-empty zero m vm_addr = refl
lookup-empty (suc n) zero vm_addr = refl
lookup-empty (suc n) (suc m) vm_addr = let rest = lookup-empty n m vm_addr in ground (arith, rest)

lookup-filled :
    (n m : ℕ) (entries : List CacheEntry) (vm_addr : ℕ)
    → lookup (take n (entries ++ replicate m empty_entry)) vm_addr ≡ lookup (take n entries) vm_addr
unfolding lookup
lookup-filled zero m entries vm_addr = refl
lookup-filled (suc n) m [] vm_addr = lookup-empty (suc n) m vm_addr
lookup-filled (suc n) m (entry ∷ entries) vm_addr = rw (lookup-filled n m entries vm_addr) refl

-- After any insertions and flushes of a new cache, an address is found exactly as in the list of the
-- last four entries since the last flush, newest first.
pub find-run :
    (operations : List Operation) (vm_addr : ℕ)
    → find (run operations) vm_addr ≡ lookup (take 4 (recent operations)) vm_addr
find-run operations vm_addr =
    find-lookup vm_addr (run-Represents operations) ∙ lookup-filled 4 4 (recent operations) vm_addr
