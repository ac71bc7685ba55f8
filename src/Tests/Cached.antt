-- ===== src/Tests/Cached.antt =====
-- Look-ups in the cache of an unaligned mapping, with more insertions than it has entries.
use aeneas2isabelle.Prelude.{ℕ, ◌≡◌, refl, none, some, List, [], ◌∷◌, take}
use aeneas2isabelle.Memory.Cache.{find}
use aeneas2isabelle.Memory.Cache.View.{Operation, inserted, flushed, run, recent, lookup, find-run}

abbrev looked_up_at : ℕ → ℕ → ℕ → Operation
looked_up_at start end index = inserted (record { start = start; end = end; index = index })

abbrev looked_up : List Operation
looked_up =
    looked_up_at 100 200 4
    ∷ looked_up_at 80 96 3
    ∷ looked_up_at 16 40 1
    ∷ looked_up_at 64 80 2
    ∷ looked_up_at 0 16 0
    ∷ flushed
    ∷ looked_up_at 80 96 3
    ∷ []

finds_recent : find (run looked_up) 70 ≡ some 2
unfolding find run
finds_recent = refl

forgets_oldest : find (run looked_up) 8 ≡ none
unfolding find run
forgets_oldest = refl

find-run_example : find (run looked_up) 70 ≡ lookup (take 4 (recent looked_up)) 70
find-run_example = find-run looked_up 70
