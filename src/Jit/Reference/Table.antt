-- ===== src/Jit/Reference/Table.antt =====
-- The PC table of the compiler while the program is compiled, and the layouts that agree with it.
use aeneas2isabelle.Prelude.{
  ℕ, zero, suc, ◌+◌, ◌≡◌, refl, ap, Option, none, some, List, [], ◌∷◌, ◌++◌, arith, length,
  get_elem?, set, replicate,
}
use aeneas2isabelle.Jit.Result.{Result, ok}
use aeneas2isabelle.Jit.Reference.{Selected, starts}
use aeneas2isabelle.Jit.Reference.Layout.{starts-snoc}

-- The PC table once some instructions have a start and `m` have none.
abbrev pub table : List ℕ → ℕ → List (Option ℕ)
table [] m = replicate m none
table (d ∷ ds) m = some d ∷ table ds m

get_elem?-replicate-none :
    (m t d : ℕ) → get_elem? (replicate {A = Option ℕ} m none) t ≡ some (some d) → ⊥
get_elem?-replicate-none zero t d h = cc
get_elem?-replicate-none (suc m) zero d h = ground arith
get_elem?-replicate-none (suc m) (suc t) d h = get_elem?-replicate-none m t d h

pub get_elem?-table :
    (ds : List ℕ) (m t d : ℕ) → get_elem? (table ds m) t ≡ some (some d) → get_elem? ds t ≡ some d
get_elem?-table [] m t d h = absurd (get_elem?-replicate-none m t d h)
get_elem?-table (e ∷ ds) m zero d h = ground arith
get_elem?-table (e ∷ ds) m (suc t) d h = get_elem?-table ds m t d h

pub set-table :
    (ds : List ℕ) (m v : ℕ) → set (table ds (suc m)) (length ds) (some v) ≡ table (ds ++ v ∷ []) m
set-table [] m v = refl
set-table (e ∷ ds) m v = ap (λ t. some e ∷ t) (set-table ds m v)

pub length-table : (ds : List ℕ) (m : ℕ) → length (table ds m) ≡ length ds + m
length-table [] zero = omega arith
length-table [] (suc m) = omega (arith, length-table [] m)
length-table (d ∷ ds) m = omega (arith, length-table ds m)

-- A layout that gives every known start.
abbrev pub Agrees : (ℕ → Result ℕ) → List ℕ → Type 0
Agrees layout ds = (t d : ℕ) → get_elem? ds t ≡ some d → layout t ≡ ok d

pub get_elem?-append_left :
    (ds es : List ℕ) (t d : ℕ) → get_elem? ds t ≡ some d → get_elem? (ds ++ es) t ≡ some d
get_elem?-append_left [] es t d h = cc
get_elem?-append_left (e ∷ ds) es zero d h = h
get_elem?-append_left (e ∷ ds) es (suc t) d h = get_elem?-append_left ds es t d h

pub Agrees-init :
    (layout : ℕ → Result ℕ) (xs : List Selected) (x : Selected)
    → Agrees layout (starts 0 (xs ++ x ∷ []))
    → Agrees layout (starts 0 xs)
Agrees-init layout xs x h t d e =
    h t d (rw (starts-snoc 0 xs x) (get_elem?-append_left (starts 0 xs) _ t d e))
