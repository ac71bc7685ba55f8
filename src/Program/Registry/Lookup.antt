-- ===== src/Program/Registry/Lookup.antt =====
-- What a function registry finds after a registration.
use aeneas2isabelle.Prelude.{
  ℕ, ◌≡◌, ◌≢◌, refl, false, none, some, List, [], ◌∷◌, ltb, ◌==◌, arith, Bool-cases, Option-cases,
  inl, inr, ==_refl,
}
use aeneas2isabelle.Program.Registry.{
  Entry, FunctionRegistry, find_entry, insert_entry, lookup_by_key, registered, register_function,
}

find_entry-insert_entry_self :
    {T : Type 0} (e : Entry T) (registry : FunctionRegistry T)
    → find_entry registry e.key ≡ none
    → find_entry (insert_entry e registry) e.key ≡ some e
unfolding find_entry insert_entry
find_entry-insert_entry_self e [] h = rw (==_refl e.key) refl
find_entry-insert_entry_self e (f ∷ fs) h = elim (Bool-cases (f.key == e.key)) [
  | inl same ↦ (let h' = rw same at h in cc)
  | inr other ↦ elim (Bool-cases (ltb e.key f.key)) [
    | inl before ↦ rw (before, ==_refl e.key) refl
    | inr after ↦ rw (after, other) (find_entry-insert_entry_self e fs (rw other at h))
  ]
]

find_entry-insert_entry_ne :
    {T : Type 0} (e : Entry T) (registry : FunctionRegistry T) (key : ℕ)
    → (e.key == key) ≡ false
    → find_entry (insert_entry e registry) key ≡ find_entry registry key
unfolding find_entry insert_entry
find_entry-insert_entry_ne e [] key h = rw h refl
find_entry-insert_entry_ne e (f ∷ fs) key h = elim (Bool-cases (ltb e.key f.key)) [
  | inl before ↦ rw (before, h) refl
  | inr after ↦ rw (after, find_entry-insert_entry_ne e fs key h) refl
]

-- After a registration of a function under a key, a lookup of that key finds the value, and every
-- other key is found as before.
pub register_function-lookup_by_key :
    (registry after : FunctionRegistry ℕ) (key value : ℕ) (name : List ℕ)
    → register_function registry key name value ≡ registered after
    → ((found : List ℕ) × (lookup_by_key after key ≡ some (found, value)))
      × ((other : ℕ) → other ≢ key → lookup_by_key after other ≡ lookup_by_key registry other)
unfolding register_function lookup_by_key
register_function-lookup_by_key registry after key value name h =
    let e : Entry ℕ = record { key = key; name = name; value = value } in
    elim (Option-cases (find_entry registry key)) [
      | inl vacant ↦
          let h' = rw vacant at h in
          let is_after : insert_entry e registry ≡ after = cc in
          rw⁻¹ is_after (
            (name, rw (find_entry-insert_entry_self e registry vacant) refl),
            λ other ne. rw (find_entry-insert_entry_ne e registry other (ground arith)) refl,
          )
      | inr (found, occupied) ↦ elim (Bool-cases (found.value == value)) [
        | inl same ↦
            let h' = rw (occupied, same) at h in
            let is_after : registry ≡ after = cc in
            let is_value : found.value ≡ value = ground arith in
            rw⁻¹ is_after ((found.name, rw (occupied, is_value) refl), λ other ne. refl)
        | inr differs ↦ absurd (let h' = rw (occupied, differs) at h in cc)
      ]
    ]
