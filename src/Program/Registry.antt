-- ===== src/Program/Registry.antt =====
-- casestudy/sbpf/src/program.rs: `FunctionRegistry`, whose `BTreeMap` is a list of entries in the
-- order of their keys. Values are numbers: an instruction offset, or the number of a built-in
-- function.
pub mod Lookup
use aeneas2isabelle.Prelude.{
  ℕ, Bool, true, false, Option, none, some, List, [], ◌∷◌, ltb, ◌==◌, if◌then◌else◌,
}

pub record Entry (T : Type 0) : Type 0 where
  pub key : ℕ
  pub name : List ℕ
  pub value : T

abbrev pub FunctionRegistry : Type 0 → Type 0
FunctionRegistry T = List (Entry T)

-- `BTreeMap::get`.
unfoldable pub find_entry : {T : Type 0} → FunctionRegistry T → ℕ → Option (Entry T)
find_entry [] key = none
find_entry (e ∷ es) key = let rest = find_entry es key in if e.key == key then some e else rest

-- The name and the value of an entry.
abbrev pub name_and_value : {T : Type 0} → Option (Entry T) → Option (List ℕ × T)
name_and_value none = none
name_and_value (some e) = some (e.name, e.value)

unfoldable pub lookup_by_key : {T : Type 0} → FunctionRegistry T → ℕ → Option (List ℕ × T)
lookup_by_key registry key = name_and_value (find_entry registry key)

-- `BTreeMap::insert` of a key that has no entry.
unfoldable pub insert_entry : {T : Type 0} → Entry T → FunctionRegistry T → FunctionRegistry T
insert_entry e [] = e ∷ []
insert_entry e (f ∷ fs) =
    let rest = insert_entry e fs in if ltb e.key f.key then e ∷ f ∷ fs else f ∷ rest

-- The new registry, or `ElfError::SymbolHashCollision` with the key.
pub data Registration (T : Type 0) : Type 0 where
  registered : FunctionRegistry T → Registration T
  symbol_hash_collision : ℕ → Registration T

-- What becomes of an entry that the key has already.
abbrev pub register_at : Option (Entry ℕ) → Entry ℕ → FunctionRegistry ℕ → Registration ℕ
register_at none e registry = registered (insert_entry e registry)
register_at (some found) e registry =
    if found.value == e.value then registered registry else symbol_hash_collision e.key

unfoldable pub register_function : FunctionRegistry ℕ → ℕ → List ℕ → ℕ → Registration ℕ
unfolding find_entry insert_entry
register_function registry key name value =
    register_at (find_entry registry key) (record { key = key; name = name; value = value })
      registry

-- `BTreeMap::remove`, with the entries that are left and whether there was one.
unfoldable pub remove_entry : {T : Type 0} → FunctionRegistry T → ℕ → FunctionRegistry T × Bool
remove_entry [] key = ([], false)
remove_entry (e ∷ es) key =
    let rest = remove_entry es key in if e.key == key then (es, true) else (e ∷ rest.0, rest.1)

unfoldable pub unregister_function :
    {T : Type 0} → FunctionRegistry T → ℕ → FunctionRegistry T × Bool
unfolding remove_entry
unregister_function = remove_entry

unfoldable pub keys : {T : Type 0} → FunctionRegistry T → List ℕ
keys [] = []
keys (e ∷ es) = e.key ∷ keys es
