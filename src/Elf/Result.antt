-- ===== src/Elf/Result.antt =====
-- casestudy/sbpf/src/elf_parser/mod.rs and lib.rs: the errors of the parser and the operations that
-- fail with them.
pub mod Gives
use aeneas2isabelle.Prelude.{
  ℕ, ◌+◌, ◌-◌, ◌<◌, ◌≡◌, refl, arith, Bool, true, false, Option, none, some, List, ltb, leb,
  if◌then◌else◌,
}
use aeneas2isabelle.Memory.{word_end, checked_add}
use Prim.Native.Nat.{◌*◌}

-- `string_too_long` has the bytes of the string, which the source converts to text for the message.
pub data ElfParserError : Type 0 where
  invalid_file_header invalid_program_header invalid_section_header invalid_string : ElfParserError
  string_too_long : List ℕ → ℕ → ElfParserError
  out_of_bounds invalid_size overlap section_not_in_order : ElfParserError
  no_section_name_string_table invalid_dynamic_section_table : ElfParserError
  invalid_relocation_table invalid_alignment no_string_table : ElfParserError
  no_dynamic_string_table : ElfParserError

-- What a method of the parser returns; `panic` is an index out of range.
pub data Parsed (Value : Type 0) : Type 0 where
  panic : Parsed Value
  err : ElfParserError → Parsed Value
  ok : Value → Parsed Value

-- The operator `?`, with the code behind it.
infixl 5 ◌>>=◌ ◌>>◌
abbrev pub ◌>>=◌ : {V W : Type 0} → Parsed V → (V → Parsed W) → Parsed W
panic >>= next = panic
err why >>= next = err why
ok value >>= next = next value

abbrev pub ◌>>◌ : {W : Type 0} → Parsed (Unit {0}) → Parsed W → Parsed W
checked >> next = checked >>= λ _. next

-- A condition that the parser wants, and the error that it returns where the condition fails.
abbrev pub guard : Bool → ElfParserError → Parsed (Unit {0})
guard false why = err why
guard true why = ok tt

-- `ok_or`, `ok` and `map_err`.
abbrev pub ok_or : {A : Type 0} → Option A → ElfParserError → Parsed A
ok_or none e = err e
ok_or (some a) e = ok a

abbrev pub ok_of : {A : Type 0} → Parsed A → Parsed (Option A)
ok_of (ok a) = ok (some a)
ok_of (err e) = ok none
ok_of panic = panic

abbrev pub map_err : {A : Type 0} → Parsed A → ElfParserError → Parsed A
map_err (ok a) e = ok a
map_err (err _) e = err e
map_err panic e = panic

abbrev pub map_some : {A : Type 0} → Parsed A → Parsed (Option A)
map_some (ok a) = ok (some a)
map_some (err e) = err e
map_some panic = panic

unfoldable pub err_checked_add : ℕ → ℕ → Parsed ℕ
err_checked_add a b = ok_or (checked_add a b) out_of_bounds

unfoldable pub err_checked_sub : ℕ → ℕ → Parsed ℕ
err_checked_sub a b = if leb b a then ok (a - b) else err out_of_bounds

unfoldable pub err_checked_mul : ℕ → ℕ → Parsed ℕ
err_checked_mul a b = if ltb (a * b) word_end then ok (a * b) else err out_of_bounds

-- A chain that succeeds has a first step that does, and goes on with its value.
pub >>=-eq-ok :
    {V W : Type 0} (first : Parsed V) (next : V → Parsed W) {w : W}
    → (first >>= next) ≡ ok w
    → (v : V) × (first ≡ ok v) × (next v ≡ ok w)
>>=-eq-ok panic next e = cc
>>=-eq-ok (err why) next e = cc
>>=-eq-ok (ok v) next e = (v, refl, e)

pub guard-eq-ok :
    (condition : Bool) (why : ElfParserError) {u : Unit {0}}
    → guard condition why ≡ ok u
    → condition ≡ true
guard-eq-ok false why e = cc
guard-eq-ok true why e = refl

pub ok_or-eq-ok :
    {A : Type 0} (found : Option A) (why : ElfParserError) {a : A}
    → ok_or found why ≡ ok a
    → found ≡ some a
ok_or-eq-ok none why e = cc
ok_or-eq-ok (some a) why e = cc

pub err_checked_add-eq-ok :
    (a b : ℕ) {r : ℕ} → err_checked_add a b ≡ ok r → (r ≡ a + b) × (a + b < word_end)
unfolding err_checked_add
err_checked_add-eq-ok a b h = ground arith

pub err_checked_mul-eq-ok : (a b : ℕ) {r : ℕ} → err_checked_mul a b ≡ ok r → r ≡ a * b
unfolding err_checked_mul
err_checked_mul-eq-ok a b h = ground arith

pub err_checked_add-of : (a b : ℕ) → a + b < word_end → err_checked_add a b ≡ ok (a + b)
unfolding err_checked_add
err_checked_add-of a b h = ground arith
