-- ===== src/Elf/Result/Gives.antt =====
-- Operations that do not panic, with what holds of their result.
use aeneas2isabelle.Prelude.{
  ℕ, ◌≡◌, ◌≢◌, Bool, true, false, Option, none, some, subst, if◌then◌else◌, leb, ltb, inl, inr,
  Bool-cases, ◌*◌,
}
use aeneas2isabelle.Memory.{word_end}
use aeneas2isabelle.Elf.Result.{
  ElfParserError, Parsed, ok, err, panic, ◌>>=◌, guard, ok_or, ok_of, map_err, map_some,
  err_checked_add, err_checked_sub, err_checked_mul, out_of_bounds,
}

pub data Gives {A : Type 0} (P : A → Type 0) : Parsed A → Type 0 where
  gives : {a : A} → P a → Gives P (ok a)
  fails : {e : ElfParserError} → Gives P (err e)

abbrev pub Total : {A : Type 0} → Parsed A → Type 0
Total = Gives (λ _. Unit)

pub >>=-Gives :
    {A B : Type 0} {P : A → Type 0} {Q : B → Type 0} (m : Parsed A) (f : A → Parsed B)
    → Gives P m
    → ((a : A) → P a → Gives Q (f a))
    → Gives Q (m >>= f)
>>=-Gives _ f (gives h) next = next _ h
>>=-Gives _ f fails next = fails

Gives-inversion :
    {A : Type 0} {P : A → Type 0} (m : Parsed A) → Gives P m → (a : A) → m ≡ ok a → P a
Gives-inversion {P = P} _ (gives h) a e = subst P (cc) h
Gives-inversion _ fails a e = cc

pub Gives-ok : {A : Type 0} {P : A → Type 0} (m : Parsed A) {a : A} → Gives P m → m ≡ ok a → P a
Gives-ok m {a} h e = Gives-inversion m h a e

pub Gives-ne-panic : {A : Type 0} {P : A → Type 0} (m : Parsed A) → Gives P m → m ≢ panic
Gives-ne-panic _ (gives h) e = cc
Gives-ne-panic _ fails e = cc

pub guard-Total : (b : Bool) (e : ElfParserError) → Total (guard b e)
guard-Total true e = gives tt
guard-Total false e = fails

pub ok_or-Total : {A : Type 0} (o : Option A) (e : ElfParserError) → Total (ok_or o e)
ok_or-Total none e = fails
ok_or-Total (some a) e = gives tt

pub ok_of-Total : {A : Type 0} (m : Parsed A) → Total m → Total (ok_of m)
ok_of-Total _ (gives h) = gives tt
ok_of-Total _ fails = gives tt

pub map_err-Total : {A : Type 0} (m : Parsed A) (e : ElfParserError) → Total m → Total (map_err m e)
map_err-Total _ e (gives h) = gives tt
map_err-Total _ e fails = fails

pub map_some-Total : {A : Type 0} (m : Parsed A) → Total m → Total (map_some m)
map_some-Total _ (gives h) = gives tt
map_some-Total _ fails = fails

pub err_checked_add-Total : (a b : ℕ) → Total (err_checked_add a b)
unfolding err_checked_add
err_checked_add-Total a b = ok_or-Total _ out_of_bounds

pub err_checked_sub-Total : (a b : ℕ) → Total (err_checked_sub a b)
unfolding err_checked_sub
err_checked_sub-Total a b = elim (Bool-cases (leb b a)) [
  | inl e ↦ rw e (gives tt)
  | inr e ↦ rw e fails
]

pub err_checked_mul-Total : (a b : ℕ) → Total (err_checked_mul a b)
unfolding err_checked_mul
err_checked_mul-Total a b = elim (Bool-cases (ltb (a * b) word_end)) [
  | inl e ↦ rw e (gives tt)
  | inr e ↦ rw e fails
]

pub ok-Total : {A : Type 0} (a : A) → Total (ok a)
ok-Total a = gives tt

pub >>=-Total :
    {A B : Type 0} (m : Parsed A) (f : A → Parsed B)
    → Total m
    → ((a : A) → Total (f a))
    → Total (m >>= f)
>>=-Total _ f (gives h) next = next _
>>=-Total _ f fails next = fails

pub if-Total :
    {A : Type 0} (b : Bool) (m n : Parsed A) → Total m → Total n → Total (if b then m else n)
if-Total true m n h k = h
if-Total false m n h k = k

-- The rules for `do` blocks of these operations.
pub ruleset total = (
  ok-Total, >>=-Total, if-Total, guard-Total, ok_or-Total, ok_of-Total, map_err-Total,
  map_some-Total, err_checked_add-Total, err_checked_sub-Total, err_checked_mul-Total,
)
