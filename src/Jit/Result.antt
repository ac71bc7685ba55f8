-- ===== src/Jit/Result.antt =====
-- `Result<A, JitModelError>` of casestudy/sbpf/src/safe_mode/jit.rs with its `?`, and the methods
-- that also change the compiler.
use aeneas2isabelle.Prelude.{◌≡◌, refl, Option, none, some}
use aeneas2isabelle.Jit.Types.{JitModelError, JitCompilerModel}

pub data Result {ℓ} (A : Type ℓ) : Type ℓ where
  ok : A → Result A
  err : JitModelError → Result A

abbrev pub bind {ℓ κ} : {A : Type ℓ} {B : Type κ} → Result A → (A → Result B) → Result B
bind (ok a) f = f a
bind (err e) f = err e

-- `option.ok_or(error)?`.
abbrev pub ok_or {ℓ} : {A : Type ℓ} → Option A → JitModelError → Result A
ok_or none e = err e
ok_or (some a) e = ok a

-- What a method leaves: its value or its error, and the compiler.
pub data Outcome {ℓ} (A : Type ℓ) : Type ℓ where
  done : A → JitCompilerModel → Outcome A
  failed : JitModelError → JitCompilerModel → Outcome A

abbrev pub M {ℓ} : Type ℓ → Type ℓ
M A = JitCompilerModel → Outcome A

abbrev pub and_then {ℓ κ} :
    {A : Type ℓ} {B : Type κ} → Outcome A → (A → JitCompilerModel → Outcome B) → Outcome B
and_then (done a s) k = k a s
and_then (failed e s) k = failed e s

infixl 5 ◌>>=◌ ◌>>◌
abbrev pub ◌>>=◌ {ℓ κ} : {A : Type ℓ} {B : Type κ} → M A → (A → M B) → M B
m >>= k = λ s. and_then (m s) k

abbrev pub ◌>>◌ {ℓ} : {B : Type ℓ} → M (Unit {0}) → M B → M B
m >> k = m >>= λ _. k

abbrev pub pure {ℓ} : {A : Type ℓ} → A → M A
pure = done

-- A fallible computation that does not touch the compiler.
abbrev pub lift {ℓ} : {A : Type ℓ} → Result A → M A
lift (ok a) s = done a s
lift (err e) s = failed e s

-- What the caller that gives the compiler up gets.
abbrev pub outcome_result {ℓ} : {A : Type ℓ} → Outcome A → Result A
outcome_result (done a s) = ok a
outcome_result (failed e s) = err e

pub bind-eq-ok {ℓ κ} :
    {A : Type ℓ} {B : Type κ} (m : Result A) (f : A → Result B) {b : B}
    → bind m f ≡ ok b
    → (a : A) × (m ≡ ok a) × (f a ≡ ok b)
bind-eq-ok (ok a) f h = (a, refl, h)
bind-eq-ok (err e) f h = cc

pub bind_assoc {ℓ κ μ} :
    {A : Type ℓ} {B : Type κ} {C : Type μ} (r : Result A) (f : A → Result B) (g : B → Result C)
    → bind (bind r f) g ≡ bind r (λ a. bind (f a) g)
bind_assoc (ok a) f g = refl
bind_assoc (err e) f g = refl

pub and_then-eq-done {ℓ κ} :
    {A : Type ℓ} {B : Type κ} (m : Outcome A) (k : A → JitCompilerModel → Outcome B) {b : B}
    {t : JitCompilerModel}
    → and_then m k ≡ done b t
    → (a : A) × (s : JitCompilerModel) × (m ≡ done a s) × (k a s ≡ done b t)
and_then-eq-done (done a s) k h = (a, s, refl, h)
and_then-eq-done (failed e s) k h = cc

-- Two continuations that agree on the value that is returned give the same result.
pub bind_congr {ℓ κ} :
    {A : Type ℓ} {B : Type κ} (r : Result A) (f g : A → Result B)
    → ((a : A) → r ≡ ok a → f a ≡ g a)
    → bind r f ≡ bind r g
bind_congr (ok a) f g h = h a refl
bind_congr (err e) f g h = refl

pub ok-injective {ℓ} : {A : Type ℓ} {a b : A} → ok a ≡ ok b → a ≡ b
ok-injective h = cc

pub bind-ok {ℓ} : {A : Type ℓ} (r : Result A) → bind r ok ≡ r
bind-ok (ok a) = refl
bind-ok (err e) = refl

pub done-injective {ℓ} :
    {A : Type ℓ} {a b : A} {s t : JitCompilerModel} → done a s ≡ done b t → s ≡ t
done-injective h = cc

pub lift-eq-done {ℓ} :
    {A : Type ℓ} (r : Result A) {a : A} {s t : JitCompilerModel}
    → lift r s ≡ done a t
    → (r ≡ ok a) × (s ≡ t)
lift-eq-done (ok a) h = (cc, cc)
lift-eq-done (err e) h = (cc, cc)

pub ok_or-eq-ok {ℓ} :
    {A : Type ℓ} (o : Option A) (e : JitModelError) {a : A} → ok_or o e ≡ ok a → o ≡ some a
ok_or-eq-ok none e h = cc
ok_or-eq-ok (some a) e h = cc

pub outcome_result-eq-ok {ℓ} :
    {A : Type ℓ} (m : Outcome A) {a : A}
    → outcome_result m ≡ ok a
    → (s : JitCompilerModel) × (m ≡ done a s)
outcome_result-eq-ok (done b s) h = (s, cc)
outcome_result-eq-ok (failed e s) h = cc

pub done-value {ℓ} : {A : Type ℓ} {a b : A} {s t : JitCompilerModel} → done a s ≡ done b t → a ≡ b
done-value h = cc

pub and_then_congr {ℓ κ} :
    {A : Type ℓ} {B : Type κ} (m : Outcome A) (k l : A → M B)
    → ((a : A) (t : JitCompilerModel) → k a t ≡ l a t)
    → and_then m k ≡ and_then m l
and_then_congr (done a t) k l h = h a t
and_then_congr (failed e t) k l h = refl
