-- ===== src/Base/Outcome.antt =====
-- Go's pair of a value and an error, where exactly one of the two is set.
use mathlib.Core.Path.{◌≡◌, refl}
use mathlib.Core.Logic.{◌↔◌}
use mathlib.Core.Option.{Option, none, some}

pub data Result {ℓ} (E A : Type ℓ) : Type ℓ where
  ok : A → Result E A
  err : E → Result E A

-- `if err != nil { return err }` after a call, and the code that follows.
infixl 5 ◌>>=◌ ◌>>◌
abbrev pub ◌>>=◌ {ℓ} : {E A B : Type ℓ} → Result E A → (A → Result E B) → Result E B
◌>>=◌ (err failure) next = err failure
◌>>=◌ (ok value) next = next value

abbrev pub ◌>>◌ {ℓ} : {E A B : Type ℓ} → Result E A → Result E B → Result E B
call >> next = call >>= λ _. next

-- If both calls of a chain succeed, what the first one returned.
pub ok_of_bind {ℓ} :
    {E A B : Type ℓ} {last : B} (call : Result E A) (next : A → Result E B)
    → (call >>= next) ≡ ok last
    → (value : A) × (call ≡ ok value) × (next value ≡ ok last)
ok_of_bind (err failure) next done = cc
ok_of_bind (ok value) next done = (value, refl, done)

-- Equal results have equal values.
pub ok_is {ℓ} : {E A : Type ℓ} {a b : A} → Path (Result E A) (ok a) (ok b) → a ≡ b
ok_is h = cc

pub err_is {ℓ} : {E A : Type ℓ} {a b : E} → Path (Result E A) (err a) (err b) → a ≡ b
err_is h = cc

pub some_is {ℓ} : {A : Type ℓ} {a b : A} → some a ≡ some b → a ≡ b
some_is h = cc

pub ok≢err {ℓ} : {E A : Type ℓ} {a : A} {e : E} → ok a ≡ err e → ⊥
ok≢err h = cc

pub bind_ext {ℓ} :
    {E A B : Type ℓ} (call : Result E A) (f g : A → Result E B)
    → ((a : A) → f a ≡ g a)
    → (call >>= f) ≡ (call >>= g)
bind_ext (err failure) f g same = refl
bind_ext (ok value) f g same = same value

pub bind_assoc {ℓ} :
    {E A B C : Type ℓ} (call : Result E A) (f : A → Result E B) (g : B → Result E C)
    → ((call >>= f) >>= g) ≡ (call >>= λ a. f a >>= g)
bind_assoc (err failure) f g = refl
bind_assoc (ok value) f g = refl

pub bind-ok {ℓ} : {E A : Type ℓ} (call : Result E A) → (call >>= λ a. ok a) ≡ call
bind-ok (err failure) = refl
bind-ok (ok value) = refl

-- `if err != nil { return fmt.Errorf("...: %w", err) }` after a call.
abbrev pub wrapped {ℓ} : {E A : Type ℓ} → (E → E) → Result E A → Result E A
wrapped wrap (err failure) = err (wrap failure)
wrapped wrap (ok value) = ok value

-- `if err != nil` after a call whose error is only tested.
abbrev pub or_error {ℓ} : {E A : Type ℓ} → E → Option A → Result E A
or_error e none = err e
or_error e (some a) = ok a

pub or_error_iff {ℓ} :
    {E A : Type ℓ} (e : E) (o : Option A) (a : A) → (or_error e o ≡ ok a) ↔ (o ≡ some a)
or_error_iff e none a = ((λ h. cc), (λ h. cc))
or_error_iff e (some b) a = ((λ h. cc), (λ h. cc))

pub wrapped_iff {ℓ} :
    {E A : Type ℓ} (wrap : E → E) (call : Result E A) (a : A)
    → (wrapped wrap call ≡ ok a) ↔ (call ≡ ok a)
wrapped_iff wrap (err failure) a = ((λ h. cc), (λ h. cc))
wrapped_iff wrap (ok value) a = ((λ h. h), (λ h. h))

-- A chain of calls whose errors are not looked at.
infixl 5 ◌>>?◌
abbrev pub ◌>>?◌ {ℓ} : {A B : Type ℓ} → Option A → (A → Option B) → Option B
none >>? next = none
some a >>? next = next a

pub some_of_bind {ℓ} :
    {A B : Type ℓ} {last : B} (call : Option A) (next : A → Option B)
    → (call >>? next) ≡ some last
    → (value : A) × (call ≡ some value) × (next value ≡ some last)
some_of_bind none next done = cc
some_of_bind (some value) next done = (value, refl, done)
