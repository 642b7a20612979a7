-- ===== src/Base/Throws.antt =====
-- Computations with no state that may throw.
use foobar_universal_multiro.Base.{Text, Bool, if◌then◌else◌}
use foobar_universal_multiro.Base.Outcome.{Outcome, ok, throw, ErrorKind, M}

infixl 5 ◌>>=◌ ◌>>◌
abbrev pub ◌>>=◌ {ℓ κ} : {A : Type ℓ} {B : Type κ} → Outcome A → (A → Outcome B) → Outcome B
ok a >>= f = f a
throw e >>= f = throw e

abbrev pub ◌>>◌ {ℓ} : {B : Type ℓ} → Outcome (Unit {0}) → Outcome B → Outcome B
m >> k = m >>= λ _. k

abbrev pub fail_if : Bool → ErrorKind → Text → Outcome (Unit {0})
fail_if b k w = if b then throw (record { kind = k; what = w }) else ok tt

-- In a method of an object: nothing of it changes.
abbrev pub lift : {S A : Type 0} → Outcome A → M S A
lift o s = (o, s)
