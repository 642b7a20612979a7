-- ===== src/Base/Outcome.antt =====
-- C++ exceptions as values. A computation over a state keeps what it has written when it throws,
-- so the state stands beside the outcome.
use foobar_universal_multiro.Base.{
  ◌≡◌, Text, Bool, List, [], ◌∷◌, if◌then◌else◌, ◌⊎◌, inl, inr, refl, arith, false, true,
}

-- The classes of `<stdexcept>` that the code throws.
pub data ErrorKind : Type 0 where
  invalid_argument out_of_range logic_error runtime_error : ErrorKind

pub record Exception : Type 0 where
  pub kind : ErrorKind
  pub what : Text

pub data Outcome {ℓ} (A : Type ℓ) : Type ℓ where
  ok : A → Outcome A
  throw : Exception → Outcome A

-- A computation that reads and writes an `S`, and returns or throws.
abbrev pub M : Type 0 → Type 0 → Type 0
M S A = S → Outcome A × S

abbrev pub then_with : {S A B : Type 0} → (A → M S B) → Outcome A × S → Outcome B × S
then_with f (ok a, t) = f a t
then_with f (throw e, t) = (throw e, t)

infixl 5 ◌>>=◌ ◌>>◌
abbrev pub ◌>>=◌ : {S A B : Type 0} → M S A → (A → M S B) → M S B
◌>>=◌ m f s = then_with f (m s)

abbrev pub ◌>>◌ : {S A B : Type 0} → M S A → M S B → M S B
◌>>◌ m k s = then_with (λ _. k) (m s)

abbrev pub pure : {S A : Type 0} → A → M S A
pure a s = (ok a, s)

abbrev pub raise : {S A : Type 0} → ErrorKind → Text → M S A
raise k w s = (throw (record { kind = k; what = w }), s)

-- `if (test) throw ...;`
abbrev pub throw_if : {S : Type 0} → Bool → ErrorKind → Text → M S (Unit {0})
throw_if b k w s = if b then (throw (record { kind = k; what = w }), s) else (ok tt, s)

-- `if (test) { ... }`
abbrev pub when : {S : Type 0} → Bool → M S (Unit {0}) → M S (Unit {0})
when b m s = if b then m s else (ok tt, s)

abbrev pub get : {S : Type 0} → M S S
get s = (ok s, s)

abbrev pub modify : {S : Type 0} → (S → S) → M S (Unit {0})
modify f s = (ok tt, f s)

-- A method of a part of the object: run it on the part, and put the part back.
abbrev pub put_back : {S T A : Type 0} → (S → T → S) → S → Outcome A × T → Outcome A × S
put_back back s (o, t) = (o, back s t)

abbrev pub within : {S T A : Type 0} → (S → T) → (S → T → S) → M T A → M S A
within part back m s = put_back back s (m (part s))

-- `for (x : xs) body(x);`
unfoldable pub for_each : {S A : Type 0} → (A → M S (Unit {0})) → List A → M S (Unit {0})
for_each body [] s = (ok tt, s)
for_each body (x ∷ xs) s = then_with (λ _. for_each body xs) (body x s)

-- The result threw, and what it threw.
abbrev pub Threw : {A : Type 0} → ErrorKind → Outcome A → Type 0
Threw k (ok a) = ⊥
Threw k (throw e) = e.kind ≡ k

pub Outcome-cases {ℓ} :
    {A : Type ℓ} (o : Outcome A) → ((a : A) × (o ≡ ok a)) ⊎ ((e : Exception) × (o ≡ throw e))
Outcome-cases (ok a) = inl (a, refl)
Outcome-cases (throw e) = inr (e, refl)

-- What holds of the state after a step, and after what follows from any such state, holds after both.
pub then_keeps :
    {S A B : Type 0} (P : S → Type 0) (f : A → M S B) (r : Outcome A × S)
    → P r.1
    → ((a : A) (s : S) → P s → P (f a s).1)
    → P (then_with f r).1
then_keeps P f (ok a, s) h k = k a s h
then_keeps P f (throw e, s) h k = h

-- The computation returned.
abbrev pub Returned : {S A : Type 0} → Outcome A × S → Type 0
Returned {S} {A} r = (a : A) × (r.0 ≡ ok a)

pub then_Returned :
    {S A B : Type 0} (f : A → M S B) (r : Outcome A × S)
    → Returned r
    → ((a : A) (s : S) → Returned (f a s))
    → Returned (then_with f r)
then_Returned f (ok a, s) h k = k a s
then_Returned f (throw e, s) h k = absurd (ground arith)

pub when-Returned :
    {S : Type 0} (b : Bool) (m : M S (Unit {0})) (s : S)
    → (b ≡ true → Returned (m s))
    → Returned (when b m s)
when-Returned true m s h = h refl
when-Returned false m s h = (tt, refl)

-- After a step that returned, the rest runs.
pub then_ok :
    {S A B : Type 0} (f : A → M S B) (r : Outcome A × S) (a : A)
    → r.0 ≡ ok a
    → then_with f r ≡ f a r.1
then_ok f (ok b, s) a h = ground arith
then_ok f (throw e, s) a h = absurd (ground arith)

pub for_each_keeps :
    {S A : Type 0} (P : S → Type 0) (body : A → M S (Unit {0})) (xs : List A) (s : S)
    → ((x : A) (s' : S) → P s' → P (body x s').1)
    → P s
    → P (for_each body xs s).1
unfolding for_each
for_each_keeps P body [] s keep h = h
for_each_keeps P body (x ∷ xs) s keep h =
    then_keeps P (λ _. for_each body xs) (body x s) (keep x s h)
      (λ _ s' h'. for_each_keeps P body xs s' keep h')
