-- ===== src/Core/Groups/Encoding/Split.antt =====
-- `split` over fields that hold no separator.
use foobar_universal_multiro.Base.{
  All, Text, [], arith, false, refl, ℕ, ◌++◌, ◌==◌, ◌∷◌, ◌≡◌, ◌≢◌, Bool-cases, List, inl, inr,
}
use foobar_universal_multiro.Core.Groups.Encoding.{split, onto_first}

abbrev pub Lacks : ℕ → Text → Type 0
Lacks separator = All (λ ch. (ch == separator) ≡ false)

-- A field and the separator behind it are cut off.
pub split_cut :
    (separator : ℕ) (field rest : Text)
    → Lacks separator field
    → split separator (field ++ separator ∷ rest) ≡ field ∷ split separator rest
unfolding split
split_cut separator [] rest h = ground arith
split_cut separator (ch ∷ field) rest h =
    rw (split_cut separator field rest h.1) (ground (arith, h.0))

-- The last field, with nothing behind it.
pub split_last :
    (separator : ℕ) (field : Text)
    → Lacks separator field
    → field ≢ []
    → split separator field ≡ field ∷ []
unfolding split
split_last separator [] h ne = absurd (ne refl)
split_last separator (ch ∷ []) h ne = ground (arith, h.0)
split_last separator (ch ∷ next ∷ field) h ne =
    rw (split_last separator (next ∷ field) h.1 (λ e. cc)) (ground (arith, h.0))

onto_first-All {κ} :
    (P : Text → Type κ) (ch : ℕ) (fields : List Text)
    → P []
    → ((field : Text) → P field → P (ch ∷ field))
    → All P fields
    → All P (onto_first ch fields)
onto_first-All P ch [] e k h = (k [] e, tt)
onto_first-All P ch (field ∷ fields) e k h = (k field h.0, h.1)

-- No field holds the separator.
pub split-Lacks : (separator : ℕ) (text : Text) → All (Lacks separator) (split separator text)
unfolding split
split-Lacks separator [] = tt
split-Lacks separator (ch ∷ text) = elim (Bool-cases (ch == separator)) [
  | inl e ↦ rw e (tt, split-Lacks separator text)
  | inr e ↦ rw e (
      onto_first-All (Lacks separator) ch (split separator text) tt (λ field h. (e, h))
        (split-Lacks separator text))
]

-- What holds of every character of a text holds of those of its fields.
pub split-All {κ} :
    (P : ℕ → Type κ) (separator : ℕ) (text : Text) → All P text → All (All P) (split separator text)
unfolding split
split-All P separator [] h = tt
split-All P separator (ch ∷ text) h = elim (Bool-cases (ch == separator)) [
  | inl e ↦ rw e (tt, split-All P separator text h.1)
  | inr e ↦ rw e (
      onto_first-All (All P) ch (split separator text) tt (λ field k. (h.0, k))
        (split-All P separator text h.1))
]
