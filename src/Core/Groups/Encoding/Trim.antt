-- ===== src/Core/Groups/Encoding/Trim.antt =====
-- `trim_ascii`.
use foobar_universal_multiro.Base.{
  All, Bool-cases, Text, [], arith, false, inl, inr, is_empty, refl, ℕ, ◌&&◌, ◌∷◌, ◌≡◌,
}
use foobar_universal_multiro.Core.Groups.Encoding.{is_space, trim_start, trim_end, trim_ascii}

-- The text begins with no space.
abbrev StartsBare : Text → Type 0
StartsBare [] = Unit
StartsBare (ch ∷ text) = is_space ch ≡ false

trim_start-StartsBare : (text : Text) → StartsBare (trim_start text)
unfolding trim_start
trim_start-StartsBare [] = tt
trim_start-StartsBare (ch ∷ text) = elim (Bool-cases (is_space ch)) [
  | inl e ↦ rw e (trim_start-StartsBare text)
  | inr e ↦ rw e e
]

trim_start_bare : (text : Text) → StartsBare text → trim_start text ≡ text
unfolding trim_start
trim_start_bare [] h = refl
trim_start_bare (ch ∷ text) h = rw h

trim_end-StartsBare : (text : Text) → StartsBare text → StartsBare (trim_end text)
unfolding trim_end
trim_end-StartsBare [] h = tt
trim_end-StartsBare (ch ∷ text) h = ground (arith, h)

trim_end_idem : (text : Text) → trim_end (trim_end text) ≡ trim_end text
unfolding trim_end is_empty
trim_end_idem [] = refl
trim_end_idem (ch ∷ text) = ground (arith, trim_end_idem text)

pub trim_ascii_idem : (text : Text) → trim_ascii (trim_ascii text) ≡ trim_ascii text
unfolding trim_ascii
trim_ascii_idem text =
    rw
      (trim_start_bare (trim_end (trim_start text))
        (trim_end-StartsBare (trim_start text) (trim_start-StartsBare text)))
      (trim_end_idem (trim_start text))

-- Trimming keeps what holds of every byte.
trim_start-All : (P : ℕ → Type 0) (text : Text) → All P text → All P (trim_start text)
unfolding trim_start
trim_start-All P [] h = tt
trim_start-All P (ch ∷ text) h = elim (Bool-cases (is_space ch)) [
  | inl e ↦ rw e (trim_start-All P text h.1)
  | inr e ↦ rw e h
]

trim_end-All : (P : ℕ → Type 0) (text : Text) → All P text → All P (trim_end text)
unfolding trim_end
trim_end-All P [] h = tt
trim_end-All P (ch ∷ text) h = elim (Bool-cases (is_empty (trim_end text) && is_space ch)) [
  | inl e ↦ rw e tt
  | inr e ↦ rw e (h.0, trim_end-All P text h.1)
]

pub trim_ascii-All : (P : ℕ → Type 0) (text : Text) → All P text → All P (trim_ascii text)
unfolding trim_ascii
trim_ascii-All P text h = trim_end-All P (trim_start text) (trim_start-All P text h)
