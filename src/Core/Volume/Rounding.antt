-- ===== src/Core/Volume/Rounding.antt =====
-- The product of the two volumes as a percentage, rounded to the nearest.
use foobar_universal_multiro.Base.{ℕ, ◌≡◌, ◌≤◌, ◌<◌, ◌/◌, ◌*◌, ◌+◌, arith}
use foobar_universal_multiro.Base.Int.{ℤ, pos, clamp_ℤ, ◌≤ℤ◌, pos_part}
use foobar_universal_multiro.Core.Volume.{effective_output_volume_percent}

mul-le-100 : (m s : ℕ) → m ≤ 100 → s ≤ 100 → m * s ≤ 10000
mul-le-100 m s h k = grind arith

-- In range both volumes are used as they are.
effective-pos :
    (m s : ℕ)
    → m ≤ 100
    → s ≤ 100
    → effective_output_volume_percent (pos m) (pos s) ≡ pos ((m * s + 50) / 100)
unfolding effective_output_volume_percent
effective-pos m s h k = ground (arith, mul-le-100 m s h k)

-- The percentage that `std::clamp` makes of an integer.
abbrev pub percent : ℤ → ℕ
percent v = pos_part (clamp_ℤ v (pos 0) (pos 100))

clamp-percent : (v : ℤ) → clamp_ℤ v (pos 0) (pos 100) ≡ pos (percent v)
clamp-percent v = ground arith

percent-le : (v : ℤ) → percent v ≤ 100
percent-le v = ground arith

percent_mono : (v w : ℤ) → v ≤ℤ w → percent v ≤ percent w
percent_mono v w h = ground arith

percent-pos : (v : ℤ) → percent (pos (percent v)) ≡ percent v
percent-pos v = ground arith

effective-percent :
    (m s : ℤ) → effective_output_volume_percent m s ≡ pos ((percent m * percent s + 50) / 100)
unfolding effective_output_volume_percent
effective-percent m s =
    ground (arith, mul-le-100 (percent m) (percent s) (percent-le m) (percent-le s))

-- For every pair of integers the effective volume is a percentage between 0 and 100: the product of
-- the two volumes, each first clamped to 0..100, divided by 100 and rounded to the nearest, a half
-- upwards.
pub effective_output_volume_percent_rounds :
    (m s : ℤ)
    → (r : ℕ) × (effective_output_volume_percent m s ≡ pos r)
      × (r ≤ 100)
      × (100 * r ≤ percent m * percent s + 50)
      × (percent m * percent s + 50 < 100 * r + 100)
effective_output_volume_percent_rounds m s =
    let bound = mul-le-100 (percent m) (percent s) (percent-le m) (percent-le s) in
    (
      (percent m * percent s + 50) / 100,
      effective-percent m s,
      omega arith,
      omega arith,
      omega arith,
    )

mul_mono : (a b c d : ℕ) → a ≤ b → c ≤ d → a * c ≤ b * d
mul_mono a b c d h k = grind arith

-- Turning up the master volume or the speaker's own volume never makes the output quieter.
pub effective_output_volume_percent_mono :
    (m m' s s' : ℤ)
    → m ≤ℤ m'
    → s ≤ℤ s'
    → effective_output_volume_percent m s ≤ℤ effective_output_volume_percent m' s'
effective_output_volume_percent_mono m m' s s' h k = ground (
  arith,
  effective-percent m s,
  effective-percent m' s',
  mul_mono (percent m) (percent m') (percent s) (percent s') (percent_mono m m' h)
      (percent_mono s s' k),
)
