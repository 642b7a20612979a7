-- ===== src/Core/Engine/Format.antt =====
-- `validate_format` and `frame_count_from_bytes`.
use native.Mathlib.Decide.{ℕ_discrete}
use foobar_universal_multiro.Base.Outcome.{Threw, invalid_argument, ok}
use native.Mathlib.Nat.{mul-pos, mod-eq-sub-div-mul, div-mul-le_self}
use foobar_universal_multiro.Core.Engine.{validate_format, frame_count_from_bytes, bytes_per_frame}
use foobar_universal_multiro.Device.{PcmFormat}
use foobar_universal_multiro.Base.{ℕ, ◌<◌, ◌≡◌, arith, ◌%◌, ◌/◌, ◌*◌, ◌⊎◌, ◌≢◌, inr, inl}

-- The formats that the engine can stream.
pub record IsPcm (format : PcmFormat) : Type 0 where
  pub rate_pos : 0 < format.sample_rate
  pub channels_pos : 0 < format.channels
  pub bits_pos : 0 < format.bits_per_sample
  pub aligned : format.bits_per_sample % 8 ≡ 0

pub validate_format-ok : (format : PcmFormat) → IsPcm format → validate_format format ≡ ok tt
unfolding validate_format
validate_format-ok format v = ground (arith, v.rate_pos, v.channels_pos, v.bits_pos, v.aligned)

pub validate_format-IsPcm : (format : PcmFormat) → validate_format format ≡ ok tt → IsPcm format
unfolding validate_format
validate_format-IsPcm format h = ground arith

pub bytes_per_frame-pos : (format : PcmFormat) → IsPcm format → 0 < bytes_per_frame format
bytes_per_frame-pos format v =
    let width : 0 < format.bits_per_sample / 8 = omega (arith, v.bits_pos, v.aligned) in
    mul-pos v.channels_pos width

pub frame_count_from_bytes-ok :
    (format : PcmFormat) (bytes : ℕ)
    → IsPcm format
    → bytes % bytes_per_frame format ≡ 0
    → frame_count_from_bytes format bytes ≡ ok (bytes / bytes_per_frame format)
unfolding frame_count_from_bytes
frame_count_from_bytes-ok format bytes v h =
    rw (validate_format-ok format v) (ground (arith, bytes_per_frame-pos format v, h))

div_exact : (a b : ℕ) → 0 < b → a % b ≡ 0 → a / b * b ≡ a
div_exact a b h e = omega (arith, mod-eq-sub-div-mul a b, div-mul-le_self a b)

pub validate_format-cases :
    (format : PcmFormat)
    → IsPcm format ⊎ (Threw invalid_argument (validate_format format) × ¬ IsPcm format)
unfolding validate_format
validate_format-cases format = ground arith

frame_count_from_bytes-invalid :
    (format : PcmFormat) (bytes : ℕ)
    → Threw invalid_argument (validate_format format)
    → Threw invalid_argument (frame_count_from_bytes format bytes)
unfolding frame_count_from_bytes
frame_count_from_bytes-invalid format bytes h = ground arith

frame_count_from_bytes-partial :
    (format : PcmFormat) (bytes : ℕ)
    → IsPcm format
    → bytes % bytes_per_frame format ≢ 0
    → Threw invalid_argument (frame_count_from_bytes format bytes)
unfolding frame_count_from_bytes
frame_count_from_bytes-partial format bytes v h =
    rw (validate_format-ok format v) (ground (arith, bytes_per_frame-pos format v, h))

-- Whatever the format and the byte count: either the format has a rate, channels and a byte-aligned
-- depth and the bytes are whole frames, and the call returns the count, which times the size of a
-- frame is the byte count; or one of these fails, and the call throws `invalid_argument`.
pub frame_count_from_bytes_exact :
    (format : PcmFormat) (bytes : ℕ)
    → ((n : ℕ) × (frame_count_from_bytes format bytes ≡ ok n)
        × IsPcm format
        × (n * bytes_per_frame format ≡ bytes))
      ⊎ (Threw invalid_argument (frame_count_from_bytes format bytes)
          × ¬ (IsPcm format × (bytes % bytes_per_frame format ≡ 0)))
frame_count_from_bytes_exact format bytes = elim (validate_format-cases format) [
  | inr (thrown, bad) ↦ inr (frame_count_from_bytes-invalid format bytes thrown, λ h. bad h.0)
  | inl v ↦ elim (ℕ_discrete (bytes % bytes_per_frame format) 0) [
    | yes whole ↦ inl (
      bytes / bytes_per_frame format,
      frame_count_from_bytes-ok format bytes v whole,
      v,
      div_exact bytes (bytes_per_frame format) (bytes_per_frame-pos format v) whole,
    )
    | no partial ↦ inr (frame_count_from_bytes-partial format bytes v partial, λ h. partial h.1)
  ]
]
