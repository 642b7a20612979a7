-- ===== src/AirPlay/Timing/RoundTrip.antt =====
-- RTP timestamps turned into NTP time and back.
use foobar_universal_multiro.AirPlay.Timing.{ntp_to_rtp_timestamp, rtp_timestamp_to_ntp}
use foobar_universal_multiro.Base.{arith, ℕ, ◌*◌, ◌+◌, ◌/◌, ◌<◌, ◌^◌, ◌≤◌, ◌%◌, ◌≡◌}

-- A quotient times its divisor.
quotient_bounds : (a d : ℕ) → 0 < d → (a / d * d ≤ a) × (a < a / d * d + d)
quotient_bounds a d h = grind arith

le_mul : (a d : ℕ) → 0 < d → a ≤ a * d
le_mul a d h = grind arith

-- At a rate below 2^16 and for a 32-bit RTP timestamp the shift and the product of `rtp_timestamp_to_ntp` and the product of
-- `ntp_to_rtp_timestamp` stay below 2^64, and what comes back from NTP time is the timestamp, or one frame less.
pub ntp_to_rtp_timestamp-rtp_timestamp_to_ntp :
    (rtp_timestamp sample_rate : ℕ)
    → rtp_timestamp < 2 ^ 32
    → 0 < sample_rate
    → sample_rate < 2 ^ 16
    → let ntp = rtp_timestamp_to_ntp rtp_timestamp sample_rate in
      let back = ntp_to_rtp_timestamp ntp sample_rate in
      (rtp_timestamp * 2 ^ 16 < 2 ^ 64)
      × (rtp_timestamp * 2 ^ 16 / sample_rate * 2 ^ 16 < 2 ^ 64)
      × (ntp ≡ rtp_timestamp * 2 ^ 16 / sample_rate * 2 ^ 16)
      × (ntp / 2 ^ 16 * sample_rate < 2 ^ 64)
      × (back ≤ rtp_timestamp)
      × (rtp_timestamp ≤ back + 1)
unfolding ntp_to_rtp_timestamp rtp_timestamp_to_ntp
ntp_to_rtp_timestamp-rtp_timestamp_to_ntp rtp_timestamp sample_rate r nz s =
    let q = rtp_timestamp * 2 ^ 16 / sample_rate in
    let b = quotient_bounds (rtp_timestamp * 2 ^ 16) sample_rate nz in
    let small : q ≤ rtp_timestamp * 2 ^ 16 = omega (arith, b, le_mul q sample_rate nz) in
    let e1 : rtp_timestamp * 2 ^ 16 % 2 ^ 64 ≡ rtp_timestamp * 2 ^ 16 = omega arith in
    let e2 : q * 2 ^ 16 % 2 ^ 64 / 2 ^ 16 ≡ q = omega (arith, small) in
    let e3 : q * sample_rate % 2 ^ 64 ≡ q * sample_rate = omega (arith, b) in
    let e4 : q * 2 ^ 16 < 2 ^ 64 = omega (arith, small) in
    let e5 : q * 2 ^ 16 % 2 ^ 64 ≡ q * 2 ^ 16 = omega (arith, small) in
    let e6 : q * sample_rate < 2 ^ 64 = omega (arith, b) in
    rw e1 (
      omega arith,
      e4,
      e5,
      rw e2 e6,
      rw e2 (rw e3 (omega (arith, b))),
      rw e2 (rw e3 (omega (arith, b, s))),
    )
