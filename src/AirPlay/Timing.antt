-- ===== src/AirPlay/Timing.antt =====
-- transports/airplay/airplay_timing.h, over the time that the system clock gives.
pub mod RoundTrip
use foobar_universal_multiro.Base.{ℕ, ◌%◌, ◌*◌, ◌+◌, ◌/◌, ◌^◌}

-- `kUnixToNtpSeconds`
abbrev unix_to_ntp_seconds : ℕ
unix_to_ntp_seconds = 2208988800

-- `current_ntp_timestamp` at `seconds` and `fraction_ns` nanoseconds after the epoch. The fraction is
-- below 2^32 and the shifted seconds have no bits there, so `|` adds it.
pub current_ntp_timestamp : ℕ → ℕ → ℕ
current_ntp_timestamp seconds fraction_ns =
    let fraction = fraction_ns * 2 ^ 32 / 1000000000 in
    (seconds + unix_to_ntp_seconds) * 2 ^ 32 % 2 ^ 64 + fraction

pub ntp_to_rtp_timestamp : ℕ → ℕ → ℕ
ntp_to_rtp_timestamp ntp sample_rate = (ntp / 2 ^ 16) * sample_rate % 2 ^ 64 / 2 ^ 16

pub rtp_timestamp_to_ntp : ℕ → ℕ → ℕ
rtp_timestamp_to_ntp rtp_timestamp sample_rate =
    (rtp_timestamp * 2 ^ 16 % 2 ^ 64) / sample_rate * 2 ^ 16 % 2 ^ 64
