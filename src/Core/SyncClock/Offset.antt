-- ===== src/Core/SyncClock/Offset.antt =====
-- `SyncClock::frames_for_offset_ms` against the scheduler's conversion.
use foobar_universal_multiro.Base.{ℕ, ◌≡◌, ◌≤◌, ◌<◌, ◌*◌, arith}
use foobar_universal_multiro.Base.Int.{ℤ, pos, negsuc, pos_part, neg_part, clamp_ℤ, ◌≤ℤ◌}
use foobar_universal_multiro.Base.Outcome.{ok}
use foobar_universal_multiro.Core.SyncClock.{SyncClock, frames_for_offset_ms}
use foobar_universal_multiro.Core.Scheduler.{frames_for_ms}
use foobar_universal_multiro.Core.Scheduler.Frames.{frames_of-parts, frames_for_ms-frames_of}

mul_le_right : (a b c : ℕ) → a ≤ b → a * c ≤ b * c
mul_le_right a b c h = grind arith

-- Whatever offset is asked for, the clock answers with at most two seconds of frames either way.
pub frames_for_offset_ms_bounds :
    (c : SyncClock) (offset_ms : ℤ)
    → (pos_part (frames_for_offset_ms c offset_ms) ≤ 2 * c.sample_rate)
      × (neg_part (frames_for_offset_ms c offset_ms) ≤ 2 * c.sample_rate)
unfolding frames_for_offset_ms
frames_for_offset_ms_bounds c offset_ms =
    let ms = clamp_ℤ offset_ms (negsuc 1999) (pos 2000) in
    let (p, n) = frames_of-parts ms c.sample_rate in
    omega (
      arith,
      p,
      n,
      mul_le_right (pos_part ms) 2000 c.sample_rate (ground arith),
      mul_le_right (neg_part ms) 2000 c.sample_rate (ground arith),
    )

-- On every offset that the registry can hold, from -2000 to 2000 ms, and on a clock with a rate,
-- the clock and the packet scheduler agree.
pub frames_for_ms-frames_for_offset_ms :
    (c : SyncClock) (offset_ms : ℤ)
    → 0 < c.sample_rate
    → negsuc 1999 ≤ℤ offset_ms
    → offset_ms ≤ℤ pos 2000
    → frames_for_ms offset_ms c.sample_rate ≡ ok (frames_for_offset_ms c offset_ms)
unfolding frames_for_offset_ms
frames_for_ms-frames_for_offset_ms c offset_ms nz lo hi =
    let same : clamp_ℤ offset_ms (negsuc 1999) (pos 2000) ≡ offset_ms = ground arith in
    rw same (frames_for_ms-frames_of offset_ms c.sample_rate nz)
