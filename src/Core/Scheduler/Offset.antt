-- ===== src/Core/Scheduler/Offset.antt =====
-- `PacketScheduler::apply_offset` against the integers.
use foobar_universal_multiro.Base.{ℕ, ◌≡◌, ◌≤◌, ◌<◌, ◌-◌, ◌^◌, arith}
use foobar_universal_multiro.Base.Int.{ℤ, pos, negsuc, clamp_ℤ, ◌+ℤ◌}
use foobar_universal_multiro.Core.Scheduler.{apply_offset}

-- For a 64-bit timestamp the offset is added in the integers and the sum is clamped to the range of
-- `uint64_t`: it never wraps, in either direction.
pub apply_offset-clamp :
    (timestamp : ℕ) (offset_frames : ℤ)
    → timestamp < 2 ^ 64
    → pos (apply_offset timestamp offset_frames)
      ≡ clamp_ℤ (pos timestamp +ℤ offset_frames) (pos 0) (pos (2 ^ 64 - 1))
unfolding apply_offset
apply_offset-clamp timestamp (pos d) h = ground arith
apply_offset-clamp timestamp (negsuc d) h = ground arith

-- With one offset, presentation times keep the order of the stream's timestamps.
pub apply_offset_mono :
    (a b : ℕ) (offset_frames : ℤ)
    → a ≤ b
    → b < 2 ^ 64
    → apply_offset a offset_frames ≤ apply_offset b offset_frames
unfolding apply_offset
apply_offset_mono a b (pos d) h k = ground arith
apply_offset_mono a b (negsuc d) h k = ground arith
