-- ===== src/Core/SyncClock.antt =====
-- components/foo_out_multiroom_bridge/core/sync_clock.h and sync_clock.cpp
pub mod Offset
use foobar_universal_multiro.Base.{ℕ, ◌+◌, ◌%◌, ◌^◌, ◌==◌, codes, zero}
use foobar_universal_multiro.Base.Int.{ℤ, pos, negsuc, clamp_ℤ, ◌*ℤ◌, quot_ℤ}
use foobar_universal_multiro.Base.Outcome.{
  Outcome, ok, M, modify, invalid_argument, throw_if, pure, get, ◌>>=◌, ◌>>◌,
}
use foobar_universal_multiro.Base.Throws.{fail_if}
use foobar_universal_multiro.Base.Throws as Throws

pub record SyncClock : Type 0 where
  pub sample_rate : ℕ
  pub frame_cursor : ℕ

pub make_clock : ℕ → Outcome SyncClock
make_clock rate =
    Throws.◌>>◌ (fail_if (rate == 0) invalid_argument (codes "Sample rate cannot be zero."))
      (ok (record { sample_rate = rate; frame_cursor = 0 }))

unfoldable pub reset : ℕ → M SyncClock (Unit {0})
reset start_frame = modify (λ c. record c { frame_cursor = start_frame })

unfoldable pub set_sample_rate : ℕ → M SyncClock (Unit {0})
set_sample_rate rate = do
  throw_if (rate == 0) invalid_argument (codes "Sample rate cannot be zero.")
  modify (λ c. record c { sample_rate = rate; frame_cursor = 0 })

unfoldable pub current_frame : SyncClock → ℕ
current_frame c = c.frame_cursor

pub timestamp_for_next_frame : SyncClock → ℕ
timestamp_for_next_frame c = c.frame_cursor

-- uint64_t addition wraps.
pub timestamp_after_frames : SyncClock → ℕ → ℕ
timestamp_after_frames c frame_count = (c.frame_cursor + frame_count) % 2 ^ 64

unfoldable pub advance : ℕ → M SyncClock ℕ
advance frame_count = do
  clock ← get
  let timestamp = clock.frame_cursor
  modify (λ c. record c { frame_cursor = (c.frame_cursor + frame_count) % 2 ^ 64 })
  pure timestamp

pub frames_for_offset_ms : SyncClock → ℤ → ℤ
frames_for_offset_ms c offset_ms =
    let clamped_offset_ms = clamp_ℤ offset_ms (negsuc 1999) (pos 2000) in
    quot_ℤ (clamped_offset_ms *ℤ pos c.sample_rate) 1000
