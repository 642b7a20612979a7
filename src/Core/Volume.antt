-- ===== src/Core/Volume.antt =====
-- components/foo_out_multiroom_bridge/core/volume_control.h
pub mod Rounding
use foobar_universal_multiro.Base.Int.{ℤ, pos, clamp_ℤ, ◌*ℤ◌, ◌+ℤ◌, quot_ℤ}

pub effective_output_volume_percent : ℤ → ℤ → ℤ
effective_output_volume_percent master_volume speaker_volume =
    let clamped_master = clamp_ℤ master_volume (pos 0) (pos 100) in
    let clamped_speaker = clamp_ℤ speaker_volume (pos 0) (pos 100) in
    clamp_ℤ (quot_ℤ (clamped_master *ℤ clamped_speaker +ℤ pos 50) 100) (pos 0) (pos 100)
