-- ===== src/Core/Engine.antt =====
-- components/foo_out_multiroom_bridge/core/multiroom_engine.h and multiroom_engine.cpp, over any
-- implementation of the `Transport` interface.
pub mod Format
pub mod Writes
pub mod Invariant
use foobar_universal_multiro.Base.{
  ℕ, ◌*◌, ◌/◌, ◌%◌, ◌==◌, Bool, true, false, not, ◌||◌, Option, none, some, List, Text, codes, zero,
}
use foobar_universal_multiro.Base.Int.{ℤ}
use foobar_universal_multiro.Base.Outcome.{
  Outcome, ok, M, modify, get, within, throw_if, pure, logic_error, invalid_argument, ◌>>=◌, ◌>>◌,
}
use foobar_universal_multiro.Base.Throws.{fail_if, lift}
use foobar_universal_multiro.Base.Throws as Throws
use foobar_universal_multiro.Device.{OutputDevice, PcmFormat, Transport, default_format}
use foobar_universal_multiro.Core.SyncClock.{SyncClock}
use foobar_universal_multiro.Core.SyncClock

pub validate_format : PcmFormat → Outcome (Unit {0})
validate_format format =
    Throws.◌>>◌
      (fail_if (format.sample_rate == 0 || format.channels == 0 || format.bits_per_sample == 0)
        invalid_argument
        (codes "PCM format must have non-zero sample rate, channels, and bit depth."))
      (fail_if (not (format.bits_per_sample % 8 == 0)) invalid_argument
        (codes "PCM bit depth must be byte aligned."))

-- `size_t` has 64 bits: the product of two 32-bit numbers does not wrap.
abbrev pub bytes_per_frame : PcmFormat → ℕ
bytes_per_frame format = format.channels * (format.bits_per_sample / 8)

pub frame_count_from_bytes : PcmFormat → ℕ → Outcome ℕ
unfolding validate_format
frame_count_from_bytes format bytes = Throws.◌>>◌ (validate_format format) (
    Throws.◌>>◌
      (fail_if (bytes_per_frame format == 0) invalid_argument
        (codes "PCM format produces zero bytes per frame."))
      (Throws.◌>>◌
        (fail_if (not (bytes % bytes_per_frame format == 0)) invalid_argument
          (codes "PCM byte count must contain whole interleaved frames."))
        (ok (bytes / bytes_per_frame format))))

-- `frames == nullptr && bytes != 0`
abbrev pub null_buffer : Option Text → ℕ → Bool
null_buffer none bytes = not (bytes == 0)
null_buffer (some _) bytes = false

pub record MultiroomEngine (S : Type 0) : Type 0 where
  pub transport : S
  pub clock : SyncClock
  pub format : PcmFormat
  pub stream_open : Bool

module _ (t : Transport) where
  open t use {State}

  pub make_engine : State → MultiroomEngine State
  make_engine s = record {
    transport = s;
    clock = record { sample_rate = 48000; frame_cursor = 0 };
    format = default_format;
    stream_open = false;
  }

  -- A call of a member object's method.
  abbrev on_transport : {A : Type 0} → M State A → M (MultiroomEngine State) A
  on_transport = within (λ e. e.transport) (λ e s. record e { transport = s })

  abbrev on_clock : {A : Type 0} → M SyncClock A → M (MultiroomEngine State) A
  on_clock = within (λ e. e.clock) (λ e c. record e { clock = c })

  pub start_discovery : M (MultiroomEngine State) (Unit {0})
  start_discovery = on_transport t.start_discovery

  pub stop_discovery : M (MultiroomEngine State) (Unit {0})
  stop_discovery = on_transport t.stop_discovery

  pub refresh_discovery : ℕ → M (MultiroomEngine State) (Unit {0})
  refresh_discovery timeout = on_transport (t.refresh_discovery timeout)

  pub list_outputs : M (MultiroomEngine State) (List OutputDevice)
  list_outputs = on_transport t.list_outputs

  pub select_outputs : List Text → M (MultiroomEngine State) (Unit {0})
  select_outputs ids = on_transport (t.set_enabled_outputs ids)

  pub set_output_volume : Text → ℤ → M (MultiroomEngine State) (Unit {0})
  set_output_volume id volume = on_transport (t.set_output_volume id volume)

  pub set_output_offset_ms : Text → ℤ → M (MultiroomEngine State) (Unit {0})
  set_output_offset_ms id offset_ms = on_transport (t.set_output_offset_ms id offset_ms)

  unfoldable pub open_stream : PcmFormat → M (MultiroomEngine State) (Unit {0})
  open_stream format = do
    lift (validate_format format)
    modify (λ e. record e { format = format })
    on_clock (SyncClock.set_sample_rate format.sample_rate)
    on_transport (t.open_stream format)
    modify (λ e. record e { stream_open = true })

  pub write_interleaved_pcm : Option Text → ℕ → M (MultiroomEngine State) ℕ
  write_interleaved_pcm frames bytes = do
    e ← get
    throw_if (not e.stream_open) logic_error (codes "Multiroom stream is not open.")
    throw_if (null_buffer frames bytes) invalid_argument
        (codes "PCM buffer cannot be null when bytes are present.")
    frame_count ← lift (frame_count_from_bytes e.format bytes)
    timestamp ← on_clock (SyncClock.advance frame_count)
    on_transport (t.write_frames frames bytes timestamp)
    pure timestamp

  pub flush : M (MultiroomEngine State) (Unit {0})
  flush = do on_clock (SyncClock.reset 0); on_transport t.flush

  unfoldable pub stop : M (MultiroomEngine State) (Unit {0})
  stop = do
    modify (λ e. record e { stream_open = false })
    on_clock (SyncClock.reset 0)
    on_transport t.stop

  pub current_frame : MultiroomEngine State → ℕ
  current_frame e = SyncClock.current_frame e.clock

  pub stream_open : MultiroomEngine State → Bool
  stream_open e = e.stream_open
