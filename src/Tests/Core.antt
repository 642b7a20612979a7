-- ===== src/Tests/Core.antt =====
-- The engine, the registry, the scheduler, the clock and the volume on small inputs.
use foobar_universal_multiro.Core.Registry.Selection.{Known, set_enabled_outputs_exact}
use foobar_universal_multiro.Core.Scheduler.Frames.{frames_for_ms_exact}
use foobar_universal_multiro.Core.Scheduler.Plan.{Aligned, Planned, schedule-Planned}
use foobar_universal_multiro.Core.Volume.Rounding.{percent, effective_output_volume_percent_rounds}
use foobar_universal_multiro.Core.Scheduler.Offset.{apply_offset-clamp}
use foobar_universal_multiro.Core.Engine.Format.{IsPcm}
use foobar_universal_multiro.Core.Volume.{effective_output_volume_percent}
use foobar_universal_multiro.Core.Registry.Entries.{Changes, setters-Changes}
use foobar_universal_multiro.Base.Int.{
  pos, ℤ, pos_part, clamp_ℤ, negsuc, ◌≤ℤ◌, max_ℤ, ◌+ℤ◌, ◌*ℤ◌, neg_part,
}
use foobar_universal_multiro.Core.Engine.Writes.{
  Refused, stamped, write_each, write_each-Gapless, Gapless, total, write_interleaved_pcm_cases,
}
use foobar_universal_multiro.Core.SyncClock.{SyncClock}
use foobar_universal_multiro.Core.Scheduler.{
  PacketScheduleRequest, ScheduledPacket, apply_offset, frames_for_ms, schedule,
}
use foobar_universal_multiro.Device.{Transport, OutputDevice, default_format, default_output}
use foobar_universal_multiro.Core.Registry.{OutputRegistry, clamped, change}
use foobar_universal_multiro.Core.Engine.{
  MultiroomEngine, frame_count_from_bytes, write_interleaved_pcm, null_buffer, bytes_per_frame,
}
use foobar_universal_multiro.Base.{
  List, Option, Text, [], arith, codes, contains, false, keep_if, none, refl, some, true, ℕ, ◌%◌,
  ◌*◌, ◌++◌, ◌+◌, ◌-◌, ◌<◌, ◌^◌, ◌∷◌, ◌≡◌, ◌≤◌, ◌⊎◌,
}
use foobar_universal_multiro.Core.Registry
use foobar_universal_multiro.Core.Registry.Invariant as Registered
use foobar_universal_multiro.Core.Engine
use foobar_universal_multiro.Core.Engine.Invariant as Engines
use foobar_universal_multiro.Base.Outcome.{
  modify, pure, ok, out_of_range, invalid_argument, logic_error, Threw, throw, runtime_error,
}

-- A transport that takes every call and remembers the timestamps of the writes.
abbrev recorder : Transport
recorder = record {
  State = List ℕ;
  start_discovery = pure tt;
  stop_discovery = pure tt;
  refresh_discovery = λ timeout. pure tt;
  list_outputs = pure [];
  set_enabled_outputs = λ ids. pure tt;
  set_output_volume = λ id volume. pure tt;
  set_output_offset_ms = λ id offset_ms. pure tt;
  set_playback_metadata = λ metadata. pure tt;
  clear_playback_metadata = pure tt;
  open_stream = λ format. pure tt;
  write_frames = λ frames bytes timestamp. modify (λ s. s ++ timestamp ∷ []);
  flush = pure tt;
  stop = modify (λ s. []);
}

-- An engine in the middle of a stream of 16-bit stereo, near the end of the counter.
abbrev playing : MultiroomEngine (List ℕ)
playing = record {
  transport = [];
  clock = record { sample_rate = 48000; frame_cursor = 2 ^ 64 - 1 };
  format = default_format;
  stream_open = true;
}

-- A transport that notes the timestamp and throws.
abbrev thrower : Transport
thrower = record recorder {
  write_frames = λ frames bytes timestamp s.
      (throw (record { kind = runtime_error; what = codes "No session." }), timestamp ∷ s);
}

abbrev buffers : List (Option Text × ℕ)
buffers = (some (codes "abcdefgh"), 8) ∷ (none, 0) ∷ (some (codes "abcd"), 4) ∷ []

abbrev speaker : OutputDevice
speaker = record default_output {
  id = codes "a";
  selected = true;
  volume = pos 30;
  offset_ms = negsuc 99;
  measured_latency_ms = pos 20;
}

abbrev one_output : OutputRegistry
one_output = (codes "a", speaker) ∷ []

abbrev request : PacketScheduleRequest
request = record {
  stream_timestamp = 96000;
  bytes = 1408;
  sample_rate = 48000;
  minimum_lead_ms = 250;
  group_sync_start_rtp = 7;
  group_sync_anchor_valid = true;
}

abbrev clock : SyncClock
clock = record { sample_rate = 44100; frame_cursor = 0 }

write_interleaved_pcm_example :
    ((playing.stream_open ≡ false)
      × Refused logic_error playing
          (write_interleaved_pcm recorder (some (codes "abcdefgh")) 8 playing))
    ⊎ ((playing.stream_open ≡ true)
        × (null_buffer (some (codes "abcdefgh")) 8 ≡ true)
        × Refused invalid_argument playing
            (write_interleaved_pcm recorder (some (codes "abcdefgh")) 8 playing))
    ⊎ ((playing.stream_open ≡ true)
        × (null_buffer (some (codes "abcdefgh")) 8 ≡ false)
        × ¬ (IsPcm playing.format × (8 % bytes_per_frame playing.format ≡ 0))
        × Refused invalid_argument playing
            (write_interleaved_pcm recorder (some (codes "abcdefgh")) 8 playing))
    ⊎ ((n : ℕ) × (playing.stream_open ≡ true)
        × (null_buffer (some (codes "abcdefgh")) 8 ≡ false)
        × IsPcm playing.format
        × (n * bytes_per_frame playing.format ≡ 8)
        × (write_interleaved_pcm recorder (some (codes "abcdefgh")) 8 playing ≡ (
          stamped (ok tt) playing.clock.frame_cursor,
          record playing {
            transport = playing.clock.frame_cursor ∷ [];
            clock = record (playing.clock) {
              frame_cursor = (playing.clock.frame_cursor + n) % 2 ^ 64;
            };
          },
        )))
write_interleaved_pcm_example =
    write_interleaved_pcm_cases recorder (some (codes "abcdefgh")) 8 playing

write_each-Gapless_example :
    Gapless thrower playing.format playing.clock.frame_cursor buffers
      (write_each thrower buffers playing).0
    × ((write_each thrower buffers playing).1.clock.frame_cursor
        ≡ (playing.clock.frame_cursor + total playing.format buffers) % 2 ^ 64)
    × ((write_each thrower buffers playing).1.stream_open ≡ true)
write_each-Gapless_example =
    write_each-Gapless thrower buffers playing refl
      (record {
        rate_pos = omega arith;
        channels_pos = omega arith;
        bits_pos = omega arith;
        aligned = refl;
      })
      ((refl, refl), ((refl, refl), ((refl, refl), tt))) (omega arith)

run-make_engine-IsConsistent_example : Engines.IsConsistent (
    Engines.run recorder
      (Engines.opens default_format ∷ Engines.writes (some (codes "abcd")) 4 ∷ Engines.stops ∷ [])
      (Engine.make_engine recorder []))
run-make_engine-IsConsistent_example =
    Engines.run-make_engine-IsConsistent recorder
      (Engines.opens default_format ∷ Engines.writes (some (codes "abcd")) 4 ∷ Engines.stops ∷ [])
      []

run-nil-IsRegistry_example : Registered.IsRegistry (
    Registered.run
      (Registered.upserts speaker
        ∷ Registered.sets_volume (codes "a") (pos 900)
        ∷ Registered.enables (codes "b" ∷ [])
        ∷ [])
      [])
run-nil-IsRegistry_example = Registered.run-nil-IsRegistry (
    Registered.upserts speaker
    ∷ Registered.sets_volume (codes "a") (pos 900)
    ∷ Registered.enables (codes "b" ∷ [])
    ∷ [])

set_enabled_outputs_example :
    (((id : Text) → contains (codes "a" ∷ []) id ≡ true → Known one_output id)
      × ((Registry.set_enabled_outputs (codes "a" ∷ []) one_output).0 ≡ ok tt)
      × ((k : Text)
          → Registry.find k (Registry.set_enabled_outputs (codes "a" ∷ []) one_output).1
            ≡ elim (Registry.find k one_output) [
              | none ↦ none
              | some output ↦ some (record output { selected = contains (codes "a" ∷ []) k })
            ]))
    ⊎ (((id : Text) × (contains (codes "a" ∷ []) id ≡ true) × (Registry.find id one_output ≡ none))
        × Threw out_of_range (Registry.set_enabled_outputs (codes "a" ∷ []) one_output).0
        × ((Registry.set_enabled_outputs (codes "a" ∷ []) one_output).1 ≡ one_output))
set_enabled_outputs_example = set_enabled_outputs_exact (codes "a" ∷ []) one_output

setters-Changes_example :
    Changes
      (codes "a")
      (λ output. record output { volume = clamp_ℤ (pos 900) (pos 0) (pos 100) })
      one_output
      (Registry.set_output_volume (codes "a") (pos 900) one_output)
    × Changes
        (codes "a")
        (λ output. record output { offset_ms = clamp_ℤ (pos 900) (negsuc 1999) (pos 2000) })
        one_output
        (Registry.set_output_offset_ms (codes "a") (pos 900) one_output)
    × Changes
        (codes "a")
        (λ output. record output { measured_latency_ms = max_ℤ (pos 0) (pos 900) })
        one_output
        (Registry.set_measured_latency_ms (codes "a") (pos 900) one_output)
setters-Changes_example = setters-Changes (codes "a") (pos 900) one_output

schedule-Planned_example :
    (ps : List ScheduledPacket) × (schedule (speaker ∷ []) request ≡ ok ps)
    × Aligned (Planned request) (keep_if (λ o. o.selected) (speaker ∷ [])) ps
schedule-Planned_example = schedule-Planned (speaker ∷ []) request (omega arith) (omega arith)

apply_offset-clamp_example :
    pos (apply_offset 10 (negsuc 99)) ≡ clamp_ℤ (pos 10 +ℤ negsuc 99) (pos 0) (pos (2 ^ 64 - 1))
apply_offset-clamp_example = apply_offset-clamp 10 (negsuc 99) (omega arith)

frames_for_ms_example :
    (frames : ℤ) × (frames_for_ms (negsuc 10) 44100 ≡ ok frames)
    × (negsuc (2 ^ 63 - 1) ≤ℤ negsuc 10 *ℤ pos 44100)
    × (negsuc 10 *ℤ pos 44100 ≤ℤ pos (2 ^ 63 - 1))
    × (1000 * pos_part frames ≤ pos_part (negsuc 10) * 44100)
    × (pos_part (negsuc 10) * 44100 < 1000 * pos_part frames + 1000)
    × (1000 * neg_part frames ≤ neg_part (negsuc 10) * 44100)
    × (neg_part (negsuc 10) * 44100 < 1000 * neg_part frames + 1000)
frames_for_ms_example =
    frames_for_ms_exact (negsuc 10) 44100 (omega arith) (omega arith) (omega arith) (omega arith)

volume_rounds_example :
    (r : ℕ) × (effective_output_volume_percent (pos 33) (pos 150) ≡ pos r)
    × (r ≤ 100)
    × (100 * r ≤ percent (pos 33) * percent (pos 150) + 50)
    × (percent (pos 33) * percent (pos 150) + 50 < 100 * r + 100)
volume_rounds_example = effective_output_volume_percent_rounds (pos 33) (pos 150)
