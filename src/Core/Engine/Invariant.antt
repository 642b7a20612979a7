-- ===== src/Core/Engine/Invariant.antt =====
-- What holds of the engine after any history of calls, whatever the transport does.
use foobar_universal_multiro.Core.Engine.Writes.{write_interleaved_pcm_cases}
use foobar_universal_multiro.Core.SyncClock.{set_sample_rate, reset}
use foobar_universal_multiro.Core.Engine.Format.{IsPcm, validate_format-cases, validate_format-ok}
use foobar_universal_multiro.Device.{Transport, PcmFormat}
use foobar_universal_multiro.Core.Engine.{
  MultiroomEngine, start_discovery, open_stream, write_interleaved_pcm, make_engine, stop_discovery,
  list_outputs, flush, stop, refresh_discovery, select_outputs, set_output_volume,
  set_output_offset_ms,
}
use foobar_universal_multiro.Base.Int.{ℤ}
use foobar_universal_multiro.Base.{
  List, Option, Text, [], arith, inl, inr, refl, ℕ, ◌<◌, ◌^◌, ◌∷◌, ◌≡◌,
}

-- The calls that the component makes.
pub data Call : Type 0 where
  starts_discovery stops_discovery lists flushes stops : Call
  refreshes : ℕ → Call
  selects : List Text → Call
  sets_volume sets_offset : Text → ℤ → Call
  opens : PcmFormat → Call
  writes : Option Text → ℕ → Call

-- The clock runs at the rate of a valid format, and counts frames in 64 bits.
pub record IsConsistent {S : Type 0} (e : MultiroomEngine S) : Type 0 where
  pub rates_agree : e.clock.sample_rate ≡ e.format.sample_rate
  pub pcm : IsPcm e.format
  pub fits : e.clock.frame_cursor < 2 ^ 64

module _ (t : Transport) where
  open t use {State}

  -- The state after a call, whether it returns or throws.
  pub step : Call → MultiroomEngine State → MultiroomEngine State
  step starts_discovery e = (start_discovery t e).1
  step stops_discovery e = (stop_discovery t e).1
  step lists e = (list_outputs t e).1
  step flushes e = (flush t e).1
  step stops e = (stop t e).1
  step (refreshes timeout) e = (refresh_discovery t timeout e).1
  step (selects ids) e = (select_outputs t ids e).1
  step (sets_volume id volume) e = (set_output_volume t id volume e).1
  step (sets_offset id offset_ms) e = (set_output_offset_ms t id offset_ms e).1
  step (opens format) e = (open_stream t format e).1
  step (writes frames bytes) e = (write_interleaved_pcm t frames bytes e).1

  pub run : List Call → MultiroomEngine State → MultiroomEngine State
  run [] e = e
  run (c ∷ cs) e = run cs (step c e)

  open_stream-IsConsistent :
      (format : PcmFormat) (e : MultiroomEngine State)
      → IsConsistent e
      → IsConsistent (open_stream t format e).1
  unfolding open_stream set_sample_rate
  open_stream-IsConsistent format e v = elim (validate_format-cases format) [
    | inl pcm ↦ ground (arith, validate_format-ok format pcm, pcm.rate_pos)
    | inr (thrown, _) ↦ ground (arith, thrown)
  ]

  write-IsConsistent :
      (frames : Option Text) (bytes : ℕ) (e : MultiroomEngine State)
      → IsConsistent e
      → IsConsistent (write_interleaved_pcm t frames bytes e).1
  write-IsConsistent frames bytes e v = ground (arith, write_interleaved_pcm_cases t frames bytes e)

  step-IsConsistent :
      (c : Call) (e : MultiroomEngine State) → IsConsistent e → IsConsistent (step c e)
  unfolding step start_discovery stop_discovery list_outputs flush stop refresh_discovery
      select_outputs set_output_volume set_output_offset_ms reset
  step-IsConsistent (opens format) e v = open_stream-IsConsistent format e v
  step-IsConsistent (writes frames bytes) e v = write-IsConsistent frames bytes e v
  step-IsConsistent _ e v = ground arith

  run-IsConsistent :
      (cs : List Call) (e : MultiroomEngine State) → IsConsistent e → IsConsistent (run cs e)
  unfolding run
  run-IsConsistent [] e v = v
  run-IsConsistent (c ∷ cs) e v = run-IsConsistent cs (step c e) (step-IsConsistent c e v)

  -- From a new engine, after any sequence of calls, those that throw included and whatever the transport
  -- answers, the clock runs at the sample rate of the engine's format, that format is valid, and the frame
  -- counter fits in 64 bits.
  pub run-make_engine-IsConsistent :
      (cs : List Call) (s : State) → IsConsistent (run cs (make_engine t s))
  unfolding make_engine
  run-make_engine-IsConsistent cs s =
      run-IsConsistent cs (make_engine t s)
        (record { rates_agree = refl; pcm = omega arith; fits = omega arith })
