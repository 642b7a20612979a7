-- ===== src/Core/Engine/Writes.antt =====
-- `write_interleaved_pcm`: one call on every branch, and the timestamps of a run of calls.
use foobar_universal_multiro.Core.Engine.Format.{
  IsPcm, frame_count_from_bytes_exact, frame_count_from_bytes-ok,
}
use foobar_universal_multiro.Core.SyncClock.{advance}
use foobar_universal_multiro.Core.Engine.{
  MultiroomEngine, write_interleaved_pcm, null_buffer, frame_count_from_bytes, bytes_per_frame,
}
use foobar_universal_multiro.Device.{Transport, PcmFormat}
use foobar_universal_multiro.Base.Outcome.{
  Outcome, ErrorKind, ok, throw, Threw, logic_error, invalid_argument,
}
use foobar_universal_multiro.Base.{
  ℕ, ◌≡◌, Option, Text, true, false, ◌+◌, ◌%◌, ◌^◌, arith, List, ◌⊎◌, ◌*◌, Bool-cases, inr, inl,
  ◌∷◌, ◌<◌, ◌/◌, [], refl,
}

-- What the engine returns when the transport has returned.
abbrev pub stamped : Outcome (Unit {0}) → ℕ → Outcome ℕ
stamped (ok _) timestamp = ok timestamp
stamped (throw x) timestamp = throw x

-- The call fails without a trace: the engine is as it was, and the transport was not called.
abbrev pub Refused :
    {S : Type 0} → ErrorKind → MultiroomEngine S → Outcome ℕ × MultiroomEngine S → Type 0
Refused k e r = Threw k r.0 × (r.1 ≡ e)

-- Buffers of whole frames, present where they have bytes.
abbrev pub AreWhole : PcmFormat → List (Option Text × ℕ) → Type 0
AreWhole format [] = Unit
AreWhole format ((frames, bytes) ∷ rest) =
    ((null_buffer frames bytes ≡ false) × (bytes % bytes_per_frame format ≡ 0))
    × AreWhole format rest

abbrev pub total : PcmFormat → List (Option Text × ℕ) → ℕ
total format [] = 0
total format ((frames, bytes) ∷ rest) = bytes / bytes_per_frame format + total format rest

module _ (t : Transport) where
  open t use {State}

  write-stamped :
      (frames : Option Text) (bytes n : ℕ) (e : MultiroomEngine State)
      → e.stream_open ≡ true
      → null_buffer frames bytes ≡ false
      → frame_count_from_bytes e.format bytes ≡ ok n
      → let sent = t.write_frames frames bytes e.clock.frame_cursor e.transport in
        write_interleaved_pcm t frames bytes e ≡ (
          stamped sent.0 e.clock.frame_cursor,
          record e {
            transport = sent.1;
            clock = record (e.clock) { frame_cursor = (e.clock.frame_cursor + n) % 2 ^ 64 };
          },
        )
  unfolding write_interleaved_pcm advance
  write-stamped frames bytes n e o b h = ground (arith, o, b, h)

  write-closed :
      (frames : Option Text) (bytes : ℕ) (e : MultiroomEngine State)
      → e.stream_open ≡ false
      → Refused logic_error e (write_interleaved_pcm t frames bytes e)
  unfolding write_interleaved_pcm
  write-closed frames bytes e o = ground (arith, o)

  write-null :
      (frames : Option Text) (bytes : ℕ) (e : MultiroomEngine State)
      → e.stream_open ≡ true
      → null_buffer frames bytes ≡ true
      → Refused invalid_argument e (write_interleaved_pcm t frames bytes e)
  unfolding write_interleaved_pcm
  write-null frames bytes e o b = ground (arith, o, b)

  write-partial :
      (frames : Option Text) (bytes : ℕ) (e : MultiroomEngine State)
      → e.stream_open ≡ true
      → null_buffer frames bytes ≡ false
      → Threw invalid_argument (frame_count_from_bytes e.format bytes)
      → Refused invalid_argument e (write_interleaved_pcm t frames bytes e)
  unfolding write_interleaved_pcm
  write-partial frames bytes e o b h = ground (arith, o, b, h)

  -- Every call of `write_interleaved_pcm` takes one of four ways, by the first condition that holds. On a closed stream it throws
  -- `logic_error`; given a null buffer with bytes, or bytes that are no whole frames of a valid format, it throws
  -- `invalid_argument`; in these cases nothing changes and the transport is not called. Otherwise the
  -- transport gets the buffer with the clock's frame as its timestamp, the clock moves on by the number of
  -- frames, modulo 2^64, also if the transport throws, and the timestamp is returned unless it throws.
  pub write_interleaved_pcm_cases :
      (frames : Option Text) (bytes : ℕ) (e : MultiroomEngine State)
      → let r = write_interleaved_pcm t frames bytes e in
        let sent = t.write_frames frames bytes e.clock.frame_cursor e.transport in
        ((e.stream_open ≡ false) × Refused logic_error e r)
        ⊎ ((e.stream_open ≡ true)
            × (null_buffer frames bytes ≡ true)
            × Refused invalid_argument e r)
        ⊎ ((e.stream_open ≡ true)
            × (null_buffer frames bytes ≡ false)
            × ¬ (IsPcm e.format × (bytes % bytes_per_frame e.format ≡ 0))
            × Refused invalid_argument e r)
        ⊎ ((n : ℕ) × (e.stream_open ≡ true)
            × (null_buffer frames bytes ≡ false)
            × IsPcm e.format
            × (n * bytes_per_frame e.format ≡ bytes)
            × (r ≡ (
              stamped sent.0 e.clock.frame_cursor,
              record e {
                transport = sent.1;
                clock = record (e.clock) { frame_cursor = (e.clock.frame_cursor + n) % 2 ^ 64 };
              },
            )))
  write_interleaved_pcm_cases frames bytes e = elim (Bool-cases e.stream_open) [
    | inr closed ↦ inl (closed, write-closed frames bytes e closed)
    | inl open_ ↦ elim (Bool-cases (null_buffer frames bytes)) [
      | inl null ↦ inr (inl (open_, null, write-null frames bytes e open_ null))
      | inr given ↦ elim (frame_count_from_bytes_exact e.format bytes) [
        | inr (thrown, bad) ↦
            inr (inr (inl (open_, given, bad, write-partial frames bytes e open_ given thrown)))
        | inl (n, counted, pcm, whole) ↦ inr (
            inr (
              inr
                (n, open_, given, pcm, whole, write-stamped frames bytes n e open_ given counted)))
      ]
    ]
  ]

  -- A run of calls of a host that goes on after an exception, and what each of them returned or threw.
  abbrev pub write_each :
      List (Option Text × ℕ) → MultiroomEngine State → List (Outcome ℕ) × MultiroomEngine State
  write_each [] e = ([], e)
  write_each ((frames, bytes) ∷ rest) e =
      let (o, e') = write_interleaved_pcm t frames bytes e in
      let (os, e'') = write_each rest e' in (o ∷ os, e'')

  -- Each buffer went to the transport, in some state of it, with the frame at which it starts, and that frame is what the
  -- call returned unless the transport threw. The first starts at frame `s`, and they follow without a gap.
  abbrev pub Gapless : PcmFormat → ℕ → List (Option Text × ℕ) → List (Outcome ℕ) → Type 0
  Gapless format s [] [] = Unit
  Gapless format s ((frames, bytes) ∷ rest) (o ∷ os) =
      ((state : State) × (o ≡ stamped (t.write_frames frames bytes s state).0 s))
      × Gapless format ((s + bytes / bytes_per_frame format) % 2 ^ 64) rest os
  Gapless format s _ _ = ⊥

  -- Into an open stream of a valid format, over any transport, also one that throws, a run of whole-frame buffers gets
  -- gapless timestamps: the first is the clock's frame, and each later one is the one before plus that buffer's frames,
  -- modulo 2^64, whether the transport took that buffer or threw. The clock is then at the end of the last
  -- buffer, and the stream is still open.
  pub write_each-Gapless :
      (buffers : List (Option Text × ℕ)) (e : MultiroomEngine State)
      → e.stream_open ≡ true
      → IsPcm e.format
      → AreWhole e.format buffers
      → e.clock.frame_cursor < 2 ^ 64
      → let r = write_each buffers e in
        Gapless e.format e.clock.frame_cursor buffers r.0
        × (r.1.clock.frame_cursor ≡ (e.clock.frame_cursor + total e.format buffers) % 2 ^ 64)
        × (r.1.stream_open ≡ true)
  write_each-Gapless [] e o v w h = (tt, omega arith, o)
  write_each-Gapless ((frames, bytes) ∷ rest) e o v ((given, whole), w) h =
      let n = bytes / bytes_per_frame e.format in
      let sent = t.write_frames frames bytes e.clock.frame_cursor e.transport in
      let e' = record e {
        transport = sent.1;
        clock = record (e.clock) { frame_cursor = (e.clock.frame_cursor + n) % 2 ^ 64 };
      } in
      rw (write-stamped frames bytes n e o given (frame_count_from_bytes-ok e.format bytes v whole))
        (let (gapless, at_end, open_) = write_each-Gapless rest e' o v w (omega arith) in
          (((e.transport, refl), gapless), omega (arith, at_end), open_))
