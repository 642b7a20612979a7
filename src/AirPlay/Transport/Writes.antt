-- ===== src/AirPlay/Transport/Writes.antt =====
-- What a write to the transport does: who gets a packet, and when.
use foobar_universal_multiro.AirPlay.Transport.State.{AirPlayTransport}
use foobar_universal_multiro.Core.Scheduler.Plan.{schedule-Planned, Aligned, Planned}
use foobar_universal_multiro.Core.Engine.{null_buffer}
use foobar_universal_multiro.Core.Scheduler.{ScheduledPacket}
use foobar_universal_multiro.AirPlay.Timing.{ntp_to_rtp_timestamp, current_ntp_timestamp}
use foobar_universal_multiro.AirPlay.Client.{AirPlayControlClient}
use foobar_universal_multiro.Core.Registry.{OutputRegistry}
use foobar_universal_multiro.Device.{OutputDevice}
use foobar_universal_multiro.Base.{
  All, All-keep_if, Bool, Bool-cases, List, Text, [], arith, contains, false, inl, inr, keep_if,
  refl, true, ℕ, ◌%◌, ◌+◌, ◌<◌, ◌^◌, ◌∷◌, ◌≡◌, ◌⊎◌, Option, subst, ◌-◌, ◌≢◌, is_empty,
  is_empty-cases, not, ◌&&◌,
}
use foobar_universal_multiro.AirPlay.Transport
use foobar_universal_multiro.AirPlay.Session
use foobar_universal_multiro.Core.Registry
use foobar_universal_multiro.Base.Outcome.{
  Threw, logic_error, invalid_argument, runtime_error, for_each, Outcome,
}

keep_if_whole :
    (p : OutputDevice → Bool) (xs : List OutputDevice)
    → All (λ x. p x ≡ true) xs
    → keep_if p xs ≡ xs
unfolding keep_if
keep_if_whole p [] h = refl
keep_if_whole p (x ∷ xs) h = ground (arith, h.0, keep_if_whole p xs h.1)

keep_if-All :
    (p : OutputDevice → Bool) (xs : List OutputDevice) → All (λ x. p x ≡ true) (keep_if p xs)
unfolding keep_if
keep_if-All p [] = tt
keep_if-All p (x ∷ xs) = elim (Bool-cases (p x)) [
  | inl e ↦ rw (e, keep_if) (e, keep_if-All p xs)
  | inr e ↦ rw (e, keep_if) (keep_if-All p xs)
]

-- The outputs that are given to the scheduler are selected.
ready_outputs-selected :
    (ids : List Text) (registry : OutputRegistry)
    → keep_if (λ output. output.selected) (Transport.ready_outputs ids registry)
      ≡ Transport.ready_outputs ids registry
ready_outputs-selected ids registry =
    keep_if_whole (λ output. output.selected) _
      (All-keep_if (λ output. output.selected ≡ true) (λ output. contains ids output.id)
        (Transport.selected_outputs registry)
        (keep_if-All (λ output. output.selected) (Registry.list registry)))

some_ready :
    (selected outputs : List OutputDevice)
    → (not (is_empty selected) && is_empty outputs) ≡ false
    → (selected ≡ []) ⊎ (outputs ≢ [])
unfolding is_empty
some_ready [] outputs h = inl refl
some_ready (o ∷ os) [] h = absurd (ground arith)
some_ready (o ∷ os) (p ∷ ps) h = inr (λ e. ground (arith, e))

-- Words of 64 bits: what was subtracted can be added again.
wrap_sub : (n s : ℕ) → s < 2 ^ 64 → ((n + 2 ^ 64 - s) % 2 ^ 64 + s) % 2 ^ 64 ≡ n % 2 ^ 64
wrap_sub n s h = omega arith

module _ (client : AirPlayControlClient) (is_numeric : Text → Bool) where
  open client use {State}

  -- The anchor stays as it is while it is set. Where it is not, the next reading of the clock sets it, so that the
  -- frame of this write falls on that reading, in 64-bit arithmetic; that reading is used up, and nothing else changes.
  pub set_anchor_lem :
      (stream_timestamp : ℕ) (t : AirPlayTransport State)
      → stream_timestamp < 2 ^ 64
      → let t' = Transport.set_anchor client is_numeric stream_timestamp t in
        let now_rtp =
          ntp_to_rtp_timestamp
            (current_ntp_timestamp (t.clock 0).0 (t.clock 0).1)
            t.stream_format.sample_rate in
        (t'.group_sync_anchor_valid ≡ true)
        × (t'.stream_format ≡ t.stream_format)
        × (((t.group_sync_anchor_valid ≡ true) × (t' ≡ t))
            ⊎ ((t.group_sync_anchor_valid ≡ false)
                × ((t'.group_sync_start_rtp + stream_timestamp) % 2 ^ 64 ≡ now_rtp % 2 ^ 64)
                × (t' ≡ record t {
                  clock = λ i. t.clock (i + 1);
                  group_sync_start_rtp = t'.group_sync_start_rtp;
                  group_sync_anchor_valid = true;
                })))
  unfolding Transport.set_anchor
  set_anchor_lem stream_timestamp t h = elim (Bool-cases t.group_sync_anchor_valid) [
    | inl e ↦ (ground (arith, e), ground (arith, e), inl (e, ground (arith, e)))
    | inr e ↦ (
      ground (arith, e),
      ground (arith, e),
      inr (
        e,
        let ntp = current_ntp_timestamp (t.clock 0).0 (t.clock 0).1 in
            unfold Transport.set_anchor in
            ground (
              arith,
              e,
              wrap_sub (ntp_to_rtp_timestamp ntp t.stream_format.sample_rate) stream_timestamp h,
            ),
        rw (e, Transport.set_anchor) refl,
      ),
    )
  ]

  -- The packets of one write: one for each ready output, each as the scheduler plans it from the anchored state.
  abbrev pub Sent :
      Option Text
      → ℕ
      → ℕ
      → AirPlayTransport State
      → List OutputDevice
      → Outcome (Unit {0}) × AirPlayTransport State
      → Type 0
  Sent frames bytes stream_timestamp t outputs r =
      let t' = Transport.set_anchor client is_numeric stream_timestamp t in
      (packets : List ScheduledPacket) × Aligned
        (Planned (Transport.request_of client is_numeric bytes stream_timestamp t')) outputs packets
      × (r
          ≡ Transport.on_sessions client is_numeric
              (for_each (λ packet. Session.enqueue client packet frames bytes) packets) t')

  send_frames-Sent :
      (outputs : List OutputDevice) (frames : Option Text) (bytes stream_timestamp : ℕ)
      (t : AirPlayTransport State)
      → 0 < t.stream_format.sample_rate
      → stream_timestamp < 2 ^ 64
      → keep_if (λ output. output.selected) outputs ≡ outputs
      → Sent frames bytes stream_timestamp t outputs
          (Transport.send_frames client is_numeric outputs frames bytes stream_timestamp t)
  unfolding Transport.send_frames
  send_frames-Sent outputs frames bytes stream_timestamp t rate fits selected =
      let t' = Transport.set_anchor client is_numeric stream_timestamp t in
      let same = (set_anchor_lem stream_timestamp t fits).1 in
      let request = Transport.request_of client is_numeric bytes stream_timestamp t' in
      let (packets, e, planned) =
        schedule-Planned outputs request (ground (arith, same, rate)) fits in
      (
        packets,
        subst (λ os. Aligned (Planned request) os packets) selected planned,
        ground (arith, e),
      )

  -- On a format with a sample rate and a 64-bit timestamp, a write does one of four things, each exactly in its case, of which
  -- the first that applies counts. On a stream that is not
  -- open, or with bytes but no buffer, or where outputs are selected and none of them has a ready session, it throws
  -- `logic_error`, `invalid_argument` or `runtime_error` and changes nothing. Otherwise scheduling does not fail: the
  -- anchor is set if it was not, and each selected output with a ready session, and no other, gets its packet
  -- as the scheduler plans it, all with that one anchor, handed to the sessions in the order of the registry.
  pub write_frames_cases :
      (frames : Option Text) (bytes stream_timestamp : ℕ) (t : AirPlayTransport State)
      → 0 < t.stream_format.sample_rate
      → stream_timestamp < 2 ^ 64
      → let r = Transport.write_frames client is_numeric frames bytes stream_timestamp t in
        let selected = Transport.selected_outputs t.registry in
        let outputs = Transport.ready_outputs (Session.ready_output_ids t.sessions) t.registry in
        ((t.stream_open ≡ false) × Threw logic_error r.0 × (r.1 ≡ t))
        ⊎ ((t.stream_open ≡ true)
            × (null_buffer frames bytes ≡ true)
            × Threw invalid_argument r.0
            × (r.1 ≡ t))
        ⊎ ((t.stream_open ≡ true)
            × (null_buffer frames bytes ≡ false)
            × (selected ≢ [])
            × (outputs ≡ [])
            × Threw runtime_error r.0
            × (r.1 ≡ t))
        ⊎ ((t.stream_open ≡ true)
            × (null_buffer frames bytes ≡ false)
            × ((selected ≡ []) ⊎ (outputs ≢ []))
            × Sent frames bytes stream_timestamp t outputs r)
  unfolding Transport.write_frames
  write_frames_cases frames bytes stream_timestamp t rate fits =
      let ids = Session.ready_output_ids t.sessions in
      let outputs = Transport.ready_outputs ids t.registry in
      let sent =
        send_frames-Sent outputs frames bytes stream_timestamp t rate fits
          (ready_outputs-selected ids t.registry) in
      let selected = Transport.selected_outputs t.registry in
      elim (Bool-cases t.stream_open) [
        | inr e ↦ unfold Transport.write_frames in inl (e, ground (arith, e), ground (arith, e))
        | inl e ↦ elim (Bool-cases (null_buffer frames bytes)) [
          | inl n ↦
              unfold Transport.write_frames in
              inr (inl (e, n, ground (arith, e, n), ground (arith, e, n)))
          | inr n ↦ elim (Bool-cases (not (is_empty selected) && is_empty outputs)) [
            | inl m ↦
                unfold Transport.write_frames in
                inr (
                  inr (
                    inl (
                      e,
                      n,
                      ground (arith, m, is_empty-cases selected),
                      ground (arith, m, is_empty-cases outputs),
                      ground (arith, e, n, m),
                      ground (arith, e, n, m),
                    )))
            | inr m ↦
                let (packets, planned, same) = sent in
                unfold Transport.write_frames in
                inr (
                  inr (
                    inr (
                      e,
                      n,
                      some_ready selected outputs m,
                      (packets, planned, ground (arith, e, n, m, same)),
                    )))
          ]
        ]
      ]
