-- ===== src/Core/Scheduler/Plan.antt =====
-- What `PacketScheduler::schedule` promises of the packets that it returns.
use foobar_universal_multiro.Base.{
  Bool-cases, inl, inr, keep_if, ℕ, ◌≡◌, refl, ◌<◌, ◌-◌, ◌+◌, ◌*◌, ◌/◌, ◌^◌, min, List, [], ◌∷◌,
  arith,
}
use foobar_universal_multiro.Base.Int.{ℤ, pos, negsuc, clamp_ℤ, ◌+ℤ◌, pos_part, min_ℤ, max_ℤ}
use foobar_universal_multiro.Base.Outcome.{ok}
use foobar_universal_multiro.Device.{OutputDevice}
use foobar_universal_multiro.Core.Scheduler.Frames.{frames_of, frames_for_ms-frames_of}
use foobar_universal_multiro.Core.Scheduler.Offset.{apply_offset-clamp}
use foobar_universal_multiro.Core.Scheduler.{
  PacketScheduleRequest, ScheduledPacket, schedule_output, schedule_each, schedule,
}

-- The packet `p` is the one that `output` is to get.
pub record Planned (request : PacketScheduleRequest) (output : OutputDevice) (p : ScheduledPacket)
    : Type 0 where
  pub for_output : p.output_id ≡ output.id
  pub of_stream : p.stream_timestamp ≡ request.stream_timestamp
  pub presented :
      pos p.presentation_timestamp
      ≡ clamp_ℤ
          (pos request.stream_timestamp +ℤ frames_of output.offset_ms request.sample_rate)
          (pos 0)
          (pos (2 ^ 64 - 1))
  pub led :
      p.lead_frames
      ≡ min (request.minimum_lead_ms + pos_part output.measured_latency_ms) (2 ^ 31 - 1)
        * request.sample_rate
        / 1000
  pub sent : p.earliest_send_timestamp ≡ p.presentation_timestamp - p.lead_frames
  pub sized : p.bytes ≡ request.bytes
  pub loud : p.volume ≡ output.volume
  pub anchored :
      (p.group_sync_start_rtp ≡ request.group_sync_start_rtp)
      × (p.group_sync_anchor_valid ≡ request.group_sync_anchor_valid)

-- The items of two lists fit one by one.
abbrev pub Aligned : {A B : Type 0} → (A → B → Type 0) → List A → List B → Type 0
Aligned R [] [] = Unit {0}
Aligned R [] (y ∷ ys) = ⊥
Aligned R (x ∷ xs) [] = ⊥
Aligned R (x ∷ xs) (y ∷ ys) = R x y × Aligned R xs ys

lead_parts :
    (lead_ms : ℕ) (latency : ℤ)
    → min_ℤ (pos lead_ms +ℤ max_ℤ (pos 0) latency) (pos (2 ^ 31 - 1))
      ≡ pos (min (lead_ms + pos_part latency) (2 ^ 31 - 1))
lead_parts lead_ms (pos n) = ground arith
lead_parts lead_ms (negsuc n) = ground arith

frames_of-pos : (ms rate : ℕ) → frames_of (pos ms) rate ≡ pos (ms * rate / 1000)
frames_of-pos ms rate = ground arith

-- One selected output gets its packet.
schedule_output-Planned :
    (request : PacketScheduleRequest) (output : OutputDevice)
    → 0 < request.sample_rate
    → request.stream_timestamp < 2 ^ 64
    → (p : ScheduledPacket) × (schedule_output request output ≡ ok p) × Planned request output p
unfolding schedule_output
schedule_output-Planned request output nz fits =
    rw (frames_for_ms-frames_of output.offset_ms request.sample_rate nz) (
      rw (lead_parts request.minimum_lead_ms output.measured_latency_ms) (
        rw
          (frames_for_ms-frames_of
            (pos (min (request.minimum_lead_ms + pos_part output.measured_latency_ms) (2 ^ 31 - 1)))
            request.sample_rate nz)
          (rw
            (frames_of-pos
              (min (request.minimum_lead_ms + pos_part output.measured_latency_ms) (2 ^ 31 - 1))
              request.sample_rate)
            (
              _,
              refl,
              record {
                for_output = refl;
                of_stream = refl;
                presented = apply_offset-clamp request.stream_timestamp _ fits;
                led = refl;
                sent = ground arith;
                sized = refl;
                loud = refl;
                anchored = (refl, refl);
              },
            ))))

schedule_each-Aligned :
    (request : PacketScheduleRequest) (outputs : List OutputDevice)
    → 0 < request.sample_rate
    → request.stream_timestamp < 2 ^ 64
    → (ps : List ScheduledPacket) × (schedule_each request outputs ≡ ok ps)
      × Aligned (Planned request) (keep_if (λ o. o.selected) outputs) ps
unfolding schedule_each keep_if
schedule_each-Aligned request [] nz fits = ([], refl, tt)
schedule_each-Aligned request (o ∷ os) nz fits = elim (Bool-cases o.selected) [
  | inl chosen ↦
      let (p, e, planned) = schedule_output-Planned request o nz fits in
      let (ps, f, rest) = schedule_each-Aligned request os nz fits in
      simp chosen (p ∷ ps, simp (e, f), (planned, rest))
  | inr skipped ↦ simp skipped (schedule_each-Aligned request os nz fits)
]

-- At a non-zero sample rate and a 64-bit timestamp the scheduler does not throw. It returns one packet
-- for each selected output, in their order, and each is planned as its output asks: presented at the
-- stream's time moved by the output's offset and kept in the range of `uint64_t`, and sent
-- ahead of that by the minimum lead with the measured latency added, at time 0 at the earliest.
pub schedule-Planned :
    (outputs : List OutputDevice) (request : PacketScheduleRequest)
    → 0 < request.sample_rate
    → request.stream_timestamp < 2 ^ 64
    → (ps : List ScheduledPacket) × (schedule outputs request ≡ ok ps)
      × Aligned (Planned request) (keep_if (λ o. o.selected) outputs) ps
unfolding schedule
schedule-Planned outputs request nz fits =
    let (ps, e, planned) = schedule_each-Aligned request outputs nz fits in
    (ps, ground (arith, e), planned)
