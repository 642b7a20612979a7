-- ===== src/Core/Scheduler.antt =====
-- components/foo_out_multiroom_bridge/core/packet_scheduler.h and packet_scheduler.cpp
pub mod Offset
pub mod Frames
pub mod Plan
use foobar_universal_multiro.Base.{
  ℕ, ◌+◌, ◌-◌, ◌^◌, ◌==◌, ltb, Bool, List, [], ◌∷◌, Text, codes, if◌then◌else◌, zero,
}
use foobar_universal_multiro.Base.Int.{
  ℤ, pos, ltb_ℤ, ◌*ℤ◌, ◌+ℤ◌, quot_ℤ, max_ℤ, min_ℤ, pos_part, neg_part,
}
use foobar_universal_multiro.Base.Outcome.{Outcome, ok, invalid_argument}
use foobar_universal_multiro.Base.Throws.{fail_if, ◌>>=◌, ◌>>◌}
use foobar_universal_multiro.Device.{OutputDevice}

pub record PacketScheduleRequest : Type 0 where
  pub stream_timestamp : ℕ
  pub bytes : ℕ
  pub sample_rate : ℕ
  pub minimum_lead_ms : ℕ
  pub group_sync_start_rtp : ℕ
  pub group_sync_anchor_valid : Bool

pub record ScheduledPacket : Type 0 where
  pub output_id : Text
  pub stream_timestamp : ℕ
  pub presentation_timestamp : ℕ
  pub earliest_send_timestamp : ℕ
  pub lead_frames : ℕ
  pub bytes : ℕ
  pub volume : ℤ
  pub offset_ms : ℤ
  pub measured_latency_ms : ℤ
  pub group_sync_start_rtp : ℕ
  pub group_sync_anchor_valid : Bool

pub frames_for_ms : ℤ → ℕ → Outcome ℤ
frames_for_ms milliseconds sample_rate = do
  fail_if (sample_rate == 0) invalid_argument (codes "Sample rate cannot be zero.")
  ok (quot_ℤ (milliseconds *ℤ pos sample_rate) 1000)

abbrev max_timestamp : ℕ
max_timestamp = 2 ^ 64 - 1

pub apply_offset : ℕ → ℤ → ℕ
apply_offset timestamp offset_frames =
    if ltb_ℤ offset_frames (pos 0)
    then (if ltb timestamp (neg_part offset_frames) then 0 else timestamp - neg_part offset_frames)
    else if ltb (max_timestamp - timestamp) (pos_part offset_frames)
    then max_timestamp
    else timestamp + pos_part offset_frames

-- The body of the loop for a selected output.
pub schedule_output : PacketScheduleRequest → OutputDevice → Outcome ScheduledPacket
schedule_output request output = do
  offset_frames ← frames_for_ms output.offset_ms request.sample_rate
  let presentation_timestamp = apply_offset request.stream_timestamp offset_frames
  let measured_latency_ms = max_ℤ (pos 0) output.measured_latency_ms
  let lead_ms = min_ℤ (pos request.minimum_lead_ms +ℤ measured_latency_ms) (pos (2 ^ 31 - 1))
  lead ← frames_for_ms lead_ms request.sample_rate
  let lead_frames = pos_part lead
  ok (record {
    output_id = output.id;
    stream_timestamp = request.stream_timestamp;
    presentation_timestamp = presentation_timestamp;
    earliest_send_timestamp =
        if ltb lead_frames presentation_timestamp then presentation_timestamp - lead_frames else 0;
    lead_frames = lead_frames;
    bytes = request.bytes;
    volume = output.volume;
    offset_ms = output.offset_ms;
    measured_latency_ms = output.measured_latency_ms;
    group_sync_start_rtp = request.group_sync_start_rtp;
    group_sync_anchor_valid = request.group_sync_anchor_valid;
  })

schedule_each : PacketScheduleRequest → List OutputDevice → Outcome (List ScheduledPacket)
schedule_each request [] = ok []
schedule_each request (output ∷ outputs) =
    let rest = schedule_each request outputs in
    if output.selected
    then (do packet ← schedule_output request output; packets ← rest; ok (packet ∷ packets))
    else rest

pub schedule : List OutputDevice → PacketScheduleRequest → Outcome (List ScheduledPacket)
schedule outputs request = do
  fail_if (request.sample_rate == 0) invalid_argument (codes "Sample rate cannot be zero.")
  schedule_each request outputs
