-- ===== src/Component/Output/Sections.antt =====
-- multiroom_output.cpp: the state of the output plugin, and what its methods and its render thread do to it under `queue_mutex_`.
use foobar_universal_multiro.Device.{PcmFormat}
use foobar_universal_multiro.Base.{
  Text, Bool, List, Option, [], drop, false, if◌then◌else◌, is_empty, leb, length, ltb, min, not,
  suc, take, true, zero, ℕ, ◌%◌, ◌&&◌, ◌++◌, ◌+◌, ◌-◌, ◌/◌, ◌==◌, ◌^◌, ◌||◌, ◌∷◌, arith, ◌≡◌,
}

-- The two samples of a frame, as 16-bit words.
abbrev pub PcmFrame : Type 0
PcmFrame = ℕ × ℕ

-- `kAirPlayPacketFrames`
abbrev pub packet_frames : ℕ
packet_frames = 352

abbrev pub le16 : ℕ → Text
le16 sample = sample % 256 ∷ sample / 256 % 256 ∷ []

-- The loop over the frames: `append_le16` of both samples.
pub encode : List PcmFrame → Text
encode [] = []
encode ((left, right) ∷ frames) = le16 left ++ (le16 right ++ encode frames)

-- The loop that fills the packet with silence.
pub silence : ℕ → Text
silence zero = []
silence (suc frames) = le16 0 ++ (le16 0 ++ silence frames)

-- The bytes of a packet of at most 352 frames.
unfoldable pub packet_of : List PcmFrame → Text
unfolding encode silence
packet_of frames = encode frames ++ silence (packet_frames - length frames)

-- What `open` is asked for.
pub record Spec : Type 0 where
  pub sample_rate : ℕ
  pub channels : ℕ

-- Where the render thread is. `absent`: not joinable.
pub data Worker : Type 0 where
  absent : Worker
  beginning : Worker
  opening : PcmFormat → Worker
  waiting : Worker
  pacing : ℕ → Worker
  flushing : Worker
  in_flush : Worker
  sending : List PcmFrame → ℕ → Worker
  calling : List PcmFrame → Worker
  failing : Text → Worker
  reporting : Text → Worker
  ending : Worker
  done : Worker

-- Where the thread of the host is: outside, or in `stop_stream` (with whether it is to stop the transport, and what
-- `open` waits for), or in `open` behind it.
pub data Host : Type 0 where
  free : Host
  joining : Bool → Option Spec → Host
  halting : Bool → Option Spec → Host
  starting : Spec → Host

pub record MultiroomOutput : Type 0 where
  pub pcm_queue : List PcmFrame
  pub worker_error : Text
  pub capacity_frames : ℕ
  pub sample_rate : ℕ
  pub playback_format : PcmFormat
  pub stream_epoch : ℕ
  pub paused : Bool
  pub stopping : Bool
  pub started : Bool
  pub stream_open : Bool
  pub force_play : Bool
  pub flush_requested : Bool
  pub pacing_reset : Bool
  pub failure_stop_requested : Bool
  pub in_flight_frames : ℕ
  pub worker : Worker
  pub host : Host

-- `MultiroomOutput{}`
abbrev pub new_output : MultiroomOutput
new_output = record {
  pcm_queue = [];
  worker_error = [];
  capacity_frames = 44100;
  sample_rate = 44100;
  playback_format = record { sample_rate = 44100; channels = 2; bits_per_sample = 16 };
  stream_epoch = 0;
  paused = false;
  stopping = true;
  started = false;
  stream_open = false;
  force_play = false;
  flush_requested = false;
  pacing_reset = true;
  failure_stop_requested = false;
  in_flight_frames = 0;
  worker = absent;
  host = free;
}

-- The calls of `MultiroomComponentState::instance()`.
pub data Call : Type 0 where
  prepare_playback_open : Call
  cancel_pending_playback_open : Call
  open_playback_stream : PcmFormat → Call
  write_playback_pcm : Text → Call
  flush_playback : Call
  stop_playback : Call
  report_playback_failure : Text → Call

-- `++stream_epoch_` of a 64-bit counter.
abbrev pub next_epoch : ℕ → ℕ
next_epoch epoch = (epoch + 1) % 2 ^ 64

-- The room of the queue, `can_write_samples` where the stream takes samples.
abbrev pub room : MultiroomOutput → ℕ
room o =
    if ltb (length o.pcm_queue) o.capacity_frames then o.capacity_frames - length o.pcm_queue else 0

unfoldable pub can_write_samples : MultiroomOutput → ℕ
can_write_samples o =
    if not o.started || o.stopping || o.paused || not (is_empty o.worker_error) then 0 else room o

-- `t_size` and `size_t` have 64 bits.
unfoldable pub get_latency_samples : MultiroomOutput → ℕ
get_latency_samples o =
    let max_latency = 2 ^ 64 - 1 in
    if leb max_latency (length o.pcm_queue)
      || ltb (max_latency - length o.pcm_queue) o.in_flight_frames
    then max_latency
    else length o.pcm_queue + o.in_flight_frames

unfoldable pub is_progressing : MultiroomOutput → Bool
is_progressing o = o.started && not o.paused && is_empty o.worker_error

unfoldable pub pause : Bool → MultiroomOutput → MultiroomOutput
pause state o = record o { paused = state; pacing_reset = true }

-- The frames that `write` takes of those it is given.
unfoldable pub accepted : List PcmFrame → MultiroomOutput → List PcmFrame
accepted frames o =
    if is_empty o.worker_error && o.started && not o.stopping && not o.paused
    then take (room o) frames
    else []

-- `write` behind the check of the channels. The samples are converted by `sample_to_pcm16`, in floating point.
unfoldable pub write : List PcmFrame → MultiroomOutput → MultiroomOutput
unfolding accepted
write frames o = record o { pcm_queue = o.pcm_queue ++ accepted frames o }

unfoldable pub on_flush : MultiroomOutput → MultiroomOutput
on_flush o = record o {
  pcm_queue = [];
  force_play = false;
  flush_requested = true;
  pacing_reset = true;
  stream_epoch = next_epoch o.stream_epoch;
}

unfoldable pub on_force_play : MultiroomOutput → MultiroomOutput
on_force_play o = record o { force_play = true }

-- The section of `stop_stream` under the lock.
unfoldable pub stop_locked : MultiroomOutput → MultiroomOutput
stop_locked o = record o {
  stopping = true;
  started = false;
  stream_open = false;
  pcm_queue = [];
  worker_error = [];
  force_play = false;
  flush_requested = false;
  pacing_reset = true;
  failure_stop_requested = false;
  stream_epoch = next_epoch o.stream_epoch;
}

-- The section of `open` under the lock; `capacity` is `ceil(max(buffer_length_, 0.25) * sample_rate_)`.
unfoldable pub open_locked : (ℕ → ℕ) → Spec → MultiroomOutput → MultiroomOutput
open_locked capacity spec o = record o {
  playback_format = record {
    sample_rate = spec.sample_rate;
    channels = spec.channels;
    bits_per_sample = 16;
  };
  sample_rate = spec.sample_rate;
  capacity_frames = capacity spec.sample_rate;
  pcm_queue = [];
  worker_error = [];
  failure_stop_requested = false;
  force_play = false;
  flush_requested = false;
  pacing_reset = true;
  paused = false;
  stopping = false;
  started = true;
  stream_open = true;
  stream_epoch = next_epoch o.stream_epoch;
}

-- The condition that the render thread waits for.
abbrev pub has_work : MultiroomOutput → Bool
has_work o =
    o.stopping
    || o.flush_requested
    || (not o.paused
        && (leb packet_frames (length o.pcm_queue) || (o.force_play && not (is_empty o.pcm_queue))))

-- Behind the first wait of the loop.
unfoldable pub wake : MultiroomOutput → MultiroomOutput
wake o =
    if not (has_work o)
    then o
    else if o.stopping
    then record o { worker = ending }
    else if o.flush_requested
    then record o { flush_requested = false; pacing_reset = true; worker = flushing }
    else if o.paused
    then o
    else record o { pacing_reset = false; worker = pacing o.stream_epoch }

-- What ends the second wait before the time of the packet.
abbrev pub is_interrupted : ℕ → MultiroomOutput → Bool
is_interrupted epoch o = o.stopping || o.paused || not (o.stream_epoch == epoch) || o.pacing_reset

-- `frame_count`
abbrev pub frame_count : MultiroomOutput → ℕ
frame_count o = min packet_frames (length o.pcm_queue)

abbrev pub lacks_frames : MultiroomOutput → Bool
lacks_frames o = frame_count o == 0 || (ltb (frame_count o) packet_frames && not o.force_play)

abbrev pub popped : ℕ → MultiroomOutput → MultiroomOutput
popped epoch o =
    let rest = drop (frame_count o) o.pcm_queue in
    record o {
      pcm_queue = rest;
      force_play = if o.force_play && is_empty rest then false else o.force_play;
      in_flight_frames = packet_frames;
      worker = sending (take (frame_count o) o.pcm_queue) epoch;
    }

-- Behind the second wait.
unfoldable pub pace : ℕ → MultiroomOutput → MultiroomOutput
pace epoch o =
    if is_interrupted epoch o
    then record o { worker = waiting }
    else if lacks_frames o
    then record o { worker = waiting }
    else popped epoch o

-- `packet_is_current`
abbrev pub is_current : ℕ → MultiroomOutput → Bool
is_current epoch o = not o.stopping && o.stream_epoch == epoch

-- Under the send lock: the call, or back to the loop.
unfoldable pub check : List PcmFrame → ℕ → MultiroomOutput → MultiroomOutput × List Call
unfolding packet_of
check frames epoch o =
    if is_current epoch o
    then (record o { worker = calling frames }, write_playback_pcm (packet_of frames) ∷ [])
    else (record o { in_flight_frames = 0; worker = waiting }, [])

-- `write` takes of the frames that it is given the first ones, exactly as many as `can_write_samples` offers.
pub accepted_lem :
    (frames : List PcmFrame) (o : MultiroomOutput)
    → accepted frames o ≡ take (can_write_samples o) frames
unfolding accepted can_write_samples
accepted_lem frames o = ground arith
