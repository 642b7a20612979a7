-- ===== src/Component/Output/Buffer.antt =====
-- The render queue as a buffer: what was written and not dropped is handed over in its order.
use foobar_universal_multiro.Component.Output.{
  Event, is_free, writes, step, opens, is_supported, flushes, closes, starts, Started, unprepared,
}
use foobar_universal_multiro.Component.Output.Sections.{
  PcmFrame, Call, Host, Worker, MultiroomOutput, write_playback_pcm, starting, sending,
  packet_frames, packet_of, open_playback_stream, accepted, report_playback_failure,
  prepare_playback_open, cancel_pending_playback_open, flush_playback, stop_playback,
}
use foobar_universal_multiro.Base.{
  Text, All, All-append, Bool, List, [], ap, append-nil, append_assoc, arith, drop, false,
  if◌then◌else◌, length, map, refl, suc, sym, take, true, zero, ℕ, ◌&&◌, ◌++◌, ◌+◌, ◌<◌, ◌==◌, ◌∙◌,
  ◌∷◌, ◌≡◌, ◌≤◌,
}

abbrev pub concat : List (List PcmFrame) → List PcmFrame
concat [] = []
concat (chunk ∷ chunks) = chunk ++ concat chunks

-- What an observer of the threads notes since the stream was last opened, flushed or stopped: the frames that
-- `write` took, and the packets that were handed over. It also counts these events.
pub record Log : Type 0 where
  pub written : List PcmFrame
  pub packets : List Text
  pub restarts : ℕ

abbrev pub new_log : Log
new_log = record { written = []; packets = []; restarts = 0 }

abbrev pub restarted : Log → Log
restarted log = record { written = []; packets = []; restarts = log.restarts + 1 }

abbrev pub packets_in : List Call → List Text
packets_in [] = []
packets_in (write_playback_pcm packet ∷ calls) = packet ∷ packets_in calls
packets_in (prepare_playback_open ∷ calls) = packets_in calls
packets_in (cancel_pending_playback_open ∷ calls) = packets_in calls
packets_in (open_playback_stream format ∷ calls) = packets_in calls
packets_in (flush_playback ∷ calls) = packets_in calls
packets_in (stop_playback ∷ calls) = packets_in calls
packets_in (report_playback_failure message ∷ calls) = packets_in calls

abbrev pub is_starting : Host → Bool
is_starting (starting spec) = true
is_starting _ = false

-- `open` comes to its section under the lock.
abbrev pub opens_queue : Started → Bool
opens_queue unprepared = false
opens_queue _ = true

-- The events that drop what is queued.
abbrev pub restarts_at : Event → MultiroomOutput → Bool
restarts_at flushes o = is_free o.host
restarts_at (opens spec cancelled) o = is_free o.host && is_supported spec
restarts_at (closes cancelled) o = is_free o.host
restarts_at (starts how) o = is_starting o.host && opens_queue how
restarts_at _ o = false

abbrev pub taken_at : Event → MultiroomOutput → List PcmFrame
taken_at (writes frames) o = if is_free o.host then accepted frames o else []
taken_at _ o = []

abbrev pub observe : Event → MultiroomOutput → List Call → Log → Log
observe event o calls log = if restarts_at event o then restarted log else record log {
  written = log.written ++ taken_at event o;
  packets = log.packets ++ packets_in calls;
}

-- The log of a history.
unfoldable pub watch : (ℕ → ℕ) → List Event → MultiroomOutput → Log → Log
watch capacity [] o log = log
watch capacity (event ∷ events) o log =
    watch capacity events (step capacity event o).0 (observe event o (step capacity event o).1 log)

-- The frames of a packet that is on its way and still current.
abbrev pub hand_at : Worker → ℕ → List PcmFrame
hand_at (sending frames epoch) now = if epoch == now then frames else []
hand_at _ now = []

abbrev pub in_hand : MultiroomOutput → List PcmFrame
in_hand o = hand_at o.worker o.stream_epoch

-- The frames of one packet.
abbrev pub IsChunk : List PcmFrame → Type 0
IsChunk frames = (0 < length frames) × (length frames ≤ packet_frames)

-- A packet on its way is one of frames that were queued, and is current only while the stream is not stopping.
abbrev pub HandIsChunk : Worker → ℕ → Bool → Type 0
HandIsChunk (sending frames epoch) now stopping =
    IsChunk frames × (epoch ≤ now) × (((epoch == now) && stopping) ≡ false)
HandIsChunk _ now stopping = Unit

-- The packets that were handed over are those of some chunks, and the frames that were written are those of the chunks,
-- then those on their way, then those in the queue.
abbrev pub Fifo : List PcmFrame → List PcmFrame → Log → Type 0
Fifo hand queue log =
    (chunks : List (List PcmFrame)) × (log.packets ≡ map packet_of chunks)
    × (log.written ≡ concat chunks ++ (hand ++ queue))
    × All IsChunk chunks

pub record IsBuffer (o : MultiroomOutput) (log : Log) : Type 0 where
  pub bounded : length o.pcm_queue ≤ o.capacity_frames
  pub epoch : o.stream_epoch ≡ log.restarts
  pub hand : HandIsChunk o.worker o.stream_epoch o.stopping
  pub fifo : Fifo (in_hand o) o.pcm_queue log

concat-snoc :
    (chunks : List (List PcmFrame)) (chunk : List PcmFrame)
    → concat (chunks ++ chunk ∷ []) ≡ concat chunks ++ chunk
concat-snoc [] chunk = append-nil chunk
concat-snoc (first ∷ chunks) chunk =
    ap (◌++◌ first) (concat-snoc chunks chunk) ∙ sym (append_assoc first (concat chunks) chunk)

map-snoc :
    (chunks : List (List PcmFrame)) (chunk : List PcmFrame)
    → map packet_of (chunks ++ chunk ∷ []) ≡ map packet_of chunks ++ packet_of chunk ∷ []
map-snoc [] chunk = refl
map-snoc (first ∷ chunks) chunk = ap (◌∷◌ (packet_of first)) (map-snoc chunks chunk)

pub write-Fifo :
    (hand queue frames : List PcmFrame) (log : Log)
    → Fifo hand queue log
    → Fifo hand (queue ++ frames) (record log { written = log.written ++ frames })
write-Fifo hand queue frames log (chunks, p, w, c) = (
  chunks,
  p,
  ap (λ t. t ++ frames) w
      ∙ append_assoc (concat chunks) (hand ++ queue) frames
      ∙ ap (◌++◌ (concat chunks)) (append_assoc hand queue frames),
  c,
)

pub send-Fifo :
    (hand queue : List PcmFrame) (log : Log)
    → IsChunk hand
    → Fifo hand queue log
    → Fifo [] queue (record log { packets = log.packets ++ packet_of hand ∷ [] })
send-Fifo hand queue log s (chunks, p, w, c) = (
  chunks ++ hand ∷ [],
  ap (λ t. t ++ packet_of hand ∷ []) p ∙ sym (map-snoc chunks hand),
  w
      ∙ sym (append_assoc (concat chunks) hand queue)
      ∙ ap (λ t. t ++ queue) (sym (concat-snoc chunks hand)),
  All-append IsChunk chunks (hand ∷ []) c (s, tt),
)

take-drop : (n : ℕ) (frames : List PcmFrame) → take n frames ++ drop n frames ≡ frames
take-drop zero frames = refl
take-drop (suc n) [] = refl
take-drop (suc n) (frame ∷ frames) = ap (◌∷◌ frame) (take-drop n frames)

pub length-take-le : (n : ℕ) (frames : List PcmFrame) → length (take n frames) ≤ n
length-take-le zero frames = omega arith
length-take-le (suc n) [] = omega arith
length-take-le (suc n) (frame ∷ frames) = omega (arith, length-take-le n frames)

pub length-take_within :
    (n : ℕ) (frames : List PcmFrame) → n ≤ length frames → length (take n frames) ≡ n
length-take_within zero frames h = refl
length-take_within (suc n) [] h = absurd (omega arith)
length-take_within (suc n) (frame ∷ frames) h = omega (arith, length-take_within n frames)

pub length-drop-le : (n : ℕ) (frames : List PcmFrame) → length (drop n frames) ≤ length frames
length-drop-le zero frames = omega arith
length-drop-le (suc n) [] = omega arith
length-drop-le (suc n) (frame ∷ frames) = omega (arith, length-drop-le n frames)

pub take-Fifo :
    (n : ℕ) (queue : List PcmFrame) (log : Log)
    → Fifo [] queue log
    → Fifo (take n queue) (drop n queue) log
take-Fifo n queue log (chunks, p, w, c) =
    (chunks, p, w ∙ ap (◌++◌ (concat chunks)) (sym (take-drop n queue)), c)

pub restarted-Fifo :
    (restarts : ℕ) → Fifo [] [] (record { written = []; packets = []; restarts = restarts })
restarted-Fifo restarts = ([], refl, refl, tt)
