-- ===== src/Tests/AirPlay.antt =====
-- The sessions, the discovery and the transport on small inputs, over the loopback client.
use foobar_universal_multiro.AirPlay.Discovery.Packet.{read_name}
use foobar_universal_multiro.AirPlay.Session.{AirPlaySessionManager}
use foobar_universal_multiro.AirPlay.Session.Enqueue.{enqueue_cases}
use foobar_universal_multiro.AirPlay.Session.OpenLoop.{Opens, open_for_outputs_cases}
use foobar_universal_multiro.AirPlay.Timing.RoundTrip.{ntp_to_rtp_timestamp-rtp_timestamp_to_ntp}
use foobar_universal_multiro.AirPlay.Session.Closing.{
  IsClosed, stop-IsClosed, close_missing_outputs-IsClosed,
}
use foobar_universal_multiro.Base.Outcome.{Exception, throw}
use foobar_universal_multiro.AirPlay.Transport.Sync.{sync_outputs-find}
use foobar_universal_multiro.AirPlay.Session.State.{
  new_session, ready, AirPlaySessionState, validate_stream_format, is_ready,
}
use foobar_universal_multiro.AirPlay.Transport.Writes.{Sent, write_frames_cases, set_anchor_lem}
use foobar_universal_multiro.Base.Int.{pos}
use foobar_universal_multiro.AirPlay.Loopback.{loopback, new_loopback, LoopbackState, close}
use foobar_universal_multiro.Core.Registry.{clamped}
use foobar_universal_multiro.AirPlay.Discovery.Parsing.{parse_response-Returned}
use foobar_universal_multiro.AirPlay.Discovery.Reach.{reaches}
use foobar_universal_multiro.AirPlay.Timing.{
  ntp_to_rtp_timestamp, current_ntp_timestamp, rtp_timestamp_to_ntp,
}
use foobar_universal_multiro.Core.Engine.{null_buffer}
use foobar_universal_multiro.AirPlay.Transport.Invariant.{IsTransport}
use foobar_universal_multiro.AirPlay.Session.Invariant.{IsManager}
use foobar_universal_multiro.Core.Scheduler.{ScheduledPacket}
use foobar_universal_multiro.Device.{OutputDevice, default_format, default_output, airplay}
use foobar_universal_multiro.AirPlay.Client.{AirPlayControlClient}
use foobar_universal_multiro.AirPlay.Discovery.{AirPlayDiscovery}
use foobar_universal_multiro.AirPlay.Transport.{transport, AirPlayTransport}
use foobar_universal_multiro.Base.{
  Bool, List, Text, [], arith, codes, contains, false, none, refl, some, text_eq, true, ℕ, ◌%◌, ◌+◌,
  ◌^◌, ◌∷◌, ◌≡◌, ◌≢◌, ◌⊎◌, if◌then◌else◌, ◌++◌, ◌≤◌, keep_if, map, ◌*◌, ◌/◌, ◌<◌,
}
use foobar_universal_multiro.Core.Registry
use foobar_universal_multiro.AirPlay.Transport
use foobar_universal_multiro.AirPlay.Transport.History as Transports
use foobar_universal_multiro.AirPlay.Discovery.History as Discovered
use foobar_universal_multiro.AirPlay.Session
use foobar_universal_multiro.AirPlay.Session.History as Sessions
use foobar_universal_multiro.AirPlay.Discovery.Response.{Known, parse_response}
use foobar_universal_multiro.Base.Map
use foobar_universal_multiro.Base.Outcome.{
  ok, Outcome, Threw, Returned, logic_error, invalid_argument, runtime_error,
}

abbrev Handler : Type 0
Handler = Unit {0}

abbrev client : AirPlayControlClient
client = loopback Handler

abbrev is_numeric : Text → Bool
is_numeric text = text_eq text (codes "10.0.0.2")

abbrev speaker : OutputDevice
speaker = record default_output {
  id = codes "airplay:1";
  name = codes "One";
  type = airplay;
  selected = true;
  supports_airplay2 = true;
  volume = pos 40;
  endpoint_host = codes "10.0.0.2";
  endpoint_port = 7000;
}

-- The same receiver under another id, which has a public key.
abbrev keyed_speaker : OutputDevice
keyed_speaker = record speaker {
  id = codes "airplay:pk";
  selected = false;
  txt_records = (codes "pk", codes "f0") ∷ [];
}

abbrev packet : ScheduledPacket
packet = record {
  output_id = codes "airplay:1";
  stream_timestamp = 0;
  presentation_timestamp = 0;
  earliest_send_timestamp = 0;
  lead_frames = 0;
  bytes = 4;
  volume = pos 40;
  offset_ms = pos 0;
  measured_latency_ms = pos 0;
  group_sync_start_rtp = 0;
  group_sync_anchor_valid = true;
}

abbrev session_calls : List (Sessions.Call Handler)
session_calls =
    Sessions.opens (speaker ∷ []) default_format
    ∷ Sessions.enqueues packet (some (codes "abcd")) 4
    ∷ Sessions.interferes (some true ∷ [])
    ∷ Sessions.opens (speaker ∷ []) default_format
    ∷ Sessions.stops
    ∷ []

run-make_manager-IsManager_example :
    IsManager (Sessions.run client session_calls (Session.make_manager client new_loopback))
run-make_manager-IsManager_example =
    Sessions.run-make_manager-IsManager client session_calls new_loopback

abbrev transport_calls : List (Transports.Call Handler)
transport_calls =
    Transports.adds speaker
    ∷ Transports.enables (codes "airplay:1" ∷ [])
    ∷ Transports.opens default_format
    ∷ Transports.connects
    ∷ Transports.writes (some (codes "abcd")) 4 0
    ∷ Transports.stops
    ∷ []

abbrev no_browses : ℕ → Outcome (List OutputDevice)
no_browses i = ok []

abbrev clock : ℕ → ℕ × ℕ
clock i = (1700000000 + i, 500000000)

run-make_transport-IsTransport_example : IsTransport (
    Transports.run client is_numeric transport_calls
      (Transport.make_transport client is_numeric new_loopback no_browses clock))
run-make_transport-IsTransport_example =
    Transports.run-make_transport-IsTransport client is_numeric transport_calls new_loopback
      no_browses clock

-- A transport in the middle of a stream, with one ready session.
abbrev streaming : AirPlayTransport (LoopbackState Handler)
streaming = record {
  discovery = record { active = true; devices = []; browses = no_browses };
  registry = (codes "airplay:1", speaker) ∷ [];
  sessions = record {
    client = new_loopback;
    cancel_open_requested = false;
    stores = [];
    sessions =
        (
          codes "airplay:1",
          record new_session {
            output_id = codes "airplay:1";
            phase = ready;
            is_open = true;
            rtsp_session_id = codes "1";
          },
        )
        ∷ [];
  };
  stream_format = default_format;
  discovery_active = true;
  stream_open = true;
  group_sync_anchor_valid = false;
  group_sync_start_rtp = 0;
  playback_metadata = none;
  clock = clock;
}

abbrev written : Outcome (Unit {0}) × AirPlayTransport (LoopbackState Handler)
written = Transport.write_frames client is_numeric (some (codes "abcd")) 4 96000 streaming

write_frames_example :
    ((streaming.stream_open ≡ false) × Threw logic_error written.0 × (written.1 ≡ streaming))
    ⊎ ((streaming.stream_open ≡ true)
        × (null_buffer (some (codes "abcd")) 4 ≡ true)
        × Threw invalid_argument written.0
        × (written.1 ≡ streaming))
    ⊎ ((streaming.stream_open ≡ true)
        × (null_buffer (some (codes "abcd")) 4 ≡ false)
        × (Transport.selected_outputs streaming.registry ≢ [])
        × (Transport.ready_outputs (Session.ready_output_ids streaming.sessions) streaming.registry
            ≡ [])
        × Threw runtime_error written.0
        × (written.1 ≡ streaming))
    ⊎ ((streaming.stream_open ≡ true)
        × (null_buffer (some (codes "abcd")) 4 ≡ false)
        × ((Transport.selected_outputs streaming.registry ≡ [])
            ⊎ (Transport.ready_outputs
                  (Session.ready_output_ids streaming.sessions)
                  streaming.registry
                ≢ []))
        × Sent client is_numeric
            (some (codes "abcd"))
            4
            96000
            streaming
            (Transport.ready_outputs
              (Session.ready_output_ids streaming.sessions)
              streaming.registry)
            written)
write_frames_example =
    write_frames_cases client is_numeric (some (codes "abcd")) 4 96000 streaming (omega arith)
      (omega arith)

abbrev anchored : AirPlayTransport (LoopbackState Handler)
anchored = Transport.set_anchor client is_numeric 96000 streaming

set_anchor_example :
    (anchored.group_sync_anchor_valid ≡ true)
    × (anchored.stream_format ≡ streaming.stream_format)
    × (((streaming.group_sync_anchor_valid ≡ true) × (anchored ≡ streaming))
        ⊎ ((streaming.group_sync_anchor_valid ≡ false)
            × ((anchored.group_sync_start_rtp + 96000) % 2 ^ 64
                ≡ ntp_to_rtp_timestamp (current_ntp_timestamp 1700000000 500000000) 48000 % 2 ^ 64)
            × (anchored ≡ record streaming {
              clock = λ i. streaming.clock (i + 1);
              group_sync_start_rtp = anchored.group_sync_start_rtp;
              group_sync_anchor_valid = true;
            })))
set_anchor_example = set_anchor_lem client is_numeric 96000 streaming (omega arith)

abbrev discovered : List (Text × OutputDevice)
discovered = (codes "airplay:1", record speaker { selected = false; volume = pos 50 }) ∷ []

abbrev synced : Outcome (Unit {0}) × List (Text × OutputDevice)
synced = Transport.sync_outputs (Map.values discovered) streaming.registry

sync_outputs_example :
    (synced.0 ≡ ok tt)
    × ((k : Text) → Map.find k discovered ≡ none → Registry.find k synced.1 ≡ none)
    × ((k : Text) (device existing : OutputDevice)
        → Map.find k discovered ≡ some device
        → Registry.find k streaming.registry ≡ some existing
        → Registry.find k synced.1
          ≡ some (
              clamped (record device {
                selected = existing.selected;
                volume = existing.volume;
                offset_ms = existing.offset_ms;
                measured_latency_ms = existing.measured_latency_ms;
                visible_in_dropdown = existing.visible_in_dropdown;
              })))
sync_outputs_example =
    sync_outputs-find discovered streaming.registry (tt, tt) ((refl, λ e. cc), tt)

abbrev discovery_calls : List Discovered.Call
discovery_calls = Discovered.start ∷ Discovered.upsert keyed_speaker ∷ Discovered.refresh 750 ∷ []

abbrev found_speaker : AirPlayDiscovery
found_speaker = record {
  active = false;
  devices = (codes "airplay:1", speaker) ∷ [];
  browses = λ i. ok (speaker ∷ []);
}

run-Keeps_example :
    Discovered.Keeps is_numeric
      (codes "airplay:1")
      (Discovered.run is_numeric discovery_calls found_speaker).devices
run-Keeps_example =
    Discovered.run-Keeps is_numeric (codes "airplay:1") discovery_calls found_speaker (λ e. cc)
      (record { ordered = (tt, tt); keyed = (refl, tt) }, unfold reaches contains text_eq in refl)

-- A header that announces one record, and the first label of its name.
abbrev cut_short : Text
cut_short = 0 ∷ 0 ∷ 132 ∷ 0 ∷ 0 ∷ 0 ∷ 0 ∷ 1 ∷ 0 ∷ 0 ∷ 0 ∷ 0 ∷ 3 ∷ 97 ∷ 98 ∷ []

abbrev nothing_known : Known
nothing_known = record { services = []; host_addresses = [] }

parse_response_example :
    Returned (parse_response (λ b. codes "10.0.0.2") (λ b. codes "::1") cut_short [] nothing_known)
    × ((read_name cut_short 12).in_range ≡ true)
parse_response_example =
    parse_response-Returned (λ b. codes "10.0.0.2") (λ b. codes "::1") cut_short [] nothing_known 12

abbrev enqueued : Outcome (Unit {0}) × AirPlaySessionManager (LoopbackState Handler)
enqueued = Session.enqueue client packet (some (codes "abcd")) 4 streaming.sessions

enqueue_example :
    (((session : AirPlaySessionState)
        → Map.find packet.output_id streaming.sessions.sessions ≡ some session
        → is_ready session.phase ≡ false)
      × Threw logic_error enqueued.0
      × (enqueued.1 ≡ streaming.sessions))
    ⊎ ((session : AirPlaySessionState) × (Map.find packet.output_id streaming.sessions.sessions
          ≡ some session)
        × (is_ready session.phase ≡ true)
        × (enqueued.0
            ≡ (client.send_audio session.output_id session.rtsp_session_id packet
                (some (codes "abcd"))
                4
                streaming.sessions.client).0)
        × (enqueued.1.client
            ≡ (client.send_audio session.output_id session.rtsp_session_id packet
                (some (codes "abcd"))
                4
                streaming.sessions.client).1)
        × (((e : Exception) × (enqueued.0 ≡ throw e)
              × (enqueued.1.sessions ≡ streaming.sessions.sessions))
            ⊎ ((enqueued.0 ≡ ok tt)
                × ((k : Text)
                    → Map.find k enqueued.1.sessions ≡ (
                        if text_eq packet.output_id k
                        then some (record session {
                          queued_packets = session.queued_packets ++ packet ∷ [];
                        })
                        else Map.find k streaming.sessions.sessions)))))
enqueue_example = enqueue_cases client packet (some (codes "abcd")) 4 streaming.sessions

-- The speaker behind another port, so that its session is opened anew.
abbrev moved_speaker : OutputDevice
moved_speaker = record speaker { endpoint_port = 7001 }

abbrev no_tally : Session.Tally
no_tally = record { selected_count = 0; ready_count = 0; errors = [] }

abbrev two_speakers : List OutputDevice
two_speakers = moved_speaker ∷ record keyed_speaker { selected = true } ∷ []

open_for_outputs_example :
    ((e : Exception) × (validate_stream_format default_format ≡ throw e)
      × ((Session.open_for_outputs client two_speakers default_format streaming.sessions).0
          ≡ throw e)
      × ((Session.open_for_outputs client two_speakers default_format streaming.sessions).1
          ≡ streaming.sessions))
    ⊎ ((validate_stream_format default_format ≡ ok tt)
        × Opens client default_format two_speakers streaming.sessions
            (Session.open_for_outputs client two_speakers default_format streaming.sessions))
unfolding text_eq
open_for_outputs_example =
    open_for_outputs_cases client two_speakers default_format streaming.sessions
      ((refl, tt), (tt, tt)) refl refl

streaming-IsManager : IsManager streaming.sessions
streaming-IsManager = record {
  ordered = (tt, tt);
  entries = ((refl, (refl, unfold validate_stream_format in refl)), tt);
}

abbrev stopped : Outcome (Unit {0}) × AirPlaySessionManager (LoopbackState Handler)
stopped = Session.stop client streaming.sessions

stop-IsClosed_example :
    (stopped.0 ≡ ok tt)
    × (Map.keys stopped.1.sessions ≡ Map.keys streaming.sessions.sessions)
    × Map.Each IsClosed stopped.1.sessions
    × (Session.ready_output_ids stopped.1 ≡ [])
stop-IsClosed_example =
    stop-IsClosed client (λ output_id rtsp_session_id c. unfold close in refl) streaming.sessions
      streaming-IsManager

abbrev closed_missing : Outcome (Unit {0}) × AirPlaySessionManager (LoopbackState Handler)
closed_missing = Session.close_missing_outputs client (keyed_speaker ∷ []) streaming.sessions

-- The ids that are still selected, which are none.
abbrev kept_ids : List Text
kept_ids = map (λ output. output.id) (keep_if (λ output. output.selected) (keyed_speaker ∷ []))

close_missing_outputs-IsClosed_example :
    (closed_missing.0 ≡ ok tt)
    × (Map.keys closed_missing.1.sessions ≡ Map.keys streaming.sessions.sessions)
    × Map.Each
        (λ id s.
          ((contains kept_ids id ≡ false) × IsClosed id s)
          ⊎ ((contains kept_ids id ≡ true) × (Map.find id streaming.sessions.sessions ≡ some s)))
        closed_missing.1.sessions
close_missing_outputs-IsClosed_example =
    close_missing_outputs-IsClosed client (λ output_id rtsp_session_id c. unfold close in refl)
      (keyed_speaker ∷ []) streaming.sessions streaming-IsManager

ntp_round_trip_example :
    (1000000 * 2 ^ 16 < 2 ^ 64)
    × (1000000 * 2 ^ 16 / 44100 * 2 ^ 16 < 2 ^ 64)
    × (rtp_timestamp_to_ntp 1000000 44100 ≡ 1000000 * 2 ^ 16 / 44100 * 2 ^ 16)
    × (rtp_timestamp_to_ntp 1000000 44100 / 2 ^ 16 * 44100 < 2 ^ 64)
    × (ntp_to_rtp_timestamp (rtp_timestamp_to_ntp 1000000 44100) 44100 ≤ 1000000)
    × (1000000 ≤ ntp_to_rtp_timestamp (rtp_timestamp_to_ntp 1000000 44100) 44100 + 1)
ntp_round_trip_example =
    ntp_to_rtp_timestamp-rtp_timestamp_to_ntp 1000000 44100 (omega arith) (omega arith)
      (omega arith)
