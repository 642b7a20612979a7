-- ===== src/AirPlay/Transport/Streaming.antt =====
-- The calls of the transport on the stream keep what holds of it.
use foobar_universal_multiro.AirPlay.Timing.{current_ntp_timestamp, ntp_to_rtp_timestamp}
use foobar_universal_multiro.AirPlay.Session.Invariant.{IsManager}
use foobar_universal_multiro.Core.Scheduler.{ScheduledPacket, schedule}
use foobar_universal_multiro.Core.Registry
use foobar_universal_multiro.AirPlay.Session.History as Sessions
use foobar_universal_multiro.AirPlay.Session
use foobar_universal_multiro.AirPlay.Session.{AirPlaySessionManager}
use foobar_universal_multiro.Core.Registry.{OutputRegistry, clamp_volume}
use foobar_universal_multiro.AirPlay.Discovery.{AirPlayDiscovery}
use foobar_universal_multiro.AirPlay.Transport.Invariant.{
  Kept, seq_Kept, discovery_call-Kept, sync-Kept, flags-Kept, sessions_call-Kept, IsTransport,
  without_anchor-Kept, on_sessions-Kept,
}
use foobar_universal_multiro.AirPlay.Transport.{AirPlayTransport}
use foobar_universal_multiro.Device.{PlaybackMetadata, PcmFormat, OutputDevice, airplay}
use foobar_universal_multiro.AirPlay.Client.{AirPlayControlClient}
use foobar_universal_multiro.Base.{
  Bool, List, Option, Text, refl, ℕ, false, none, some, Bool-cases, arith, inl, inr, ◌==◌, ◌||◌,
  true, ◌%◌, ◌+◌, ◌-◌, ◌<◌, ◌^◌,
}
use foobar_universal_multiro.AirPlay.Transport
use foobar_universal_multiro.AirPlay.Discovery
use foobar_universal_multiro.AirPlay.Discovery.History as Discovered
use foobar_universal_multiro.Base.Outcome.{◌>>◌, M, modify, Outcome-cases, for_each, for_each_keeps}

module _ (client : AirPlayControlClient) (is_numeric : Text → Bool) where
  open client use {State, Handler}

  abbrev on_discovery : {A : Type 0} → M AirPlayDiscovery A → M (AirPlayTransport State) A
  on_discovery = Transport.on_discovery client is_numeric

  abbrev on_registry : {A : Type 0} → M OutputRegistry A → M (AirPlayTransport State) A
  on_registry = Transport.on_registry client is_numeric

  abbrev on_sessions :
      {A : Type 0} → M (AirPlaySessionManager State) A → M (AirPlayTransport State) A
  on_sessions = Transport.on_sessions client is_numeric

  abbrev sync : M (AirPlayTransport State) (Unit {0})
  sync = Transport.sync_discovered_outputs client is_numeric

  pub set_playback_metadata-Kept :
      (metadata : PlaybackMetadata)
      → Kept (Transport.set_playback_metadata client is_numeric metadata)
  unfolding Transport.set_playback_metadata Sessions.step
  set_playback_metadata-Kept metadata =
      seq_Kept (modify (λ t. record t { playback_metadata = some metadata }))
        (on_sessions (Session.set_metadata client metadata))
        (λ t v. flags-Kept client is_numeric t t.discovery_active t.stream_open (some metadata) v)
        (sessions_call-Kept client is_numeric (Session.set_metadata client metadata)
          (Sessions.sets_metadata metadata) (λ s. refl))

  pub clear_metadata-Kept : Kept (on_sessions (Session.clear_metadata client))
  unfolding Sessions.step
  clear_metadata-Kept =
      sessions_call-Kept client is_numeric (Session.clear_metadata client) Sessions.clears_metadata
        (λ s. refl)

  pub clear_playback_metadata-Kept : Kept (Transport.clear_playback_metadata client is_numeric)
  unfolding Transport.clear_playback_metadata
  clear_playback_metadata-Kept =
      seq_Kept (modify (λ t. record t { playback_metadata = none }))
        (on_sessions (Session.clear_metadata client))
        (λ t v. flags-Kept client is_numeric t t.discovery_active t.stream_open none v)
        clear_metadata-Kept

  pub open_stream-Kept :
      (format : PcmFormat) → Kept (Transport.open_stream client is_numeric format)
  unfolding Transport.open_stream
  open_stream-Kept format t v =
      elim (Bool-cases
        (format.sample_rate == 0 || format.channels == 0 || format.bits_per_sample == 0)) [
          | inl e ↦ rw (e, Transport.open_stream) v
          | inr e ↦
              rw (e, Transport.open_stream)
                (record {
                  discovered = v.discovered;
                  registered = v.registered;
                  managed = v.managed;
                  has_rate = ground (arith, e);
                  anchor_fits = omega arith;
                  anchor_cleared = λ _. refl;
                })
        ]

  pub send_stored_metadata-Kept :
      (metadata : Option PlaybackMetadata)
      → Kept (Transport.send_stored_metadata client is_numeric metadata)
  unfolding Transport.send_stored_metadata Sessions.step
  send_stored_metadata-Kept none t v = clear_metadata-Kept t v
  send_stored_metadata-Kept (some metadata) t v =
      sessions_call-Kept client is_numeric (Session.set_metadata client metadata)
        (Sessions.sets_metadata metadata) (λ s. refl) t v

  pub connect_selected_outputs-Kept : Kept (Transport.connect_selected_outputs client is_numeric)
  unfolding Transport.connect_selected_outputs Sessions.step
  connect_selected_outputs-Kept t v = elim (Bool-cases t.stream_open) [
    | inr e ↦ unfold Transport.connect_selected_outputs in ground (arith, e, v)
    | inl e ↦
        let outputs = Registry.list t.registry in
        let both =
          seq_Kept (on_sessions (Session.open_for_outputs client outputs t.stream_format))
            (Transport.send_stored_metadata client is_numeric t.playback_metadata)
            (sessions_call-Kept client is_numeric
              (Session.open_for_outputs client outputs t.stream_format)
              (Sessions.opens outputs t.stream_format) (λ s. refl))
            (send_stored_metadata-Kept t.playback_metadata) t v in
        unfold Transport.connect_selected_outputs in ground (arith, e, both)
  ]

  pub cancel_pending_open-Kept : Kept (Transport.cancel_pending_open client is_numeric)
  unfolding Transport.cancel_pending_open Sessions.step
  cancel_pending_open-Kept =
      sessions_call-Kept client is_numeric (Session.cancel_pending_open client) Sessions.cancels
        (λ s. refl)

  pub reset_pending_open_cancel-Kept : Kept (Transport.reset_pending_open_cancel client is_numeric)
  unfolding Transport.reset_pending_open_cancel Sessions.step
  reset_pending_open_cancel-Kept =
      sessions_call-Kept client is_numeric (Session.reset_pending_open_cancel client)
        Sessions.resets (λ s. refl)

  pub set_anchor-Kept :
      (stream_timestamp : ℕ) (t : AirPlayTransport State)
      → IsTransport t
      → IsTransport (Transport.set_anchor client is_numeric stream_timestamp t)
  unfolding Transport.set_anchor
  set_anchor-Kept stream_timestamp t v = elim (Bool-cases t.group_sync_anchor_valid) [
    | inl e ↦ unfold Transport.set_anchor in ground (arith, e, v)
    | inr e ↦
        let ntp = current_ntp_timestamp (t.clock 0).0 (t.clock 0).1 in
        let now_rtp = ntp_to_rtp_timestamp ntp t.stream_format.sample_rate in
        let start_rtp = (now_rtp + 2 ^ 64 - stream_timestamp) % 2 ^ 64 in
        let fits : start_rtp < 2 ^ 64 = omega arith in
        let anchored : IsTransport (record t {
          clock = λ i. t.clock (i + 1);
          group_sync_start_rtp = start_rtp;
          group_sync_anchor_valid = true;
        }) =
          record {
            discovered = v.discovered;
            registered = v.registered;
            managed = v.managed;
            has_rate = v.has_rate;
            anchor_fits = fits;
            anchor_cleared = λ h. absurd (cc);
          } in
        unfold Transport.set_anchor in ground (arith, e, anchored)
  ]

  pub enqueue_each-Kept :
      (packets : List ScheduledPacket) (frames : Option Text) (bytes : ℕ)
      → Kept (on_sessions (for_each (λ packet. Session.enqueue client packet frames bytes) packets))
  unfolding Sessions.step
  enqueue_each-Kept packets frames bytes =
      on_sessions-Kept client is_numeric
        (for_each (λ packet. Session.enqueue client packet frames bytes) packets)
        (λ s v.
          for_each_keeps IsManager (λ packet. Session.enqueue client packet frames bytes) packets s
            (λ packet s' w.
              Sessions.step-IsManager client (Sessions.enqueues packet frames bytes) s' w)
            v)

  pub send_frames-Kept :
      (outputs : List OutputDevice) (frames : Option Text) (bytes stream_timestamp : ℕ)
      → Kept (Transport.send_frames client is_numeric outputs frames bytes stream_timestamp)
  unfolding Transport.send_frames
  send_frames-Kept outputs frames bytes stream_timestamp t v =
      let anchored = Transport.set_anchor client is_numeric stream_timestamp t in
      let w = set_anchor-Kept stream_timestamp t v in
      elim (Outcome-cases (
        schedule outputs
          (Transport.request_of client is_numeric bytes stream_timestamp anchored))) [
            | inl (packets, e) ↦
                rw (e, Transport.send_frames) (enqueue_each-Kept packets frames bytes anchored w)
            | inr (x, e) ↦ rw (e, Transport.send_frames) w
          ]

  pub write_frames-Kept :
      (frames : Option Text) (bytes stream_timestamp : ℕ)
      → Kept (Transport.write_frames client is_numeric frames bytes stream_timestamp)
  unfolding Transport.write_frames
  write_frames-Kept frames bytes stream_timestamp t v =
      let outputs = Transport.ready_outputs (Session.ready_output_ids t.sessions) t.registry in
      ground (arith, v, send_frames-Kept outputs frames bytes stream_timestamp t v)

  pub flush-Kept : Kept (Transport.flush client is_numeric)
  unfolding Transport.flush Sessions.step
  flush-Kept =
      seq_Kept (on_sessions (Session.flush client))
        (modify (Transport.without_anchor client is_numeric))
        (sessions_call-Kept client is_numeric (Session.flush client) Sessions.flushes (λ s. refl))
        (λ t v. without_anchor-Kept client is_numeric t t.stream_open v)

  pub stop-Kept : Kept (Transport.stop client is_numeric)
  unfolding Transport.stop Sessions.step
  stop-Kept =
      let clear : M (AirPlayTransport State) (Unit {0}) =
        modify
          (λ t. Transport.without_anchor client is_numeric (record t { stream_open = false })) in
      seq_Kept (on_sessions (Session.clear_metadata client))
        (on_sessions (Session.stop client) >> clear) clear_metadata-Kept
        (seq_Kept (on_sessions (Session.stop client)) clear
          (sessions_call-Kept client is_numeric (Session.stop client) Sessions.stops (λ s. refl))
          (λ t v. without_anchor-Kept client is_numeric t false v))

  pub add_discovered_output-Kept :
      (device : OutputDevice) → Kept (Transport.add_discovered_output client is_numeric device)
  unfolding Transport.add_discovered_output Discovered.step
  add_discovered_output-Kept device =
      let typed = record device { type = airplay } in
      seq_Kept (on_discovery (Discovery.upsert is_numeric typed)) sync
        (discovery_call-Kept client is_numeric (Discovery.upsert is_numeric typed)
          (Discovered.upsert typed) (λ d. refl))
        (sync-Kept client is_numeric)
