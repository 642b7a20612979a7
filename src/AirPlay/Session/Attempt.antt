-- ===== src/AirPlay/Session/Attempt.antt =====
-- The work that the methods of the session manager do on one session, with its calls of the client.
use foobar_universal_multiro.AirPlay.Bootstrap.{validate_mvp_ready}
use foobar_universal_multiro.Base.Throws.{lift}
use foobar_universal_multiro.Device.{PlaybackMetadata, OutputDevice, PcmFormat}
use foobar_universal_multiro.AirPlay.Session.State.{
  AirPlaySessionState, connecting_session, disconnected_session, closed_session, is_ready,
  ready_session,
}
use foobar_universal_multiro.AirPlay.Client.{AirPlayControlClient}
use foobar_universal_multiro.Base.Outcome.{
  M, within, Outcome, ◌>>=◌, ◌>>◌, modify, get, ok, throw, when,
}
use foobar_universal_multiro.Base.{
  Bool, Text, [], codes, if◌then◌else◌, is_empty, not, ◌&&◌, ◌++◌, ◌||◌,
}

-- One session and the client, while a method works on it.
abbrev pub Work : Type 0 → Type 0 → Type 0
Work S A = M (AirPlaySessionState × S) A

module _ (client : AirPlayControlClient) where
  open client use {State}

  abbrev on_client : {A : Type 0} → M State A → Work State A
  on_client = within (λ w. w.1) (λ w c. (w.0, c))

  abbrev on_session : (AirPlaySessionState → AirPlaySessionState) → Work State (Unit {0})
  on_session f = modify (λ w. (f w.0, w.1))

  -- The `try` block of `open_for_outputs` for a session that is not reused.
  unfoldable pub connect : OutputDevice → PcmFormat → Work State (Unit {0})
  unfolding connecting_session ready_session
  connect output format = do
    on_session connecting_session
    negotiated ← on_client (client.open_session output format)
    on_session (λ s. ready_session s format negotiated)
    w ← get
    on_client (client.set_volume w.0.output_id w.0.rtsp_session_id output.volume)

  -- The `try` block of `open_for_outputs`.
  unfoldable pub attempt_open : OutputDevice → PcmFormat → Bool → Work State (Unit {0})
  attempt_open output format can_reuse = do
    lift (validate_mvp_ready output)
    if can_reuse then on_session (λ s. record s { last_error = [] }) else connect output format

  pub close_control_session : Work State (Unit {0})
  unfolding disconnected_session
  close_control_session = do
    w ← get
    when (w.0.is_open || not (is_empty w.0.rtsp_session_id))
        (on_client (client.close w.0.output_id w.0.rtsp_session_id))
    on_session disconnected_session

  -- The body of the loops of `close_missing_outputs` and `stop`.
  unfoldable pub close_session : Work State (Unit {0})
  unfolding close_control_session closed_session
  close_session = do close_control_session; on_session closed_session

  -- `try { ... } catch (const std::exception& e) { session.last_error = prefix + e.what(); }`
  note_error :
      Text
      → Outcome (Unit {0}) × (AirPlaySessionState × State)
      → Outcome (Unit {0}) × (AirPlaySessionState × State)
  note_error prefix (ok _, (s, c)) = (ok tt, (record s { last_error = [] }, c))
  note_error prefix (throw e, (s, c)) = (ok tt, (record s { last_error = prefix ++ e.what }, c))

  unfoldable pub send_metadata : PlaybackMetadata → Work State (Unit {0})
  unfolding note_error
  send_metadata metadata w =
      if is_ready w.0.phase && w.0.is_open
      then note_error (codes "AirPlay metadata update failed: ")
          (on_client (client.set_metadata w.0.output_id w.0.rtsp_session_id metadata) w)
      else (ok tt, w)

  unfoldable pub send_clear_metadata : Work State (Unit {0})
  unfolding note_error
  send_clear_metadata w =
      if is_ready w.0.phase && w.0.is_open
      then note_error (codes "AirPlay metadata clear failed: ")
          (on_client (client.clear_metadata w.0.output_id w.0.rtsp_session_id) w)
      else (ok tt, w)

  unfoldable pub flush_session : Work State (Unit {0})
  flush_session = do
    w ← get
    when (is_ready w.0.phase && w.0.is_open)
        (on_client (client.flush w.0.output_id w.0.rtsp_session_id))
    on_session (λ s. record s { queued_packets = [] })
