-- ===== src/AirPlay/Session.antt =====
-- transports/airplay/airplay_session.h and airplay_session.cpp, over any control client. Every method but
-- `set_volume` and the cancellation ones runs under one mutex, so a history is a sequence of whole
-- calls; what other threads store in `cancel_open_requested_` meanwhile is part of the state.
pub mod State
pub mod Attempt
pub mod Visit
mod Manager
pub mod Invariant
pub mod Enqueue
pub mod Closing
pub mod Opening
pub mod OpenStep
pub mod OpenLoop
pub mod History
unfoldable pub use Manager.*
use foobar_universal_multiro.AirPlay.Session.Visit.{visit}
use foobar_universal_multiro.Base.Throws.{lift}
use foobar_universal_multiro.Base.Int.{ℤ}
use foobar_universal_multiro.Core.Scheduler.{ScheduledPacket}
use foobar_universal_multiro.AirPlay.Client.{AirPlayControlClient, AirPlayPairingResult}
use foobar_universal_multiro.AirPlay.Session.Attempt.{
  Work, send_clear_metadata, flush_session, close_session, attempt_open, send_metadata,
}
use foobar_universal_multiro.Device.{OutputDevice, PcmFormat, PlaybackMetadata}
use foobar_universal_multiro.Base.Outcome.{
  M, for_each, Outcome, ok, within, when, raise, ◌>>=◌, ◌>>◌, throw_if, throw, pure, modify,
  logic_error, runtime_error,
}
use foobar_universal_multiro.AirPlay.Session.State.{
  AirPlaySessionState, new_session, is_ready, failed_session, can_reuse_ready_session,
  validate_stream_format, prepare_session, update_session_from_output,
}
use foobar_universal_multiro.Base.{
  Bool, List, Option, Text, [], codes, contains, false, if◌then◌else◌, is_empty, keep_if, map, none,
  not, some, true, ℕ, ◌&&◌, ◌++◌, ◌+◌, ◌==◌, ◌||◌, ◌∷◌, ◌*◌,
}
use mathlib.Core.List.{flat_map}
use foobar_universal_multiro.Base.Throws as Throws
use foobar_universal_multiro.Base.Map

module _ (client : AirPlayControlClient) where
  open client use {State}

  abbrev on_control_client : {A : Type 0} → M State A → M (AirPlaySessionManager State) A
  on_control_client = within (λ m. m.client) (λ m c. record m { client = c })

  unfoldable pub make_manager : State → AirPlaySessionManager State
  make_manager c = record { client = c; cancel_open_requested = false; stores = []; sessions = [] }

  unfoldable pub pair_output :
      OutputDevice → Text → M (AirPlaySessionManager State) AirPlayPairingResult
  pair_output output pin = on_control_client (client.pair output pin)

  unfoldable pub set_remote_command_handler :
      client.Handler → M (AirPlaySessionManager State) (Unit {0})
  set_remote_command_handler handler = on_control_client (client.set_remote_command_handler handler)

  pub open_output : PcmFormat → Tally → OutputDevice → M (AirPlaySessionManager State) Tally
  unfolding settle
  open_output format tally output m =
      let session = session_of output.id m in
      settle output tally m (
        attempt_open client output format (can_reuse_ready_session session output format)
          (update_session_from_output session output, m.client))

  pub open_step : PcmFormat → Tally → OutputDevice → M (AirPlaySessionManager State) Tally
  unfolding load_cancel
  open_step format tally output = do
    cancelled ← load_cancel
    throw_if cancelled runtime_error (codes "AirPlay session setup cancelled.")
    if output.selected then open_output format tally output else pure tally

  pub open_each : PcmFormat → Tally → List OutputDevice → M (AirPlaySessionManager State) Tally
  open_each format tally [] = pure tally
  open_each format tally (output ∷ outputs) = do
    next ← open_step format tally output
    open_each format next outputs

  pub open_for_outputs : List OutputDevice → PcmFormat → M (AirPlaySessionManager State) (Unit {0})
  unfolding join_errors
  open_for_outputs outputs format = do
    lift (validate_stream_format format)
    tally ← open_each format (record { selected_count = 0; ready_count = 0; errors = [] }) outputs
    throw_if
        (not (tally.selected_count == 0) && tally.ready_count == 0 && not (is_empty tally.errors))
        runtime_error
        (codes "No selected AirPlay sessions could be opened." ++ join_errors tally.errors)

  pub close_missing_outputs : List OutputDevice → M (AirPlaySessionManager State) (Unit {0})
  close_missing_outputs outputs =
      let selected = map (λ output. output.id) (keep_if (λ output. output.selected) outputs) in
      visit_sessions (λ id. when (not (contains selected id)) (close_session client))

  -- The fields are read under the mutex and the client is called after it.
  pub set_volume : Text → ℤ → M (AirPlaySessionManager State) (Unit {0})
  set_volume output_id volume m = elim (Map.find output_id m.sessions) [
    | none ↦ (ok tt, m)
    | some session ↦
        if not (is_ready session.phase) || not session.is_open
        then (ok tt, m)
        else on_control_client (client.set_volume session.output_id session.rtsp_session_id volume)
            m
  ]

  pub set_metadata : PlaybackMetadata → M (AirPlaySessionManager State) (Unit {0})
  set_metadata metadata = visit_sessions (λ id. send_metadata client metadata)

  pub clear_metadata : M (AirPlaySessionManager State) (Unit {0})
  clear_metadata = visit_sessions (λ id. send_clear_metadata client)

  -- On the session that `find` gave.
  pub send_packet :
      AirPlaySessionState
      → ScheduledPacket
      → Option Text
      → ℕ
      → M (AirPlaySessionManager State) (Unit {0})
  unfolding put_session
  send_packet session packet frames bytes = do
    on_control_client
        (client.send_audio session.output_id session.rtsp_session_id packet frames bytes)
    modify (
        put_session packet.output_id
          (record session { queued_packets = session.queued_packets ++ packet ∷ [] }))

  pub enqueue : ScheduledPacket → Option Text → ℕ → M (AirPlaySessionManager State) (Unit {0})
  unfolding send_packet
  enqueue packet frames bytes m = elim (Map.find packet.output_id m.sessions) [
    | none ↦ raise logic_error not_ready m
    | some session ↦
        if not (is_ready session.phase)
        then raise logic_error not_ready m
        else send_packet session packet frames bytes m
  ]

  unfoldable pub flush : M (AirPlaySessionManager State) (Unit {0})
  flush = visit_sessions (λ id. flush_session client)

  unfoldable pub cancel_pending_open : M (AirPlaySessionManager State) (Unit {0})
  cancel_pending_open = do
    modify (λ m. record m { cancel_open_requested = true })
    on_control_client client.cancel_pending_open

  unfoldable pub reset_pending_open_cancel : M (AirPlaySessionManager State) (Unit {0})
  reset_pending_open_cancel = do
    modify (λ m. record m { cancel_open_requested = false })
    on_control_client client.reset_pending_open_cancel

  unfoldable pub stop : M (AirPlaySessionManager State) (Unit {0})
  stop = visit_sessions (λ id. close_session client)

unfoldable pub sessions : {S : Type 0} → AirPlaySessionManager S → List AirPlaySessionState
sessions m = Map.values m.sessions

unfoldable pub queued_packets : {S : Type 0} → AirPlaySessionManager S → List ScheduledPacket
queued_packets m = flat_map (λ session. session.queued_packets) (Map.values m.sessions)

-- The keys of the sessions that can take audio.
unfoldable pub ready_keys : List (Text × AirPlaySessionState) → List Text
ready_keys [] = []
ready_keys ((id, session) ∷ entries) =
    let rest = ready_keys entries in
    if is_ready session.phase && session.is_open then id ∷ rest else rest

unfoldable pub ready_output_ids : {S : Type 0} → AirPlaySessionManager S → List Text
ready_output_ids m = ready_keys m.sessions
