-- ===== src/Component/State/Notices.antt =====
-- multiroom_component_state.cpp: the metadata of the track, pairing, the commands of receivers, failures, and what is shown.
pub mod Commands
use foobar_universal_multiro.AirPlay.Loopback.{no_metadata}
use foobar_universal_multiro.Base.Decimal.{decimal}
use foobar_universal_multiro.Component.State.Control.{
  schedule_metadata_update, schedule_control_update,
}
use foobar_universal_multiro.Device.{PlaybackMetadata, OutputDevice}
use foobar_universal_multiro.Base.{
  Bool, List, Option, Text, [], codes, contains, false, if◌then◌else◌, is_empty, length, ltb, none,
  not, some, true, ℕ, ◌++◌, ◌+◌, ◌==◌, ◌∷◌,
}
use foobar_universal_multiro.Base.Outcome.{M, ◌>>=◌, ◌>>◌, ok, throw, Outcome}
use foobar_universal_multiro.Component.OutputState.{selected_ids}
use foobar_universal_multiro.AirPlay.Client.{
  AirPlayRemoteCommand, AirPlayRemoteCommandEvent, play, pause, toggle_play_pause, stop, next_track,
  previous_track,
}
use foobar_universal_multiro.AirPlay.Client.{AirPlayPairingResult}
use foobar_universal_multiro.Component.State.Shared.{
  ensure_discovery_started, on_transport, ComponentState, Surroundings,
}
use foobar_universal_multiro.AirPlay.Transport as Air

-- What is asked of the playback control of foobar2000.
pub data ControlCall : Type 0 where
  pauses : Bool → ControlCall
  starts : ControlCall
  toggles : ControlCall
  halts : ControlCall
  starts_next : ControlCall
  starts_previous : ControlCall

-- The call on the main thread, by `is_playing`.
unfoldable pub control_call : AirPlayRemoteCommand → Bool → Option ControlCall
control_call play is_playing = some (if is_playing then pauses false else starts)
control_call pause is_playing = if is_playing then some (pauses true) else none
control_call toggle_play_pause is_playing = some toggles
control_call stop is_playing = if is_playing then some halts else none
control_call next_track is_playing = some starts_next
control_call previous_track is_playing = some starts_previous

-- What the main thread is asked for when a stream failed.
pub data FailureStop : Type 0 where
  nothing_queued : FailureStop
  stop_queued : FailureStop

abbrev pub drop_front : List Text → List Text
drop_front [] = []
drop_front (id ∷ ids) = ids

-- `push_back`, and `pop_front` above 64.
pub remember : Text → List Text → List Text
remember id ids =
    let more = ids ++ id ∷ [] in if ltb 64 (length more) then drop_front more else more

module _ (env : Surroundings) where
  open env use {client, is_numeric, widen_utf8}
  open client use {State}

  abbrev C : Type 0
  C = ComponentState State

  set_playback_metadata : PlaybackMetadata → C → Bool × C
  set_playback_metadata metadata c =
      schedule_metadata_update env
        (record c { playback_metadata = metadata; playback_metadata_active = true })

  update_playback_position : ℕ → C → C
  update_playback_position position_ms c =
      if c.playback_metadata_active
      then record c { playback_metadata = record c.playback_metadata { position_ms = position_ms } }
      else c

  clear_playback_metadata : C → Bool × C
  clear_playback_metadata c =
      schedule_metadata_update env
        (record c { playback_metadata = no_metadata; playback_metadata_active = false })

  abbrev not_paired : Text → C → Bool × C
  not_paired what c =
      (false, record c { pairing_in_progress = false; last_error = widen_utf8 what })

  -- Whether the worker is started. The handler resets the flag whatever was thrown.
  unfoldable pub pair_output : Text → C → Bool × C
  pair_output pin c =
      if is_empty pin
      then not_paired (codes "AirPlay PIN cannot be empty.") c
      else if c.pairing_in_progress
      then not_paired (codes "AirPlay pairing is already in progress.") c
      else (true, record c { pairing_in_progress = true; last_error = [] })

  abbrev paired : Outcome AirPlayPairingResult × C → Bool × C
  paired (ok _, c) =
      let d = record c { pairing_in_progress = false; last_error = [] } in
      if d.playback_open then schedule_control_update env d else (false, d)
  paired (throw e, c) =
      (false, record c { pairing_in_progress = false; last_error = widen_utf8 e.what })

  -- Whether the control worker is started behind it.
  pairing_worker : Text → Text → C → Bool × C
  pairing_worker id pin c = paired (
      (do ensure_discovery_started env; on_transport env (Air.pair_output client is_numeric id pin))
        c)

  -- The command that is queued for the main thread.
  pub handle_remote_command : AirPlayRemoteCommandEvent → C → Option AirPlayRemoteCommand × C
  handle_remote_command event c =
      if c.shutting_down
      then (none, c)
      else if is_empty event.command_id
      then (some event.command, c)
      else if contains c.recent_remote_command_ids event.command_id
      then (none, c)
      else (
        some event.command,
        record c {
          recent_remote_command_ids = remember event.command_id c.recent_remote_command_ids;
        },
      )

  report_playback_failure : Text → C → FailureStop × C
  report_playback_failure message c =
      let d = record c { last_error = widen_utf8 message } in
      if c.shutting_down then (nothing_queued, d) else (
        if c.playback_failure_stop_queued then nothing_queued else stop_queued,
        record d { playback_failure_stop_queued = true },
      )

  abbrev label_of : List Text → Text
  label_of [] = codes "Idle"
  label_of (name ∷ []) = name
  label_of (name ∷ next ∷ names) = name ++ (codes " +" ++ decimal (1 + length names))

  unfoldable pub playback_destination_label : C → Text
  playback_destination_label c =
      if c.playback_connecting
      then codes "Connecting..."
      else if not c.playback_open
      then codes "Idle"
      else label_of c.active_output_names

  abbrev plural : ℕ → Text
  plural n = if n == 1 then [] else codes "s"

  abbrev scanning_text : List OutputDevice → Text
  scanning_text outputs =
      codes "Discovery: scanning"
      ++ (if is_empty outputs
          then []
          else codes ", " ++ (decimal (length outputs) ++ codes " cached"))

  abbrev counts_text : C → Text
  counts_text c =
      codes "Discovery: "
      ++ (decimal (length c.cached_outputs)
          ++ (codes " speaker"
              ++ (plural (length c.cached_outputs)
                  ++ (codes ", "
                      ++ (decimal (length (selected_ids c.cached_outputs))
                          ++ (codes " selected, "
                              ++ (decimal c.refresh_count
                                  ++ (codes " scan" ++ plural c.refresh_count))))))))

  unfoldable pub status_text : C → Text
  status_text c =
      if not (is_empty c.last_error)
      then codes "Discovery error: " ++ c.last_error
      else if not c.discovery_started
      then codes "Discovery: not started"
      else if c.pairing_in_progress
      then codes "Speakers: pairing"
      else if c.control_in_progress
      then codes "Speakers: applying selection"
      else if c.refresh_deferred_until_stop
      then codes "Discovery: refresh queued until playback stops"
      else if c.refresh_in_progress
      then scanning_text c.cached_outputs
      else counts_text c
