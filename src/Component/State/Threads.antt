-- ===== src/Component/State/Threads.antt =====
-- multiroom_component_state.cpp: the refresh worker, the control worker and the playback thread side by side. One event is
-- what a thread does while it holds a lock; a thread that keeps the transport's lock from one event to the next keeps
-- the others from theirs.
pub mod Flags
pub mod Owed
pub mod Kept
pub mod Opened
pub mod Invariant
pub mod Refreshing
pub mod Controlling
pub mod Playing
pub mod Running
pub mod Steps
pub mod Rounds
pub mod Serving
use foobar_universal_multiro.Component.State.Playback.{
  OpenWork, refresh_outputs_for_playback, open_snapshot, open_setup, open_publish, open_abort,
  prepare_playback_open, open_failed, cancel_pending_playback_open, open_check, write_playback_pcm,
  flush_playback, stop_playback,
}
use foobar_universal_multiro.Component.State.Places.{
  ControlPlace, Event, PlayPlace, RefreshPlace, World, aborting, applied, asks_control,
  asks_metadata, asks_refresh, asks_volumes, cancels, control_absent, control_ending,
  control_starting, control_works, copying, failing, flushes, idle, is_controlling, is_idle,
  is_opening, is_prepared, is_refreshing, is_scanning, locks_transport, looking, named, open_works,
  opens, prepared, prepares, ready_to_set_up, refresh_absent, refresh_checking, refresh_ending,
  refresh_starting, refresh_works, scanned, scanning, sending_volumes, set_up, snapping, stops,
  updating, writes,
}
use foobar_universal_multiro.AirPlay.Client.{AirPlayControlClient}
use foobar_universal_multiro.Component.State.Shared.{
  Surroundings, ComponentState, ensure_discovery_started, active_names, new_state,
}
use foobar_universal_multiro.Device.{PcmFormat, OutputDevice}
use foobar_universal_multiro.Component.State.Control.{
  ControlWork, control_snapshot, refresh_outputs, refresh_check, control_volumes,
  schedule_control_update, refresh_scan, control_update, schedule_volume_update, refresh_publish,
  schedule_metadata_update, refresh_finish, control_publish, control_finish,
}
use foobar_universal_multiro.Base.Outcome.{Outcome, ok, Exception, throw}
use foobar_universal_multiro.Base.{
  Text, Bool, List, Option, [], false, if◌then◌else◌, not, true, ℕ, ◌&&◌, ◌||◌, ◌∷◌,
}

module _ (env : Surroundings) where
  open env use {client, is_numeric, widen_utf8}
  open client use {State}

  abbrev W : Type 0
  W = World State

  abbrev C : Type 0
  C = ComponentState State

  -- The component before any thread of it runs.
  abbrev pub new_world : State → (ℕ → Outcome (List OutputDevice)) → (ℕ → ℕ × ℕ) → Text → Text → W
  new_world control browses clock outputs groups = record {
    state = new_state env control browses clock outputs groups;
    refresh = refresh_absent;
    control = control_absent;
    play = idle;
  }

  -- A request under the state's lock, which may start a worker.
  abbrev pub started_refresh : Bool × C → W → W
  started_refresh (start, c) w = record w {
    state = c;
    refresh = if start then refresh_starting else w.refresh;
  }

  abbrev pub started_control : Bool × C → W → W
  started_control (start, c) w = record w {
    state = c;
    control = if start then snapping else w.control;
  }

  pub refresh_outcome : Outcome (Unit {0}) × C → W → W
  refresh_outcome (ok _, c) w = record w { state = c; refresh = refresh_checking }
  refresh_outcome (throw e, c) w = record w { state = c; refresh = scanned (throw e) }

  abbrev checked : Bool × C → W → W
  checked (goes_on, c) w = record w {
    state = c;
    refresh = if goes_on then scanning else refresh_absent;
  }

  abbrev scan_done : Outcome (List OutputDevice) × C → W → W
  scan_done (o, c) w = record w { state = c; refresh = scanned o }

  abbrev refreshed : Bool × C → W → W
  refreshed (again, c) w = record w {
    state = c;
    refresh = if again then refresh_starting else refresh_absent;
  }

  pub refresh_at : RefreshPlace → W → W
  unfolding refresh_outcome
  refresh_at refresh_absent w = w
  refresh_at refresh_starting w = refresh_outcome (ensure_discovery_started env w.state) w
  refresh_at refresh_checking w = checked (refresh_check env w.state) w
  refresh_at scanning w = scan_done (refresh_scan env w.state) w
  refresh_at (scanned o) w = record w {
    state = refresh_publish env o w.state;
    refresh = refresh_ending;
  }
  refresh_at refresh_ending w = refreshed (refresh_finish env w.state) w

  abbrev snapped : ControlWork × C → W → W
  snapped (work, c) w = record w { state = c; control = sending_volumes work }

  pub volumes_sent : ControlWork → Outcome (Unit {0}) × C → W → W
  volumes_sent work (ok _, c) w = record w {
    state = c;
    control =
        if work.full_update || work.metadata_requested
        then control_starting work
        else applied work work.should_connect (ok work.outputs);
  }
  volumes_sent work (throw e, c) w = record w {
    state = c;
    control = applied work work.should_connect (throw e);
  }

  pub control_started : ControlWork → Outcome (Unit {0}) × C → W → W
  control_started work (ok _, c) w = record w { state = c; control = updating work }
  control_started work (throw e, c) w = record w {
    state = c;
    control = applied work work.should_connect (throw e);
  }

  abbrev updated : ControlWork → Bool → Outcome (List OutputDevice) × C → W → W
  updated work should_connect (o, c) w = record w {
    state = c;
    control = applied work should_connect o;
  }

  -- The names are read, under the transport's lock, if the update has succeeded for a stream that is open.
  abbrev pub reads_names : ControlWork → Bool → Outcome (List OutputDevice) → Bool
  reads_names work should_connect (ok _) = should_connect && work.full_update
  reads_names work should_connect (throw e) = false

  abbrev pub names_after : Bool → List Text → List Text
  names_after reads names = if reads then names else []

  abbrev controlled : Bool × C → W → W
  controlled (again, c) w = record w {
    state = c;
    control = if again then snapping else control_absent;
  }

  pub control_at : ControlPlace → W → W
  unfolding volumes_sent control_started
  control_at control_absent w = w
  control_at snapping w = snapped (control_snapshot env w.state) w
  control_at (sending_volumes work) w = volumes_sent work (control_volumes env work w.state) w
  control_at (control_starting work) w =
      if is_scanning w.refresh
      then w
      else control_started work (ensure_discovery_started env w.state) w
  control_at (updating work) w =
      let should_connect = work.should_connect && w.state.playback_open in
      if is_scanning w.refresh
      then w
      else updated work should_connect (control_update env work should_connect w.state) w
  control_at (applied work should_connect o) w =
      if is_scanning w.refresh && reads_names work should_connect o then w else record w {
        control =
            named work should_connect o
              (names_after (reads_names work should_connect o) (active_names env w.state));
      }
  control_at (named work should_connect o names) w = record w {
    state = control_publish env work should_connect o names w.state;
    control = control_ending;
  }
  control_at control_ending w = controlled (control_finish env w.state) w

  -- The next place of the playback thread, or its handler.
  pub play_outcome : {A : Type 0} → (A → PlayPlace) → Outcome A × C → W → W
  play_outcome next (ok a, c) w = record w { state = c; play = next a }
  play_outcome next (throw e, c) w = record w { state = c; play = aborting e }

  -- An exception within the handler leaves `open_playback_stream` there.
  pub abort_outcome : Exception → Outcome (Unit {0}) × C → W → W
  abort_outcome e (ok _, c) w = record w { state = c; play = failing e }
  abort_outcome e (throw _, c) w = record w { state = c; play = idle }

  pub play_at : PlayPlace → W → W
  unfolding play_outcome abort_outcome
  play_at idle w = w
  play_at prepared w = w
  play_at (looking format) w =
      play_outcome (λ _. copying format) (refresh_outputs_for_playback env w.state) w
  play_at (copying format) w = play_outcome ready_to_set_up (open_snapshot env format w.state) w
  play_at (ready_to_set_up work) w = play_outcome set_up (open_setup env work w.state) w
  -- The last section also asks for a control update.
  play_at (set_up result) w =
      started_control (schedule_control_update env (open_publish env result w.state))
        (record w { play = idle })
  play_at (aborting e) w = abort_outcome e (open_abort env w.state) w
  play_at (failing e) w = record w { state = open_failed env e w.state; play = idle }

  abbrev left_state : {A : Type 0} → Outcome A × C → W → W
  left_state (o, c) w = record w { state = c }

  pub prepare_outcome : Outcome (Unit {0}) × C → W → W
  prepare_outcome (ok _, c) w = record w { state = c; play = prepared }
  prepare_outcome (throw _, c) w = record w { state = c }

  -- Behind `stop_playback`: the refresh that was deferred.
  pub stopped_outcome : Outcome Bool × C → W → W
  stopped_outcome (ok deferred, c) w =
      if deferred && not c.shutting_down
      then started_refresh (refresh_outputs env c) (record w { play = idle })
      else record w { state = c; play = idle }
  stopped_outcome (throw e, c) w = record w { state = c; play = idle }

  -- Every event of the playback thread that takes the transport's lock waits for a scan to end. The output plugin stops a
  -- stream only when no `open_playback_stream` runs.
  unfoldable pub step : Event → W → W
  unfolding refresh_at control_at play_at prepare_outcome stopped_outcome
  step asks_refresh w = started_refresh (refresh_outputs env w.state) w
  step asks_control w = started_control (schedule_control_update env w.state) w
  step (asks_volumes ids) w = started_control (schedule_volume_update env ids w.state) w
  step asks_metadata w = started_control (schedule_metadata_update env w.state) w
  step refresh_works w = refresh_at w.refresh w
  step control_works w = control_at w.control w
  step prepares w =
      if is_idle w.play then prepare_outcome (prepare_playback_open env w.state) w else w
  step cancels w = left_state (cancel_pending_playback_open env w.state) w
  step (opens format) w =
      if is_prepared w.play && not (is_scanning w.refresh)
      then play_outcome (λ _. looking format) (open_check env format w.state) w
      else w
  step open_works w =
      if is_scanning w.refresh && locks_transport w.play then w else play_at w.play w
  step (writes frames bytes) w =
      if is_idle w.play && not (is_scanning w.refresh)
      then left_state (write_playback_pcm env frames bytes w.state) w
      else w
  step flushes w =
      if is_idle w.play && not (is_scanning w.refresh)
      then left_state (flush_playback env w.state) w
      else w
  step stops w =
      if (is_idle w.play || is_prepared w.play) && not (is_scanning w.refresh)
      then stopped_outcome (stop_playback env w.state) w
      else w

  unfoldable pub run : List Event → W → W
  unfolding step
  run [] w = w
  run (event ∷ events) w = run events (step event w)
