-- ===== src/Component/State/Control.antt =====
-- multiroom_component_state.cpp: the refresh worker and the control worker, section by section. Each section holds the mutex
-- of the state or that of the transport.
use foobar_universal_multiro.Component.OutputState.{preserve_user_output_state, selected_ids}
use foobar_universal_multiro.Base.Outcome.{
  M, Outcome, ok, when, throw, ◌>>=◌, ◌>>◌, for_each, get, pure,
}
use foobar_universal_multiro.Base.Int.{ℤ}
use foobar_universal_multiro.Component.State.Shared.{
  Surroundings, ComponentState, scan, make_engine, send_metadata, on_transport,
  effective_remote_volume, engine_open, engine_open_stream, set_volumes,
}
use foobar_universal_multiro.Device.{OutputDevice, PlaybackMetadata, PcmFormat}
use foobar_universal_multiro.Base.{
  Text, Bool, List, [], contains, false, if◌then◌else◌, is_empty, not, true, ◌&&◌, ◌++◌, ◌+◌, ◌||◌,
  ◌∷◌,
}
use foobar_universal_multiro.AirPlay.Transport as Air

-- What the control worker copies from the state, `..._snapshot`.
pub record ControlWork : Type 0 where
  pub outputs : List OutputDevice
  pub master_volume : ℤ
  pub metadata : PlaybackMetadata
  pub metadata_active : Bool
  pub metadata_requested : Bool
  pub full_update : Bool
  pub volume_update_ids : List Text
  pub should_connect : Bool
  pub format : PcmFormat

-- `control_volume_update_ids_.insert(ids.begin(), ids.end())` of a set.
insert_ids : List Text → List Text → List Text
insert_ids ids [] = ids
insert_ids ids (id ∷ more) = insert_ids (if contains ids id then ids else ids ++ id ∷ []) more

-- What is left to do when the worker looks again.
abbrev has_request : {S : Type 0} → ComponentState S → Bool
has_request c =
    c.control_full_update_requested
    || not (is_empty c.control_volume_update_ids)
    || c.control_metadata_update_requested

abbrev playback_busy : {S : Type 0} → ComponentState S → Bool
playback_busy c = c.playback_open || c.playback_connecting

module _ (env : Surroundings) where
  open env use {client, is_numeric, widen_utf8}
  open client use {State}

  abbrev C : Type 0
  C = ComponentState State

  -- `refresh_outputs()` under the lock; whether a worker is started.
  unfoldable pub refresh_outputs : C → Bool × C
  refresh_outputs c =
      if playback_busy c
      then (false, record c { refresh_deferred_until_stop = true })
      else if c.refresh_in_progress
      then (false, record c { refresh_requested = true })
      else (true, record c { refresh_in_progress = true; refresh_requested = false })

  -- The worker under both locks; whether it goes on to the scan, with the transport's lock still held.
  unfoldable pub refresh_check : C → Bool × C
  refresh_check c =
      if playback_busy c
      then (
        false,
        record c {
          refresh_deferred_until_stop = true;
          refresh_requested = false;
          refresh_in_progress = false;
        },
      )
      else (true, c)

  -- The scan waits 1500 ms.
  abbrev pub refresh_scan : M C (List OutputDevice)
  refresh_scan = scan env 1500

  unfoldable pub refresh_publish : Outcome (List OutputDevice) → C → C
  refresh_publish (ok outputs) c = record c {
    refresh_count = c.refresh_count + 1;
    cached_outputs = outputs;
    last_error = [];
  }
  refresh_publish (throw e) c = record c {
    refresh_count = c.refresh_count + 1;
    last_error = widen_utf8 e.what;
  }

  -- Whether the worker runs again.
  unfoldable pub refresh_finish : C → Bool × C
  refresh_finish c =
      if c.refresh_requested
      then (true, record c { refresh_requested = false })
      else (false, record c { refresh_in_progress = false })

  -- The requests; whether a worker is started.
  abbrev pub started : C → Bool × C
  started c =
      if c.control_in_progress then (false, c) else (true, record c { control_in_progress = true })

  unfoldable pub schedule_control_update : C → Bool × C
  schedule_control_update c = started (record c { control_full_update_requested = true })

  unfoldable pub schedule_volume_update : List Text → C → Bool × C
  unfolding insert_ids
  schedule_volume_update ids c =
      if is_empty ids
      then (false, c)
      else started
          (record c { control_volume_update_ids = insert_ids c.control_volume_update_ids ids })

  unfoldable pub schedule_metadata_update : C → Bool × C
  schedule_metadata_update c = started (record c { control_metadata_update_requested = true })

  unfoldable pub control_snapshot : C → ControlWork × C
  control_snapshot c = (
    record {
      outputs = c.cached_outputs;
      master_volume = c.master_volume_percent;
      metadata = c.playback_metadata;
      metadata_active = c.playback_metadata_active;
      metadata_requested = c.control_metadata_update_requested;
      full_update = c.control_full_update_requested;
      volume_update_ids = c.control_volume_update_ids;
      should_connect = c.playback_open && c.playback_format_valid;
      format = c.playback_format;
    },
    record c {
      control_metadata_update_requested = false;
      control_full_update_requested = false;
      control_volume_update_ids = [];
    },
  )

  -- The volumes of the outputs that were asked for, with no lock of the transport.
  unfoldable pub control_volumes : ControlWork → M C (Unit {0})
  control_volumes w = when (not w.full_update) (
      for_each
        (λ output. when (contains w.volume_update_ids output.id) (
          on_transport env (
            Air.set_session_volume client is_numeric output.id
              (effective_remote_volume output.volume w.master_volume))))
        w.outputs)

  -- The engine is made and opened, and the outputs are connected.
  unfoldable pub control_connect : ControlWork → M C (Unit {0})
  control_connect w = do
    make_engine env
    c ← get
    when (not (engine_open env c)) (engine_open_stream env w.format)
    on_transport env (Air.connect_selected_outputs client is_numeric)

  -- The section under the transport's lock; the outputs that it leaves in `outputs_snapshot`.
  unfoldable pub control_full : ControlWork → Bool → M C (List OutputDevice)
  unfolding control_connect
  control_full w should_connect = do
    on_transport env (Air.set_enabled_outputs client is_numeric (selected_ids w.outputs))
    set_volumes env w.master_volume w.outputs
    when should_connect (control_connect w)
    outputs ← on_transport env (Air.list_outputs client is_numeric)
    pure (preserve_user_output_state outputs w.outputs)

  unfoldable pub control_update : ControlWork → Bool → M C (List OutputDevice)
  unfolding control_full
  control_update w should_connect = do
    send_metadata env w.metadata_active w.metadata
    if w.full_update then control_full w should_connect else pure w.outputs

  -- The state after the `try` block; `names` are those of the sessions, read in between.
  unfoldable pub control_publish :
      ControlWork → Bool → Outcome (List OutputDevice) → List Text → C → C
  control_publish w should_connect (ok outputs) names c =
      let cleared = record c { last_error = [] } in
      if not w.full_update then cleared else record cleared {
        cached_outputs = preserve_user_output_state outputs c.cached_outputs;
        active_output_names = if should_connect then names else c.active_output_names;
      }
  control_publish w should_connect (throw e) names c = record c {
    active_output_names = if w.full_update && should_connect then [] else c.active_output_names;
    last_error = widen_utf8 e.what;
  }

  -- Whether the worker runs again.
  unfoldable pub control_finish : C → Bool × C
  control_finish c =
      if has_request c then (true, c) else (false, record c { control_in_progress = false })
