-- ===== src/Component/State/Playback.antt =====
-- multiroom_component_state.cpp: opening, feeding and stopping the stream, section by section.
use foobar_universal_multiro.Component.OutputState.{
  has_stored_selected_output, selected_ids, preserve_user_output_state,
}
use foobar_universal_multiro.Base.Throws.{lift}
use foobar_universal_multiro.Base.Int.{ℤ}
use foobar_universal_multiro.Base.Outcome.{
  M, Exception, raise, pure, modify, ◌>>=◌, ◌>>◌, runtime_error, get, when, throw_if,
}
use foobar_universal_multiro.Component.State.Shared.{
  Surroundings, ComponentState, validate_playback_format, recover, on_transport, make_engine,
  fail_with, ensure_discovery_started, rethrow, engine_open, engine_stop, engine_flush, set_volumes,
  engine_open_stream, send_metadata, active_names, scan, engine_write,
}
use foobar_universal_multiro.Device.{PcmFormat, OutputDevice, PlaybackMetadata}
use foobar_universal_multiro.Base.{
  Text, Bool, List, Option, [], codes, false, if◌then◌else◌, is_empty, not, suc, true, zero, ℕ,
  ◌&&◌, ◌+◌, ◌||◌,
}
use foobar_universal_multiro.AirPlay.Transport as Air

-- What `open_playback_stream` copies from the state.
pub record OpenWork : Type 0 where
  pub format : PcmFormat
  pub outputs : List OutputDevice
  pub metadata : PlaybackMetadata
  pub metadata_active : Bool
  pub master_volume : ℤ

module _ (env : Surroundings) where
  open env use {client, is_numeric, widen_utf8}
  open client use {State}

  abbrev C : Type 0
  C = ComponentState State

  abbrev pub connecting : C → C
  connecting c = record c { playback_connecting = true; active_output_names = []; last_error = [] }

  -- `prepare_playback_open`
  unfoldable pub prepare_playback_open : M C (Unit {0})
  prepare_playback_open = do
    modify (λ c. record c { playback_open_cancel_requested = false })
    on_transport env (Air.reset_pending_open_cancel client is_numeric)
    modify connecting

  unfoldable pub cancel_pending_playback_open : M C (Unit {0})
  cancel_pending_playback_open = do
    modify (λ c. record c { playback_open_cancel_requested = true })
    on_transport env (Air.cancel_pending_open client is_numeric)

  abbrev pub cancelled : {A : Type 0} → M C A
  cancelled = raise runtime_error (codes "AirPlay playback setup cancelled.")

  -- Whether the scans have found what the stored selection needs.
  abbrev pub has_found : Bool → List OutputDevice → Bool
  has_found saved_selection_expected outputs =
      not saved_selection_expected || not (is_empty (selected_ids outputs))

  -- The two loops: up to 20 scans of 250 ms, in two attempts of ten, until one finds the selection.
  unfoldable pub scan_until_found : ℕ → Bool → List OutputDevice → M C (List OutputDevice)
  scan_until_found zero saved_selection_expected outputs = pure outputs
  scan_until_found (suc slices) saved_selection_expected outputs = do
    c ← get
    throw_if c.playback_open_cancel_requested runtime_error
        (codes "AirPlay playback setup cancelled.")
    found ← scan env 250
    let rest = scan_until_found slices saved_selection_expected found
    if has_found saved_selection_expected found then pure found else rest

  -- Whether the saved speakers have to be looked for.
  abbrev pub should_refresh : C → Bool
  should_refresh c =
      is_empty c.cached_outputs
      || (is_empty (selected_ids c.cached_outputs)
          && has_stored_selected_output c.cfg_airplay_output_state)

  unfoldable pub refresh_outputs_for_playback : M C (Unit {0})
  unfolding scan_until_found
  refresh_outputs_for_playback = do
    c ← get
    when (should_refresh c) (do
      outputs ← scan_until_found 20 (has_stored_selected_output c.cfg_airplay_output_state) []
      modify (λ d. record d {
        refresh_count = d.refresh_count + 1;
        cached_outputs = outputs;
        last_error = [];
      }))

  -- The head of `open_playback_stream`.
  unfoldable pub open_check : PcmFormat → M C (Unit {0})
  unfolding validate_playback_format
  open_check format = do lift (validate_playback_format format); ensure_discovery_started env

  -- Behind the refresh: up to the snapshot, and the check of the selection.
  unfoldable pub open_snapshot : PcmFormat → M C OpenWork
  open_snapshot format = do
    c ← get
    throw_if c.playback_open_cancel_requested runtime_error
        (codes "AirPlay playback setup cancelled.")
    modify
        (λ d. record d { playback_format = format; playback_format_valid = true; last_error = [] })
    throw_if
        (is_empty (selected_ids c.cached_outputs)
          && has_stored_selected_output c.cfg_airplay_output_state)
        runtime_error (codes "Saved AirPlay speaker selection was not discovered.")
    pure (record {
      format = format;
      outputs = c.cached_outputs;
      metadata = c.playback_metadata;
      metadata_active = c.playback_metadata_active;
      master_volume = c.master_volume_percent;
    })

  -- The end of the setup: whether it was cancelled meanwhile, and what the sessions now are.
  unfoldable pub open_reconcile : OpenWork → M C (List OutputDevice × List Text)
  open_reconcile w = do
    c ← get
    when c.playback_open_cancel_requested (engine_stop env >> cancelled)
    set_volumes env w.master_volume w.outputs
    outputs ← on_transport env (Air.list_outputs client is_numeric)
    d ← get
    pure (preserve_user_output_state outputs w.outputs, active_names env d)

  -- The setup, under the transport's lock throughout: the outputs and the names that it leaves.
  unfoldable pub open_setup : OpenWork → M C (List OutputDevice × List Text)
  unfolding open_reconcile
  open_setup w = do
    make_engine env
    on_transport env (Air.set_enabled_outputs client is_numeric (selected_ids w.outputs))
    set_volumes env w.master_volume w.outputs
    engine_open_stream env w.format
    send_metadata env w.metadata_active w.metadata
    on_transport env (Air.connect_selected_outputs client is_numeric)
    open_reconcile w

  unfoldable pub open_publish : List OutputDevice × List Text → C → C
  open_publish (outputs, names) c = record c {
    cached_outputs = outputs;
    active_output_names = names;
    playback_open = true;
    playback_connecting = false;
    last_error = [];
  }

  -- The handler: under the transport's lock, then under the state's. An exception of `stop` would leave it.
  unfoldable pub open_abort : M C (Unit {0})
  open_abort = do
    c ← get
    when (engine_open env c) (engine_stop env)
    modify (λ d. record d { playback_open = false })

  unfoldable pub open_failed : Exception → C → C
  open_failed e c = record c {
    playback_format_valid = false;
    playback_connecting = false;
    active_output_names = [];
    last_error = widen_utf8 e.what;
  }

  abbrev pub clear_error : M C (Unit {0})
  clear_error = modify (λ c. record c { last_error = [] })

  abbrev pub fail_again : {A : Type 0} → Exception → M C A
  fail_again e = do modify (fail_with env e); rethrow e

  unfoldable pub write_playback_pcm : Option Text → ℕ → M C (Unit {0})
  write_playback_pcm frames bytes =
      recover
        (do
          c ← get
          when (engine_open env c && c.playback_open)
              (engine_write env frames bytes >>= (λ _. clear_error)))
        fail_again

  unfoldable pub flush_playback : M C (Unit {0})
  flush_playback =
      recover (do c ← get; when c.playback_open (engine_flush env); clear_error) fail_again

  -- The two atomic flags, then the transport's.
  abbrev pub close_flags : M C (Unit {0})
  close_flags = do
    modify (λ c. record c { playback_open = false; playback_open_cancel_requested = false })
    on_transport env (Air.reset_pending_open_cancel client is_numeric)

  abbrev pub stopped : C → C
  stopped c = record c {
    playback_format_valid = false;
    playback_connecting = false;
    active_output_names = [];
  }

  -- Whether a refresh was deferred.
  unfoldable pub stop_state : M C Bool
  stop_state = do
    d ← get
    modify (λ s. record (stopped s) { refresh_deferred_until_stop = false; last_error = [] })
    pure d.refresh_deferred_until_stop

  -- The `try` block, and its handler.
  unfoldable pub stop_section : M C Bool
  unfolding stop_state
  stop_section = do c ← get; when c.playback_open (engine_stop env); close_flags; stop_state

  abbrev pub fail_stopped : Exception → M C Bool
  fail_stopped e = do modify (λ s. fail_with env e (stopped s)); rethrow e

  unfoldable pub stop_failed : Exception → M C Bool
  stop_failed e = do close_flags; fail_stopped e

  -- `stop_playback` up to the refresh that was deferred: whether it is to run.
  unfoldable pub stop_playback : M C Bool
  unfolding stop_section stop_failed
  stop_playback = recover stop_section stop_failed
