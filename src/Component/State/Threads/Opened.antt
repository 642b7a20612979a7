-- ===== src/Component/State/Threads/Opened.antt =====
-- multiroom_component_state.cpp: which flags the sections of the playback thread leave, and which they set.
use foobar_universal_multiro.Component.State.Threads.Kept.{
  engine_stop-Keeps, make_engine-Keeps, engine_flush-Keeps, engine_write-Keeps,
  engine_open_stream-Keeps,
}
use foobar_universal_multiro.Component.OutputState.{has_stored_selected_output, selected_ids}
use foobar_universal_multiro.Component.State.Threads.Flags.{
  Keeps, seq-Keeps, when-Keeps, throw_if-Keeps, lift-Keeps, bind-Keeps, scan-Keeps,
  ensure_discovery_started-Keeps, modify-Keeps, pure-Keeps, recover-Keeps, raise-Keeps,
  transport-Keeps, set_volumes-Keeps, read-Keeps, send_metadata-Keeps,
}
use foobar_universal_multiro.Device.{OutputDevice, PcmFormat}
use foobar_universal_multiro.Component.State.Playback.{
  scan_until_found, refresh_outputs_for_playback, open_check, open_snapshot, should_refresh,
  has_found, open_reconcile, open_setup, clear_error, write_playback_pcm, flush_playback, OpenWork,
  fail_again,
}
use foobar_universal_multiro.Component.State.Shared.{
  Surroundings, ComponentState, validate_playback_format, fail_with, engine_open, active_names,
}
use foobar_universal_multiro.Base.{
  Bool, List, Text, [], codes, if_elim, is_empty, refl, suc, true, zero, ℕ, ◌&&◌, ◌+◌, Option,
}
use foobar_universal_multiro.Base.Outcome.{runtime_error, pure, Exception}
use foobar_universal_multiro.AirPlay.Transport as Air
use foobar_universal_multiro.Component.OutputState.{selected_ids, preserve_user_output_state}

module _ (env : Surroundings) where
  open env use {client, is_numeric, widen_utf8}
  open client use {State}

  abbrev C : Type 0
  C = ComponentState State

  scan_until_found-Keeps :
      (slices : ℕ) (expected : Bool) (outputs : List OutputDevice)
      → Keeps (scan_until_found env slices expected outputs)
  unfolding scan_until_found
  scan_until_found-Keeps zero expected outputs = record { keeps = λ c. refl }
  scan_until_found-Keeps (suc slices) expected outputs = record {
    keeps = λ c.
        (seq-Keeps
            (throw_if-Keeps c.playback_open_cancel_requested runtime_error
              (codes "AirPlay playback setup cancelled."))
            (bind-Keeps (scan-Keeps env 250) (λ found.
              if_elim Keeps (has_found env expected found) (pure found)
                (scan_until_found env slices expected found) (λ _. record { keeps = λ d. refl })
                (λ _. scan_until_found-Keeps slices expected found)))).keeps
          c;
  }

  pub refresh_outputs_for_playback-Keeps : Keeps (refresh_outputs_for_playback env)
  unfolding refresh_outputs_for_playback
  refresh_outputs_for_playback-Keeps = record {
    keeps = λ c.
        (when-Keeps (should_refresh env c) (
            bind-Keeps
              (scan_until_found-Keeps 20 (has_stored_selected_output c.cfg_airplay_output_state) [])
              (λ outputs.
                modify-Keeps
                  (λ d. record d {
                    refresh_count = d.refresh_count + 1;
                    cached_outputs = outputs;
                    last_error = [];
                  })
                  (λ d. refl)))).keeps
          c;
  }

  pub open_check-Keeps : (format : PcmFormat) → Keeps (open_check env format)
  unfolding open_check
  open_check-Keeps format =
      seq-Keeps (lift-Keeps (validate_playback_format format)) (ensure_discovery_started-Keeps env)

  pub open_snapshot-Keeps : (format : PcmFormat) → Keeps (open_snapshot env format)
  unfolding open_snapshot
  open_snapshot-Keeps format = record {
    keeps = λ c.
        (seq-Keeps
            (throw_if-Keeps c.playback_open_cancel_requested runtime_error
              (codes "AirPlay playback setup cancelled."))
            (seq-Keeps
              (modify-Keeps
                (λ d. record d {
                  playback_format = format;
                  playback_format_valid = true;
                  last_error = [];
                })
                (λ d. refl))
              (seq-Keeps
                (throw_if-Keeps
                  (is_empty (selected_ids c.cached_outputs)
                    && has_stored_selected_output c.cfg_airplay_output_state)
                  runtime_error (codes "Saved AirPlay speaker selection was not discovered."))
                (pure-Keeps (record {
                  format = format;
                  outputs = c.cached_outputs;
                  metadata = c.playback_metadata;
                  metadata_active = c.playback_metadata_active;
                  master_volume = c.master_volume_percent;
                }))))).keeps
          c;
  }

  open_reconcile-Keeps : (w : OpenWork) → Keeps (open_reconcile env w)
  unfolding open_reconcile
  open_reconcile-Keeps w = record {
    keeps = λ c.
        (seq-Keeps
            (when-Keeps c.playback_open_cancel_requested (
              seq-Keeps (engine_stop-Keeps env)
                (raise-Keeps runtime_error (codes "AirPlay playback setup cancelled."))))
            (seq-Keeps (set_volumes-Keeps env w.master_volume w.outputs) (
              bind-Keeps (transport-Keeps env (Air.list_outputs client is_numeric)) (λ outputs.
                read-Keeps (λ d.
                  (preserve_user_output_state outputs w.outputs, active_names env d)))))).keeps
          c;
  }

  pub open_setup-Keeps : (w : OpenWork) → Keeps (open_setup env w)
  unfolding open_setup
  open_setup-Keeps w = seq-Keeps (make_engine-Keeps env) (
      seq-Keeps
        (transport-Keeps env (Air.set_enabled_outputs client is_numeric (selected_ids w.outputs)))
        (seq-Keeps (set_volumes-Keeps env w.master_volume w.outputs) (
          seq-Keeps (engine_open_stream-Keeps env w.format) (
            seq-Keeps (send_metadata-Keeps env w.metadata_active w.metadata) (
              seq-Keeps (transport-Keeps env (Air.connect_selected_outputs client is_numeric))
                (open_reconcile-Keeps w))))))

  clear_error-Keeps : Keeps (clear_error env)
  clear_error-Keeps = record { keeps = λ c. refl }

  fail_again-Keeps : {A : Type 0} (e : Exception) → Keeps (fail_again env {A = A} e)
  unfolding fail_with
  fail_again-Keeps e = record { keeps = λ c. refl }

  pub write_playback_pcm-Keeps :
      (frames : Option Text) (bytes : ℕ) → Keeps (write_playback_pcm env frames bytes)
  unfolding write_playback_pcm
  write_playback_pcm-Keeps frames bytes = record {
    keeps = λ c.
        (recover-Keeps
            (when-Keeps (engine_open env c && c.playback_open)
              (bind-Keeps (engine_write-Keeps env frames bytes) (λ _. clear_error-Keeps)))
            fail_again-Keeps).keeps
          c;
  }

  pub flush_playback-Keeps : Keeps (flush_playback env)
  unfolding flush_playback
  flush_playback-Keeps = record {
    keeps = λ c.
        (recover-Keeps
            (seq-Keeps (when-Keeps c.playback_open (engine_flush-Keeps env)) clear_error-Keeps)
            fail_again-Keeps).keeps
          c;
  }
