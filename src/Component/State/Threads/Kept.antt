-- ===== src/Component/State/Threads/Kept.antt =====
-- multiroom_component_state.cpp: which flags the sections of the control worker and of the playback thread leave.
use foobar_universal_multiro.Component.State.Threads.Flags.{
  Keeps, engine_call-Keeps, when-Keeps, seq-Keeps, each-Keeps, transport-Keeps, send_metadata-Keeps,
  set_volumes-Keeps, bind-Keeps, flags,
}
use foobar_universal_multiro.Device.{PcmFormat, OutputDevice}
use foobar_universal_multiro.Component.State.Control.{
  control_volumes, control_connect, ControlWork, control_full, control_update, control_publish,
}
use foobar_universal_multiro.Component.State.Shared.{
  Surroundings, ComponentState, make_engine, engine_open_stream, engine_write, engine_flush,
  engine_stop, engine_open, effective_remote_volume,
}
use foobar_universal_multiro.Base.{
  Bool, Option, Text, contains, not, refl, ℕ, if_elim, List, [], if◌then◌else◌, ◌≡◌,
}
use foobar_universal_multiro.Base.Outcome.{pure, Outcome, ok, throw}
use foobar_universal_multiro.AirPlay.Transport as Air
use foobar_universal_multiro.Core.Engine
use foobar_universal_multiro.Component.OutputState.{selected_ids, preserve_user_output_state}

module _ (env : Surroundings) where
  open env use {client, is_numeric, widen_utf8}
  open client use {State}

  abbrev C : Type 0
  C = ComponentState State

  pub make_engine-Keeps : Keeps (make_engine env)
  unfolding make_engine
  make_engine-Keeps = record { keeps = λ c. refl }

  pub engine_open_stream-Keeps : (format : PcmFormat) → Keeps (engine_open_stream env format)
  unfolding engine_open_stream
  engine_open_stream-Keeps format = record {
    keeps = λ c.
        (engine_call-Keeps env c.playback_engine tt
            (Engine.open_stream (Air.transport client is_numeric) format)).keeps
          c;
  }

  pub engine_write-Keeps :
      (frames : Option Text) (bytes : ℕ) → Keeps (engine_write env frames bytes)
  unfolding engine_write
  engine_write-Keeps frames bytes = record {
    keeps = λ c.
        (engine_call-Keeps env c.playback_engine 0
            (Engine.write_interleaved_pcm (Air.transport client is_numeric) frames bytes)).keeps
          c;
  }

  pub engine_flush-Keeps : Keeps (engine_flush env)
  unfolding engine_flush
  engine_flush-Keeps = record {
    keeps = λ c.
        (engine_call-Keeps env c.playback_engine tt
            (Engine.flush (Air.transport client is_numeric))).keeps
          c;
  }

  pub engine_stop-Keeps : Keeps (engine_stop env)
  unfolding engine_stop
  engine_stop-Keeps = record {
    keeps = λ c.
        (engine_call-Keeps env c.playback_engine tt
            (Engine.stop (Air.transport client is_numeric))).keeps
          c;
  }

  pub control_volumes-Keeps : (w : ControlWork) → Keeps (control_volumes env w)
  unfolding control_volumes
  control_volumes-Keeps w = when-Keeps (not w.full_update) (
      each-Keeps w.outputs (λ output. when-Keeps (contains w.volume_update_ids output.id) (
        transport-Keeps env (
          Air.set_session_volume client is_numeric output.id
            (effective_remote_volume output.volume w.master_volume)))))

  control_connect-Keeps : (w : ControlWork) → Keeps (control_connect env w)
  unfolding control_connect
  control_connect-Keeps w = seq-Keeps make_engine-Keeps (record {
    keeps = λ c.
        (seq-Keeps (when-Keeps (not (engine_open env c)) (engine_open_stream-Keeps w.format))
            (transport-Keeps env (Air.connect_selected_outputs client is_numeric))).keeps
          c;
  })

  control_full-Keeps :
      (w : ControlWork) (should_connect : Bool) → Keeps (control_full env w should_connect)
  unfolding control_full
  control_full-Keeps w should_connect =
      seq-Keeps
        (transport-Keeps env (Air.set_enabled_outputs client is_numeric (selected_ids w.outputs)))
        (seq-Keeps (set_volumes-Keeps env w.master_volume w.outputs) (
          seq-Keeps (when-Keeps should_connect (control_connect-Keeps w)) (
            bind-Keeps (transport-Keeps env (Air.list_outputs client is_numeric))
              (λ outputs. record { keeps = λ c. refl }))))

  pub control_update-Keeps :
      (w : ControlWork) (should_connect : Bool) → Keeps (control_update env w should_connect)
  unfolding control_update
  control_update-Keeps w should_connect =
      seq-Keeps (send_metadata-Keeps env w.metadata_active w.metadata) (
        if_elim Keeps w.full_update (control_full env w should_connect) (pure w.outputs)
          (λ _. control_full-Keeps w should_connect) (λ _. record { keeps = λ c. refl }))

  pub control_publish-flags :
      (work : ControlWork) (b : Bool) (o : Outcome (List OutputDevice)) (names : List Text) (c : C)
      → flags (control_publish env work b o names c) ≡ flags c
  unfolding control_publish
  control_publish-flags work b (ok outputs) names c =
      if_elim (λ d. flags d ≡ flags c) (not work.full_update) (record c { last_error = [] })
        (record c {
          last_error = [];
          cached_outputs = preserve_user_output_state outputs c.cached_outputs;
          active_output_names = if b then names else c.active_output_names;
        })
        (λ _. refl) (λ _. refl)
  control_publish-flags work b (throw e) names c = refl
