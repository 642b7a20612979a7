-- ===== src/Component/State/Setup.antt =====
-- multiroom_component_state.cpp: what the sections of `open_playback_stream` make of the engine.
use foobar_universal_multiro.AirPlay.Transport.{AirPlayTransport}
use foobar_universal_multiro.Component.OutputState.{selected_ids, has_stored_selected_output}
use foobar_universal_multiro.Component.State.Playback.{
  open_snapshot, open_reconcile, open_setup, OpenWork, cancelled,
}
use foobar_universal_multiro.Component.State.Shared.{
  EngineState, Surroundings, made_engine, ComponentState, set_volumes, send_metadata, engine_stop,
  make_engine, engine_open_stream, on_transport,
}
use foobar_universal_multiro.Device.{PcmFormat, OutputDevice}
use foobar_universal_multiro.Base.{
  Bool, List, Option, false, refl, true, ◌≡◌, [], codes, is_empty, ◌&&◌,
}
use foobar_universal_multiro.Base.Outcome.{M, ◌>>◌, throw_if, when, runtime_error}
use foobar_universal_multiro.AirPlay.Transport as Air
use foobar_universal_multiro.Component.State.EngineCalls.{
  Post, then-Post, Anything, anything, Plays, IsMade, kept-Post, On, Made, set_volumes-engine,
  send_metadata-engine, open_call-Post, made_engine-IsMade,
}

module _ (env : Surroundings) where
  open env use {client, is_numeric, widen_utf8}
  open client use {State}

  abbrev C : Type 0
  C = ComponentState State

  abbrev WithFormat : PcmFormat → OpenWork → C → Type 0
  WithFormat format work c = work.format ≡ format

  -- The two checks of the snapshot.
  abbrev snapshot_cancelled : M C (Unit {0})
  snapshot_cancelled c =
      throw_if c.playback_open_cancel_requested runtime_error
        (codes "AirPlay playback setup cancelled.") c

  abbrev snapshot_missing : PcmFormat → C → M C (Unit {0})
  snapshot_missing format c d =
      let shown = record d {
        playback_format = format;
        playback_format_valid = true;
        last_error = [];
      } in
      throw_if
        (is_empty (selected_ids c.cached_outputs)
          && has_stored_selected_output c.cfg_airplay_output_state)
        runtime_error (codes "Saved AirPlay speaker selection was not discovered.") shown

  pub open_snapshot-Post :
      (format : PcmFormat) (c : C) → Post (WithFormat format) (open_snapshot env format c)
  unfolding open_snapshot
  open_snapshot-Post format c =
      then-Post Anything (WithFormat format) _ (snapshot_cancelled c)
        (anything (snapshot_cancelled c))
        (λ _ d _.
          then-Post Anything (WithFormat format) _ (snapshot_missing format c d)
            (anything (snapshot_missing format c d)) (λ _ s _. refl))

  -- Where the setup was cancelled it throws.
  abbrev checked : Bool → M C (Unit {0})
  checked b = when b (engine_stop env >> cancelled env)

  checked-Post :
      (format : PcmFormat) (b : Bool) (c : C)
      → On env format c
      → Post (λ _. On env format) (checked b c)
  checked-Post format true c h =
      then-Post Anything (λ _. On env format) _ (engine_stop env c) (anything (engine_stop env c))
        (λ _ d _. tt)
  checked-Post format false c h = h

  abbrev volumes : OpenWork → M C (Unit {0})
  volumes w = set_volumes env w.master_volume w.outputs

  volumes-Post :
      (P : Option EngineState → Type 0) (w : OpenWork) (c : C)
      → P c.playback_engine
      → Post (λ _ s. P s.playback_engine) (volumes w c)
  volumes-Post P w c h =
      kept-Post env P (volumes w c) c (set_volumes-engine env w.master_volume w.outputs c) h

  abbrev listing : M C (List OutputDevice)
  listing = on_transport env (Air.list_outputs client is_numeric)

  open_reconcile-Post :
      (format : PcmFormat) (w : OpenWork) (c : C)
      → On env format c
      → Post (λ _. On env format) (open_reconcile env w c)
  unfolding open_reconcile
  open_reconcile-Post format w c h =
      then-Post (λ _. On env format) (λ _. On env format) _
        (checked c.playback_open_cancel_requested c)
        (checked-Post format c.playback_open_cancel_requested c h)
        (λ _ d g.
          then-Post (λ _. On env format) (λ _. On env format) _ (volumes w d)
            (volumes-Post (Plays format) w d g)
            (λ _ s k.
              then-Post (λ _. On env format) (λ _. On env format) _ (listing s)
                (kept-Post env (Plays format) (listing s) s refl k) (λ _ u l. l)))

  abbrev enabling : OpenWork → M C (Unit {0})
  enabling w = on_transport env (Air.set_enabled_outputs client is_numeric (selected_ids w.outputs))

  abbrev metadata_sent : OpenWork → M C (Unit {0})
  metadata_sent w = send_metadata env w.metadata_active w.metadata

  abbrev connected : M C (Unit {0})
  connected = on_transport env (Air.connect_selected_outputs client is_numeric)

  pub open_setup-Post : (w : OpenWork) (c : C) → Post (λ _. On env w.format) (open_setup env w c)
  unfolding open_setup make_engine engine_open_stream
  open_setup-Post w c =
      let made : C = record c { playback_engine = made_engine env c.playback_engine } in
      then-Post (λ _. Made env) (λ _. On env w.format) _ (enabling w made)
        (kept-Post env IsMade (enabling w made) made refl
          (made_engine-IsMade env c.playback_engine))
        (λ _ d g.
          then-Post (λ _. Made env) (λ _. On env w.format) _ (volumes w d)
            (volumes-Post IsMade w d g)
            (λ _ s k.
              then-Post (λ _. On env w.format) (λ _. On env w.format) _
                (engine_open_stream env w.format s)
                (open_call-Post env w.format s.playback_engine s k)
                (λ _ u p.
                  then-Post (λ _. On env w.format) (λ _. On env w.format) _ (metadata_sent w u)
                    (kept-Post env (Plays w.format) (metadata_sent w u) u
                      (send_metadata-engine env w.metadata_active w.metadata u) p)
                    (λ _ v q.
                      then-Post (λ _. On env w.format) (λ _. On env w.format) _ (connected v)
                        (kept-Post env (Plays w.format) (connected v) v refl q)
                        (λ _ x l. open_reconcile-Post w.format w x l)))))
