-- ===== src/Component/State/Threads/Steps.antt =====
-- multiroom_component_state.cpp: the events of the threads and the flags.
use foobar_universal_multiro.Component.State.Threads.Owed.{owed_after, owed}
use foobar_universal_multiro.Device.{OutputDevice}
use foobar_universal_multiro.Component.State.Threads.Opened.{
  write_playback_pcm-Keeps, flush_playback-Keeps,
}
use foobar_universal_multiro.Component.State.Threads.Playing.{opens-Agree, play_at-Agree}
use foobar_universal_multiro.Component.State.Threads.Running.{
  prepare_playback_open-Agree, stopped_outcome-Agree, stop_playback-IsStopped,
}
use foobar_universal_multiro.Component.State.Threads.Controlling.{control_at-Agree}
use foobar_universal_multiro.Component.State.Threads.Refreshing.{refresh_at-Agree}
use foobar_universal_multiro.Component.State.Threads.Invariant.{
  IsAgreed, moved, started-Agree, refresh_outputs-Agree, world, Agree, owing,
}
use foobar_universal_multiro.Base.Outcome.{M, Outcome}
use foobar_universal_multiro.Component.State.Control.{
  schedule_volume_update, schedule_control_update, schedule_metadata_update,
}
use foobar_universal_multiro.Component.State.Shared.{Surroundings, ComponentState}
use foobar_universal_multiro.Base.{
  List, Text, [], arith, if_elim, is_empty, not, refl, subst, sym, true, ◌&&◌, ◌||◌, ◌∷◌, ◌≡◌, ℕ,
  Bool, false,
}
use foobar_universal_multiro.Component.State.Places.{
  World, Event, PlayPlace, idle, prepared, looking, asks_refresh, asks_control, asks_volumes,
  asks_metadata, refresh_works, control_works, prepares, cancels, opens, open_works, writes,
  flushes, stops, is_idle, is_prepared, copying, ready_to_set_up, set_up, aborting, failing,
  is_scanning, locks_transport,
}
use foobar_universal_multiro.Component.State.Threads.{
  step, run, started_control, prepare_outcome, prepare_playback_open, play_outcome, new_world,
}
use foobar_universal_multiro.Component.State.Playback.{
  cancel_pending_playback_open, open_check, stop_playback,
}
use foobar_universal_multiro.Component.State.Threads.Flags.{Keeps, flags}

is_idle-lem : (p : PlayPlace) → is_idle p ≡ true → p ≡ idle
is_idle-lem idle t = refl
is_idle-lem prepared t = absurd (ground arith)
is_idle-lem (looking format) t = absurd (ground arith)
is_idle-lem (copying format) t = absurd (ground arith)
is_idle-lem (ready_to_set_up work) t = absurd (ground arith)
is_idle-lem (set_up result) t = absurd (ground arith)
is_idle-lem (aborting e) t = absurd (ground arith)
is_idle-lem (failing e) t = absurd (ground arith)

is_prepared-lem : (p : PlayPlace) → is_prepared p ≡ true → p ≡ prepared
is_prepared-lem idle t = absurd (ground arith)
is_prepared-lem prepared t = refl
is_prepared-lem (looking format) t = absurd (ground arith)
is_prepared-lem (copying format) t = absurd (ground arith)
is_prepared-lem (ready_to_set_up work) t = absurd (ground arith)
is_prepared-lem (set_up result) t = absurd (ground arith)
is_prepared-lem (aborting e) t = absurd (ground arith)
is_prepared-lem (failing e) t = absurd (ground arith)

module _ (env : Surroundings) where
  open env use {client, is_numeric, widen_utf8}
  open client use {State}

  abbrev C : Type 0
  C = ComponentState State

  cancel_pending_playback_open-Keeps : Keeps (cancel_pending_playback_open env)
  unfolding cancel_pending_playback_open
  cancel_pending_playback_open-Keeps = record { keeps = λ c. refl }

  -- A call that keeps the flags, from wherever the playback thread stands.
  called-Agree :
      {o : Bool} {B : Type 0} {m : M C B} (w : World State)
      → Keeps m
      → IsAgreed env o w
      → Agree o (flags (m w.state).1) w.refresh w.control w.play
  called-Agree {o} w k h =
      subst (λ f. Agree o f w.refresh w.control w.play) (sym (k.keeps w.state)) h

  requests_volumes-Agree :
      (o : Bool) (ids : List Text) (w : World State)
      → IsAgreed env o w
      → IsAgreed env o (started_control env (schedule_volume_update env ids w.state) w)
  unfolding schedule_volume_update
  requests_volumes-Agree o ids w h =
      if_elim (λ q. IsAgreed env o (started_control env q w)) (is_empty ids) _ _ (λ _. h)
        (λ _. started-Agree env o w _ h refl refl refl refl refl h.connects h.scans_apart)

  same : (o b : Bool) (w : World State) → IsAgreed env o w → IsAgreed env (o && b) w
  same o b w h = owing (o && b) (ground arith) h

  -- Behind an event no more is owed than before it, but for a refresh that it asks for.
  pub step-Agree :
      (o : Bool) (event : Event) (w : World State)
      → IsAgreed env o w
      → IsAgreed env (owed_after env event w o) (step env event w)
  unfolding step schedule_control_update schedule_metadata_update
  step-Agree o asks_refresh w h = refresh_outputs-Agree env true w h
  step-Agree o asks_control w h =
      same o _ (step env asks_control w)
        (started-Agree env o w _ h refl refl refl refl refl h.connects h.scans_apart)
  step-Agree o (asks_volumes ids) w h =
      same o _ (step env (asks_volumes ids) w) (requests_volumes-Agree o ids w h)
  step-Agree o asks_metadata w h =
      same o _ (step env asks_metadata w)
        (started-Agree env o w _ h refl refl refl refl refl h.connects h.scans_apart)
  step-Agree o refresh_works w h = refresh_at-Agree env o w.state w.refresh w.control w.play h
  step-Agree o control_works w h =
      same o _ (step env control_works w)
        (control_at-Agree env o w.state w.refresh w.control w.play h)
  step-Agree o prepares w h = same o _ (step env prepares w) (
      if_elim (IsAgreed env o) (is_idle w.play) _ _
        (λ t.
          subst
            (λ p. IsAgreed env o (
              prepare_outcome env (prepare_playback_open env w.state)
                (world env w.state w.refresh w.control p)))
            (sym (is_idle-lem w.play t))
            (prepare_playback_open-Agree env o w.state w.refresh w.control (
              subst (λ p. Agree o (flags w.state) w.refresh w.control p) (is_idle-lem w.play t) h)))
        (λ _. h))
  step-Agree o cancels w h =
      same o _ (step env cancels w) (called-Agree w cancel_pending_playback_open-Keeps h)
  step-Agree o (opens format) w h = same o _ (step env (opens format) w) (
      if_elim (IsAgreed env o) (is_prepared w.play && not (is_scanning w.refresh)) _ _
        (λ t.
          subst
            (λ p. IsAgreed env o (
              play_outcome env (λ _. looking format) (open_check env format w.state)
                (world env w.state w.refresh w.control p)))
            (sym (is_prepared-lem w.play (ground arith)))
            (opens-Agree env o format w.state w.refresh w.control (ground arith) (
              subst (λ p. Agree o (flags w.state) w.refresh w.control p)
                (is_prepared-lem w.play (ground arith)) h)))
        (λ _. h))
  step-Agree o open_works w h = same o _ (step env open_works w) (
      if_elim (IsAgreed env o) (is_scanning w.refresh && locks_transport w.play) _ _ (λ _. h)
        (λ _. play_at-Agree env o w.state w.refresh w.control w.play h))
  step-Agree o (writes frames bytes) w h = same o _ (step env (writes frames bytes) w) (
      if_elim (IsAgreed env o) (is_idle w.play && not (is_scanning w.refresh)) _ _
        (λ _. called-Agree w (write_playback_pcm-Keeps env frames bytes) h) (λ _. h))
  step-Agree o flushes w h = same o _ (step env flushes w) (
      if_elim (IsAgreed env o) (is_idle w.play && not (is_scanning w.refresh)) _ _
        (λ _. called-Agree w (flush_playback-Keeps env) h) (λ _. h))
  step-Agree o stops w h = same o _ (step env stops w) (
      if_elim (IsAgreed env o)
        ((is_idle w.play || is_prepared w.play) && not (is_scanning w.refresh)) _ _
        (λ _.
          stopped_outcome-Agree env o (stop_playback env w.state) w.state w.refresh w.control w.play
            (stop_playback-IsStopped env o w.refresh w.control w.state (
              moved w.refresh w.control idle refl h refl (ground arith) refl refl (ground arith)
                (ground arith))))
        (λ _. h))

  pub run-Agree :
      (events : List Event) (o : Bool) (w : World State)
      → IsAgreed env o w
      → IsAgreed env (owed env events w o) (run env events w)
  unfolding run owed
  run-Agree [] o w h = h
  run-Agree (event ∷ events) o w h =
      run-Agree events (owed_after env event w o) (step env event w) (step-Agree o event w h)

  new_world-Agree :
      (control : State) (browses : ℕ → Outcome (List OutputDevice)) (clock : ℕ → ℕ × ℕ)
      (outputs groups : Text)
      → IsAgreed env false (new_world env control browses clock outputs groups)
  unfolding is_empty
  new_world-Agree control browses clock outputs groups = record {
    refresh_runs = refl;
    refresh_kept = refl;
    control_runs = refl;
    control_kept = refl;
    connects = refl;
    scans_apart = refl;
    running = refl;
    owed_kept = refl;
  }

  -- From the start, whatever the order of the events: the two flags in progress tell whether the worker runs. A refresh that
  -- is still owed (asked for since a worker last got to its scan, or to the exception with which the discovery failed to start) is
  -- deferred until the stop, or asked of the worker that runs, or a worker is before its scan; `refresh_requested` and the
  -- requests of the control worker are set only while the worker runs. An `open_playback_stream` has `playback_connecting`
  -- set until it ends, and no scan of the refresh worker runs while the stream is open or an `open_playback_stream` is
  -- under way. The component is not shutting down.
  pub run-new_world-IsAgreed :
      (events : List Event) (control : State) (browses : ℕ → Outcome (List OutputDevice))
      (clock : ℕ → ℕ × ℕ) (outputs groups : Text)
      → (let w = new_world env control browses clock outputs groups in
          IsAgreed env (owed env events w false) (run env events w))
  run-new_world-IsAgreed events control browses clock outputs groups =
      run-Agree events false _ (new_world-Agree control browses clock outputs groups)
