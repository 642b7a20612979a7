-- ===== src/Component/State/Threads/Running.antt =====
-- multiroom_component_state.cpp, preparing and stopping, and the flags.
use foobar_universal_multiro.Component.State.Threads.Kept.{engine_stop-Keeps}
use foobar_universal_multiro.Component.State.Playback.{
  close_flags, stop_playback, stop_state, stop_failed, stop_section, prepare_playback_open,
  fail_stopped, connecting,
}
use foobar_universal_multiro.Component.State.Threads.Invariant.{
  Agree, IsAgreed, world, refresh_outputs-Agree, owing,
}
use foobar_universal_multiro.Component.State.Threads.Flags.{flags, Keeps, when-Keeps}
use foobar_universal_multiro.Component.State.Shared.{
  Surroundings, ComponentState, fail_with, engine_stop, caught,
}
use foobar_universal_multiro.Base.{Bool, arith, subst, sym, if_elim, not, ◌&&◌}
use foobar_universal_multiro.Base.Outcome.{
  M, Exception, ◌>>◌, Outcome, when, then_with, ok, modify, throw,
}
use foobar_universal_multiro.Component.State.Places.{idle, RefreshPlace, ControlPlace, PlayPlace}
use foobar_universal_multiro.Component.State.Threads.{stopped_outcome, prepare_outcome}

module _ (env : Surroundings) (q : Bool) where
  open env use {client, is_numeric, widen_utf8}
  open client use {State}

  abbrev C : Type 0
  C = ComponentState State

  -- A computation that keeps the agreement while no `open_playback_stream` runs.
  abbrev Stays : {A : Type 0} → M C A → RefreshPlace → ControlPlace → Type 0
  Stays m r k = (c : C) → Agree q (flags c) r k idle → Agree q (flags (m c).1) r k idle

  stays : {A : Type 0} {m : M C A} (r : RefreshPlace) (k : ControlPlace) → Keeps m → Stays m r k
  stays r k h c g = subst (λ f. Agree q f r k idle) (sym (h.keeps c)) g

  close_flags-Stays : (r : RefreshPlace) (k : ControlPlace) → Stays (close_flags env) r k
  close_flags-Stays r k c h = record {
    refresh_runs = ground arith;
    refresh_kept = ground arith;
    control_runs = ground arith;
    control_kept = ground arith;
    connects = ground arith;
    scans_apart = ground arith;
    running = ground arith;
    owed_kept = ground arith;
  }

  -- A refresh that was deferred is no longer owed once the stop has returned that it is to run.
  abbrev IsStopped : RefreshPlace → ControlPlace → Outcome Bool × C → Type 0
  IsStopped r k (ok deferred, c) = Agree (q && not deferred) (flags c) r k idle
  IsStopped r k (throw e, c) = Agree q (flags c) r k idle

  then-IsStopped :
      {A : Type 0} (r : RefreshPlace) (k : ControlPlace) (f : A → M C Bool) (o : Outcome A × C)
      → Agree q (flags o.1) r k idle
      → ((a : A) (c : C) → Agree q (flags c) r k idle → IsStopped r k (f a c))
      → IsStopped r k (then_with f o)
  then-IsStopped r k f (ok a, c) h g = g a c h
  then-IsStopped r k f (throw e, c) h g = h

  caught-IsStopped :
      (r : RefreshPlace) (k : ControlPlace) (o : Outcome Bool × C)
      → IsStopped r k o
      → ((e : Exception) (c : C) → Agree q (flags c) r k idle → IsStopped r k (stop_failed env e c))
      → IsStopped r k (caught (stop_failed env) o)
  caught-IsStopped r k (ok deferred, c) h g = h
  caught-IsStopped r k (throw e, c) h g = g e c h

  stop_state-IsStopped :
      (r : RefreshPlace) (k : ControlPlace) (c : C)
      → Agree q (flags c) r k idle
      → IsStopped r k (stop_state env c)
  unfolding stop_state
  stop_state-IsStopped r k c h = record {
    refresh_runs = ground arith;
    refresh_kept = ground arith;
    control_runs = ground arith;
    control_kept = ground arith;
    connects = ground arith;
    scans_apart = ground arith;
    running = ground arith;
    owed_kept = ground arith;
  }

  fail_stopped-IsStopped :
      (e : Exception) (r : RefreshPlace) (k : ControlPlace) (c : C)
      → Agree q (flags c) r k idle
      → IsStopped r k (fail_stopped env e c)
  unfolding fail_with
  fail_stopped-IsStopped e r k c h = record {
    refresh_runs = ground arith;
    refresh_kept = ground arith;
    control_runs = ground arith;
    control_kept = ground arith;
    connects = ground arith;
    scans_apart = ground arith;
    running = ground arith;
    owed_kept = ground arith;
  }

  stop_failed-IsStopped :
      (e : Exception) (r : RefreshPlace) (k : ControlPlace) (c : C)
      → Agree q (flags c) r k idle
      → IsStopped r k (stop_failed env e c)
  unfolding stop_failed
  stop_failed-IsStopped e r k c h =
      then-IsStopped r k (λ _. fail_stopped env e) (close_flags env c) (close_flags-Stays r k c h)
        (λ _ s g. fail_stopped-IsStopped e r k s g)

  stop_section-IsStopped :
      (r : RefreshPlace) (k : ControlPlace) (c : C)
      → Agree q (flags c) r k idle
      → IsStopped r k (stop_section env c)
  unfolding stop_section
  stop_section-IsStopped r k c h =
      then-IsStopped r k (λ _. close_flags env >> stop_state env)
        (when c.playback_open (engine_stop env) c)
        (stays r k (when-Keeps c.playback_open (engine_stop-Keeps env)) c h)
        (λ _ s g.
          then-IsStopped r k (λ _. stop_state env) (close_flags env s) (close_flags-Stays r k s g)
            (λ _ d e. stop_state-IsStopped r k d e))

  pub stop_playback-IsStopped :
      (r : RefreshPlace) (k : ControlPlace) (c : C)
      → Agree q (flags c) r k idle
      → IsStopped r k (stop_playback env c)
  unfolding stop_playback
  stop_playback-IsStopped r k c h =
      caught-IsStopped r k (stop_section env c) (stop_section-IsStopped r k c h)
        (λ e s g. stop_failed-IsStopped e r k s g)

  -- The refresh that was deferred runs now.
  pub stopped_outcome-Agree :
      (o : Outcome Bool × C) (c : C) (r : RefreshPlace) (k : ControlPlace) (p : PlayPlace)
      → IsStopped r k o
      → IsAgreed env q (stopped_outcome env o (world env c r k p))
  unfolding stopped_outcome
  stopped_outcome-Agree (ok deferred, d) c r k p h =
      if_elim (IsAgreed env q) (deferred && not d.shutting_down) _ _
        (λ _. refresh_outputs-Agree env q (world env d r k idle) h)
        (λ e. owing q (let z = h.running in ground arith) h)
  stopped_outcome-Agree (throw e, d) c r k p h = h

  prepare_outcome-Agree :
      (o : Outcome (Unit {0}) × C) (c : C) (r : RefreshPlace) (k : ControlPlace)
      → Agree q (flags o.1) r k idle
      → IsAgreed env q
          (prepare_outcome env (then_with (λ _. modify (connecting env)) o) (world env c r k idle))
  unfolding prepare_outcome
  prepare_outcome-Agree (ok _, d) c r k h = record {
    refresh_runs = ground arith;
    refresh_kept = ground arith;
    control_runs = ground arith;
    control_kept = ground arith;
    connects = ground arith;
    scans_apart = ground arith;
    running = ground arith;
    owed_kept = ground arith;
  }
  prepare_outcome-Agree (throw e, d) c r k h = h

  pub prepare_playback_open-Agree :
      (c : C) (r : RefreshPlace) (k : ControlPlace)
      → Agree q (flags c) r k idle
      → IsAgreed env q (prepare_outcome env (prepare_playback_open env c) (world env c r k idle))
  unfolding prepare_playback_open
  prepare_playback_open-Agree c r k h = prepare_outcome-Agree _ c r k h
