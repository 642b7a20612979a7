-- ===== src/Component/State/Threads/Controlling.antt =====
-- multiroom_component_state.cpp, `control_update_worker` and the flags.
use foobar_universal_multiro.Component.State.Threads.Kept.{
  control_publish-flags, control_volumes-Keeps, control_update-Keeps,
}
use foobar_universal_multiro.Component.State.Threads.Flags.{flags, ensure_discovery_started-Keeps}
use foobar_universal_multiro.Component.State.Threads.Invariant.{IsAgreed, Agree, world, moved}
use foobar_universal_multiro.Base.Outcome.{Outcome, ok, throw}
use foobar_universal_multiro.Component.State.Control.{
  control_snapshot, ControlWork, control_finish, control_volumes,
}
use foobar_universal_multiro.Component.State.Places.{
  RefreshPlace, ControlPlace, PlayPlace, snapping, sending_volumes, control_starting,
  control_ending, applied, updating, is_scanning, control_absent, named,
}
use foobar_universal_multiro.Component.State.Threads.{
  control_at, volumes_sent, control_started, reads_names,
}
use foobar_universal_multiro.Component.State.Shared.{
  Surroundings, ComponentState, ensure_discovery_started,
}
use foobar_universal_multiro.Base.{Bool, arith, if_elim, refl, ◌&&◌, ◌||◌, ◌≡◌}

module _ (env : Surroundings) (q : Bool) where
  open env use {client, is_numeric, widen_utf8}
  open client use {State}

  abbrev C : Type 0
  C = ComponentState State

  abbrev At : C → RefreshPlace → ControlPlace → PlayPlace → Type 0
  At c r k p = IsAgreed env q (control_at env k (world env c r k p))

  snapped-Agree :
      (c : C) (r : RefreshPlace) (p : PlayPlace)
      → Agree q (flags c) r snapping p
      → At c r snapping p
  unfolding control_at control_snapshot
  snapped-Agree c r p h = record {
    refresh_runs = ground arith;
    refresh_kept = ground arith;
    control_runs = ground arith;
    control_kept = ground arith;
    connects = ground arith;
    scans_apart = ground arith;
    running = ground arith;
    owed_kept = ground arith;
  }

  volumes_sent-Agree :
      (work : ControlWork) (o : Outcome (Unit {0}) × C) (c : C) (r : RefreshPlace) (p : PlayPlace)
      → flags o.1 ≡ flags c
      → Agree q (flags c) r (sending_volumes work) p
      → IsAgreed env q (volumes_sent env work o (world env c r (sending_volumes work) p))
  unfolding volumes_sent
  volumes_sent-Agree work (ok _, d) c r p e h =
      if_elim (λ k. Agree q (flags d) r k p) (work.full_update || work.metadata_requested)
        (control_starting work) (applied work work.should_connect (ok work.outputs))
        (λ _.
          moved r (control_starting work) p e h refl (ground arith) refl (ground arith)
            (ground arith) (ground arith))
        (λ _.
          moved r (applied work work.should_connect (ok work.outputs)) p e h refl (ground arith)
            refl (ground arith) (ground arith) (ground arith))
  volumes_sent-Agree work (throw x, d) c r p e h =
      moved r (applied work work.should_connect (throw x)) p e h refl (ground arith) refl
        (ground arith) (ground arith) (ground arith)

  control_started-Agree :
      (work : ControlWork) (o : Outcome (Unit {0}) × C) (c : C) (r : RefreshPlace) (p : PlayPlace)
      → flags o.1 ≡ flags c
      → Agree q (flags c) r (control_starting work) p
      → IsAgreed env q (control_started env work o (world env c r (control_starting work) p))
  unfolding control_started
  control_started-Agree work (ok _, d) c r p e h =
      moved r (updating work) p e h refl (ground arith) refl (ground arith) (ground arith)
        (ground arith)
  control_started-Agree work (throw x, d) c r p e h =
      moved r (applied work work.should_connect (throw x)) p e h refl (ground arith) refl
        (ground arith) (ground arith) (ground arith)

  control_finish-Agree :
      (c : C) (r : RefreshPlace) (p : PlayPlace)
      → Agree q (flags c) r control_ending p
      → At c r control_ending p
  unfolding control_at control_finish
  control_finish-Agree c r p h = record {
    refresh_runs = ground arith;
    refresh_kept = ground arith;
    control_runs = ground arith;
    control_kept = ground arith;
    connects = ground arith;
    scans_apart = ground arith;
    running = ground arith;
    owed_kept = ground arith;
  }

  pub control_at-Agree :
      (c : C) (r : RefreshPlace) (k : ControlPlace) (p : PlayPlace)
      → Agree q (flags c) r k p
      → IsAgreed env q (control_at env k (world env c r k p))
  unfolding control_at
  control_at-Agree c r control_absent p h = h
  control_at-Agree c r snapping p h = snapped-Agree c r p h
  control_at-Agree c r (sending_volumes work) p h =
      volumes_sent-Agree work (control_volumes env work c) c r p
        ((control_volumes-Keeps env work).keeps c) h
  control_at-Agree c r (control_starting work) p h =
      if_elim (IsAgreed env q) (is_scanning r) _ _ (λ _. h)
        (λ _.
          control_started-Agree work (ensure_discovery_started env c) c r p
            ((ensure_discovery_started-Keeps env).keeps c) h)
  control_at-Agree c r (updating work) p h =
      if_elim (IsAgreed env q) (is_scanning r) _ _ (λ _. h)
        (λ _.
          moved r _ p
            ((control_update-Keeps env work (work.should_connect && c.playback_open)).keeps c) h
            refl (ground arith) refl (ground arith) (ground arith) (ground arith))
  control_at-Agree c r (applied work b o) p h =
      if_elim (IsAgreed env q) (is_scanning r && reads_names env work b o) _ _ (λ _. h)
        (λ _.
          moved r _ p refl h refl (ground arith) refl (ground arith) (ground arith) (ground arith))
  control_at-Agree c r (named work b o names) p h =
      moved r control_ending p (control_publish-flags env work b o names c) h refl (ground arith)
        refl (ground arith) (ground arith) (ground arith)
  control_at-Agree c r control_ending p h = control_finish-Agree c r p h
