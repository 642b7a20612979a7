-- ===== src/Component/State/Threads/Refreshing.antt =====
-- multiroom_component_state.cpp, `refresh_outputs_worker` and the flags.
use foobar_universal_multiro.Component.State.Threads.Invariant.{
  Agree, IsAgreed, world, moved, owing,
}
use foobar_universal_multiro.Component.State.Threads.Flags.{
  flags, ensure_discovery_started-Keeps, scan-Keeps,
}
use foobar_universal_multiro.Device.{OutputDevice}
use foobar_universal_multiro.Base.Outcome.{Outcome, ok, throw}
use foobar_universal_multiro.Component.State.Control.{
  refresh_publish, refresh_check, refresh_finish, refresh_scan,
}
use foobar_universal_multiro.Component.State.Places.{
  RefreshPlace, ControlPlace, PlayPlace, refresh_starting, refresh_checking, refresh_ending,
  scanned, refresh_absent, scanning, is_before_scan, is_taken_up,
}
use foobar_universal_multiro.Component.State.Threads.{refresh_outcome, refresh_at}
use foobar_universal_multiro.Component.State.Shared.{
  Surroundings, ComponentState, ensure_discovery_started,
}
use foobar_universal_multiro.Base.{Bool, List, not, ◌&&◌, arith, refl, ◌≡◌, false, true}

module _ (env : Surroundings) (q : Bool) where
  open env use {client, is_numeric, widen_utf8}
  open client use {State}

  abbrev C : Type 0
  C = ComponentState State

  refresh_outcome-Agree :
      (o : Outcome (Unit {0}) × C) (c : C) (k : ControlPlace) (p : PlayPlace)
      → flags o.1 ≡ flags c
      → Agree q (flags c) refresh_starting k p
      → (let w = refresh_outcome env o (world env c refresh_starting k p) in
          IsAgreed env (q && not (is_taken_up w.refresh)) w)
  unfolding refresh_outcome
  refresh_outcome-Agree (ok _, d) c k p e h =
      moved refresh_checking k p e (owing (q && true) (ground arith) h) refl refl refl
        (ground arith) (ground arith) (ground arith)
  refresh_outcome-Agree (throw x, d) c k p e h =
      moved (scanned (throw x)) k p e (owing (q && false) (ground arith) h) refl refl refl
        (ground arith) (ground arith) (ground arith)

  refresh_check-Agree :
      (c : C) (k : ControlPlace) (p : PlayPlace)
      → Agree q (flags c) refresh_checking k p
      → (let w = refresh_at env refresh_checking (world env c refresh_checking k p) in
          IsAgreed env (q && not (is_taken_up w.refresh)) w)
  unfolding refresh_at refresh_check
  refresh_check-Agree c k p h = record {
    refresh_runs = ground arith;
    refresh_kept = ground arith;
    control_runs = ground arith;
    control_kept = ground arith;
    connects = ground arith;
    scans_apart = ground arith;
    running = ground arith;
    owed_kept = ground arith;
  }

  refresh_finish-Agree :
      (c : C) (k : ControlPlace) (p : PlayPlace)
      → Agree q (flags c) refresh_ending k p
      → IsAgreed env q (refresh_at env refresh_ending (world env c refresh_ending k p))
  unfolding refresh_at refresh_finish
  refresh_finish-Agree c k p h = record {
    refresh_runs = ground arith;
    refresh_kept = ground arith;
    control_runs = ground arith;
    control_kept = ground arith;
    connects = ground arith;
    scans_apart = ground arith;
    running = ground arith;
    owed_kept = ground arith;
  }

  refresh_publish-flags :
      (o : Outcome (List OutputDevice)) (c : C) → flags (refresh_publish env o c) ≡ flags c
  unfolding refresh_publish
  refresh_publish-flags (ok outputs) c = refl
  refresh_publish-flags (throw e) c = refl

  pub refresh_at-Agree :
      (c : C) (r : RefreshPlace) (k : ControlPlace) (p : PlayPlace)
      → Agree q (flags c) r k p
      → (let w = refresh_at env r (world env c r k p) in
          IsAgreed env (q && not (is_before_scan r && is_taken_up w.refresh)) w)
  unfolding refresh_at
  refresh_at-Agree c refresh_absent k p h = owing _ (ground arith) h
  refresh_at-Agree c refresh_starting k p h =
      refresh_outcome-Agree (ensure_discovery_started env c) c k p
        ((ensure_discovery_started-Keeps env).keeps c) h
  refresh_at-Agree c refresh_checking k p h = refresh_check-Agree c k p h
  refresh_at-Agree c scanning k p h =
      moved (scanned (refresh_scan env c).0) k p ((scan-Keeps env 1500).keeps c)
        (owing (q && true) (ground arith) h) refl refl refl (ground arith) (ground arith)
        (ground arith)
  refresh_at-Agree c (scanned o) k p h =
      moved refresh_ending k p (refresh_publish-flags o c) (owing (q && true) (ground arith) h) refl
        refl refl (ground arith) (ground arith) (ground arith)
  refresh_at-Agree c refresh_ending k p h =
      owing (q && true) (ground arith) (refresh_finish-Agree c k p h)
