-- ===== src/Component/State/Threads/Playing.antt =====
-- multiroom_component_state.cpp, opening the stream and the flags.
use foobar_universal_multiro.Component.State.Threads.Kept.{engine_stop-Keeps}
use foobar_universal_multiro.Component.State.Threads.Opened.{
  open_check-Keeps, refresh_outputs_for_playback-Keeps, open_snapshot-Keeps,
}
use foobar_universal_multiro.Component.State.Threads.Invariant.{
  Agree, IsAgreed, world, started-Agree, moved,
}
use foobar_universal_multiro.Component.State.Threads.Flags.{flags, when-Keeps}
use foobar_universal_multiro.Component.State.Control.{schedule_control_update}
use foobar_universal_multiro.Device.{PcmFormat, OutputDevice}
use foobar_universal_multiro.Component.State.Playback.{
  open_abort, open_publish, open_failed, open_check, refresh_outputs_for_playback, open_snapshot,
  open_setup,
}
use foobar_universal_multiro.Component.State.Shared.{Surroundings, ComponentState, engine_open}
use foobar_universal_multiro.Base.{
  Bool, List, Text, arith, false, not, refl, subst, sym, true, ◌&&◌, ◌≡◌,
}
use foobar_universal_multiro.Base.Outcome.{Exception, Outcome, then_keeps, ok, throw, modify}
use foobar_universal_multiro.Component.State.Places.{
  idle, prepared, looking, copying, ready_to_set_up, set_up, aborting, failing, PlayPlace,
  RefreshPlace, ControlPlace, is_scanning, is_idle, is_opening,
}
use foobar_universal_multiro.Component.State.Threads.{play_outcome, play_at, abort_outcome}
use foobar_universal_multiro.Component.State.Threads.Opened.{open_setup-Keeps}

module _ (env : Surroundings) (q : Bool) where
  open env use {client, is_numeric, widen_utf8}
  open client use {State}

  abbrev C : Type 0
  C = ComponentState State

  play_outcome-Agree :
      {A : Type 0} (next : A → PlayPlace) (o : Outcome A × C) (c : C) (r : RefreshPlace)
      (k : ControlPlace) (p : PlayPlace)
      → flags o.1 ≡ flags c
      → Agree q (flags c) r k p
      → is_idle p ≡ false
      → (is_scanning r && not (is_opening p)) ≡ false
      → ((a : A) → is_opening (next a) ≡ true)
      → IsAgreed env q (play_outcome env next o (world env c r k p))
  unfolding play_outcome
  play_outcome-Agree next (ok a, d) c r k p e h i s n =
      moved r k (next a) e h refl (ground arith) refl (ground arith) (ground arith) (ground arith)
  play_outcome-Agree next (throw x, d) c r k p e h i s n =
      moved r k (aborting x) e h refl (ground arith) refl (ground arith) (ground arith)
        (ground arith)

  open_publish-Agree :
      (result : List OutputDevice × List Text) (c : C) (r : RefreshPlace) (k : ControlPlace)
      → Agree q (flags c) r k (set_up result)
      → IsAgreed env q (play_at env (set_up result) (world env c r k (set_up result)))
  unfolding play_at open_publish schedule_control_update
  open_publish-Agree (outputs, names) c r k h =
      started-Agree env q (world env c r k idle) _
        (moved r k idle refl h refl (ground arith) refl refl (ground arith) (ground arith)) refl
        refl refl refl refl refl (ground arith)

  open_abort-Agree :
      (c : C) (r : RefreshPlace) (k : ControlPlace) (p : PlayPlace)
      → Agree q (flags c) r k p
      → Agree q (flags (open_abort env c).1) r k p
  unfolding open_abort
  open_abort-Agree c r k p h =
      then_keeps {S = C} (λ s. Agree q (flags s) r k p)
        (λ _. modify (λ d. record d { playback_open = false })) _
        (subst (λ f. Agree q f r k p)
          (sym ((when-Keeps (engine_open env c) (engine_stop-Keeps env)).keeps c)) h)
        (λ _ s g. record {
          refresh_runs = ground arith;
          refresh_kept = ground arith;
          control_runs = ground arith;
          control_kept = ground arith;
          connects = ground arith;
          scans_apart = ground arith;
          running = ground arith;
          owed_kept = ground arith;
        })

  abort_outcome-Agree :
      (e : Exception) (o : Outcome (Unit {0}) × C) (c : C) (r : RefreshPlace) (k : ControlPlace)
      → Agree q (flags o.1) r k (aborting e)
      → IsAgreed env q (abort_outcome env e o (world env c r k (aborting e)))
  unfolding abort_outcome
  abort_outcome-Agree e (ok _, d) c r k h =
      moved r k (failing e) refl h refl (ground arith) refl refl (ground arith) (ground arith)
  abort_outcome-Agree e (throw x, d) c r k h =
      moved r k idle refl h refl (ground arith) refl refl (ground arith) (ground arith)

  open_failed-Agree :
      (e : Exception) (c : C) (r : RefreshPlace) (k : ControlPlace)
      → Agree q (flags c) r k (failing e)
      → IsAgreed env q (play_at env (failing e) (world env c r k (failing e)))
  unfolding play_at open_failed
  open_failed-Agree e c r k h = record {
    refresh_runs = ground arith;
    refresh_kept = ground arith;
    control_runs = ground arith;
    control_kept = ground arith;
    connects = ground arith;
    scans_apart = ground arith;
    running = ground arith;
    owed_kept = ground arith;
  }

  pub play_at-Agree :
      (c : C) (r : RefreshPlace) (k : ControlPlace) (p : PlayPlace)
      → Agree q (flags c) r k p
      → IsAgreed env q (play_at env p (world env c r k p))
  unfolding play_at
  play_at-Agree c r k idle h = h
  play_at-Agree c r k prepared h = h
  play_at-Agree c r k (looking format) h =
      play_outcome-Agree (λ _. copying format) (refresh_outputs_for_playback env c) c r k
        (looking format) ((refresh_outputs_for_playback-Keeps env).keeps c) h refl (ground arith)
        (λ _. refl)
  play_at-Agree c r k (copying format) h =
      play_outcome-Agree ready_to_set_up (open_snapshot env format c) c r k (copying format)
        ((open_snapshot-Keeps env format).keeps c) h refl (ground arith) (λ _. refl)
  play_at-Agree c r k (ready_to_set_up work) h =
      play_outcome-Agree set_up (open_setup env work c) c r k (ready_to_set_up work)
        ((open_setup-Keeps env work).keeps c) h refl (ground arith) (λ _. refl)
  play_at-Agree c r k (set_up result) h = open_publish-Agree result c r k h
  play_at-Agree c r k (aborting e) h =
      abort_outcome-Agree e (open_abort env c) c r k (open_abort-Agree c r k (aborting e) h)
  play_at-Agree c r k (failing e) h = open_failed-Agree e c r k h

  pub opens-Agree :
      (format : PcmFormat) (c : C) (r : RefreshPlace) (k : ControlPlace)
      → is_scanning r ≡ false
      → Agree q (flags c) r k prepared
      → IsAgreed env q (
          play_outcome env
            (λ _. looking format)
            (open_check env format c)
            (world env c r k prepared))
  opens-Agree format c r k s h =
      play_outcome-Agree (λ _. looking format) (open_check env format c) c r k prepared
        ((open_check-Keeps env format).keeps c) h refl (ground arith) (λ _. refl)
