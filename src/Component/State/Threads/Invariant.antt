-- ===== src/Component/State/Threads/Invariant.antt =====
-- multiroom_component_state.cpp: the places of the threads and the flags.
use foobar_universal_multiro.Component.State.Control.{refresh_outputs, started}
use foobar_universal_multiro.Component.State.Shared.{Surroundings, ComponentState}
use foobar_universal_multiro.Component.State.Places.{
  RefreshPlace, World, ControlPlace, PlayPlace, is_refreshing, is_before_scan, is_controlling,
  is_idle, is_scanning, is_opening,
}
use foobar_universal_multiro.Component.State.Threads.{started_refresh, started_control}
use foobar_universal_multiro.Component.State.Threads.Flags.{Flags, flags, has_work}
use foobar_universal_multiro.Base.{Bool, false, not, ◌&&◌, ◌||◌, ◌≡◌, arith, subst, sym}

-- The flags tell where the threads are, no request is left without a worker, a refresh that is owed (`o`) is deferred, asked
-- for or before the worker, and no scan runs beside the stream.
pub record Agree (o : Bool) (f : Flags) (r : RefreshPlace) (k : ControlPlace) (p : PlayPlace)
    : Type 0 where
  pub refresh_runs : is_refreshing r ≡ f.refresh_in_progress
  pub refresh_kept : (f.refresh_requested && not f.refresh_in_progress) ≡ false
  pub control_runs : is_controlling k ≡ f.control_in_progress
  pub control_kept : (has_work f && not f.control_in_progress) ≡ false
  pub connects : (not (is_idle p) && not f.playback_connecting) ≡ false
  pub scans_apart : (is_scanning r && (f.playback_open || is_opening p)) ≡ false
  pub running : f.shutting_down ≡ false
  pub owed_kept :
      (o && not (f.refresh_deferred_until_stop || f.refresh_requested || is_before_scan r)) ≡ false

-- Less may be owed.
pub owing :
    {o : Bool} {f : Flags} {r : RefreshPlace} {k : ControlPlace} {p : PlayPlace} (q : Bool)
    → (q && not o) ≡ false
    → Agree o f r k p
    → Agree q f r k p
owing q e h = record {
  refresh_runs = h.refresh_runs;
  refresh_kept = h.refresh_kept;
  control_runs = h.control_runs;
  control_kept = h.control_kept;
  connects = h.connects;
  scans_apart = h.scans_apart;
  running = h.running;
  owed_kept = ground arith;
}

-- A thread moves on while the flags stay.
pub moved :
    {o : Bool} {f g : Flags} {r : RefreshPlace} {k : ControlPlace} {p : PlayPlace}
    (s : RefreshPlace) (l : ControlPlace) (q : PlayPlace)
    → g ≡ f
    → Agree o f r k p
    → is_refreshing s ≡ is_refreshing r
    → (is_scanning s && not (is_scanning r)) ≡ false
    → is_controlling l ≡ is_controlling k
    → (not (is_idle q) && is_idle p) ≡ false
    → (is_scanning s && (is_opening q && not (is_opening p))) ≡ false
    → (o && (is_before_scan r && not (is_before_scan s))) ≡ false
    → Agree o g s l q
moved {o} {f} {g} {r} {k} {p} s l q same h a b c d e i =
    subst (λ x. Agree o x s l q) (sym same)
      (record {
        refresh_runs = ground arith;
        refresh_kept = ground arith;
        control_runs = ground arith;
        control_kept = ground arith;
        connects = ground arith;
        scans_apart = ground arith;
        running = ground arith;
        owed_kept = ground arith;
      })

module _ (env : Surroundings) where
  open env use {client, is_numeric, widen_utf8}
  open client use {State}

  abbrev C : Type 0
  C = ComponentState State

  abbrev pub IsAgreed : Bool → World State → Type 0
  IsAgreed o w = Agree o (flags w.state) w.refresh w.control w.play

  abbrev pub world : C → RefreshPlace → ControlPlace → PlayPlace → World State
  world c r k p = record { state = c; refresh = r; control = k; play = p }

  -- A refresh that is asked for is owed.
  pub refresh_outputs-Agree :
      {o : Bool} (q : Bool) (w : World State)
      → IsAgreed o w
      → IsAgreed q (started_refresh env (refresh_outputs env w.state) w)
  unfolding refresh_outputs
  refresh_outputs-Agree q w h = record {
    refresh_runs = ground arith;
    refresh_kept = ground arith;
    control_runs = ground arith;
    control_kept = ground arith;
    connects = ground arith;
    scans_apart = ground arith;
    running = ground arith;
    owed_kept = ground arith;
  }

  -- A request of the control worker: the flags of the request change, and a worker runs behind it.
  pub started-Agree :
      (o : Bool) (w : World State) (c : C)
      → Agree o (flags w.state) w.refresh w.control w.play
      → c.refresh_in_progress ≡ w.state.refresh_in_progress
      → c.refresh_requested ≡ w.state.refresh_requested
      → c.refresh_deferred_until_stop ≡ w.state.refresh_deferred_until_stop
      → c.shutting_down ≡ w.state.shutting_down
      → c.control_in_progress ≡ w.state.control_in_progress
      → (not (is_idle w.play) && not c.playback_connecting) ≡ false
      → (is_scanning w.refresh && (c.playback_open || is_opening w.play)) ≡ false
      → IsAgreed o (started_control env (started env c) w)
  started-Agree o w c h a b d e f g i = record {
    refresh_runs = ground arith;
    refresh_kept = ground arith;
    control_runs = ground arith;
    control_kept = ground arith;
    connects = ground arith;
    scans_apart = ground arith;
    running = ground arith;
    owed_kept = ground arith;
  }
