-- ===== src/Component/State/Threads/Serving.antt =====
-- multiroom_component_state.cpp, `control_update_worker`: the rounds of the worker.
use foobar_universal_multiro.Device.{OutputDevice}
use foobar_universal_multiro.Component.State.Threads.Steps.{
  step-Agree, run-new_world-IsAgreed, run-Agree,
}
use foobar_universal_multiro.Component.State.Threads.Kept.{
  control_publish-flags, control_volumes-Keeps, control_update-Keeps,
}
use foobar_universal_multiro.Component.State.Threads.Invariant.{world, IsAgreed, Agree}
use foobar_universal_multiro.Base.Outcome.{Outcome, ok, throw}
use foobar_universal_multiro.Component.State.Control.{
  ControlWork, control_finish, control_snapshot, control_volumes, control_update,
}
use foobar_universal_multiro.Component.State.Shared.{
  Surroundings, ComponentState, ensure_discovery_started, active_names,
}
use foobar_universal_multiro.Base.{
  Bool, Text, false, if_elim, true, ℕ, ◌&&◌, ◌<◌, ◌||◌, ◌≡◌, arith, refl, subst, suc, sym, zero,
  ◌≤◌, is_empty, List, ap, ◌∙◌, Bool-cases, inl, inr,
}
use foobar_universal_multiro.Component.State.Places.{
  ControlPlace, World, control_absent, snapping, sending_volumes, control_starting, updating,
  applied, named, control_ending, RefreshPlace, PlayPlace, is_scanning, is_controlling, Event,
  control_works,
}
use foobar_universal_multiro.Component.State.Threads.{
  volumes_sent, control_started, control_at, run, step, names_after, new_world, reads_names,
}
use foobar_universal_multiro.Component.State.Threads.Flags.{
  Flags, flags, has_work, ensure_discovery_started-Keeps,
}
use foobar_universal_multiro.Component.State.Threads.Rounds.{
  work_left, lt_suc, left_falls, work_left_bounds, sections, idle_worker, no_worker, nothing_asked,
}

module _ (env : Surroundings) where
  open env use {client, is_numeric, widen_utf8}
  open client use {State}

  abbrev C : Type 0
  C = ComponentState State

  -- Behind a section less is left, and the other threads stand where they stood.
  abbrev Serves : World State → Flags → ControlPlace → RefreshPlace → Type 0
  Serves w f k r = (work_left w.control (flags w.state) < work_left k f) × (w.refresh ≡ r)

  volumes_sent-Serves :
      (work : ControlWork) (o : Outcome (Unit {0}) × C) (c : C) (r : RefreshPlace) (p : PlayPlace)
      → flags o.1 ≡ flags c
      → Serves
          (volumes_sent env work o (world env c r (sending_volumes work) p))
          (flags c)
          (sending_volumes work)
          r
  unfolding volumes_sent
  volumes_sent-Serves work (ok _, d) c r p e = (
    if_elim (λ k. work_left k (flags d) < work_left (sending_volumes work) (flags c))
        (work.full_update || work.metadata_requested) (control_starting work)
        (applied work work.should_connect (ok work.outputs))
        (λ _.
          left_falls (sending_volumes work) (control_starting work) _ _ e (omega arith) refl refl)
        (λ _.
          left_falls (sending_volumes work) (applied work work.should_connect (ok work.outputs)) _ _
            e (omega arith) refl refl),
    refl,
  )
  volumes_sent-Serves work (throw x, d) c r p e = (
    left_falls (sending_volumes work) (applied work work.should_connect (throw x)) _ _ e
        (omega arith) refl refl,
    refl,
  )

  control_started-Serves :
      (work : ControlWork) (o : Outcome (Unit {0}) × C) (c : C) (r : RefreshPlace) (p : PlayPlace)
      → flags o.1 ≡ flags c
      → Serves
          (control_started env work o (world env c r (control_starting work) p))
          (flags c)
          (control_starting work)
          r
  unfolding control_started
  control_started-Serves work (ok _, d) c r p e =
      (left_falls (control_starting work) (updating work) _ _ e (omega arith) refl refl, refl)
  control_started-Serves work (throw x, d) c r p e = (
    left_falls (control_starting work) (applied work work.should_connect (throw x)) _ _ e
        (omega arith) refl refl,
    refl,
  )

  control_finish-Serves :
      (c : C) (r : RefreshPlace) (p : PlayPlace)
      → Serves
          (control_at env control_ending (world env c r control_ending p))
          (flags c)
          control_ending
          r
  unfolding control_at control_finish
  control_finish-Serves c r p = (ground arith, refl)

  snapped-Serves :
      (c : C) (r : RefreshPlace) (p : PlayPlace)
      → Serves (control_at env snapping (world env c r snapping p)) (flags c) snapping r
  unfolding control_at control_snapshot is_empty
  snapped-Serves c r p = (ground arith, refl)

  control_at-Serves :
      (c : C) (r : RefreshPlace) (k : ControlPlace) (p : PlayPlace)
      → is_scanning r ≡ false
      → is_controlling k ≡ true
      → Serves (control_at env k (world env c r k p)) (flags c) k r
  unfolding control_at
  control_at-Serves c r control_absent p s a = absurd (ground arith)
  control_at-Serves c r snapping p s a = snapped-Serves c r p
  control_at-Serves c r (sending_volumes work) p s a =
      volumes_sent-Serves work (control_volumes env work c) c r p
        ((control_volumes-Keeps env work).keeps c)
  control_at-Serves c r (control_starting work) p s a =
      if_elim (λ w. Serves w (flags c) (control_starting work) r) (is_scanning r) _ _
        (λ t. absurd (ground arith))
        (λ _.
          control_started-Serves work (ensure_discovery_started env c) c r p
            ((ensure_discovery_started-Keeps env).keeps c))
  control_at-Serves c r (updating work) p s a =
      if_elim (λ w. Serves w (flags c) (updating work) r) (is_scanning r) _ _
        (λ t. absurd (ground arith))
        (λ _. (
          left_falls (updating work)
              (applied work (work.should_connect && c.playback_open)
                (control_update env work (work.should_connect && c.playback_open) c).0)
              _ _ ((control_update-Keeps env work (work.should_connect && c.playback_open)).keeps c)
              (lt_suc 3) refl refl,
          refl,
        ))
  control_at-Serves c r (applied work b o) p s a =
      if_elim (λ w. Serves w (flags c) (applied work b o) r)
        (is_scanning r && reads_names env work b o) _ _ (λ t. absurd (ground arith))
        (λ _. (
          left_falls (applied work b o)
              (named work b o (names_after env (reads_names env work b o) (active_names env c)))
              (flags c) (flags c) refl (lt_suc 2) refl refl,
          refl,
        ))
  control_at-Serves c r (named work b o names) p s a = (
    left_falls (named work b o names) control_ending _ _
        (control_publish-flags env work b o names c) (omega arith) refl refl,
    refl,
  )
  control_at-Serves c r control_ending p s a = control_finish-Serves c r p

  -- An ended worker has left nothing.
  ended-Serves :
      {o : Bool} (c : C) (r : RefreshPlace) (p : PlayPlace)
      → Agree o (flags c) r control_absent p
      → work_left control_absent (flags c) ≡ 0
  ended-Serves c r p h = ground arith

  abbrev Left : ℕ → World State → RefreshPlace → Type 0
  Left n w r = (work_left w.control (flags w.state) ≤ n) × (w.refresh ≡ r)

  ended_section-Left :
      {o : Bool} (n : ℕ) (c : C) (r : RefreshPlace) (k : ControlPlace) (p : PlayPlace)
      → k ≡ control_absent
      → Agree o (flags c) r k p
      → Left n (control_at env k (world env c r k p)) r
  unfolding control_at
  ended_section-Left {o} n c r k p e =
      subst (λ l. Agree o (flags c) r l p → Left n (control_at env l (world env c r l p)) r) (sym e)
        (λ g. (let z = ended-Serves c r p g in omega arith, refl))

  section-Left :
      {o : Bool} (n : ℕ) (c : C) (r : RefreshPlace) (k : ControlPlace) (p : PlayPlace)
      → Agree o (flags c) r k p
      → is_scanning r ≡ false
      → work_left k (flags c) ≤ suc n
      → Left n (control_at env k (world env c r k p)) r
  section-Left n c r k p h s b = elim (Bool-cases (is_controlling k)) [
    | inl t ↦ let q = control_at-Serves c r k p s t in (omega arith, q.1)
    | inr e ↦ ended_section-Left n c r k p (no_worker k e) h
  ]

  -- The worker alone ends after as many sections as are left.
  sections-end :
      (n : ℕ) (o : Bool) (w : World State)
      → IsAgreed env o w
      → is_scanning w.refresh ≡ false
      → work_left w.control (flags w.state) ≤ n
      → is_controlling (run env (sections n) w).control ≡ false
  unfolding run step
  sections-end zero o w h s b = idle_worker w.control (flags w.state) (ground arith)
  sections-end (suc n) o w h s b =
      let q = section-Left n w.state w.refresh w.control w.play h s b in
      sections-end n _ (step env control_works w) (step-Agree env o control_works w h)
        (ap is_scanning q.1 ∙ s) q.0

  -- Whatever happened since the start, if no scan is under way, fourteen sections of the worker of the updates are enough
  -- for it to have taken every request and to have ended.
  pub requests_served :
      (events : List Event) (handles : State) (browses : ℕ → Outcome (List OutputDevice))
      (clock : ℕ → ℕ × ℕ) (outputs groups : Text)
      → is_scanning (run env events (new_world env handles browses clock outputs groups)).refresh
        ≡ false
      → (is_controlling
            (run env
              (sections 14)
              (run env events (new_world env handles browses clock outputs groups))).control
          ≡ false)
        × (has_work (
              flags
                (run env
                  (sections 14)
                  (run env events (new_world env handles browses clock outputs groups))).state)
            ≡ false)
  requests_served events handles browses clock outputs groups s =
      let w = run env events (new_world env handles browses clock outputs groups) in
      let h = run-new_world-IsAgreed env events handles browses clock outputs groups in
      let e = sections-end 14 _ w h s (work_left_bounds w.control (flags w.state)) in
      let g = run-Agree env (sections 14) _ w h in (e, nothing_asked _ _ _ _ _ g e)
