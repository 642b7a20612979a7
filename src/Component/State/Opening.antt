-- ===== src/Component/State/Opening.antt =====
-- multiroom_component_state.cpp, `open_playback_stream` as one call, and what it leaves on each path.
use foobar_universal_multiro.Component.State.Control.{schedule_control_update}
use foobar_universal_multiro.Component.State.Playback.{
  open_publish, open_abort, open_check, open_failed, refresh_outputs_for_playback, open_snapshot,
  open_setup,
}
use foobar_universal_multiro.Device.{OutputDevice, PcmFormat}
use foobar_universal_multiro.Component.State.Shared.{
  Surroundings, ComponentState, recover, rethrow, engine_stop, caught, engine_open,
}
use foobar_universal_multiro.Base.{
  Bool, List, Text, [], false, true, ◌≡◌, ◌⊎◌, ap, arith, inl, inr, refl, subst,
}
use foobar_universal_multiro.Base.Outcome.{
  M, ◌>>=◌, ◌>>◌, Outcome, ok, then_with, Exception, throw, modify, when,
}
use foobar_universal_multiro.Component.State.EngineCalls.{
  Post, then-Post, Anything, anything, Plays, keeps-Plays, engine_stop-closes,
}
use foobar_universal_multiro.Component.State.Setup.{open_snapshot-Post, open_setup-Post}

module _ (env : Surroundings) where
  open env use {client, is_numeric, widen_utf8}
  open client use {State}

  abbrev C : Type 0
  C = ComponentState State

  -- The setup, the publication, and the update of the speakers that may have changed meanwhile.
  abbrev publish : List OutputDevice × List Text → M C (Unit {0})
  publish result = do
    modify (open_publish env result)
    modify (λ c. (schedule_control_update env c).1)

  abbrev open_section : PcmFormat → M C (Unit {0})
  open_section format = do
    open_check env format
    refresh_outputs_for_playback env
    work ← open_snapshot env format
    result ← open_setup env work
    publish result

  abbrev fail_open : Exception → M C (Unit {0})
  fail_open e = do modify (open_failed env e); rethrow e

  abbrev open_handler : Exception → M C (Unit {0})
  open_handler e = open_abort env >> fail_open e

  pub open_playback_stream : PcmFormat → M C (Unit {0})
  open_playback_stream format = recover (open_section format) open_handler

  abbrev pub IsOpened : PcmFormat → C → Type 0
  IsOpened format c =
      Plays format c.playback_engine
      × (c.playback_open ≡ true)
      × (c.playback_connecting ≡ false)
      × (c.last_error ≡ [])
      × (c.control_full_update_requested ≡ true)
      × (c.control_in_progress ≡ true)

  abbrev IsGivenUp : Exception → C → Type 0
  IsGivenUp e c =
      (engine_open env c ≡ false)
      × (c.playback_open ≡ false)
      × (c.playback_connecting ≡ false)
      × (c.playback_format_valid ≡ false)
      × (c.active_output_names ≡ [])
      × (c.last_error ≡ widen_utf8 e.what)

  publish-Post :
      (format : PcmFormat) (result : List OutputDevice × List Text) (c : C)
      → Plays format c.playback_engine
      → Post (λ _. IsOpened format) (publish result c)
  unfolding open_publish schedule_control_update
  publish-Post format (outputs, names) c h = (
    keeps-Plays format c.playback_engine _ (ground arith) h,
    ground arith,
    ground arith,
    ground arith,
    ground arith,
    ground arith,
  )

  open_section-Post :
      (format : PcmFormat) (c : C) → Post (λ _. IsOpened format) (open_section format c)
  open_section-Post format c =
      then-Post Anything (λ _. IsOpened format) _ (open_check env format c) (anything _)
        (λ _ d _.
          then-Post Anything (λ _. IsOpened format) _ (refresh_outputs_for_playback env d)
            (anything _)
            (λ _ s _.
              then-Post (λ work _. work.format ≡ format) (λ _. IsOpened format) _
                (open_snapshot env format s) (open_snapshot-Post env format s)
                (λ work t e.
                  then-Post (λ _ u. Plays work.format u.playback_engine) (λ _. IsOpened format) _
                    (open_setup env work t) (open_setup-Post env work t)
                    (λ result u h.
                      publish-Post format result u (subst (λ f. Plays f u.playback_engine) e h)))))

  -- The handler: the engine is closed, and all is reset unless the engine throws when it is stopped.
  abbrev pub Handled : Exception → Outcome (Unit {0}) × C → Type 0
  Handled e r =
      ((r.0 ≡ throw e) × IsGivenUp e r.1)
      ⊎ ((s : C) × (x : Exception) × (engine_stop env s ≡ (throw x, r.1))
          × (r.0 ≡ throw x)
          × (engine_open env r.1 ≡ false))

  abbrev close_open : Unit {0} → M C (Unit {0})
  close_open _ = modify (λ d. record d { playback_open = false })

  closed-Handled :
      (e : Exception) (c : C) (r : Outcome (Unit {0}) × C)
      → ((x : Exception) → r.0 ≡ throw x → engine_stop env c ≡ (throw x, r.1))
      → engine_open env r.1 ≡ false
      → Handled e (then_with (λ _. fail_open e) (then_with close_open r))
  unfolding open_failed
  closed-Handled e c (ok _, d) h z = inl (refl, (z, refl, refl, refl, refl, refl))
  closed-Handled e c (throw x, d) h z = inr (c, x, h x refl, refl, z)

  stop_when :
      (b : Bool) (c : C) (x : Exception)
      → (when b (engine_stop env) c).0 ≡ throw x
      → engine_stop env c ≡ (throw x, (when b (engine_stop env) c).1)
  stop_when true c x e = ap (λ o. (o, (engine_stop env c).1)) e
  stop_when false c x e = absurd (ground arith)

  stop_closes :
      (b : Bool) (c : C)
      → engine_open env c ≡ b
      → engine_open env (when b (engine_stop env) c).1 ≡ false
  stop_closes true c e = engine_stop-closes env c
  stop_closes false c e = e

  open_handler-Handled : (e : Exception) (c : C) → Handled e (open_handler e c)
  unfolding open_abort
  open_handler-Handled e c =
      closed-Handled e c (when (engine_open env c) (engine_stop env) c)
        (stop_when (engine_open env c) c) (stop_closes (engine_open env c) c refl)

  -- Either the computation and its handler are through with an opened stream, or the handler ran.
  abbrev Ends : PcmFormat → Outcome (Unit {0}) × C → Type 0
  Ends format r = ((r.0 ≡ ok tt) × IsOpened format r.1) ⊎ ((e : Exception) × Handled e r)

  recover-Ends :
      (format : PcmFormat) (r : Outcome (Unit {0}) × C)
      → Post (λ _. IsOpened format) r
      → Ends format (caught open_handler r)
  recover-Ends format (ok tt, d) h = inl (refl, h)
  recover-Ends format (throw e, d) h = inr (e, open_handler-Handled e d)

  -- The call takes one of three ways. It returns with the engine playing the format, the stream published as open and an
  -- update of the speakers under way; or it throws what failed with the stream given up: the engine closed, not
  -- open, not connecting, no format, no active outputs, and the error shown; or, only where the engine throws while the
  -- handler stops it, it throws that exception with the engine closed, and leaves the rest as the engine left it.
  pub open_playback_stream_cases :
      (format : PcmFormat) (c : C)
      → (((open_playback_stream format c).0 ≡ ok tt)
          × IsOpened format (open_playback_stream format c).1)
        ⊎ ((e : Exception) × Handled e (open_playback_stream format c))
  unfolding open_playback_stream
  open_playback_stream_cases format c =
      recover-Ends format (open_section format c) (open_section-Post format c)
