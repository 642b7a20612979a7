-- ===== src/AirPlay/Session/OpenStep.antt =====
-- One step of the loop of `open_for_outputs` when nobody cancels it.
use foobar_universal_multiro.AirPlay.Session.Opening.{Serves, open_output_cases}
use foobar_universal_multiro.AirPlay.Session
use foobar_universal_multiro.Base.Map
use foobar_universal_multiro.Base.Outcome.{Outcome, ok}
use foobar_universal_multiro.AirPlay.Session.Manager.{AirPlaySessionManager}
use foobar_universal_multiro.AirPlay.Session.State.{AirPlaySessionState, failed}
use foobar_universal_multiro.AirPlay.Client.{AirPlayControlClient}
use foobar_universal_multiro.Device.{OutputDevice, PcmFormat}
use foobar_universal_multiro.Base.{
  List, Text, [], arith, false, inr, some, text_eq, text_eq_refl, ◌∷◌, ◌≡◌, ◌⊎◌, Bool-cases, inl,
  Bool, Option, refl, subst, sym, true,
}

-- The session of the output serves it, or is failed and open no longer.
abbrev pub Settled : PcmFormat → List (Text × AirPlaySessionState) → OutputDevice → Type 0
Settled format sessions output =
    (session : AirPlaySessionState) × (Map.find output.id sessions ≡ some session)
    × (Serves format output session ⊎ ((session.phase ≡ failed) × (session.is_open ≡ false)))

weaken : {A B C D E F G : Type 0} → (A × B × C) ⊎ (D × E × F × G) → A ⊎ (D × E)
weaken (inl (a, b, c)) = inl a
weaken (inr (d, e, f, g)) = inr (d, e)

load_after_none :
    {S : Type 0} (stores : List (Option Bool)) (m : AirPlaySessionManager S)
    → stores ≡ []
    → Session.load_after stores m ≡ m
unfolding Session.load_after
load_after_none [] m e = refl
load_after_none (store ∷ stores) m e = absurd (cc)

module _ (client : AirPlayControlClient) where
  open client use {State}

  -- One step: the tally it returns, and what it leaves of the sessions.
  abbrev pub Stepped :
      PcmFormat
      → OutputDevice
      → AirPlaySessionManager State
      → Outcome Session.Tally × AirPlaySessionManager State
      → Type 0
  Stepped format output m r =
      (tally : Session.Tally) × (r.0 ≡ ok tally)
      × (r.1.stores ≡ [])
      × (r.1.cancel_open_requested ≡ false)
      × ((output.selected ≡ false) ⊎ Settled format r.1.sessions output)
      × ((k : Text) → text_eq output.id k ≡ false → Map.find k r.1.sessions ≡ Map.find k m.sessions)

  selected-Stepped :
      (format : PcmFormat) (tally : Session.Tally) (output : OutputDevice)
      (m : AirPlaySessionManager State)
      → m.stores ≡ []
      → m.cancel_open_requested ≡ false
      → Stepped format output m (Session.open_output client format tally output m)
  selected-Stepped format tally output m s c =
      let (next, session, o, st, ca, f, n, g) = open_output_cases client format output tally m in
      (
        next,
        o,
        ground (arith, st, s),
        ground (arith, ca, c),
        inr (session, ground (arith, f output.id, text_eq_refl output.id), weaken g),
        λ k n. ground (arith, f k, n),
      )

  -- With no cancellation a step opens a selected output, and skips another.
  open_step_selected :
      (format : PcmFormat) (tally : Session.Tally) (output : OutputDevice)
      (m : AirPlaySessionManager State)
      → m.stores ≡ []
      → m.cancel_open_requested ≡ false
      → output.selected ≡ true
      → Session.open_step client format tally output m
        ≡ Session.open_output client format tally output m
  unfolding Session.open_step Session.load_cancel
  open_step_selected format tally output m s c e =
      ground (arith, load_after_none m.stores m s, c, e)

  open_step_skipped :
      (format : PcmFormat) (tally : Session.Tally) (output : OutputDevice)
      (m : AirPlaySessionManager State)
      → m.stores ≡ []
      → m.cancel_open_requested ≡ false
      → output.selected ≡ false
      → Session.open_step client format tally output m ≡ (ok tally, m)
  unfolding Session.open_step Session.load_cancel
  open_step_skipped format tally output m s c e = ground (arith, load_after_none m.stores m s, c, e)

  pub open_step-Stepped :
      (format : PcmFormat) (tally : Session.Tally) (output : OutputDevice)
      (m : AirPlaySessionManager State)
      → m.stores ≡ []
      → m.cancel_open_requested ≡ false
      → Stepped format output m (Session.open_step client format tally output m)
  open_step-Stepped format tally output m s c = elim (Bool-cases output.selected) [
    | inl e ↦
        subst (Stepped format output m) (sym (open_step_selected format tally output m s c e))
          (selected-Stepped format tally output m s c)
    | inr e ↦
        subst (Stepped format output m) (sym (open_step_skipped format tally output m s c e))
          (tally, refl, s, c, inl e, λ k n. refl)
  ]
