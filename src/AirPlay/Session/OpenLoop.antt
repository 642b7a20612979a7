-- ===== src/AirPlay/Session/OpenLoop.antt =====
-- The loop of `open_for_outputs` when nobody cancels it.
use foobar_universal_multiro.AirPlay.Session.OpenStep.{Settled, Stepped, open_step-Stepped}
use foobar_universal_multiro.AirPlay.Session
use foobar_universal_multiro.Base.Map
use foobar_universal_multiro.Base.Outcome.{
  Outcome, ok, then_with, throw, Threw, throw_if, Exception, runtime_error, M,
}
use foobar_universal_multiro.AirPlay.Session.Manager.{AirPlaySessionManager}
use foobar_universal_multiro.AirPlay.Session.State.{AirPlaySessionState, validate_stream_format}
use foobar_universal_multiro.AirPlay.Client.{AirPlayControlClient}
use foobar_universal_multiro.Device.{OutputDevice, PcmFormat}
use foobar_universal_multiro.Base.{
  List, Text, [], arith, false, inr, text_eq, ◌∷◌, ◌≡◌, ◌⊎◌, inl, Bool, refl, true,
}

-- No output of the list has the id.
abbrev pub Absent : Text → List OutputDevice → Type 0
Absent k [] = Unit
Absent k (output ∷ outputs) = (text_eq output.id k ≡ false) × Absent k outputs

abbrev pub DistinctIds : List OutputDevice → Type 0
DistinctIds [] = Unit
DistinctIds (output ∷ outputs) = Absent output.id outputs × DistinctIds outputs

abbrev pub AllSettled : PcmFormat → List (Text × AirPlaySessionState) → List OutputDevice → Type 0
AllSettled format sessions [] = Unit
AllSettled format sessions (output ∷ outputs) =
    ((output.selected ≡ false) ⊎ Settled format sessions output)
    × AllSettled format sessions outputs

-- What the loop has done to the manager.
abbrev Looped :
    {S : Type 0}
    → PcmFormat
    → List OutputDevice
    → AirPlaySessionManager S
    → Outcome Session.Tally × AirPlaySessionManager S
    → Type 0
Looped format outputs m r =
    (tally : Session.Tally) × (r.0 ≡ ok tally)
    × AllSettled format r.1.sessions outputs
    × ((k : Text) → Absent k outputs → Map.find k r.1.sessions ≡ Map.find k m.sessions)

-- A session that a later step does not reach stays settled.
head-Settled :
    (format : PcmFormat) (output : OutputDevice) (before after : List (Text × AirPlaySessionState))
    → Map.find output.id after ≡ Map.find output.id before
    → (output.selected ≡ false) ⊎ Settled format before output
    → (output.selected ≡ false) ⊎ Settled format after output
head-Settled format output before after e (inl n) = inl n
head-Settled format output before after e (inr (session, f, h)) =
    inr (session, ground (arith, e, f), h)

module _ (client : AirPlayControlClient) where
  open client use {State}

  step_then :
      (format : PcmFormat) (output : OutputDevice) (outputs : List OutputDevice)
      (m : AirPlaySessionManager State) (r : Outcome Session.Tally × AirPlaySessionManager State)
      → Absent output.id outputs
      → Stepped client format output m r
      → ((next : Session.Tally) (n : AirPlaySessionManager State)
          → n.stores ≡ []
          → n.cancel_open_requested ≡ false
          → Looped format outputs n (Session.open_each client format next outputs n))
      → Looped format
          (output ∷ outputs)
          m
          (then_with (λ next. Session.open_each client format next outputs) r)
  step_then format output outputs m (ok next, n) a (tally, o, s, c, h, f) rest =
      let (last, p, all, g) = rest next n s c in
      (
        last,
        p,
        (
          head-Settled format output n.sessions
              (Session.open_each client format next outputs n).1.sessions (g output.id a) h,
          all,
        ),
        λ k b. ground (arith, g k b.1, f k b.0),
      )
  step_then format output outputs m (throw e, n) a (tally, o, s, c, h, f) rest =
      absurd (ground (arith, o))

  open_each-Looped :
      (format : PcmFormat) (tally : Session.Tally) (outputs : List OutputDevice)
      (m : AirPlaySessionManager State)
      → DistinctIds outputs
      → m.stores ≡ []
      → m.cancel_open_requested ≡ false
      → Looped format outputs m (Session.open_each client format tally outputs m)
  unfolding Session.open_each
  open_each-Looped format tally [] m d s c = (tally, refl, tt, λ k a. refl)
  open_each-Looped format tally (output ∷ outputs) m d s c =
      step_then format output outputs m (Session.open_step client format tally output m) d.0
        (open_step-Stepped client format tally output m s c)
        (λ next n s' c'. open_each-Looped format next outputs n d.1 s' c')

  -- What the call leaves, for a valid format.
  abbrev pub Opens :
      PcmFormat
      → List OutputDevice
      → AirPlaySessionManager State
      → Outcome (Unit {0}) × AirPlaySessionManager State
      → Type 0
  Opens format outputs m r =
      AllSettled format r.1.sessions outputs
      × ((k : Text) → Absent k outputs → Map.find k r.1.sessions ≡ Map.find k m.sessions)
      × ((r.0 ≡ ok tt) ⊎ Threw runtime_error r.0)

  reported-Opens :
      (format : PcmFormat) (outputs : List OutputDevice) (m n : AirPlaySessionManager State)
      (failed_all : Bool) (what : Text)
      → AllSettled format n.sessions outputs
      → ((k : Text) → Absent k outputs → Map.find k n.sessions ≡ Map.find k m.sessions)
      → Opens format outputs m (throw_if failed_all runtime_error what n)
  reported-Opens format outputs m n true what all f = (all, f, inr refl)
  reported-Opens format outputs m n false what all f = (all, f, inl refl)

  report-Opens :
      (format : PcmFormat) (outputs : List OutputDevice) (m : AirPlaySessionManager State)
      (failed_all : Session.Tally → Bool) (what : Session.Tally → Text)
      (r : Outcome Session.Tally × AirPlaySessionManager State)
      → Looped format outputs m r
      → Opens format outputs m
          (then_with (λ tally. throw_if (failed_all tally) runtime_error (what tally)) r)
  report-Opens format outputs m failed_all what (ok tally, n) (t, o, all, f) =
      reported-Opens format outputs m n (failed_all tally) (what tally) all f
  report-Opens format outputs m failed_all what (throw e, n) (t, o, all, f) =
      absurd (ground (arith, o))

  checked-Opens :
      (format : PcmFormat) (outputs : List OutputDevice) (m : AirPlaySessionManager State)
      (check : Outcome (Unit {0})) (rest : M (AirPlaySessionManager State) (Unit {0}))
      → Opens format outputs m (rest m)
      → ((e : Exception) × (check ≡ throw e)
          × ((then_with (λ _. rest) (check, m)).0 ≡ throw e)
          × ((then_with (λ _. rest) (check, m)).1 ≡ m))
        ⊎ ((check ≡ ok tt) × Opens format outputs m (then_with (λ _. rest) (check, m)))
  checked-Opens format outputs m (ok _) rest h = inr (refl, h)
  checked-Opens format outputs m (throw e) rest h = inl (e, refl, refl, refl)

  -- Opening the sessions for outputs with different ids, with no request to cancel pending and none stored
  -- meanwhile: for an invalid format the call throws what the check of the format throws and changes
  -- nothing. Otherwise it visits every output, also behind one that fails: the session of each selected output is
  -- ready and open, with the output's id, its endpoint and the format, or it is failed and open no longer; a
  -- session of an id that no output has is as it was; and the call returns or throws `runtime_error`.
  pub open_for_outputs_cases :
      (outputs : List OutputDevice) (format : PcmFormat) (m : AirPlaySessionManager State)
      → DistinctIds outputs
      → m.stores ≡ []
      → m.cancel_open_requested ≡ false
      → let r = Session.open_for_outputs client outputs format m in
        ((e : Exception) × (validate_stream_format format ≡ throw e) × (r.0 ≡ throw e) × (r.1 ≡ m))
        ⊎ ((validate_stream_format format ≡ ok tt) × Opens format outputs m r)
  unfolding Session.open_for_outputs
  open_for_outputs_cases outputs format m d s c =
      checked-Opens format outputs m (validate_stream_format format) _ (
        report-Opens format outputs m _ _ _ (
          open_each-Looped format (record { selected_count = 0; ready_count = 0; errors = [] })
            outputs m d s c))
