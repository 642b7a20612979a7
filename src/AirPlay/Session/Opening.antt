-- ===== src/AirPlay/Session/Opening.antt =====
-- What `open_for_outputs` leaves of each session when nobody cancels it.
use foobar_universal_multiro.AirPlay.Session.Manager.{AirPlaySessionManager, display_name}
use foobar_universal_multiro.AirPlay.Session.Attempt.{attempt_open, connect}
use foobar_universal_multiro.AirPlay.Session.State.{
  same_format, AirPlaySessionState, update_session_from_output, ready, can_reuse_ready_session,
  AirPlaySessionPhase, failed_session, is_ready, failed, new_session, closed, connecting,
}
use foobar_universal_multiro.AirPlay.Client.{AirPlayControlClient}
use foobar_universal_multiro.Device.{PcmFormat, OutputDevice}
use foobar_universal_multiro.Base.{
  Bool-cases, arith, inl, inr, true, ◌≡◌, Text, false, if◌then◌else◌, length, refl, some, text_eq,
  ◌+◌, ◌⊎◌, [], codes, ◌++◌, ◌∷◌, length-append,
}
use foobar_universal_multiro.AirPlay.Session
use foobar_universal_multiro.Base.Map
use foobar_universal_multiro.Base.Outcome.{ok, throw, Outcome}

-- The session streams to the output in the format.
abbrev pub Serves : PcmFormat → OutputDevice → AirPlaySessionState → Type 0
Serves format output s =
    (s.output_id ≡ output.id)
    × (s.endpoint_host ≡ output.endpoint_host)
    × (s.endpoint_port ≡ output.endpoint_port)
    × (s.phase ≡ ready)
    × (s.is_open ≡ true)
    × (same_format s.negotiated_format format ≡ true)

same_format_refl : (format : PcmFormat) → same_format format format ≡ true
unfolding same_format
same_format_refl format = ground arith

-- What the `try` block leaves where it does not throw.
abbrev Good :
    {S : Type 0}
    → PcmFormat
    → OutputDevice
    → Outcome (Unit {0}) × (AirPlaySessionState × S)
    → Type 0
Good format output (ok _, (session, c)) = Serves format output session
Good format output (throw e, (session, c)) = Unit

module _ (client : AirPlayControlClient) where
  open client use {State}

  connect-Good :
      (output : OutputDevice) (format : PcmFormat) (session : AirPlaySessionState) (c : State)
      → session.output_id ≡ output.id
      → session.endpoint_host ≡ output.endpoint_host
      → session.endpoint_port ≡ output.endpoint_port
      → Good format output (connect client output format (session, c))
  unfolding connect
  connect-Good output format session c i h p = ground (arith, i, h, p, same_format_refl format)

  ready_is : (phase : AirPlaySessionPhase) → is_ready phase ≡ true → phase ≡ ready
  ready_is ready h = refl
  ready_is closed h = absurd (cc)
  ready_is connecting h = absurd (cc)
  ready_is failed h = absurd (cc)

  reuse-Serves :
      (output : OutputDevice) (format : PcmFormat) (session : AirPlaySessionState)
      → can_reuse_ready_session session output format ≡ true
      → Serves format output (update_session_from_output session output)
  unfolding can_reuse_ready_session update_session_from_output
  reuse-Serves output format session e = (
    refl,
    refl,
    refl,
    ready_is session.phase (ground (arith, e)),
    ground (arith, e),
    ground (arith, e),
  )

  attempt_open-Good :
      (output : OutputDevice) (format : PcmFormat) (session : AirPlaySessionState) (c : State)
      → Good format output (
          attempt_open client output format
            (can_reuse_ready_session session output format)
            (update_session_from_output session output, c))
  unfolding attempt_open
  attempt_open-Good output format session c =
      let updated = update_session_from_output session output in
      let opened =
        connect-Good output format updated c (unfold update_session_from_output in refl)
          (unfold update_session_from_output in refl) (unfold update_session_from_output in refl) in
      elim (Bool-cases (can_reuse_ready_session session output format)) [
        | inl e ↦ unfold attempt_open in ground (arith, e, reuse-Serves output format session e)
        | inr e ↦ unfold attempt_open in ground (arith, e, opened)
      ]

  -- What opening one output does: its session serves it, or is failed and open no longer; the counters say
  -- which; and no other session changes.
  abbrev pub Opened :
      PcmFormat
      → OutputDevice
      → Session.Tally
      → AirPlaySessionManager State
      → Outcome Session.Tally × AirPlaySessionManager State
      → Type 0
  Opened format output tally m r =
      (tally' : Session.Tally) × (session : AirPlaySessionState) × (r.0 ≡ ok tally')
      × (r.1.stores ≡ m.stores)
      × (r.1.cancel_open_requested ≡ m.cancel_open_requested)
      × ((k : Text)
          → Map.find k r.1.sessions
            ≡ (if text_eq output.id k then some session else Map.find k m.sessions))
      × (tally'.selected_count ≡ tally.selected_count + 1)
      × ((Serves format output session
            × (tally'.ready_count ≡ tally.ready_count + 1)
            × (tally'.errors ≡ tally.errors))
          ⊎ ((session.phase ≡ failed)
              × (session.is_open ≡ false)
              × (tally'.ready_count ≡ tally.ready_count)
              × (length tally'.errors ≡ length tally.errors + 1)))

  settle-Opened :
      (format : PcmFormat) (output : OutputDevice) (tally : Session.Tally)
      (m : AirPlaySessionManager State) (r : Outcome (Unit {0}) × (AirPlaySessionState × State))
      → Good format output r
      → Opened format output tally m (Session.settle output tally m r)
  unfolding Session.settle failed_session
  settle-Opened format output tally m (ok _, (session, c)) g = (
    record tally { selected_count = tally.selected_count + 1; ready_count = tally.ready_count + 1 },
    session,
    refl,
    refl,
    refl,
    (λ k. Map.find-assign output.id k session m.sessions),
    refl,
    inl (g, refl, refl),
  )
  settle-Opened format output tally m (throw e, (session, c)) g = (
    record tally {
      selected_count = tally.selected_count + 1;
      errors = tally.errors ++ (display_name output ++ (codes ": " ++ e.what)) ∷ [];
    },
    failed_session session e.what,
    refl,
    refl,
    refl,
    (λ k. Map.find-assign output.id k (failed_session session e.what) m.sessions),
    refl,
    inr (refl, refl, refl, length-append tally.errors _),
  )

  -- Opening an output always returns. It counts the output as selected. If the session is reused or the
  -- client opens it, then the session stored under the id of the output is ready and open, has the output's
  -- id and endpoint and the format, and is counted as ready with no new error; otherwise it is failed, is
  -- open no longer, and one error is added. No other session changes, nor does the request to cancel.
  pub open_output_cases :
      (format : PcmFormat) (output : OutputDevice) (tally : Session.Tally)
      (m : AirPlaySessionManager State)
      → Opened format output tally m (Session.open_output client format tally output m)
  unfolding Session.open_output
  open_output_cases format output tally m =
      let session = Map.find_or new_session output.id m.sessions in
      settle-Opened format output tally m _ (attempt_open-Good output format session m.client)
