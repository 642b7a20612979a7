-- ===== src/AirPlay/Session/History.antt =====
-- Any history of calls of the session manager.
use foobar_universal_multiro.Base.Outcome.{ok, then_keeps, Outcome-cases, when}
use foobar_universal_multiro.AirPlay.Session.Visit.{Keeps, visit-Ordered, visit-Each}
use foobar_universal_multiro.AirPlay.Session.Invariant.{
  IsManager, load-IsManager, IsSession, put-IsManager, open_step-IsManager,
  prepare_session-IsSession, session_of-Shape, send_metadata-Keeps, send_clear_metadata-Keeps,
  close_session-Keeps, flush_session-Keeps,
}
use foobar_universal_multiro.AirPlay.Session.State.{
  validate_stream_format, prepare_session, AirPlaySessionState, ready,
}
use foobar_universal_multiro.Base.Int.{ℤ}
use foobar_universal_multiro.Core.Scheduler.{ScheduledPacket}
use foobar_universal_multiro.AirPlay.Session.{AirPlaySessionManager}
use foobar_universal_multiro.AirPlay.Client.{AirPlayControlClient}
use foobar_universal_multiro.AirPlay.Session.Attempt.{Work, close_session}
use foobar_universal_multiro.Device.{OutputDevice, PcmFormat, PlaybackMetadata}
use foobar_universal_multiro.Base.{
  Bool, List, Option, Text, [], arith, inl, inr, refl, ℕ, ◌∷◌, ◌≡◌, Option-cases, contains, not,
  ◌++◌,
}
use foobar_universal_multiro.Base.Map
use foobar_universal_multiro.AirPlay.Session

-- The calls of the session manager; `interferes` is what other threads are about to store in the flag.
pub data Call (Handler : Type 0) : Type 0 where
  pairs : OutputDevice → Text → Call Handler
  handles : Handler → Call Handler
  prepares closes_missing : List OutputDevice → Call Handler
  opens : List OutputDevice → PcmFormat → Call Handler
  sets_volume : Text → ℤ → Call Handler
  sets_metadata : PlaybackMetadata → Call Handler
  enqueues : ScheduledPacket → Option Text → ℕ → Call Handler
  clears_metadata flushes cancels resets stops : Call Handler
  interferes : List (Option Bool) → Call Handler

prepare_output-IsManager :
    {S : Type 0} (output : OutputDevice) (m : AirPlaySessionManager S)
    → IsManager m
    → IsManager (Session.prepare_output output m).1
unfolding Session.prepare_output
prepare_output-IsManager output m v =
    let m' = Session.load_after m.stores m in
    let w = load-IsManager m m.stores v in
    let session = Session.session_of output.id m' in
    ground (
      arith,
      w,
      put-IsManager m' output.id (prepare_session session output)
          (prepare_session-IsSession session output session.phase refl
            (session_of-Shape output.id m' w))
          w,
    )

prepare_outputs-IsManager :
    {S : Type 0} (outputs : List OutputDevice) (m : AirPlaySessionManager S)
    → IsManager m
    → IsManager (Session.prepare_outputs outputs m).1
unfolding Session.prepare_outputs
prepare_outputs-IsManager [] m v = v
prepare_outputs-IsManager (output ∷ outputs) m v =
    then_keeps IsManager (λ _. Session.prepare_outputs outputs) (Session.prepare_output output m)
      (prepare_output-IsManager output m v) (λ a t w. prepare_outputs-IsManager outputs t w)

visit_sessions-IsManager :
    {S : Type 0} (body : Text → Work S (Unit {0})) (m : AirPlaySessionManager S)
    → ((id : Text) → Keeps (IsSession id) (body id))
    → IsManager m
    → IsManager (Session.visit_sessions body m).1
unfolding Session.visit_sessions
visit_sessions-IsManager body m keep v = record {
  ordered = visit-Ordered body m.sessions m.client v.ordered;
  entries = visit-Each IsSession body keep m.sessions m.client v.entries;
}

module _ (client : AirPlayControlClient) where
  open client use {State, Handler}

  open_each-IsManager :
      (format : PcmFormat) (tally : Session.Tally) (outputs : List OutputDevice)
      (m : AirPlaySessionManager State)
      → validate_stream_format format ≡ ok tt
      → IsManager m
      → IsManager (Session.open_each client format tally outputs m).1
  unfolding Session.open_each
  open_each-IsManager format tally [] m f v = v
  open_each-IsManager format tally (output ∷ outputs) m f v =
      then_keeps IsManager (λ next. Session.open_each client format next outputs)
        (Session.open_step client format tally output m)
        (open_step-IsManager client format tally output m f v)
        (λ next t w. open_each-IsManager format next outputs t f w)

  open_for_outputs-IsManager :
      (outputs : List OutputDevice) (format : PcmFormat) (m : AirPlaySessionManager State)
      → IsManager m
      → IsManager (Session.open_for_outputs client outputs format m).1
  unfolding Session.open_for_outputs
  open_for_outputs-IsManager outputs format m v =
      elim (Outcome-cases (validate_stream_format format)) [
        | inl (_, f) ↦ ground (
          arith,
          f,
          open_each-IsManager format (record { selected_count = 0; ready_count = 0; errors = [] })
              outputs m f v,
        )
        | inr (e, f) ↦ ground (arith, f, v)
      ]

  send_packet-IsManager :
      (session : AirPlaySessionState) (packet : ScheduledPacket) (frames : Option Text) (bytes : ℕ)
      (m : AirPlaySessionManager State)
      → IsSession packet.output_id session
      → session.phase ≡ ready
      → IsManager m
      → IsManager (Session.send_packet client session packet frames bytes m).1
  unfolding Session.send_packet
  send_packet-IsManager session packet frames bytes m h r v =
      let queued = record session { queued_packets = session.queued_packets ++ packet ∷ [] } in
      let shaped : IsSession packet.output_id queued = ground (arith, h, r) in
      ground (arith, v, put-IsManager m packet.output_id queued shaped v)

  enqueue-IsManager :
      (packet : ScheduledPacket) (frames : Option Text) (bytes : ℕ)
      (m : AirPlaySessionManager State)
      → IsManager m
      → IsManager (Session.enqueue client packet frames bytes m).1
  unfolding Session.enqueue
  enqueue-IsManager packet frames bytes m v =
      elim (Option-cases (Map.find packet.output_id m.sessions)) [
        | inl e ↦ ground (arith, e, v)
        | inr (session, e) ↦
            let h = Map.find-Each IsSession packet.output_id m.sessions session v.entries e in
            ground (arith, e, v, send_packet-IsManager session packet frames bytes m h)
      ]

  set_volume-IsManager :
      (id : Text) (volume : ℤ) (m : AirPlaySessionManager State)
      → IsManager m
      → IsManager (Session.set_volume client id volume m).1
  unfolding Session.set_volume
  set_volume-IsManager id volume m v = elim (Option-cases (Map.find id m.sessions)) [
    | inl e ↦ ground (arith, e, v)
    | inr (session, e) ↦ ground (arith, e, v)
  ]

  -- The manager after a call, whether it returns or throws.
  unfoldable pub step : Call Handler → AirPlaySessionManager State → AirPlaySessionManager State
  step (pairs output pin) m = (Session.pair_output client output pin m).1
  step (handles handler) m = (Session.set_remote_command_handler client handler m).1
  step (prepares outputs) m = (Session.prepare_outputs outputs m).1
  step (closes_missing outputs) m = (Session.close_missing_outputs client outputs m).1
  step (opens outputs format) m = (Session.open_for_outputs client outputs format m).1
  step (sets_volume id volume) m = (Session.set_volume client id volume m).1
  step (sets_metadata metadata) m = (Session.set_metadata client metadata m).1
  step (enqueues packet frames bytes) m = (Session.enqueue client packet frames bytes m).1
  step clears_metadata m = (Session.clear_metadata client m).1
  step flushes m = (Session.flush client m).1
  step cancels m = (Session.cancel_pending_open client m).1
  step resets m = (Session.reset_pending_open_cancel client m).1
  step stops m = (Session.stop client m).1
  step (interferes stores) m = record m { stores = stores }

  pub run : List (Call Handler) → AirPlaySessionManager State → AirPlaySessionManager State
  run [] m = m
  run (call ∷ calls) m = run calls (step call m)

  close_missing-Keeps :
      (selected : List Text) (id : Text)
      → Keeps (IsSession id) (when (not (contains selected id)) (close_session client))
  close_missing-Keeps selected id session c h =
      ground (arith, h, close_session-Keeps client id session c h)

  pub step-IsManager :
      (call : Call Handler) (m : AirPlaySessionManager State)
      → IsManager m
      → IsManager (step call m)
  unfolding step Session.pair_output Session.set_remote_command_handler
      Session.close_missing_outputs Session.set_metadata Session.clear_metadata Session.flush
      Session.cancel_pending_open Session.reset_pending_open_cancel Session.stop
  step-IsManager (pairs output pin) m v = record { ordered = v.ordered; entries = v.entries }
  step-IsManager (handles handler) m v = record { ordered = v.ordered; entries = v.entries }
  step-IsManager (prepares outputs) m v = prepare_outputs-IsManager outputs m v
  step-IsManager (closes_missing outputs) m v =
      visit_sessions-IsManager _ m (close_missing-Keeps _) v
  step-IsManager (opens outputs format) m v = open_for_outputs-IsManager outputs format m v
  step-IsManager (sets_volume id volume) m v = set_volume-IsManager id volume m v
  step-IsManager (sets_metadata metadata) m v =
      visit_sessions-IsManager _ m (λ id. send_metadata-Keeps client id metadata) v
  step-IsManager (enqueues packet frames bytes) m v = enqueue-IsManager packet frames bytes m v
  step-IsManager clears_metadata m v =
      visit_sessions-IsManager _ m (send_clear_metadata-Keeps client) v
  step-IsManager flushes m v = visit_sessions-IsManager _ m (flush_session-Keeps client) v
  step-IsManager cancels m v = record { ordered = v.ordered; entries = v.entries }
  step-IsManager resets m v = record { ordered = v.ordered; entries = v.entries }
  step-IsManager stops m v = visit_sessions-IsManager _ m (close_session-Keeps client) v
  step-IsManager (interferes stores) m v = record { ordered = v.ordered; entries = v.entries }

  run-IsManager :
      (calls : List (Call Handler)) (m : AirPlaySessionManager State)
      → IsManager m
      → IsManager (run calls m)
  unfolding run
  run-IsManager [] m v = v
  run-IsManager (call ∷ calls) m v = run-IsManager calls (step call m) (step-IsManager call m v)

  -- From a new manager, after any calls, those that throw included, whatever the client answers and whatever
  -- other threads store in the cancellation flag meanwhile: the sessions stand in strictly ascending order
  -- under the ids of their outputs, and each is either closed or failed, and then not open, without an
  -- RTSP session and without queued packets, or ready, open and with a format that AirPlay streams. None
  -- is left connecting.
  pub run-make_manager-IsManager :
      (calls : List (Call Handler)) (c : State)
      → IsManager (run calls (Session.make_manager client c))
  unfolding Session.make_manager
  run-make_manager-IsManager calls c =
      run-IsManager calls (Session.make_manager client c) (record { ordered = tt; entries = tt })
