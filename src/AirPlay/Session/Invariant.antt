-- ===== src/AirPlay/Session/Invariant.antt =====
-- What holds of every session after any history of calls.
use foobar_universal_multiro.AirPlay.Session.Visit.{Keeps}
use foobar_universal_multiro.Base.Outcome.{ok, Outcome, throw}
use foobar_universal_multiro.AirPlay.Session.Attempt.{
  close_session, flush_session, send_metadata, send_clear_metadata, connect, attempt_open,
}
use foobar_universal_multiro.Device.{OutputDevice, PlaybackMetadata, PcmFormat}
use foobar_universal_multiro.AirPlay.Client.{AirPlayControlClient}
use foobar_universal_multiro.AirPlay.Session.{AirPlaySessionManager}
use foobar_universal_multiro.AirPlay.Session.State.{
  AirPlaySessionState, new_session, prepare_session, AirPlaySessionPhase, validate_stream_format,
  closed, failed, ready, connecting, failed_session, update_session_from_output,
  can_reuse_ready_session,
}
use foobar_universal_multiro.Base.{
  Text, [], arith, false, refl, true, ◌≡◌, Bool, List, Option, none, some, ◌∷◌,
}
use foobar_universal_multiro.Base.Map
use foobar_universal_multiro.AirPlay.Session

-- What each phase says of the rest of the state. No session rests while connecting.
abbrev pub Shape : AirPlaySessionPhase → AirPlaySessionState → Type 0
Shape closed s = (s.is_open ≡ false) × (s.rtsp_session_id ≡ []) × (s.queued_packets ≡ [])
Shape failed s = (s.is_open ≡ false) × (s.rtsp_session_id ≡ []) × (s.queued_packets ≡ [])
Shape ready s = (s.is_open ≡ true) × (validate_stream_format s.negotiated_format ≡ ok tt)
Shape connecting s = ⊥

abbrev pub IsSession : Text → AirPlaySessionState → Type 0
IsSession id s = (s.output_id ≡ id) × Shape s.phase s

pub record IsManager {S : Type 0} (m : AirPlaySessionManager S) : Type 0 where
  pub ordered : Map.Ordered m.sessions
  pub entries : Map.Each IsSession m.sessions

new-Shape : Shape new_session.phase new_session
new-Shape = (refl, refl, refl)

-- A session that is found, or made, has its shape; only a new one has no id yet.
pub session_of-Shape :
    {S : Type 0} (id : Text) (m : AirPlaySessionManager S)
    → IsManager m
    → Shape (Session.session_of id m).phase (Session.session_of id m)
session_of-Shape id m v =
    Map.find_or_elim (λ s. Shape s.phase s) new_session id m.sessions new-Shape
      (λ s e. (Map.find-Each IsSession id m.sessions s v.entries e).1)

pub prepare_session-IsSession :
    (session : AirPlaySessionState) (output : OutputDevice) (phase : AirPlaySessionPhase)
    → session.phase ≡ phase
    → Shape phase session
    → IsSession output.id (prepare_session session output)
unfolding prepare_session
prepare_session-IsSession session output closed e h = ground (arith, e, h)
prepare_session-IsSession session output failed e h = ground (arith, e, h)
prepare_session-IsSession session output ready e h = ground (arith, e, h)
prepare_session-IsSession session output connecting e h = absurd h

pub put-IsManager :
    {S : Type 0} (m : AirPlaySessionManager S) (id : Text) (session : AirPlaySessionState)
    → IsSession id session
    → IsManager m
    → IsManager (record m { sessions = Map.assign id session m.sessions })
put-IsManager m id session h v = record {
  ordered = Map.assign-Ordered id session m.sessions v.ordered;
  entries = Map.assign-Each IsSession id session m.sessions h v.entries;
}

module _ (client : AirPlayControlClient) where
  pub close_session-Keeps : (id : Text) → Keeps (IsSession id) (close_session client)
  unfolding close_session
  close_session-Keeps id session c h = ground (arith, h)

  pub flush_session-Keeps : (id : Text) → Keeps (IsSession id) (flush_session client)
  unfolding flush_session
  flush_session-Keeps id session c h = ground (arith, h)

  pub send_metadata-Keeps :
      (id : Text) (metadata : PlaybackMetadata)
      → Keeps (IsSession id) (send_metadata client metadata)
  unfolding send_metadata
  send_metadata-Keeps id metadata session c h = ground (arith, h)

  pub send_clear_metadata-Keeps : (id : Text) → Keeps (IsSession id) (send_clear_metadata client)
  unfolding send_clear_metadata
  send_clear_metadata-Keeps id session c h = ground (arith, h)

pub load-IsManager :
    {S : Type 0} (m : AirPlaySessionManager S) (stores : List (Option Bool))
    → IsManager m
    → IsManager (Session.load_after stores m)
unfolding Session.load_after
load-IsManager m [] v = v
load-IsManager m (none ∷ stores) v = record { ordered = v.ordered; entries = v.entries }
load-IsManager m (some b ∷ stores) v = record { ordered = v.ordered; entries = v.entries }

-- What the `try` block leaves: a good session, or one that the handler makes good.
abbrev After : {S : Type 0} → Text → Outcome (Unit {0}) × (AirPlaySessionState × S) → Type 0
After id (ok _, (session, c)) = IsSession id session
After id (throw e, (session, c)) = session.output_id ≡ id

module _ (client : AirPlayControlClient) where
  open client use {State}

  connect-After :
      (output : OutputDevice) (format : PcmFormat) (id : Text) (session : AirPlaySessionState)
      (c : State)
      → validate_stream_format format ≡ ok tt
      → session.output_id ≡ id
      → After id (connect client output format (session, c))
  unfolding connect
  connect-After output format id session c f e = ground (arith, f, e)

  attempt_open-After :
      (output : OutputDevice) (format : PcmFormat) (reuse : Bool) (id : Text)
      (session : AirPlaySessionState) (c : State)
      → validate_stream_format format ≡ ok tt
      → IsSession id session
      → After id (attempt_open client output format reuse (session, c))
  unfolding attempt_open
  attempt_open-After output format true id session c f h = ground (arith, h)
  attempt_open-After output format false id session c f h =
      ground (arith, connect-After output format id session c f h.0)

  settle-IsManager :
      (output : OutputDevice) (tally : Session.Tally) (m : AirPlaySessionManager State)
      (r : Outcome (Unit {0}) × (AirPlaySessionState × State))
      → After output.id r
      → IsManager m
      → IsManager (Session.settle output tally m r).1
  unfolding Session.settle failed_session
  settle-IsManager output tally m (ok _, (session, c)) a v =
      let put = put-IsManager m output.id session a v in
      record { ordered = put.ordered; entries = put.entries }
  settle-IsManager output tally m (throw e, (session, c)) a v =
      let put =
        put-IsManager m output.id (failed_session session e.what) (a, (refl, refl, refl)) v in
      record { ordered = put.ordered; entries = put.entries }

  updated-IsSession :
      (session : AirPlaySessionState) (output : OutputDevice)
      → Shape session.phase session
      → IsSession output.id (update_session_from_output session output)
  unfolding update_session_from_output
  updated-IsSession session output h = ground (arith, h)

  open_output-IsManager :
      (format : PcmFormat) (tally : Session.Tally) (output : OutputDevice)
      (m : AirPlaySessionManager State)
      → validate_stream_format format ≡ ok tt
      → IsManager m
      → IsManager (Session.open_output client format tally output m).1
  unfolding Session.open_output
  open_output-IsManager format tally output m f v =
      let session = Session.session_of output.id m in
      settle-IsManager output tally m _
        (attempt_open-After output format (can_reuse_ready_session session output format) output.id
          (update_session_from_output session output) m.client f
          (updated-IsSession session output (session_of-Shape output.id m v)))
        v

  pub open_step-IsManager :
      (format : PcmFormat) (tally : Session.Tally) (output : OutputDevice)
      (m : AirPlaySessionManager State)
      → validate_stream_format format ≡ ok tt
      → IsManager m
      → IsManager (Session.open_step client format tally output m).1
  unfolding Session.open_step
  open_step-IsManager format tally output m f v =
      let m' = Session.load_after m.stores m in
      let w = load-IsManager m m.stores v in
      ground (arith, w, open_output-IsManager format tally output m' f w)
