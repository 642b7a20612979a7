-- ===== src/AirPlay/Session/Manager.antt =====
-- The state of the session manager, and what its methods do with no call of the client.
use foobar_universal_multiro.AirPlay.Session.Visit.{visit}
use foobar_universal_multiro.AirPlay.Session.Attempt.{Work}
use foobar_universal_multiro.Device.{OutputDevice}
use foobar_universal_multiro.Base.Outcome.{
  M, for_each, Outcome, ok, when, ◌>>=◌, ◌>>◌, throw_if, throw, modify, runtime_error,
}
use foobar_universal_multiro.AirPlay.Session.State.{
  AirPlaySessionState, new_session, failed_session, prepare_session,
}
use foobar_universal_multiro.Base.{
  Bool, List, Option, Text, [], codes, if◌then◌else◌, is_empty, none, some, ℕ, ◌++◌, ◌+◌, ◌∷◌,
}
use foobar_universal_multiro.Base.Map

pub record AirPlaySessionManager (S : Type 0) : Type 0 where
  pub client : S
  pub cancel_open_requested : Bool
  -- What other threads store in the flag before each further load of it, if anything.
  pub stores : List (Option Bool)
  pub sessions : List (Text × AirPlaySessionState)

unfoldable pub load_after :
    {S : Type 0} → List (Option Bool) → AirPlaySessionManager S → AirPlaySessionManager S
load_after [] m = m
load_after (none ∷ stores) m = record m { stores = stores }
load_after (some b ∷ stores) m = record m { stores = stores; cancel_open_requested = b }

-- `cancel_open_requested_.load()`
unfoldable pub load_cancel : {S : Type 0} → M (AirPlaySessionManager S) Bool
load_cancel m = let m' = load_after m.stores m in (ok m'.cancel_open_requested, m')

-- A session of the map, which is made if it is not there: `sessions_[id]`.
abbrev pub session_of : {S : Type 0} → Text → AirPlaySessionManager S → AirPlaySessionState
session_of id m = Map.find_or new_session id m.sessions

unfoldable pub put_session :
    {S : Type 0} → Text → AirPlaySessionState → AirPlaySessionManager S → AirPlaySessionManager S
put_session id session m = record m { sessions = Map.assign id session m.sessions }

unfoldable pub prepare_output : {S : Type 0} → OutputDevice → M (AirPlaySessionManager S) (Unit {0})
unfolding load_cancel put_session
prepare_output output = do
  cancelled ← load_cancel
  throw_if cancelled runtime_error (codes "AirPlay session setup cancelled.")
  when output.selected
      (modify (λ m. put_session output.id (prepare_session (session_of output.id m) output) m))

unfoldable pub prepare_outputs :
    {S : Type 0} → List OutputDevice → M (AirPlaySessionManager S) (Unit {0})
unfolding prepare_output for_each
prepare_outputs outputs = for_each prepare_output outputs

-- The counters of `open_for_outputs`.
pub record Tally : Type 0 where
  pub selected_count : ℕ
  pub ready_count : ℕ
  pub errors : List Text

abbrev pub display_name : OutputDevice → Text
display_name output = if is_empty output.name then output.id else output.name

-- After the `try` block: the session and the client are put back, and an exception is handled.
unfoldable pub settle :
    {S : Type 0}
    → OutputDevice
    → Tally
    → AirPlaySessionManager S
    → Outcome (Unit {0}) × (AirPlaySessionState × S)
    → Outcome Tally × AirPlaySessionManager S
settle output tally m (ok _, (session, c)) = (
  ok (record tally {
    selected_count = tally.selected_count + 1;
    ready_count = tally.ready_count + 1;
  }),
  record m { client = c; sessions = Map.assign output.id session m.sessions },
)
settle output tally m (throw e, (session, c)) = (
  ok (record tally {
    selected_count = tally.selected_count + 1;
    errors = tally.errors ++ (display_name output ++ (codes ": " ++ e.what)) ∷ [];
  }),
  record m {
    client = c;
    sessions = Map.assign output.id (failed_session session e.what) m.sessions;
  },
)

-- The part of the message behind the first sentence.
unfoldable pub join_errors : List Text → Text
join_errors [] = []
join_errors (error ∷ errors) = codes " " ++ (error ++ join_errors errors)

visited :
    {S : Type 0}
    → AirPlaySessionManager S
    → Outcome (Unit {0}) × (List (Text × AirPlaySessionState) × S)
    → Outcome (Unit {0}) × AirPlaySessionManager S
visited m (o, (entries, c)) = (o, record m { sessions = entries; client = c })

unfoldable pub visit_sessions :
    {S : Type 0} → (Text → Work S (Unit {0})) → M (AirPlaySessionManager S) (Unit {0})
unfolding visited
visit_sessions body m = visited m (visit body m.sessions m.client)

abbrev pub not_ready : Text
not_ready = codes "Cannot enqueue packet for an AirPlay session that is not ready."
