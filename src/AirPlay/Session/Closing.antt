-- ===== src/AirPlay/Session/Closing.antt =====
-- What `stop` and `close_missing_outputs` leave, over a client that closes without an exception.
use foobar_universal_multiro.AirPlay.Session.Visit.{visit-Makes, visit-keys}
use foobar_universal_multiro.Device.{OutputDevice}
use foobar_universal_multiro.AirPlay.Session.Invariant.{IsManager, IsSession}
use foobar_universal_multiro.AirPlay.Session.{AirPlaySessionManager}
use foobar_universal_multiro.AirPlay.Session.Attempt.{close_session}
use foobar_universal_multiro.AirPlay.Client.{AirPlayControlClient}
use foobar_universal_multiro.AirPlay.Session.State.{AirPlaySessionState, closed}
use foobar_universal_multiro.Base.{
  Bool-cases, Text, [], false, inl, inr, not, ◌≡◌, List, arith, contains, keep_if, map, refl, some,
  true, ◌∷◌, ◌⊎◌,
}
use foobar_universal_multiro.AirPlay.Session
use foobar_universal_multiro.Base.Map
use foobar_universal_multiro.Base.Outcome.{ok, when}

-- Nothing of a connection is left.
abbrev pub IsClosed : Text → AirPlaySessionState → Type 0
IsClosed id s =
    (s.output_id ≡ id)
    × (s.phase ≡ closed)
    × (s.is_open ≡ false)
    × (s.rtsp_session_id ≡ [])
    × (s.queued_packets ≡ [])
    × (s.last_error ≡ [])

ready_keys-closed :
    (entries : List (Text × AirPlaySessionState))
    → Map.Each IsClosed entries
    → Session.ready_keys entries ≡ []
unfolding Session.ready_keys
ready_keys-closed [] h = refl
ready_keys-closed ((id, session) ∷ entries) h = ground (arith, h.0, ready_keys-closed entries h.1)

module _ (client : AirPlayControlClient)
    (closes : (output_id rtsp_session_id : Text) (c : client.State)
      → (client.close output_id rtsp_session_id c).0 ≡ ok tt) where
  open client use {State}

  close_session-IsClosed :
      (id : Text) (session : AirPlaySessionState) (c : State)
      → session.output_id ≡ id
      → ((close_session client (session, c)).0 ≡ ok tt)
        × IsClosed id (close_session client (session, c)).1.0
  unfolding close_session
  close_session-IsClosed id session c e =
      ground (arith, e, closes session.output_id session.rtsp_session_id c)

  -- If the client's `close` throws for no session, then after `stop` the sessions are those that there were, and each is closed: no RTSP session, no packets and no error is left, and no
  -- output is ready.
  pub stop-IsClosed :
      (m : AirPlaySessionManager State)
      → IsManager m
      → ((Session.stop client m).0 ≡ ok tt)
        × (Map.keys (Session.stop client m).1.sessions ≡ Map.keys m.sessions)
        × Map.Each IsClosed (Session.stop client m).1.sessions
        × (Session.ready_output_ids (Session.stop client m).1 ≡ [])
  unfolding Session.stop Session.visit_sessions
  stop-IsClosed m v =
      let (done, closed_) =
        visit-Makes IsSession IsClosed (λ id. close_session client)
          (λ id session c h. close_session-IsClosed id session c h.0) m.sessions m.client
          v.entries in
      (
        done,
        visit-keys _ m.sessions m.client,
        closed_,
        unfold Session.ready_output_ids in ready_keys-closed _ closed_,
      )

  -- If the client's `close` throws for no session, then after `close_missing_outputs` the sessions are those that there were: every session whose id is not that of a selected output is closed like that, and
  -- every other session is as it was.
  pub close_missing_outputs-IsClosed :
      (outputs : List OutputDevice) (m : AirPlaySessionManager State)
      → IsManager m
      → let r = Session.close_missing_outputs client outputs m in
        let selected = map (λ output. output.id) (keep_if (λ output. output.selected) outputs) in
        (r.0 ≡ ok tt)
        × (Map.keys r.1.sessions ≡ Map.keys m.sessions)
        × Map.Each
            (λ id s.
              ((contains selected id ≡ false) × IsClosed id s)
              ⊎ ((contains selected id ≡ true) × (Map.find id m.sessions ≡ some s)))
            r.1.sessions
  unfolding Session.close_missing_outputs Session.visit_sessions
  close_missing_outputs-IsClosed outputs m v =
      let selected = map (λ output. output.id) (keep_if (λ output. output.selected) outputs) in
      let (done, each) =
        visit-Makes (λ id s. IsSession id s × (Map.find id m.sessions ≡ some s))
          (λ id s.
            ((contains selected id ≡ false) × IsClosed id s)
            ⊎ ((contains selected id ≡ true) × (Map.find id m.sessions ≡ some s)))
          (λ id. when (not (contains selected id)) (close_session client))
          (λ id session c h. elim (Bool-cases (contains selected id)) [
            | inl s ↦ simp s (refl, inr (refl, h.1))
            | inr n ↦
                let (done, closed_) = close_session-IsClosed id session c h.0.0 in
                simp n (done, inl (refl, closed_))
          ])
          m.sessions m.client
          (Map.Each-both IsSession (λ id s. Map.find id m.sessions ≡ some s) m.sessions v.entries
            (Map.Each-find m.sessions v.ordered)) in
      (done, visit-keys _ m.sessions m.client, each)
