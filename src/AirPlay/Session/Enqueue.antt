-- ===== src/AirPlay/Session/Enqueue.antt =====
-- What one packet does to the sessions.
use foobar_universal_multiro.AirPlay.Session.State.{AirPlaySessionState, is_ready}
use foobar_universal_multiro.AirPlay.Session.{AirPlaySessionManager}
use foobar_universal_multiro.Core.Scheduler.{ScheduledPacket}
use foobar_universal_multiro.AirPlay.Client.{AirPlayControlClient}
use foobar_universal_multiro.Base.{
  Bool-cases, Option, Option-cases, Text, [], arith, false, if◌then◌else◌, inl, inr, some, text_eq,
  true, ℕ, ◌++◌, ◌∷◌, ◌≡◌, ◌⊎◌,
}
use foobar_universal_multiro.AirPlay.Session
use foobar_universal_multiro.Base.Map
use foobar_universal_multiro.Base.Outcome.{ok, throw, Threw, logic_error, Exception, Outcome-cases}

module _ (client : AirPlayControlClient) where
  open client use {State}

  -- A packet for an output with no ready session throws `logic_error`, and nothing changes. For one with a ready
  -- session the client gets the packet under that session's ids. If the client throws, the call throws the same and
  -- the sessions are as they were; otherwise the packet stands behind those that the session had queued, and
  -- no other session changes.
  pub enqueue_cases :
      (packet : ScheduledPacket) (frames : Option Text) (bytes : ℕ)
      (m : AirPlaySessionManager State)
      → let r = Session.enqueue client packet frames bytes m in
        (((session : AirPlaySessionState)
            → Map.find packet.output_id m.sessions ≡ some session
            → is_ready session.phase ≡ false)
          × Threw logic_error r.0
          × (r.1 ≡ m))
        ⊎ ((session : AirPlaySessionState) × (Map.find packet.output_id m.sessions ≡ some session)
            × (is_ready session.phase ≡ true)
            × (r.0
                ≡ (client.send_audio session.output_id session.rtsp_session_id packet frames bytes
                    m.client).0)
            × (r.1.client
                ≡ (client.send_audio session.output_id session.rtsp_session_id packet frames bytes
                    m.client).1)
            × (((e : Exception) × (r.0 ≡ throw e) × (r.1.sessions ≡ m.sessions))
                ⊎ ((r.0 ≡ ok tt)
                    × ((k : Text)
                        → Map.find k r.1.sessions ≡ (
                            if text_eq packet.output_id k
                            then some (record session {
                              queued_packets = session.queued_packets ++ packet ∷ [];
                            })
                            else Map.find k m.sessions)))))
  unfolding Session.enqueue
  enqueue_cases packet frames bytes m = elim (Option-cases (Map.find packet.output_id m.sessions)) [
    | inl e ↦
        unfold Session.enqueue in
        inl (λ s f. absurd (ground (arith, e, f)), ground (arith, e), ground (arith, e))
    | inr (session, e) ↦ elim (Bool-cases (is_ready session.phase)) [
      | inr n ↦
          unfold Session.enqueue in
          inl (λ s f. ground (arith, e, f, n), ground (arith, e, n), ground (arith, e, n))
      | inl r ↦
          let sent =
            client.send_audio session.output_id session.rtsp_session_id packet frames bytes
              m.client in
          let queued = record session { queued_packets = session.queued_packets ++ packet ∷ [] } in
          elim (Outcome-cases sent.0) [
            | inr (x, t) ↦
                unfold Session.enqueue Session.send_packet in
                inr (
                  session,
                  e,
                  r,
                  ground (arith, e, r, t),
                  ground (arith, e, r, t),
                  inl (x, ground (arith, e, r, t), ground (arith, e, r, t)),
                )
            | inl (u, o) ↦
                unfold Session.enqueue Session.send_packet in
                inr (
                  session,
                  e,
                  r,
                  ground (arith, e, r, o),
                  ground (arith, e, r, o),
                  inr (
                    ground (arith, e, r, o),
                    λ k.
                        ground
                          (arith, e, r, o, Map.find-assign packet.output_id k queued m.sessions),
                  ),
                )
          ]
    ]
  ]
