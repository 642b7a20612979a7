-- ===== src/Component/Output/Rendering.antt =====
-- What the render thread does keeps the queue a buffer.
use foobar_universal_multiro.Base.Outcome.{Outcome, ok, throw}
use foobar_universal_multiro.Component.Output.{work_at, fail}
use foobar_universal_multiro.Component.Output.Sections.{
  PcmFrame, MultiroomOutput, wake, packet_frames, waiting, has_work, pace, check, sending,
  is_interrupted, Call, lacks_frames, is_current, popped, calling, write_playback_pcm, packet_of,
  Worker, pacing, absent, done, beginning, opening, open_playback_stream, failing, in_flush,
  reporting, ending, flushing,
}
use foobar_universal_multiro.Component.Output.Buffer.{
  Log, Fifo, in_hand, HandIsChunk, IsBuffer, IsChunk, hand_at, length-take_within, length-drop-le,
  take-Fifo, packets_in, send-Fifo,
}
use foobar_universal_multiro.Base.{
  Text, List, [], ap, append-nil, arith, false, length, min, refl, subst, sym, take, ◌++◌, ◌==◌,
  ◌∙◌, ◌≡◌, drop, if_elim, not, true, ℕ, ◌∷◌, if◌then◌else◌,
}

-- Nothing is written and nothing is handed over.
abbrev pub quiet : Log → Log
quiet log = record log { written = log.written ++ []; packets = log.packets ++ [] }

quiet-Fifo :
    (hand queue : List PcmFrame) (log : Log) → Fifo hand queue log → Fifo hand queue (quiet log)
quiet-Fifo hand queue log (chunks, p, w, c) =
    (chunks, append-nil log.packets ∙ p, append-nil log.written ∙ w, c)

-- A step that leaves the queue and what is on its way.
pub moved-IsBuffer :
    (o o' : MultiroomOutput) (log : Log)
    → o'.pcm_queue ≡ o.pcm_queue
    → o'.capacity_frames ≡ o.capacity_frames
    → o'.stream_epoch ≡ o.stream_epoch
    → in_hand o' ≡ in_hand o
    → HandIsChunk o'.worker o'.stream_epoch o'.stopping
    → IsBuffer o log
    → IsBuffer o' (quiet log)
moved-IsBuffer o o' log q c e h k v = record {
  bounded = omega (arith, ap length q, c, v.bounded);
  epoch = e ∙ v.epoch;
  hand = k;
  fifo = quiet-Fifo (in_hand o') o'.pcm_queue log (
      subst (λ queue. Fifo (in_hand o') queue log) (sym q)
        (subst (λ hand. Fifo hand o.pcm_queue log) (sym h) v.fifo));
}

-- Only the place of the render thread and flags change, and nothing comes on its way.
abbrev pub Turns : MultiroomOutput → MultiroomOutput → Type 0
Turns o o' =
    (o'.pcm_queue ≡ o.pcm_queue)
    × (o'.capacity_frames ≡ o.capacity_frames)
    × (o'.stream_epoch ≡ o.stream_epoch)
    × (in_hand o' ≡ [])
    × HandIsChunk o'.worker o'.stream_epoch o'.stopping

pub turned :
    (o o' : MultiroomOutput) (log : Log)
    → in_hand o ≡ []
    → Turns o o'
    → IsBuffer o log
    → IsBuffer o' (quiet log)
turned o o' log i (q, c, e, h, k) v = moved-IsBuffer o o' log q c e (h ∙ sym i) k v

wake-Turns :
    (o : MultiroomOutput)
    → in_hand o ≡ []
    → HandIsChunk o.worker o.stream_epoch o.stopping
    → Turns o (wake o)
unfolding wake
wake-Turns o i k =
    if_elim (Turns o) (not (has_work o)) o _ (λ _. (refl, refl, refl, i, k))
      (λ _.
        if_elim (Turns o) o.stopping _ _ (λ _. (refl, refl, refl, refl, tt))
          (λ _.
            if_elim (Turns o) o.flush_requested _ _ (λ _. (refl, refl, refl, refl, tt))
              (λ _.
                if_elim (Turns o) o.paused o _ (λ _. (refl, refl, refl, i, k))
                  (λ _. (refl, refl, refl, refl, tt)))))

fail-Turns : (what : Text) (o : MultiroomOutput) → Turns o (fail what o)
unfolding fail
fail-Turns what o =
    if_elim (Turns o) o.stopping _ _ (λ _. (refl, refl, refl, refl, tt))
      (λ _. (refl, refl, refl, refl, tt))

popped-IsChunk :
    (o : MultiroomOutput)
    → (min packet_frames (length o.pcm_queue) == 0) ≡ false
    → IsChunk (take (min packet_frames (length o.pcm_queue)) o.pcm_queue)
popped-IsChunk o h =
    let n = min packet_frames (length o.pcm_queue) in
    let whole = length-take_within n o.pcm_queue (omega arith) in
    (ground (arith, whole, h), omega (arith, whole))

-- A packet is taken from the queue, and is on its way.
pace-IsBuffer :
    (epoch : ℕ) (o : MultiroomOutput) (log : Log)
    → in_hand o ≡ []
    → IsBuffer o log
    → IsBuffer (pace epoch o) (quiet log)
unfolding pace
pace-IsBuffer epoch o log i v =
    let P : MultiroomOutput → Type 0 = λ o'. IsBuffer o' (quiet log) in
    let n = min packet_frames (length o.pcm_queue) in
    let back : P (record o { worker = waiting }) =
      turned o (record o { worker = waiting }) log i (refl, refl, refl, refl, tt) v in
    if_elim P (is_interrupted epoch o) _ _ (λ _. back)
      (λ going.
        if_elim P (lacks_frames o) (record o { worker = waiting }) (popped epoch o) (λ _. back)
          (λ some_frames.
            let same : (epoch == o.stream_epoch) ≡ true = ground (arith, going) in
            record {
              bounded = omega (arith, length-drop-le n o.pcm_queue, v.bounded);
              epoch = v.epoch;
              hand = (
                popped-IsChunk o (ground (arith, some_frames)),
                ground (arith, same),
                ground (arith, going),
              );
              fifo =
                  subst (λ hand. Fifo hand (drop n o.pcm_queue) (quiet log)) (ground (arith, same))
                    (quiet-Fifo (take n o.pcm_queue) (drop n o.pcm_queue) log
                      (take-Fifo n o.pcm_queue log (subst (λ h. Fifo h o.pcm_queue log) i v.fifo)));
            }))

-- The log after the calls of a step of the render thread.
abbrev pub after_calls : List Call → Log → Log
after_calls calls log = record log {
  written = log.written ++ [];
  packets = log.packets ++ packets_in calls;
}

-- The packet is handed over, or dropped because the stream has started anew.
check-IsBuffer :
    (frames : List PcmFrame) (epoch : ℕ) (o : MultiroomOutput) (log : Log)
    → o.worker ≡ sending frames epoch
    → IsBuffer o log
    → IsBuffer (check frames epoch o).0 (after_calls (check frames epoch o).1 log)
unfolding check
check-IsBuffer frames epoch o log e v =
    let P : MultiroomOutput × List Call → Type 0 = λ r. IsBuffer r.0 (after_calls r.1 log) in
    let chunk : HandIsChunk (sending frames epoch) o.stream_epoch o.stopping =
      subst (λ w. HandIsChunk w o.stream_epoch o.stopping) e v.hand in
    let fifo : Fifo (hand_at (sending frames epoch) o.stream_epoch) o.pcm_queue log =
      subst (λ w. Fifo (hand_at w o.stream_epoch) o.pcm_queue log) e v.fifo in
    if_elim P (is_current epoch o)
      (record o { worker = calling frames }, write_playback_pcm (packet_of frames) ∷ [])
      (record o { in_flight_frames = 0; worker = waiting }, [])
      (λ current. record {
        bounded = v.bounded;
        epoch = v.epoch;
        hand = tt;
        fifo =
            (let now : (epoch == o.stream_epoch) ≡ true = ground (arith, current) in
              let whole =
                subst (λ hand. Fifo hand o.pcm_queue log) (ap (λ b. if b then frames else []) now)
                  fifo in
              let (chunks, p, w, c) = send-Fifo frames o.pcm_queue log chunk.0 whole in
              (chunks, p, append-nil log.written ∙ w, c));
      })
      (λ stale. record {
        bounded = v.bounded;
        epoch = v.epoch;
        hand = tt;
        fifo =
            (let old : (epoch == o.stream_epoch) ≡ false = ground (arith, stale, chunk.2) in
              quiet-Fifo [] o.pcm_queue log (
                subst (λ hand. Fifo hand o.pcm_queue log) (ap (λ b. if b then frames else []) old)
                  fifo));
      })

-- Whatever the render thread does, the queue stays a buffer.
pub work-IsBuffer :
    (w : Worker) (result : Outcome (Unit {0})) (o : MultiroomOutput) (log : Log)
    → o.worker ≡ w
    → IsBuffer o log
    → IsBuffer (work_at w result o).0 (after_calls (work_at w result o).1 log)
unfolding work_at
work-IsBuffer absent result o log e v = moved-IsBuffer o o log refl refl refl refl v.hand v
work-IsBuffer done result o log e v = moved-IsBuffer o o log refl refl refl refl v.hand v
work-IsBuffer (sending frames epoch) result o log e v = check-IsBuffer frames epoch o log e v
work-IsBuffer waiting result o log e v =
    let i : in_hand o ≡ [] = ap (λ w. hand_at w o.stream_epoch) e in
    turned o (wake o) log i (wake-Turns o i v.hand) v
work-IsBuffer (pacing epoch) result o log e v =
    pace-IsBuffer epoch o log (ap (λ w. hand_at w o.stream_epoch) e) v
work-IsBuffer beginning result o log e v =
    let i : in_hand o ≡ [] = ap (λ w. hand_at w o.stream_epoch) e in
    let P : MultiroomOutput × List Call → Type 0 = λ r. IsBuffer r.0 (after_calls r.1 log) in
    if_elim P o.stopping (record o { worker = done }, [])
      (record o { worker = opening o.playback_format }, open_playback_stream o.playback_format ∷ [])
      (λ _. turned o (record o { worker = done }) log i (refl, refl, refl, refl, tt) v)
      (λ _.
        turned o (record o { worker = opening o.playback_format }) log i
          (refl, refl, refl, refl, tt) v)
work-IsBuffer (opening format) (ok _) o log e v =
    turned o (record o { worker = waiting }) log (ap (λ w. hand_at w o.stream_epoch) e)
      (refl, refl, refl, refl, tt) v
work-IsBuffer (opening format) (throw x) o log e v =
    turned o (record o { worker = failing x.what }) log (ap (λ w. hand_at w o.stream_epoch) e)
      (refl, refl, refl, refl, tt) v
work-IsBuffer in_flush (ok _) o log e v =
    turned o (record o { worker = waiting }) log (ap (λ w. hand_at w o.stream_epoch) e)
      (refl, refl, refl, refl, tt) v
work-IsBuffer in_flush (throw x) o log e v =
    turned o (record o { worker = failing x.what }) log (ap (λ w. hand_at w o.stream_epoch) e)
      (refl, refl, refl, refl, tt) v
work-IsBuffer (calling frames) (ok _) o log e v =
    turned o (record o { in_flight_frames = 0; worker = waiting }) log
      (ap (λ w. hand_at w o.stream_epoch) e) (refl, refl, refl, refl, tt) v
work-IsBuffer (calling frames) (throw x) o log e v =
    turned o (record o { worker = failing x.what }) log (ap (λ w. hand_at w o.stream_epoch) e)
      (refl, refl, refl, refl, tt) v
work-IsBuffer flushing result o log e v =
    turned o (record o { worker = in_flush }) log (ap (λ w. hand_at w o.stream_epoch) e)
      (refl, refl, refl, refl, tt) v
work-IsBuffer (failing what) result o log e v =
    turned o (fail what o) log (ap (λ w. hand_at w o.stream_epoch) e) (fail-Turns what o) v
work-IsBuffer (reporting what) result o log e v =
    turned o (record o { worker = ending }) log (ap (λ w. hand_at w o.stream_epoch) e)
      (refl, refl, refl, refl, tt) v
work-IsBuffer ending result o log e v =
    turned o (record o { in_flight_frames = 0; worker = done }) log
      (ap (λ w. hand_at w o.stream_epoch) e) (refl, refl, refl, refl, tt) v
