-- ===== src/Component/Output/Hosting.antt =====
-- What the host does keeps the queue a buffer.
use foobar_universal_multiro.Base.Outcome.{Outcome}
use foobar_universal_multiro.Component.Output.Rendering.{quiet, moved-IsBuffer, turned, after_calls}
use foobar_universal_multiro.Component.Output.Buffer.{
  Log, IsBuffer, length-take-le, write-Fifo, in_hand, HandIsChunk, hand_at, Fifo, restarted-Fifo,
  restarted, is_starting, opens_queue,
}
use foobar_universal_multiro.Component.Output.{
  Event, pauses, flushes, closes, joins, starts, forces_play, is_free, writes, works, opens, Call,
  is_supported, is_joinable, halts, Started, through, unprepared, unthreaded,
}
use foobar_universal_multiro.Component.Output.Sections.{
  MultiroomOutput, PcmFrame, free, absent, beginning, waiting, flushing, in_flush, ending, done,
  room, Worker, Spec, Host, joining, sending, halting, opening, starting, pacing, calling, failing,
  reporting,
}
use foobar_universal_multiro.Base.{
  List, [], append-nil, arith, length, length-append, refl, take, ℕ, ◌++◌, ◌+◌, ◌<◌, ◌^◌, ◌∙◌, ◌≡◌,
  ◌≤◌, Bool, Option, ap, false, if_elim, subst, sym, true, if◌then◌else◌, ◌&&◌,
}
use foobar_universal_multiro.Component.Output

-- No counter has wrapped yet.
abbrev pub Unwrapped : Log → Type 0
Unwrapped log = log.restarts < 2 ^ 64

pub same-IsBuffer : (o : MultiroomOutput) (log : Log) → IsBuffer o log → IsBuffer o (quiet log)
same-IsBuffer o log v = moved-IsBuffer o o log refl refl refl refl v.hand v

-- What was on its way is current no more when the epoch has gone up.
old_hand :
    (w : Worker) (now now' : ℕ) (stopping stopping' : Bool)
    → now < now'
    → HandIsChunk w now stopping
    → HandIsChunk w now' stopping' × (hand_at w now' ≡ [])
old_hand (sending frames epoch) now now' stopping stopping' h k =
    ((k.0, omega (arith, k.1), ground (arith, k.1)), ground (arith, k.1))
old_hand absent now now' stopping stopping' h k = (tt, refl)
old_hand beginning now now' stopping stopping' h k = (tt, refl)
old_hand (opening format) now now' stopping stopping' h k = (tt, refl)
old_hand waiting now now' stopping stopping' h k = (tt, refl)
old_hand (pacing epoch) now now' stopping stopping' h k = (tt, refl)
old_hand flushing now now' stopping stopping' h k = (tt, refl)
old_hand in_flush now now' stopping stopping' h k = (tt, refl)
old_hand (calling frames) now now' stopping stopping' h k = (tt, refl)
old_hand (failing what) now now' stopping stopping' h k = (tt, refl)
old_hand (reporting what) now now' stopping stopping' h k = (tt, refl)
old_hand ending now now' stopping stopping' h k = (tt, refl)
old_hand done now now' stopping stopping' h k = (tt, refl)

-- The queue is emptied and the epoch goes up.
pub restarted-IsBuffer :
    (o o' : MultiroomOutput) (log : Log) (w : Worker)
    → log.restarts + 1 < 2 ^ 64
    → o'.pcm_queue ≡ []
    → o'.stream_epoch ≡ Output.next_epoch o.stream_epoch
    → o'.worker ≡ w
    → HandIsChunk w o.stream_epoch o.stopping
    → IsBuffer o log
    → IsBuffer o' (restarted log)
restarted-IsBuffer o o' log w h q e same k v =
    let up : o.stream_epoch < o'.stream_epoch = omega (arith, e, v.epoch) in
    let (hand, none_left) = old_hand w o.stream_epoch o'.stream_epoch o.stopping o'.stopping up k in
    record {
      bounded = omega (arith, ap length q);
      epoch = omega (arith, e, v.epoch);
      hand = subst (λ x. HandIsChunk x o'.stream_epoch o'.stopping) (sym same) hand;
      fifo =
          subst (λ queue. Fifo (in_hand o') queue (restarted log)) (sym q)
            (subst (λ x. Fifo x [] (restarted log))
              (sym (ap (λ x. hand_at x o'.stream_epoch) same ∙ none_left))
              (restarted-Fifo (log.restarts + 1)));
    }

accepted-fits :
    (frames : List PcmFrame) (o : MultiroomOutput)
    → length o.pcm_queue ≤ o.capacity_frames
    → length (o.pcm_queue ++ Output.accepted frames o) ≤ o.capacity_frames
unfolding Output.accepted
accepted-fits frames o h = ground (
  arith,
  length-append o.pcm_queue (take (room o) frames),
  length-append o.pcm_queue [],
  length-take-le (room o) frames,
  append-nil o.pcm_queue,
)

pub write-IsBuffer :
    (frames : List PcmFrame) (o : MultiroomOutput) (log : Log)
    → IsBuffer o log
    → IsBuffer (Output.write frames o) (record log {
      written = log.written ++ Output.accepted frames o;
      packets = log.packets ++ [];
    })
unfolding Output.write
write-IsBuffer frames o log v =
    let (chunks, p, w, c) =
      write-Fifo (in_hand o) o.pcm_queue (Output.accepted frames o) log v.fifo in
    record {
      bounded = accepted-fits frames o v.bounded;
      epoch = v.epoch;
      hand = v.hand;
      fifo = (chunks, append-nil log.packets ∙ p, w, c);
    }

pub stop_begin-IsBuffer :
    (next : Option Spec) (cancelled : Outcome (Unit {0})) (o : MultiroomOutput) (log : Log)
    → log.restarts + 1 < 2 ^ 64
    → IsBuffer o log
    → IsBuffer (Output.stop_begin next cancelled o).0 (restarted log)
unfolding Output.stop_begin Output.stop_locked
stop_begin-IsBuffer next cancelled o log h v =
    if_elim (λ (r : MultiroomOutput × List Call). IsBuffer r.0 (restarted log))
      (is_joinable o.worker) _ _
      (λ _. restarted-IsBuffer o _ log o.worker h refl refl refl v.hand v)
      (λ _. restarted-IsBuffer o _ log o.worker h refl refl refl v.hand v)

pub join-IsBuffer :
    (w : Worker) (host : Host) (o : MultiroomOutput) (log : Log)
    → o.worker ≡ w
    → IsBuffer o log
    → IsBuffer (Output.join_at w host o) (quiet log)
unfolding Output.join_at
join-IsBuffer done (joining stop_transport next) o log e v =
    turned o _ log (ap (λ w. hand_at w o.stream_epoch) e) (refl, refl, refl, refl, tt) v
join-IsBuffer done free o log e v = same-IsBuffer o log v
join-IsBuffer done (halting stop_transport next) o log e v = same-IsBuffer o log v
join-IsBuffer done (starting spec) o log e v = same-IsBuffer o log v
join-IsBuffer w host o log e v = same-IsBuffer o log v

pub halt-IsBuffer :
    (host : Host) (result : Outcome (Unit {0})) (o : MultiroomOutput) (log : Log)
    → IsBuffer o log
    → IsBuffer (Output.halt_at host result o).0 (after_calls (Output.halt_at host result o).1 log)
unfolding Output.halt_at
halt-IsBuffer (halting true next) result o log v =
    moved-IsBuffer o _ log refl refl refl refl v.hand v
halt-IsBuffer (halting false next) result o log v =
    moved-IsBuffer o _ log refl refl refl refl v.hand v
halt-IsBuffer free result o log v = same-IsBuffer o log v
halt-IsBuffer (joining stop_transport next) result o log v = same-IsBuffer o log v
halt-IsBuffer (starting spec) result o log v = same-IsBuffer o log v

pub start-IsBuffer :
    (capacity : ℕ → ℕ) (host : Host) (how : Started) (o : MultiroomOutput) (log : Log)
    → Unwrapped (if is_starting host && opens_queue how then restarted log else log)
    → IsBuffer o log
    → IsBuffer (Output.start_at capacity host how o).0 (
        if is_starting host && opens_queue how
        then restarted log
        else after_calls (Output.start_at capacity host how o).1 log)
unfolding Output.start_at Output.open_locked
start-IsBuffer capacity (starting spec) through o log u v =
    restarted-IsBuffer o _ log beginning u refl refl refl tt v
start-IsBuffer capacity (starting spec) unprepared o log u v =
    moved-IsBuffer o _ log refl refl refl refl v.hand v
start-IsBuffer capacity (starting spec) unthreaded o log u v =
    restarted-IsBuffer o _ log o.worker u refl refl refl v.hand v
start-IsBuffer capacity free how o log u v = same-IsBuffer o log v
start-IsBuffer capacity (joining stop_transport next) how o log u v = same-IsBuffer o log v
start-IsBuffer capacity (halting stop_transport next) how o log u v = same-IsBuffer o log v
