-- ===== src/Component/Output/History.antt =====
-- Histories of the output plugin: the queue is a buffer, and a stream that is stopped ends.
use foobar_universal_multiro.Component.Output.Hosting.{
  Unwrapped, same-IsBuffer, write-IsBuffer, restarted-IsBuffer, stop_begin-IsBuffer, join-IsBuffer,
  halt-IsBuffer, start-IsBuffer,
}
use foobar_universal_multiro.Component.Output.Rendering.{moved-IsBuffer, work-IsBuffer}
use foobar_universal_multiro.Component.Output.Buffer.{
  Log, IsBuffer, observe, in_hand, Fifo, restarted-Fifo, watch, new_log,
}
use foobar_universal_multiro.Component.Output.{
  Event, pauses, flushes, closes, joins, starts, forces_play, is_free, writes, works, opens, Call,
  is_supported, is_joinable, halts,
}
use foobar_universal_multiro.Component.Output.Sections.{MultiroomOutput}
use foobar_universal_multiro.Base.{
  Bool-cases, List, [], arith, inl, inr, length, refl, ℕ, ◌≤◌, none, some, ◌∷◌,
}
use foobar_universal_multiro.Component.Output

-- An event keeps the queue a buffer for the observer.
step-IsBuffer :
    (capacity : ℕ → ℕ) (event : Event) (o : MultiroomOutput) (log : Log)
    → Unwrapped (observe event o (Output.step capacity event o).1 log)
    → IsBuffer o log
    → IsBuffer
        (Output.step capacity event o).0
        (observe event o (Output.step capacity event o).1 log)
unfolding Output.step
step-IsBuffer capacity (pauses state) o log u v = elim (Bool-cases (is_free o.host)) [
  | inl e ↦
      unfold Output.step Output.pause in
      rw e (moved-IsBuffer o (Output.pause state o) log refl refl refl refl v.hand v)
  | inr e ↦ rw e (same-IsBuffer o log v)
]
step-IsBuffer capacity (writes frames) o log u v = elim (Bool-cases (is_free o.host)) [
  | inl e ↦ rw e (write-IsBuffer frames o log v)
  | inr e ↦ rw e (same-IsBuffer o log v)
]
step-IsBuffer capacity flushes o log u v = elim (Bool-cases (is_free o.host)) [
  | inl e ↦
      unfold Output.step Output.on_flush in
      rw e (
        restarted-IsBuffer o (Output.on_flush o) log o.worker (ground (arith, u, e)) refl refl refl
          v.hand v)
  | inr e ↦ rw e (same-IsBuffer o log v)
]
step-IsBuffer capacity forces_play o log u v = elim (Bool-cases (is_free o.host)) [
  | inl e ↦
      unfold Output.step Output.on_force_play in
      rw e (moved-IsBuffer o (Output.on_force_play o) log refl refl refl refl v.hand v)
  | inr e ↦ rw e (same-IsBuffer o log v)
]
step-IsBuffer capacity (opens spec cancelled) o log u v = elim (Bool-cases (is_free o.host)) [
  | inl e ↦ elim (Bool-cases (is_supported spec)) [
    | inl f ↦
        rw (e, f) (stop_begin-IsBuffer (some spec) cancelled o log (ground (arith, u, e, f)) v)
    | inr f ↦ rw (e, f) (same-IsBuffer o log v)
  ]
  | inr e ↦ rw e (same-IsBuffer o log v)
]
step-IsBuffer capacity (closes cancelled) o log u v = elim (Bool-cases (is_free o.host)) [
  | inl e ↦ rw e (stop_begin-IsBuffer none cancelled o log (ground (arith, u, e)) v)
  | inr e ↦ rw e (same-IsBuffer o log v)
]
step-IsBuffer capacity joins o log u v = join-IsBuffer o.worker o.host o log refl v
step-IsBuffer capacity (halts result) o log u v = halt-IsBuffer o.host result o log v
step-IsBuffer capacity (starts how) o log u v =
    start-IsBuffer capacity o.host how o log (ground (arith, u)) v
step-IsBuffer capacity (works result) o log u v = work-IsBuffer o.worker result o log refl v

restarts-le :
    (event : Event) (o : MultiroomOutput) (calls : List Call) (log : Log)
    → log.restarts ≤ (observe event o calls log).restarts
restarts-le event o calls log = ground arith

restarts-le-watch :
    (capacity : ℕ → ℕ) (events : List Event) (o : MultiroomOutput) (log : Log)
    → log.restarts ≤ (watch capacity events o log).restarts
unfolding watch
restarts-le-watch capacity [] o log = omega arith
restarts-le-watch capacity (event ∷ events) o log = omega (
  arith,
  restarts-le event o (Output.step capacity event o).1 log,
  restarts-le-watch capacity events (Output.step capacity event o).0
      (observe event o (Output.step capacity event o).1 log),
)

run-IsBuffer :
    (capacity : ℕ → ℕ) (events : List Event) (o : MultiroomOutput) (log : Log)
    → Unwrapped (watch capacity events o log)
    → IsBuffer o log
    → IsBuffer (Output.run capacity events o).0 (watch capacity events o log)
unfolding Output.run watch
run-IsBuffer capacity [] o log u v = v
run-IsBuffer capacity (event ∷ events) o log u v =
    let o' = (Output.step capacity event o).0 in
    let log' = observe event o (Output.step capacity event o).1 log in
    run-IsBuffer capacity events o' log' u (
      step-IsBuffer capacity event o log
        (omega (arith, u, restarts-le-watch capacity events o' log')) v)

-- The render queue is a bounded buffer that keeps the order. In every history of the host's and the render thread's
-- steps from a new output, whatever the calls of the component's state and `std::thread` throw, with fewer than 2 ^ 64 openings,
-- flushes and stops: the queue holds no more frames than its capacity. And since the last of these events, the packets
-- handed over are those of chunks of 1 to 352 frames, each filled with silence; the frames that `write` took are
-- those of the chunks in their order, then those of a packet on its way, then those in the queue.
pub run-new_output-IsBuffer :
    (capacity : ℕ → ℕ) (events : List Event)
    → Unwrapped (watch capacity events Output.new_output new_log)
    → let o = (Output.run capacity events Output.new_output).0 in
      let log = watch capacity events Output.new_output new_log in
      (length o.pcm_queue ≤ o.capacity_frames) × Fifo (in_hand o) o.pcm_queue log
run-new_output-IsBuffer capacity events u =
    let v =
      run-IsBuffer capacity events Output.new_output new_log u
        (record { bounded = omega arith; epoch = refl; hand = tt; fifo = restarted-Fifo 0 }) in
    (v.bounded, v.fifo)
