-- ===== src/Component/Output/Stopping.antt =====
-- Stopping the stream: the render thread ends, so that the join of `stop_stream` returns.
use foobar_universal_multiro.Base.Outcome.{Outcome, ok, throw}
use foobar_universal_multiro.Base.{
  Bool, List, Option, [], ap, arith, length, refl, true, ℕ, ◌-◌, ◌∙◌, ◌∷◌, ◌≡◌, ◌≤◌,
}
use foobar_universal_multiro.Component.Output.Sections.{
  MultiroomOutput, Worker, Host, absent, beginning, waiting, flushing, in_flush, ending, done,
  opening, pacing, sending, calling, failing, reporting, joining, halting, Spec,
}
use foobar_universal_multiro.Component.Output.{Event, works, joins, is_joinable}
use foobar_universal_multiro.Component.Output

-- How many steps a render thread that is to stop has left at most.
abbrev pub steps_left : Worker → ℕ
steps_left absent = 0
steps_left done = 0
steps_left ending = 1
steps_left beginning = 1
steps_left waiting = 2
steps_left (failing what) = 2
steps_left (reporting what) = 2
steps_left (opening format) = 3
steps_left (pacing epoch) = 3
steps_left in_flush = 3
steps_left (sending frames epoch) = 3
steps_left (calling frames) = 3
steps_left flushing = 4

-- One step of a thread that is to stop.
abbrev Nearer : Worker → MultiroomOutput → MultiroomOutput → Type 0
Nearer w o o' =
    (steps_left o'.worker ≤ steps_left w - 1)
    × (o'.stopping ≡ true)
    × (is_joinable o'.worker ≡ is_joinable w)
    × (o'.host ≡ o.host)

work-Nearer :
    (w : Worker) (result : Outcome (Unit {0})) (o : MultiroomOutput)
    → o.worker ≡ w
    → o.stopping ≡ true
    → Nearer w o (Output.work_at w result o).0
unfolding Output.work_at Output.wake Output.pace Output.check Output.fail
work-Nearer absent result o e s = (ground (arith, e), s, ap is_joinable e, refl)
work-Nearer done result o e s = (ground (arith, e), s, ap is_joinable e, refl)
work-Nearer ending result o e s = (omega arith, s, refl, refl)
work-Nearer beginning result o e s = ground (arith, s)
work-Nearer waiting result o e s = ground (arith, s)
work-Nearer (failing what) result o e s = ground (arith, s)
work-Nearer (reporting what) result o e s = (omega arith, s, refl, refl)
work-Nearer (opening format) (ok _) o e s = (omega arith, s, refl, refl)
work-Nearer (opening format) (throw x) o e s = (omega arith, s, refl, refl)
work-Nearer (pacing epoch) result o e s = ground (arith, s)
work-Nearer in_flush (ok _) o e s = (omega arith, s, refl, refl)
work-Nearer in_flush (throw x) o e s = (omega arith, s, refl, refl)
work-Nearer (sending frames epoch) result o e s = ground (arith, s)
work-Nearer (calling frames) (ok _) o e s = (omega arith, s, refl, refl)
work-Nearer (calling frames) (throw x) o e s = (omega arith, s, refl, refl)
work-Nearer flushing result o e s = (omega arith, s, refl, refl)

is_done : (w : Worker) → steps_left w ≤ 0 → is_joinable w ≡ true → w ≡ done
is_done absent h j = absurd (cc)
is_done done h j = refl
is_done ending h j = absurd (omega arith)
is_done beginning h j = absurd (omega arith)
is_done waiting h j = absurd (omega arith)
is_done (failing what) h j = absurd (omega arith)
is_done (reporting what) h j = absurd (omega arith)
is_done (opening format) h j = absurd (omega arith)
is_done (pacing epoch) h j = absurd (omega arith)
is_done in_flush h j = absurd (omega arith)
is_done (sending frames epoch) h j = absurd (omega arith)
is_done (calling frames) h j = absurd (omega arith)
is_done flushing h j = absurd (omega arith)

-- The render thread takes as many steps as there are results, and the host joins.
abbrev pub steps_then_join : List (Outcome (Unit {0})) → List Event
steps_then_join [] = joins ∷ []
steps_then_join (result ∷ results) = works result ∷ steps_then_join results

join_done :
    (w : Worker) (host : Host) (o : MultiroomOutput) (stop_transport : Bool) (next : Option Spec)
    → w ≡ done
    → host ≡ joining stop_transport next
    → ((Output.join_at w host o).worker ≡ absent)
      × ((Output.join_at w host o).host ≡ halting stop_transport next)
unfolding Output.join_at
join_done w host o stop_transport next e f = rw (e, f) (refl, refl)

-- From any state in which the host waits in `stop_stream` for a render thread that is to stop, whatever its calls
-- return or throw: as many steps of the thread as `steps_left` counts for its place, four at most, are enough for the
-- join to return, and the host goes on to stop the transport if the stream was open.
pub stop_stream_joins :
    (capacity : ℕ → ℕ) (results : List (Outcome (Unit {0}))) (o : MultiroomOutput)
    (stop_transport : Bool) (next : Option Spec)
    → o.stopping ≡ true
    → o.host ≡ joining stop_transport next
    → is_joinable o.worker ≡ true
    → steps_left o.worker ≤ length results
    → let o' = (Output.run capacity (steps_then_join results) o).0 in
      (o'.worker ≡ absent) × (o'.host ≡ halting stop_transport next)
unfolding Output.run Output.step
stop_stream_joins capacity [] o stop_transport next s h j n =
    join_done o.worker o.host o stop_transport next (is_done o.worker n j) h
stop_stream_joins capacity (result ∷ results) o stop_transport next s h j n =
    let (nearer, s', j', h') = work-Nearer o.worker result o refl s in
    stop_stream_joins capacity results (Output.work_at o.worker result o).0 stop_transport next s'
      (h' ∙ h) (j' ∙ j) (omega (arith, nearer, n))
