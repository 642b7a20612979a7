-- ===== src/Component/Output.antt =====
-- components/foo_out_multiroom_bridge/multiroom_output.cpp: the output plugin, with the thread that calls it and the
-- render thread that empties its queue. One event is what a thread does while it holds `queue_mutex_`, or
-- one call of the component's state, which may throw anything.
mod Sections
pub mod Buffer
pub mod Rendering
pub mod Hosting
pub mod History
pub mod Stopping
unfoldable pub use Sections.*
use foobar_universal_multiro.Base.Outcome.{Outcome, ok, throw}
use foobar_universal_multiro.Device.{PcmFormat}
use foobar_universal_multiro.Base.{
  Text, Bool, List, Option, [], drop, false, if◌then◌else◌, is_empty, leb, length, ltb, min, none,
  not, some, suc, take, true, zero, ℕ, ◌%◌, ◌&&◌, ◌++◌, ◌+◌, ◌-◌, ◌/◌, ◌==◌, ◌^◌, ◌||◌, ◌∷◌, ◌*◌,
}

-- What a call of the render thread leads to: the next place, or the handler.
abbrev pub after_call : Worker → Outcome (Unit {0}) → Worker
after_call next (ok _) = next
after_call next (throw e) = failing e.what

-- The section of the handler under the lock.
unfoldable pub fail : Text → MultiroomOutput → MultiroomOutput
fail what o = if o.stopping then record o { started = false; worker = ending } else record o {
  worker_error = what;
  failure_stop_requested = true;
  started = false;
  worker = reporting what;
}

abbrev pub after_write : Outcome (Unit {0}) → MultiroomOutput → MultiroomOutput
after_write (ok _) o = record o { in_flight_frames = 0; worker = waiting }
after_write (throw e) o = record o { worker = failing e.what }

-- One thing that the render thread does where it is. The outcome is that of its call, if it is in one.
pub work_at : Worker → Outcome (Unit {0}) → MultiroomOutput → MultiroomOutput × List Call
unfolding wake pace check fail
work_at absent result o = (o, [])
work_at beginning result o = if o.stopping then (record o { worker = done }, []) else (
  record o { worker = opening o.playback_format },
  open_playback_stream o.playback_format ∷ [],
)
work_at (opening format) result o = (record o { worker = after_call waiting result }, [])
work_at waiting result o = (wake o, [])
work_at (pacing epoch) result o = (pace epoch o, [])
work_at flushing result o = (record o { worker = in_flush }, flush_playback ∷ [])
work_at in_flush result o = (record o { worker = after_call waiting result }, [])
work_at (sending frames epoch) result o = check frames epoch o
work_at (calling frames) result o = (after_write result o, [])
work_at (failing what) result o = (fail what o, [])
work_at (reporting what) result o =
    (record o { worker = ending }, report_playback_failure what ∷ [])
work_at ending result o = (record o { in_flight_frames = 0; worker = done }, [])
work_at done result o = (o, [])

-- How `open` ends behind `stop_stream`: the render thread starts, or `prepare_playback_open` throws, or `std::thread` does.
pub data Started : Type 0 where
  through : Started
  unprepared : Started
  unthreaded : Started

-- What the threads do. The outcome is that of the call that the thread waits for, if it waits for one. `opens` and `closes`
-- have that of `cancel_pending_playback_open`.
pub data Event : Type 0 where
  pauses : Bool → Event
  writes : List PcmFrame → Event
  flushes : Event
  forces_play : Event
  opens : Spec → Outcome (Unit {0}) → Event
  closes : Outcome (Unit {0}) → Event
  joins : Event
  halts : Outcome (Unit {0}) → Event
  starts : Started → Event
  works : Outcome (Unit {0}) → Event

abbrev pub is_free : Host → Bool
is_free free = true
is_free _ = false

abbrev pub is_joinable : Worker → Bool
is_joinable absent = false
is_joinable _ = true

abbrev pub after_cancel : Bool → Option Spec → Outcome (Unit {0}) → Host
after_cancel stop_transport next (ok _) = joining stop_transport next
after_cancel stop_transport next (throw e) = free

-- `stop_stream` up to the join. An exception leaves it before the join.
unfoldable pub stop_begin :
    Option Spec → Outcome (Unit {0}) → MultiroomOutput → MultiroomOutput × List Call
unfolding stop_locked
stop_begin next cancelled o =
    if is_joinable o.worker
    then (
      record (stop_locked o) { host = after_cancel o.stream_open next cancelled },
      cancel_pending_playback_open ∷ [],
    )
    else (record (stop_locked o) { in_flight_frames = 0; host = halting o.stream_open next }, [])

-- What comes behind `stop_stream`.
abbrev pub behind_stop : Option Spec → Host
behind_stop none = free
behind_stop (some spec) = starting spec

-- The join returns when the render thread has ended.
pub join_at : Worker → Host → MultiroomOutput → MultiroomOutput
join_at done (joining stop_transport next) o = record o {
  worker = absent;
  in_flight_frames = 0;
  host = halting stop_transport next;
}
join_at _ _ o = o

abbrev pub after_stop : Option Spec → Outcome (Unit {0}) → Host
after_stop next (ok _) = behind_stop next
after_stop next (throw e) = free

-- The last part of `stop_stream`, under the send lock. An exception leaves `open`; the destructor drops it.
pub halt_at : Host → Outcome (Unit {0}) → MultiroomOutput → MultiroomOutput × List Call
halt_at (halting true next) result o =
    (record o { host = after_stop next result }, stop_playback ∷ [])
halt_at (halting false next) result o = (record o { host = behind_stop next }, [])
halt_at _ result o = (o, [])

-- Behind `stop_stream`. Where the thread cannot be started, the exceptions of `stop_playback` are dropped.
pub start_at : (ℕ → ℕ) → Host → Started → MultiroomOutput → MultiroomOutput × List Call
unfolding open_locked
start_at capacity (starting spec) through o = (
  record (open_locked capacity spec o) { worker = beginning; host = free },
  prepare_playback_open ∷ [],
)
start_at capacity (starting spec) unprepared o =
    (record o { host = free }, prepare_playback_open ∷ [])
start_at capacity (starting spec) unthreaded o = (
  record (open_locked capacity spec o) {
    started = false;
    stopping = true;
    stream_open = false;
    host = free;
  },
  prepare_playback_open ∷ stop_playback ∷ [],
)
start_at capacity _ how o = (o, [])

-- The check at the head of `open`.
abbrev pub is_supported : Spec → Bool
is_supported spec = spec.channels == 2 && spec.sample_rate == 44100

-- The host calls nothing else while a call of it runs.
abbrev pub when_free : MultiroomOutput × List Call → MultiroomOutput → MultiroomOutput × List Call
when_free r o = if is_free o.host then r else (o, [])

unfoldable pub step : (ℕ → ℕ) → Event → MultiroomOutput → MultiroomOutput × List Call
unfolding pause write on_flush on_force_play stop_begin work_at join_at halt_at start_at
step capacity (pauses state) o = when_free (pause state o, []) o
step capacity (writes frames) o = when_free (write frames o, []) o
step capacity flushes o = when_free (on_flush o, []) o
step capacity forces_play o = when_free (on_force_play o, []) o
step capacity (opens spec cancelled) o =
    when_free (if is_supported spec then stop_begin (some spec) cancelled o else (o, [])) o
step capacity (closes cancelled) o = when_free (stop_begin none cancelled o) o
step capacity joins o = (join_at o.worker o.host o, [])
step capacity (halts result) o = halt_at o.host result o
step capacity (starts how) o = start_at capacity o.host how o
step capacity (works result) o = work_at o.worker result o

-- A history: the state, and the calls in their order.
unfoldable pub run : (ℕ → ℕ) → List Event → MultiroomOutput → MultiroomOutput × List Call
unfolding step
run capacity [] o = (o, [])
run capacity (event ∷ events) o =
    let (o', calls) = step capacity event o in
    let (o'', later) = run capacity events o' in (o'', calls ++ later)
