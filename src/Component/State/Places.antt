-- ===== src/Component/State/Places.antt =====
-- multiroom_component_state.cpp: where the workers and the playback thread are between two sections.
-- Where `refresh_outputs_worker` is. In `scanning` it holds the transport's lock.
use foobar_universal_multiro.Component.State.Playback.{OpenWork}
use foobar_universal_multiro.Component.State.Shared.{ComponentState}
use foobar_universal_multiro.Device.{PcmFormat, OutputDevice}
use foobar_universal_multiro.Component.State.Control.{ControlWork}
use foobar_universal_multiro.Base.Outcome.{Outcome, Exception}
use foobar_universal_multiro.Base.{Bool, List, Option, Text, false, true, ℕ}

pub data RefreshPlace : Type 0 where
  refresh_absent : RefreshPlace
  refresh_starting : RefreshPlace
  refresh_checking : RefreshPlace
  scanning : RefreshPlace
  scanned : Outcome (List OutputDevice) → RefreshPlace
  refresh_ending : RefreshPlace

-- Where `control_update_worker` is.
pub data ControlPlace : Type 0 where
  control_absent : ControlPlace
  snapping : ControlPlace
  sending_volumes : ControlWork → ControlPlace
  control_starting : ControlWork → ControlPlace
  updating : ControlWork → ControlPlace
  applied : ControlWork → Bool → Outcome (List OutputDevice) → ControlPlace
  named : ControlWork → Bool → Outcome (List OutputDevice) → List Text → ControlPlace
  control_ending : ControlPlace

-- Where the playback thread is. In `prepared` no `open_playback_stream` runs yet.
pub data PlayPlace : Type 0 where
  idle : PlayPlace
  prepared : PlayPlace
  looking : PcmFormat → PlayPlace
  copying : PcmFormat → PlayPlace
  ready_to_set_up : OpenWork → PlayPlace
  set_up : List OutputDevice × List Text → PlayPlace
  aborting : Exception → PlayPlace
  failing : Exception → PlayPlace

pub record World (S : Type 0) : Type 0 where
  pub state : ComponentState S
  pub refresh : RefreshPlace
  pub control : ControlPlace
  pub play : PlayPlace

pub data Event : Type 0 where
  asks_refresh : Event
  asks_control : Event
  asks_volumes : List Text → Event
  asks_metadata : Event
  refresh_works : Event
  control_works : Event
  prepares : Event
  cancels : Event
  opens : PcmFormat → Event
  open_works : Event
  writes : Option Text → ℕ → Event
  flushes : Event
  stops : Event

abbrev pub is_scanning : RefreshPlace → Bool
is_scanning scanning = true
is_scanning _ = false

-- The worker has yet to come to its scan.
abbrev pub is_before_scan : RefreshPlace → Bool
is_before_scan refresh_starting = true
is_before_scan refresh_checking = true
is_before_scan _ = false

-- The worker scans, or has what came of it: the outputs, or an exception.
abbrev pub is_taken_up : RefreshPlace → Bool
is_taken_up scanning = true
is_taken_up (scanned o) = true
is_taken_up _ = false

abbrev pub asks_for_refresh : Event → Bool
asks_for_refresh asks_refresh = true
asks_for_refresh _ = false

abbrev pub is_refreshing : RefreshPlace → Bool
is_refreshing refresh_absent = false
is_refreshing _ = true

abbrev pub is_controlling : ControlPlace → Bool
is_controlling control_absent = false
is_controlling _ = true

abbrev pub is_idle : PlayPlace → Bool
is_idle idle = true
is_idle _ = false

abbrev pub is_prepared : PlayPlace → Bool
is_prepared prepared = true
is_prepared _ = false

-- `open_playback_stream` runs.
abbrev pub is_opening : PlayPlace → Bool
is_opening idle = false
is_opening prepared = false
is_opening _ = true

-- The sections of the playback thread that wait for the transport's lock.
abbrev pub locks_transport : PlayPlace → Bool
locks_transport (looking format) = true
locks_transport (ready_to_set_up work) = true
locks_transport (aborting e) = true
locks_transport _ = false
