-- ===== src/Tests/State.antt =====
-- The threads of the component's state on small inputs, over the loopback client, and its other calls.
use foobar_universal_multiro.Component.State.Threads.Owed.{owed}
use foobar_universal_multiro.Base.Int.{pos}
use foobar_universal_multiro.Component.State.Threads.Rounds.{sections}
use foobar_universal_multiro.Component.State.Notices.{
  handle_remote_command, playback_destination_label, status_text,
}
use foobar_universal_multiro.Component.State.Notices.Commands.{AreRecent, handle_remote_command_lem}
use foobar_universal_multiro.AirPlay.Discovery.Packet.{c_string}
use foobar_universal_multiro.Core.Groups.Encoding.{split, hex_decode, trim_ascii}
use foobar_universal_multiro.Component.State.Choices.{
  load_speaker_groups, activate_speaker_group, toggle_output, delete_speaker_group,
  save_speaker_group, set_master_volume_percent, set_output_dropdown_visibility, resolved_for,
}
use foobar_universal_multiro.Component.State.Choices.Activation.{
  Activates, activate-active, free_to_refresh,
}
use foobar_universal_multiro.Core.Groups.{
  SpeakerGroup, deserialize_speaker_groups, deserialize_lines, add_group, decode_fields,
  serialize_speaker_groups,
}
use foobar_universal_multiro.Component.State.Shared.{Surroundings}
use foobar_universal_multiro.Component.State.Shared.{ComponentState, new_state}
use foobar_universal_multiro.Component.State.Threads.Serving.{requests_served}
use foobar_universal_multiro.Component.State.Threads.Steps.{run-new_world-IsAgreed}
use foobar_universal_multiro.Component.State.Threads.Invariant.{IsAgreed}
use foobar_universal_multiro.Base.Outcome.{ok, Exception, Threw, invalid_argument}
use foobar_universal_multiro.AirPlay.Loopback.{new_loopback, loopback}
use foobar_universal_multiro.Device.{OutputDevice, default_format, default_output, airplay}
use foobar_universal_multiro.AirPlay.Client.{
  AirPlayControlClient, AirPlayRemoteCommandEvent, next_track,
}
use foobar_universal_multiro.Base.{
  Bool, List, Text, [], codes, true, ℕ, ◌∷◌, false, refl, ◌++◌, ◌≡◌, ◌⊎◌, find_if, some, text_eq,
  any_of, contains, arith, if◌then◌else◌, none, suc, zero, ◌&&◌,
}
use foobar_universal_multiro.Component.State.Places.{
  asks_refresh, refresh_works, prepares, opens, open_works, Event, World, is_scanning, asks_volumes,
  is_controlling, asks_control, control_works, asks_metadata,
}
use foobar_universal_multiro.Component.State.Threads.{run, new_world, step}
use foobar_universal_multiro.Component.State.Threads.Flags.{has_work, flags}
use foobar_universal_multiro.Component.State.Control.{
  schedule_control_update, schedule_volume_update,
}
use foobar_universal_multiro.Base.{is_empty}
use foobar_universal_multiro.Component.State.Opening.{
  open_playback_stream, open_playback_stream_cases, IsOpened, Handled,
}
use foobar_universal_multiro.Component.State.Notices.{pair_output, control_call}
use foobar_universal_multiro.AirPlay.Client.{pause}
use foobar_universal_multiro.Base.Decimal.{decimal}
use foobar_universal_multiro.Component.OutputState.{selected_ids}
use foobar_universal_multiro.Base.{keep_if}
use foobar_universal_multiro.Component.State.Choices.{replace_first}
use foobar_universal_multiro.Core.Groups.{normalize_speaker_group}
use foobar_universal_multiro.AirPlay.Discovery.Names.{lower_ascii}

abbrev client : AirPlayControlClient
client = loopback (Unit {0})

abbrev is_numeric : Text → Bool
is_numeric text = true

abbrev widen : Text → Text
widen text = text

abbrev env : Surroundings
env = record { client = client; is_numeric = is_numeric; widen_utf8 = widen }

abbrev clock : ℕ → ℕ × ℕ
clock n = (n, 0)

abbrev kitchen : OutputDevice
kitchen = record default_output {
  id = codes "kitchen";
  type = airplay;
  supports_airplay2 = true;
  endpoint_host = codes "10.0.0.2";
  endpoint_port = 7000;
}

abbrev begun : World client.State
begun = new_world env new_loopback (λ n. ok (kitchen ∷ [])) clock (codes "kitchen|1|40|1\n") []

-- A scan starts, and the preparation of a stream comes in between.
abbrev scan_events : List Event
scan_events =
    asks_refresh
    ∷ refresh_works
    ∷ refresh_works
    ∷ prepares
    ∷ opens default_format
    ∷ asks_refresh
    ∷ []

-- The stream is opened, and the request that came meanwhile waits for its end.
abbrev open_events : List Event
open_events =
    refresh_works ∷ opens default_format ∷ open_works ∷ open_works ∷ open_works ∷ open_works ∷ []

run-new_world-IsAgreed_example :
    IsAgreed env
      (owed env (scan_events ++ open_events) begun false)
      (run env (scan_events ++ open_events) begun)
run-new_world-IsAgreed_example =
    run-new_world-IsAgreed env (scan_events ++ open_events) new_loopback (λ n. ok (kitchen ∷ []))
      clock (codes "kitchen|1|40|1\n") []

-- Three requests come, the second while the worker of the first has not looked yet.
abbrev request_events : List Event
request_events =
    asks_volumes (codes "kitchen" ∷ []) ∷ asks_control ∷ control_works ∷ asks_metadata ∷ []

no_scan : is_scanning (run env request_events begun).refresh ≡ false
unfolding run step schedule_control_update schedule_volume_update is_empty
no_scan = refl

requests_served_example :
    (is_controlling (run env (sections 14) (run env request_events begun)).control ≡ false)
    × (has_work (flags (run env (sections 14) (run env request_events begun)).state) ≡ false)
requests_served_example =
    requests_served env request_events new_loopback (λ n. ok (kitchen ∷ [])) clock
      (codes "kitchen|1|40|1\n") [] no_scan

-- The stored selection names an output that no scan finds.
abbrev lost : ComponentState client.State
lost = new_state env new_loopback (λ n. ok (kitchen ∷ [])) clock (codes "hall|1|40|1\n") []

open_playback_stream_example :
    (((open_playback_stream env default_format lost).0 ≡ ok tt)
      × IsOpened env default_format (open_playback_stream env default_format lost).1)
    ⊎ ((e : Exception) × Handled env e (open_playback_stream env default_format lost))
open_playback_stream_example = open_playback_stream_cases env default_format lost

-- One group is stored, under the id `d`, with one output `k` that is not discovered.
abbrev with_group : ComponentState client.State
with_group =
    new_state env new_loopback (λ n. ok []) clock (codes "hall|1|40|1\n") (codes "v1|64|4e|6b\n")

abbrev upstairs : SpeakerGroup
upstairs = record { id = codes "d"; name = codes "N"; output_ids = codes "k" ∷ [] }

group_stored :
    find_if (λ g. text_eq g.id (codes "d")) (load_speaker_groups env with_group) ≡ some upstairs
unfolding deserialize_speaker_groups find_if deserialize_lines split c_string add_group
    decode_fields text_eq hex_decode is_empty trim_ascii contains any_of
group_stored = refl

activate-active_example :
    Activates env upstairs (activate_speaker_group env (codes "d") with_group)
    × ((activate_speaker_group env (codes "d") with_group).starts_refresh
        ≡ (is_empty (resolved_for env upstairs with_group) && free_to_refresh env with_group))
unfolding is_empty
activate-active_example =
    activate-active env (codes "d") with_group upstairs group_stored refl (((refl, tt), refl), tt)

-- The queue is full, and the first id of it is dropped.
abbrev numbered : ℕ → List Text
numbered zero = []
numbered (suc n) = (suc n ∷ []) ∷ numbered n

abbrev full : ComponentState client.State
full = record begun.state { recent_remote_command_ids = numbered 64 }

abbrev next_event : AirPlayRemoteCommandEvent
next_event = record { command = next_track; command_id = codes "x" }

full-AreRecent : AreRecent (numbered 64)
unfolding contains text_eq
full-AreRecent = (omega arith, ground arith)

handle_remote_command_example :
    AreRecent (handle_remote_command env next_event full).1.recent_remote_command_ids
    × (contains (handle_remote_command env next_event full).1.recent_remote_command_ids (codes "x")
        ≡ true)
    × ((handle_remote_command env next_event full).0
        ≡ (if contains (numbered 64) (codes "x") then none else some next_track))
unfolding is_empty
handle_remote_command_example =
    handle_remote_command_lem env next_event full full-AreRecent refl refl

-- The PIN is refused while a pairing runs, and the flag of that pairing is reset.
pair_test :
    (pair_output env
      (codes "1234")
      (record begun.state { pairing_in_progress = true })).1.pairing_in_progress
    ≡ false
unfolding pair_output is_empty
pair_test = refl

label_test :
    playback_destination_label env (record begun.state {
      playback_open = true;
      active_output_names = codes "a" ∷ codes "b" ∷ [];
    })
    ≡ codes "a +1"
unfolding playback_destination_label decimal
label_test = refl

status_test :
    status_text env (record begun.state { discovery_started = true; cached_outputs = kitchen ∷ [] })
    ≡ codes "Discovery: 1 speaker, 0 selected, 0 scans"
unfolding status_text is_empty decimal selected_ids keep_if
status_test = refl

pause_test : control_call pause false ≡ none
unfolding control_call
pause_test = refl

-- The kitchen is chosen.
toggle_test :
    (toggle_output env
      (codes "kitchen")
      (record begun.state { cached_outputs = kitchen ∷ [] })).1.cached_outputs
    ≡ record kitchen { selected = true } ∷ []
unfolding toggle_output find_if text_eq schedule_control_update replace_first
toggle_test = refl

delete_test : load_speaker_groups env (delete_speaker_group env (codes "d") with_group) ≡ []
unfolding delete_speaker_group deserialize_speaker_groups deserialize_lines split c_string any_of
    add_group decode_fields text_eq hex_decode is_empty trim_ascii contains serialize_speaker_groups
    keep_if
delete_test = refl

-- The name is taken, but for its case.
save_test :
    Threw invalid_argument
      (save_speaker_group env (ok (codes "e")) [] (codes "n") (codes "k" ∷ []) with_group).0
unfolding save_speaker_group is_empty normalize_speaker_group trim_ascii contains find_if any_of
    deserialize_speaker_groups deserialize_lines split c_string add_group decode_fields text_eq
    hex_decode lower_ascii
save_test = refl

volume_test :
    (set_master_volume_percent env (pos 130) begun.state).1.master_volume_percent ≡ pos 100
unfolding set_master_volume_percent schedule_volume_update is_empty
volume_test = refl

hidden_test :
    (set_output_dropdown_visibility env
      (codes "kitchen")
      false
      (record begun.state { cached_outputs = kitchen ∷ [] })).cached_outputs
    ≡ record kitchen { visible_in_dropdown = false } ∷ []
unfolding set_output_dropdown_visibility find_if text_eq replace_first
hidden_test = refl
