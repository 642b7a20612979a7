-- ===== src/Tests/Component.antt =====
-- The component's stored state and the output plugin on small inputs.
use foobar_universal_multiro.Component.Output.Hosting.{Unwrapped}
use foobar_universal_multiro.Component.Output.History.{run-new_output-IsBuffer}
use foobar_universal_multiro.Component.OutputState.Selection.{selected_of, replace_stored-matches}
use foobar_universal_multiro.AirPlay.Discovery.Packet.{c_string}
use foobar_universal_multiro.Base.Int.{pos}
use foobar_universal_multiro.Component.Output.Stopping.{steps_then_join, stop_stream_joins}
use foobar_universal_multiro.Component.Output.Buffer.{watch, Fifo, in_hand, new_log}
use foobar_universal_multiro.Base.Outcome.{Threw, ok, invalid_argument}
use foobar_universal_multiro.Component.Pairing.Saved.{IsWritable, load-save}
use foobar_universal_multiro.AirPlay.Client.{AirPlayPairingCredentials}
use foobar_universal_multiro.Core.Groups.{SpeakerGroup, speaker_group_matches_persisted_selection}
use foobar_universal_multiro.Component.OutputState.Update.{
  IsStorable, state_under, restored, update_stored_output_state_lem, apply-update_stored,
}
use foobar_universal_multiro.Component.OutputState.{
  StoredOutputState, parse_output_state_text, update_stored_output_state, apply_stored_output_state,
  load_output_state, state_of, with_state, replace_stored_output_selection,
  format_output_state_text,
}
use foobar_universal_multiro.Device.{OutputDevice, default_output}
use foobar_universal_multiro.Base.{
  Text, List, [], arith, codes, contains, false, if◌then◌else◌, is_empty, keep_if, length, map,
  none, refl, some, take, text_eq, true, ℕ, ◌∷◌, ◌≡◌, ◌≤◌, ◌⊎◌,
}
use foobar_universal_multiro.Component.Output
use foobar_universal_multiro.Component.Output.{
  Event, opens, halts, starts, works, writes, forces_play, prepare_playback_open,
  write_playback_pcm, open_playback_stream, waiting, joining, halting, absent, MultiroomOutput,
  Spec, accepted_lem, packet_of, through,
}
use foobar_universal_multiro.Component.Pairing.{is_valid, save, load}

abbrev kitchen : OutputDevice
kitchen = record default_output {
  id = codes "kitchen";
  selected = true;
  volume = pos 140;
  aliases = codes "old" ∷ [];
}

abbrev stored_text : Text
stored_text = codes "hall|1|40\nold|0|20|0\nkitchen|0|x|1\n"

abbrev hall_state : StoredOutputState
hall_state = record {
  output_id = codes "hall";
  selected = true;
  volume = pos 40;
  visible_in_dropdown = true;
}

-- The third line has no volume, and is skipped.
parse_test :
    parse_output_state_text stored_text
    ≡ hall_state
      ∷ record {
        output_id = codes "old";
        selected = false;
        volume = pos 20;
        visible_in_dropdown = false;
      }
      ∷ []
unfolding parse_output_state_text is_empty text_eq
parse_test = refl

update_test :
    update_stored_output_state kitchen stored_text ≡ codes "hall|1|40|1\nkitchen|1|100|1\n"
unfolding update_stored_output_state format_output_state_text text_eq is_empty contains keep_if
    c_string
update_test = refl

kitchen-IsStorable : IsStorable kitchen
kitchen-IsStorable =
    ((refl, (refl, (refl, (refl, (refl, (refl, (refl, tt))))))), unfold is_empty in refl)

update_stored_output_state_example :
    state_under (codes "old") (load_output_state (update_stored_output_state kitchen stored_text))
    ≡ (if text_eq kitchen.id (codes "old")
        then some (state_of kitchen)
        else if contains kitchen.aliases (codes "old")
        then none
        else state_under (codes "old") (load_output_state stored_text))
update_stored_output_state_example =
    update_stored_output_state_lem kitchen stored_text (codes "old") kitchen-IsStorable

apply-update_stored_example :
    ((apply_stored_output_state (kitchen ∷ []) (update_stored_output_state kitchen stored_text)).0
      ≡ map
          (restored (load_output_state (update_stored_output_state kitchen stored_text)))
          (kitchen ∷ []))
    × (restored (load_output_state (update_stored_output_state kitchen stored_text)) kitchen
        ≡ with_state (state_of kitchen) kitchen)
apply-update_stored_example =
    apply-update_stored kitchen stored_text (kitchen ∷ []) kitchen kitchen-IsStorable
      (refl, λ k c. c)

abbrev downstairs : SpeakerGroup
downstairs = record {
  id = codes "g";
  name = codes "Downstairs";
  output_ids = codes "hall" ∷ codes "old" ∷ [];
}

replace_stored-matches_example :
    speaker_group_matches_persisted_selection downstairs
      (selected_of
        (load_output_state (replace_stored_output_selection downstairs (kitchen ∷ []) stored_text)))
      (kitchen ∷ [])
    ≡ true
replace_stored-matches_example =
    replace_stored-matches downstairs (kitchen ∷ []) stored_text (unfold is_empty in refl) (
      ((refl, (refl, (refl, (refl, tt)))), unfold is_empty in refl),
      (((refl, (refl, (refl, tt))), unfold is_empty in refl), tt),
    )

abbrev thirty_two : Text
thirty_two = codes "0123456789abcdef0123456789abcdef"

abbrev credentials : AirPlayPairingCredentials
credentials = record {
  output_id = codes "tv";
  client_id = codes "c";
  controller_seed = thirty_two;
  accessory_identifier = codes "id";
  accessory_public_key = thirty_two;
}

credentials-IsWritable : IsWritable credentials
credentials-IsWritable = record {
  plain_output = (refl, (refl, tt));
  plain_client = (refl, tt);
  seed_bytes = omega arith;
  identifier_bytes = omega arith;
  key_bytes = omega arith;
}

load-save_example :
    ((is_valid credentials ≡ false)
      × Threw invalid_argument (save credentials []).0
      × ((save credentials []).1 ≡ []))
    ⊎ ((is_valid credentials ≡ true)
        × ((save credentials []).0 ≡ ok tt)
        × (load (codes "tv") (save credentials []).1 ≡ (
            if text_eq credentials.output_id (codes "tv")
            then some credentials
            else load (codes "tv") [])))
load-save_example = load-save credentials [] (codes "tv") credentials-IsWritable

abbrev stereo : Spec
stereo = record { sample_rate = 44100; channels = 2 }

-- A stream is opened, takes one of two frames, and plays it when it is forced to.
abbrev history : List Event
history =
    opens stereo (ok tt)
    ∷ halts (ok tt)
    ∷ starts through
    ∷ works (ok tt)
    ∷ works (ok tt)
    ∷ writes ((1, 2) ∷ (3, 4) ∷ [])
    ∷ forces_play
    ∷ works (ok tt)
    ∷ works (ok tt)
    ∷ works (ok tt)
    ∷ []

abbrev one_frame : ℕ → ℕ
one_frame rate = 1

history_test :
    (Output.run one_frame history Output.new_output).1
    ≡ prepare_playback_open
      ∷ open_playback_stream (record { sample_rate = 44100; channels = 2; bits_per_sample = 16 })
      ∷ write_playback_pcm (packet_of ((1, 2) ∷ []))
      ∷ []
unfolding Output.run Output.step is_empty Output.wake Output.accepted Output.write Output.pace
    Output.check Output.packet_of
history_test = refl

history-Unwrapped : Unwrapped (watch one_frame history Output.new_output new_log)
unfolding watch Output.step
history-Unwrapped = omega arith

run-new_output-IsBuffer_example :
    (length (Output.run one_frame history Output.new_output).0.pcm_queue
      ≤ (Output.run one_frame history Output.new_output).0.capacity_frames)
    × Fifo
        (in_hand (Output.run one_frame history Output.new_output).0)
        (Output.run one_frame history Output.new_output).0.pcm_queue
        (watch one_frame history Output.new_output new_log)
run-new_output-IsBuffer_example = run-new_output-IsBuffer one_frame history history-Unwrapped

abbrev closing_output : MultiroomOutput
closing_output = record Output.new_output { worker = waiting; host = joining true none }

stop_stream_joins_example :
    ((Output.run one_frame (steps_then_join (ok tt ∷ ok tt ∷ [])) closing_output).0.worker ≡ absent)
    × ((Output.run one_frame (steps_then_join (ok tt ∷ ok tt ∷ [])) closing_output).0.host
        ≡ halting true none)
stop_stream_joins_example =
    stop_stream_joins one_frame (ok tt ∷ ok tt ∷ []) closing_output true none refl refl refl
      (omega arith)

accepted_lem_example :
    Output.accepted ((1, 2) ∷ []) closing_output
    ≡ take (Output.can_write_samples closing_output) ((1, 2) ∷ [])
accepted_lem_example = accepted_lem ((1, 2) ∷ []) closing_output
