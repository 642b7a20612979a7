-- ===== src/Component/OutputState.antt =====
-- multiroom_component_state.cpp: what the component stores of each output, in `cfg_airplay_output_state`. Each function
-- that reads and writes it holds `cfg_airplay_output_state_mutex`; the setting is an argument and a result.
pub mod Lines
pub mod Stored
pub mod Update
pub mod Selection
use foobar_universal_multiro.Core.Groups.{
  SpeakerGroup, speaker_group_contains_persisted_output, output_matches_id,
}
use foobar_universal_multiro.Device.{OutputDevice}
use foobar_universal_multiro.AirPlay.Discovery.Packet.{c_string}
use foobar_universal_multiro.Core.Groups.Encoding.{split}
use foobar_universal_multiro.Component.Fields.{
  parse_int_field, split_pipe_fields, print_int, clamp_percent,
}
use foobar_universal_multiro.Base.Int.{ℤ, pos}
use foobar_universal_multiro.Base.{
  Text, Bool, List, Option, [], any_of, codes, contains, find_if, if◌then◌else◌, is_empty, keep_if,
  map, none, not, some, text_eq, true, ◌&&◌, ◌++◌, ◌||◌, ◌∷◌,
}

pub record StoredOutputState : Type 0 where
  pub output_id : Text
  pub selected : Bool
  pub volume : ℤ
  pub visible_in_dropdown : Bool

-- The fields behind the id, and whether a fourth field says that the output is hidden.
pub read_state : Text → Text → Text → Bool → Option StoredOutputState
unfolding parse_int_field
read_state output_id selected volume visible =
    if is_empty output_id then none else elim (parse_int_field volume) [
      | none ↦ none
      | some parsed ↦ some (record {
        output_id = output_id;
        selected = text_eq selected (codes "1");
        volume = clamp_percent parsed;
        visible_in_dropdown = visible;
      })
    ]

-- The body of the loop over the lines; `none` skips the line.
pub parse_fields : List Text → Option StoredOutputState
unfolding read_state
parse_fields (output_id ∷ selected ∷ volume ∷ []) = read_state output_id selected volume true
parse_fields (output_id ∷ selected ∷ volume ∷ visible ∷ []) =
    read_state output_id selected volume (not (text_eq visible (codes "0")))
parse_fields _ = none

abbrev pub push : Option StoredOutputState → List StoredOutputState → List StoredOutputState
push none states = states
push (some item) states = item ∷ states

pub parse_lines : List Text → List StoredOutputState
unfolding parse_fields split_pipe_fields
parse_lines [] = []
parse_lines (line ∷ lines) = push (parse_fields (split_pipe_fields line)) (parse_lines lines)

unfoldable pub parse_output_state_text : Text → List StoredOutputState
unfolding parse_lines
parse_output_state_text text = parse_lines (split b'\n' text)

abbrev pub flag : Bool → Text
flag b = if b then codes "1" else codes "0"

-- One line, without its end.
unfoldable pub format_line : StoredOutputState → Text
unfolding print_int
format_line state =
    state.output_id
    ++ b'|'
      ∷ (flag state.selected
          ++ b'|'
            ∷ (print_int (clamp_percent state.volume) ++ b'|' ∷ flag state.visible_in_dropdown))

unfoldable pub format_output_state_text : List StoredOutputState → Text
unfolding format_line
format_output_state_text [] = []
format_output_state_text (state ∷ states) =
    let rest = format_output_state_text states in
    if is_empty state.output_id then rest else format_line state ++ b'\n' ∷ rest

-- The setting, read under its lock.
unfoldable pub load_output_state : Text → List StoredOutputState
unfolding c_string parse_output_state_text
load_output_state cfg = parse_output_state_text (c_string cfg)

-- The setting that is written for the states.
abbrev pub store : List StoredOutputState → Text
store states = c_string (format_output_state_text states)

-- `*it = updated` at the first state of the output, or `push_back`.
pub put_state : StoredOutputState → List StoredOutputState → List StoredOutputState
put_state updated [] = updated ∷ []
put_state updated (state ∷ states) =
    if text_eq state.output_id updated.output_id
    then updated ∷ states
    else state ∷ put_state updated states

pub state_of : OutputDevice → StoredOutputState
state_of output = record {
  output_id = output.id;
  selected = output.selected;
  volume = clamp_percent output.volume;
  visible_in_dropdown = output.visible_in_dropdown;
}

unfoldable pub update_stored_output_state : OutputDevice → Text → Text
unfolding load_output_state put_state state_of
update_stored_output_state output cfg = store (
    put_state (state_of output)
      (keep_if (λ state. not (contains output.aliases state.output_id)) (load_output_state cfg)))

-- The state that `find_if` gives for a discovered output: under its id or an alias.
pub stored_for : OutputDevice → List StoredOutputState → Option StoredOutputState
stored_for output states =
    find_if (λ state. text_eq state.output_id output.id || contains output.aliases state.output_id)
      states

pub with_state : StoredOutputState → OutputDevice → OutputDevice
with_state state output = record output {
  selected = state.selected;
  volume = state.volume;
  visible_in_dropdown = state.visible_in_dropdown;
}

-- The body of the loop over the outputs. A state under an alias is stored anew under the id.
pub apply_one : List StoredOutputState → OutputDevice → Text → OutputDevice × Text
unfolding stored_for with_state
apply_one states output cfg = elim (stored_for output states) [
  | none ↦ (output, cfg)
  | some state ↦ (
    with_state state output,
    if text_eq state.output_id output.id
        then cfg
        else update_stored_output_state (with_state state output) cfg,
  )
]

-- `states` is read once, before the loop.
pub apply_each : List StoredOutputState → List OutputDevice → Text → List OutputDevice × Text
unfolding apply_one
apply_each states [] cfg = ([], cfg)
apply_each states (output ∷ outputs) cfg =
    let (applied, cfg') = apply_one states output cfg in
    let (rest, cfg'') = apply_each states outputs cfg' in (applied ∷ rest, cfg'')

unfoldable pub apply_stored_output_state : List OutputDevice → Text → List OutputDevice × Text
unfolding apply_each
apply_stored_output_state outputs cfg = apply_each (load_output_state cfg) outputs cfg

pub has_stored_selected_output : Text → Bool
has_stored_selected_output cfg = any_of (λ state. state.selected) (load_output_state cfg)

-- Whether a stored state stands for the id of a group, `represented` of the source.
abbrev pub represents : List OutputDevice → SpeakerGroup → Text → StoredOutputState → Bool
represents known_outputs group group_id state =
    speaker_group_contains_persisted_output group state.output_id known_outputs
    && (text_eq state.output_id group_id
        || any_of
            (λ output.
              output_matches_id output state.output_id && output_matches_id output group_id)
            known_outputs)

-- The loop over the ids of the group.
pub add_missing :
    List OutputDevice → SpeakerGroup → List Text → List StoredOutputState → List StoredOutputState
add_missing known_outputs group [] states = states
add_missing known_outputs group (group_id ∷ ids) states = add_missing known_outputs group ids (
    if any_of (represents known_outputs group group_id) states
    then states
    else states
      ++ record {
        output_id = group_id;
        selected = true;
        volume = pos 50;
        visible_in_dropdown = true;
      }
        ∷ [])

abbrev pub select_for : SpeakerGroup → List OutputDevice → StoredOutputState → StoredOutputState
select_for group known_outputs state = record state {
  selected = speaker_group_contains_persisted_output group state.output_id known_outputs;
}

unfoldable pub replace_stored_output_selection : SpeakerGroup → List OutputDevice → Text → Text
unfolding add_missing load_output_state
replace_stored_output_selection group known_outputs cfg = store (
    add_missing known_outputs group group.output_ids
      (map (select_for group known_outputs) (load_output_state cfg)))

unfoldable pub selected_ids : List OutputDevice → List Text
selected_ids outputs = map (λ output. output.id) (keep_if (λ output. output.selected) outputs)

-- The body of the loop of `preserve_user_output_state`.
pub preserve_one : List OutputDevice → OutputDevice → OutputDevice
preserve_one previous output =
    elim (find_if
      (λ candidate. text_eq candidate.id output.id || contains output.aliases candidate.id)
      previous) [
        | none ↦ output
        | some it ↦ record output {
          selected = it.selected;
          volume = it.volume;
          offset_ms = it.offset_ms;
          measured_latency_ms = it.measured_latency_ms;
          visible_in_dropdown = it.visible_in_dropdown;
        }
      ]

unfoldable pub preserve_user_output_state :
    List OutputDevice → List OutputDevice → List OutputDevice
unfolding preserve_one
preserve_user_output_state refreshed previous = map (preserve_one previous) refreshed
