-- ===== src/Component/State/Choices.antt =====
-- multiroom_component_state.cpp: what the user chooses: outputs, volumes and speaker groups.
pub mod Activation
use foobar_universal_multiro.Base.Throws.{lift}
use foobar_universal_multiro.Component.Fields.{clamp_percent}
use foobar_universal_multiro.Base.Int.{ℤ}
use foobar_universal_multiro.Component.State.Control.{
  schedule_control_update, refresh_outputs, schedule_volume_update,
}
use foobar_universal_multiro.AirPlay.Discovery.Packet.{c_string}
use foobar_universal_multiro.Component.OutputState.{
  update_stored_output_state, replace_stored_output_selection, load_output_state,
}
use foobar_universal_multiro.Core.Groups.{
  SpeakerGroup, deserialize_speaker_groups, normalize_speaker_group,
  resolve_speaker_group_output_ids, speaker_group_matches_persisted_selection,
  serialize_speaker_groups, speaker_group_contains_persisted_output,
}
use foobar_universal_multiro.AirPlay.Discovery.Names.{lower_ascii}
use foobar_universal_multiro.Component.State.Shared.{ComponentState, Surroundings}
use foobar_universal_multiro.Device.{OutputDevice}
use foobar_universal_multiro.Base.{
  Bool, List, Option, Text, [], any_of, codes, contains, false, find_if, if◌then◌else◌, is_empty,
  keep_if, map, none, not, some, text_eq, true, ◌&&◌, ◌++◌, ◌==◌, ◌∷◌, String, ◌||◌,
}
use foobar_universal_multiro.Base.Outcome.{
  M, ◌>>=◌, ◌>>◌, Outcome, throw_if, invalid_argument, pure, raise, modify,
}
use foobar_universal_multiro.Component.OutputState.Selection.{selected_of}

-- The first output of the id is replaced.
unfoldable pub replace_first : OutputDevice → List OutputDevice → List OutputDevice
replace_first updated [] = []
replace_first updated (output ∷ outputs) =
    if text_eq output.id updated.id
    then updated ∷ outputs
    else output ∷ replace_first updated outputs

abbrev find_output : {S : Type 0} → Text → ComponentState S → Option OutputDevice
find_output id c = find_if (λ output. text_eq output.id id) c.cached_outputs

abbrev output_available_for_group : OutputDevice → Bool
output_available_for_group output =
    output.supports_airplay2
    && not (is_empty output.endpoint_host)
    && not (output.endpoint_port == 0)

-- The output is selected if its id is resolved.
abbrev select_in : List Text → OutputDevice → OutputDevice
select_in resolved_ids output = record output { selected = contains resolved_ids output.id }

-- The outputs whose selection changes are stored one after the other.
pub store_changed : List Text → List OutputDevice → Text → Text
store_changed resolved_ids [] cfg = cfg
store_changed resolved_ids (output ∷ outputs) cfg =
    let unchanged =
      if output.selected
      then contains resolved_ids output.id
      else not (contains resolved_ids output.id) in
    store_changed resolved_ids outputs
      (if unchanged then cfg else update_stored_output_state (select_in resolved_ids output) cfg)

abbrev equal_names : Text → Text → Bool
equal_names a b = text_eq (lower_ascii (c_string a)) (lower_ascii (c_string b))

-- `*existing = group`, or `push_back`.
unfoldable pub put_group : SpeakerGroup → List SpeakerGroup → List SpeakerGroup
put_group group [] = group ∷ []
put_group group (existing ∷ groups) =
    if text_eq existing.id group.id then group ∷ groups else existing ∷ put_group group groups

-- What `activate_speaker_group` returns, which workers it starts, and the state that it leaves.
pub record ActivationResult (S : Type 0) : Type 0 where
  pub activated : Bool
  pub starts_control : Bool
  pub starts_refresh : Bool
  pub state : ComponentState S

module _ (env : Surroundings) where
  open env use {client, is_numeric, widen_utf8}
  open client use {State}

  abbrev C : Type 0
  C = ComponentState State

  abbrev pub load_speaker_groups : C → List SpeakerGroup
  load_speaker_groups c = deserialize_speaker_groups (c_string c.cfg_speaker_groups)

  abbrev changed_output : OutputDevice → C → C
  changed_output updated c = record c {
    cached_outputs = replace_first updated c.cached_outputs;
    cfg_airplay_output_state = update_stored_output_state updated c.cfg_airplay_output_state;
    last_error = [];
  }

  -- Whether the control worker is started.
  unfoldable pub toggle_output : Text → C → Bool × C
  toggle_output id c = elim (find_output id c) [
    | none ↦ schedule_control_update env (record c { last_error = [] })
    | some output ↦
        if not output.supports_airplay2
        then (
          false,
          record c {
            last_error = widen_utf8 (codes "AirPlay 2 is required for the multiroom MVP: " ++ id);
          },
        )
        else schedule_control_update env
            (changed_output (record output { selected = not output.selected }) c)
  ]

  unfoldable pub set_output_dropdown_visibility : Text → Bool → C → C
  set_output_dropdown_visibility id visible c = elim (find_output id c) [
    | none ↦ record c { last_error = [] }
    | some output ↦
        if (if output.visible_in_dropdown then visible else not visible)
        then record c { last_error = [] }
        else changed_output (record output { visible_in_dropdown = visible }) c
  ]

  set_output_volume : Text → ℤ → C → Bool × C
  set_output_volume id volume c = elim (find_output id c) [
    | none ↦ (false, record c { last_error = [] })
    | some output ↦
        schedule_volume_update env (output.id ∷ [])
          (changed_output (record output { volume = clamp_percent volume }) c)
  ]

  unfoldable pub set_master_volume_percent : ℤ → C → Bool × C
  set_master_volume_percent volume c =
      schedule_volume_update env
        (if c.discovery_started then map (λ output. output.id) c.cached_outputs else [])
        (record c { master_volume_percent = clamp_percent volume; last_error = [] })

  -- `new_id` is what the system makes as an identifier, or the exception that it cannot.
  unfoldable pub save_speaker_group : Outcome Text → Text → Text → List Text → M C Text
  save_speaker_group new_id id name output_ids c =
      let group =
        normalize_speaker_group (record { id = id; name = name; output_ids = output_ids }) in
      (do
        throw_if (is_empty group.name) invalid_argument
            (codes "Speaker group name cannot be empty.")
        throw_if (is_empty group.output_ids) invalid_argument
            (codes "Select at least one speaker for the group.")
        group_id ← (if is_empty group.id then lift new_id else pure group.id)
        let stored = record group { id = group_id }
        elim (find_if
            (λ output.
              not output.supports_airplay2
              && speaker_group_contains_persisted_output stored output.id c.cached_outputs)
            c.cached_outputs) [
              | none ↦ pure tt
              | some output ↦
                  raise invalid_argument
                    (codes "AirPlay 2 is required for group member: " ++ output.id)
            ]
        throw_if
            (any_of
              (λ existing.
                not (text_eq existing.id stored.id) && equal_names existing.name stored.name)
              (load_speaker_groups c))
            invalid_argument (codes "A speaker group with this name already exists.")
        modify (λ d. record d {
          cfg_speaker_groups =
              c_string (serialize_speaker_groups (put_group stored (load_speaker_groups c)));
        })
        pure stored.id)
        c

  unfoldable pub delete_speaker_group : Text → C → C
  delete_speaker_group id c =
      let groups = load_speaker_groups c in
      if any_of (λ group. text_eq group.id id) groups
      then record c {
        cfg_speaker_groups =
            c_string
              (serialize_speaker_groups (keep_if (λ group. not (text_eq group.id id)) groups));
      }
      else c

  -- The choice of a group that was found.
  abbrev pub chosen : SpeakerGroup → List Text → C → C
  chosen group resolved_ids c =
      let outputs = map (select_in resolved_ids) c.cached_outputs in
      record c {
        cached_outputs = outputs;
        cfg_airplay_output_state =
            replace_stored_output_selection group outputs
              (store_changed resolved_ids c.cached_outputs c.cfg_airplay_output_state);
        last_error = [];
      }

  abbrev pub resolved_for : SpeakerGroup → C → List Text
  resolved_for group c =
      resolve_speaker_group_output_ids group (keep_if output_available_for_group c.cached_outputs)

  -- A refresh runs, or waits for the stream to stop.
  abbrev pub refresh_in_progress : C → Bool
  refresh_in_progress c = c.refresh_in_progress || c.refresh_deferred_until_stop

  -- With no member available, and no refresh under way or deferred, the outputs are looked for.
  pub with_refresh : Bool → Bool × C → ActivationResult State
  with_refresh none_available (starts, c) =
      if none_available && not (refresh_in_progress c)
      then record {
        activated = true;
        starts_control = starts;
        starts_refresh = (refresh_outputs env c).0;
        state = (refresh_outputs env c).1;
      }
      else record { activated = true; starts_control = starts; starts_refresh = false; state = c }

  pub activate_speaker_group : Text → C → ActivationResult State
  activate_speaker_group id c =
      elim (find_if (λ group. text_eq group.id id) (load_speaker_groups c)) [
        | none ↦ record {
          activated = false;
          starts_control = false;
          starts_refresh = false;
          state = record c { last_error = widen_utf8 (codes "Speaker group no longer exists.") };
        }
        | some group ↦
            with_refresh (is_empty (resolved_for group c))
              (schedule_control_update env (chosen group (resolved_for group c) c))
      ]

  -- Whether the stored selection is that of the group.
  abbrev pub is_active_group : C → SpeakerGroup → Bool
  is_active_group c group =
      speaker_group_matches_persisted_selection group
        (selected_of (load_output_state c.cfg_airplay_output_state)) c.cached_outputs

  pub active_speaker_group_id : C → Text
  active_speaker_group_id c = elim (find_if (is_active_group c) (load_speaker_groups c)) [
    | none ↦ []
    | some group ↦ group.id
  ]
