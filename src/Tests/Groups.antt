-- ===== src/Tests/Groups.antt =====
-- core/speaker_groups.cpp on two groups and two outputs.
use mathlib.Core.List.{Perm}
use foobar_universal_multiro.Core.Groups.Match.{
  speaker_group_matches_persisted_selection_iff, selected_ids, speaker_group_matches_selection_iff,
}
use foobar_universal_multiro.Core.Groups.Resolve.{is_member, resolve_speaker_group_output_ids_exact}
use foobar_universal_multiro.Core.Groups.RoundTrip.{unique_onto, is_complete, deserialize-serialize}
use foobar_universal_multiro.Core.Groups.Stored.{
  IsStored, deserialize_stable, ids, deserialize-IsStored,
}
use foobar_universal_multiro.Device.{OutputDevice, default_output}
use foobar_universal_multiro.Core.Groups.{
  SpeakerGroup, serialize_speaker_groups, deserialize_speaker_groups, normalize_speaker_group,
  resolve_speaker_group_output_ids, speaker_group_matches_selection,
  speaker_group_matches_persisted_selection,
}
use foobar_universal_multiro.Base.{
  All, Distinct, List, Text, [], any_of, arith, codes, contains, keep_if, map, text_eq, true, ◌&&◌,
  ◌↔◌, ◌∷◌, ◌≡◌, ◌≢◌,
}

abbrev kitchen : SpeakerGroup
kitchen = record {
  id = codes " kitchen";
  name = codes "Kitchen|1";
  output_ids = codes "a" ∷ codes " a " ∷ codes "" ∷ codes "b," ∷ [];
}

abbrev empty_group : SpeakerGroup
empty_group = record { id = codes "empty"; name = codes "Empty"; output_ids = [] }

abbrev groups : List SpeakerGroup
groups = kitchen ∷ empty_group ∷ kitchen ∷ []

abbrev speaker : OutputDevice
speaker = record default_output {
  id = codes "airplay:1";
  name = codes "One";
  aliases = codes "a" ∷ [];
  selected = true;
}

abbrev other_speaker : OutputDevice
other_speaker = record default_output { id = codes "airplay:2"; name = codes "Two" }

abbrev outputs : List OutputDevice
outputs = speaker ∷ other_speaker ∷ []

abbrev kitchen_line : Text
kitchen_line = codes "v1|6b|4B|61,62\nv1|6b|4b|63\nv2|junk\nv1|6|4b|61"

deserialize-serialize_example :
    deserialize_speaker_groups (serialize_speaker_groups groups)
    ≡ unique_onto [] (keep_if is_complete (map normalize_speaker_group groups))
deserialize-serialize_example = deserialize-serialize groups (ground arith)

deserialize_stable_example :
    deserialize_speaker_groups (serialize_speaker_groups (deserialize_speaker_groups kitchen_line))
    ≡ deserialize_speaker_groups kitchen_line
deserialize_stable_example = deserialize_stable kitchen_line

deserialize-IsStored_example :
    All IsStored (deserialize_speaker_groups kitchen_line)
    × Distinct (ids (deserialize_speaker_groups kitchen_line))
deserialize-IsStored_example = deserialize-IsStored kitchen_line

resolve_example :
    Distinct (resolve_speaker_group_output_ids kitchen outputs)
    × ((k : Text)
        → contains (resolve_speaker_group_output_ids kitchen outputs) k
          ≡ any_of (λ output. text_eq output.id k && is_member kitchen output) outputs)
resolve_example = resolve_speaker_group_output_ids_exact kitchen outputs

matches_selection_example : (speaker_group_matches_selection kitchen outputs ≡ true) ↔ (
    (resolve_speaker_group_output_ids kitchen outputs ≢ [])
    × Perm (selected_ids outputs) (resolve_speaker_group_output_ids kitchen outputs))
matches_selection_example = speaker_group_matches_selection_iff kitchen outputs

matches_persisted_example :
    (speaker_group_matches_persisted_selection kitchen (codes "a" ∷ []) [] ≡ true) ↔ (
      ((codes "a" ∷ []) ≢ [])
      × ((k : Text) → contains (codes "a" ∷ []) k ≡ contains kitchen.output_ids k))
matches_persisted_example = speaker_group_matches_persisted_selection_iff kitchen (codes "a" ∷ [])
