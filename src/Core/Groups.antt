-- ===== src/Core/Groups.antt =====
-- components/foo_out_multiroom_bridge/core/speaker_groups.h and speaker_groups.cpp
pub mod Encoding
pub mod Normal
pub mod Line
pub mod RoundTrip
pub mod Stored
pub mod Resolve
pub mod Match
use foobar_universal_multiro.Base.Sort.{texts_eq, sort}
use foobar_universal_multiro.Core.Groups.Encoding.{trim_ascii, hex_encode, hex_decode, split}
use foobar_universal_multiro.Device.{OutputDevice}
use foobar_universal_multiro.Base.{
  Bool, List, Option, Text, [], all_of, any_of, codes, contains, false, find_if, if◌then◌else◌,
  is_empty, keep_if, map, none, not, some, text_eq, true, ◌&&◌, ◌++◌, ◌||◌, ◌∷◌,
}

pub record SpeakerGroup : Type 0 where
  pub id : Text
  pub name : Text
  pub output_ids : List Text

unfoldable pub output_matches_id : OutputDevice → Text → Bool
output_matches_id output id = text_eq output.id id || contains output.aliases id

-- The loop over the ids; `kept` is `normalized_ids`.
pub normalize_ids : List Text → List Text → List Text
normalize_ids kept [] = kept
normalize_ids kept (id ∷ ids) =
    let trimmed = trim_ascii id in
    normalize_ids (if is_empty trimmed || contains kept trimmed then kept else kept ++ trimmed ∷ [])
      ids

unfoldable pub normalize_speaker_group : SpeakerGroup → SpeakerGroup
unfolding normalize_ids
normalize_speaker_group group = record {
  id = trim_ascii group.id;
  name = trim_ascii group.name;
  output_ids = normalize_ids [] group.output_ids;
}

-- `group.id.empty() || group.name.empty() || group.output_ids.empty()`
pub is_incomplete : SpeakerGroup → Bool
is_incomplete group = is_empty group.id || is_empty group.name || is_empty group.output_ids

-- The encoded ids with commas between them.
pub join_encoded : List Text → Text
join_encoded [] = []
join_encoded (id ∷ []) = hex_encode id
join_encoded (id ∷ next ∷ ids) = hex_encode id ++ b',' ∷ join_encoded (next ∷ ids)

-- One line, without its end.
pub serialize_line : SpeakerGroup → Text
unfolding join_encoded
serialize_line group =
    codes "v1|"
    ++ (hex_encode group.id
        ++ b'|' ∷ (hex_encode group.name ++ b'|' ∷ join_encoded group.output_ids))

unfoldable pub serialize_speaker_groups : List SpeakerGroup → Text
serialize_speaker_groups [] = []
serialize_speaker_groups (g ∷ groups) =
    let group = normalize_speaker_group g in
    let rest = serialize_speaker_groups groups in
    if is_incomplete group then rest else serialize_line group ++ b'\n' ∷ rest

-- The loop over the encoded ids: an id that does not decode clears the list and ends the loop.
pub decode_ids : List Text → List Text → List Text
decode_ids decoded [] = decoded
decode_ids decoded (encoded_id ∷ ids) = elim (hex_decode encoded_id) [
  | none ↦ []
  | some id ↦ decode_ids (decoded ++ id ∷ []) ids
]

-- `fields` of a line that is not skipped.
unfoldable pub decode_fields : List Text → Option SpeakerGroup
unfolding decode_ids normalize_speaker_group
decode_fields (version ∷ id ∷ name ∷ output_ids ∷ []) =
    if text_eq version (codes "v1")
    then elim (hex_decode id) [
      | none ↦ none
      | some i ↦ elim (hex_decode name) [
        | none ↦ none
        | some n ↦ some (
            normalize_speaker_group
              (record { id = i; name = n; output_ids = decode_ids [] (split b',' output_ids) }))
      ]
    ]
    else none
decode_fields _ = none

-- A decoded group is stored, unless it is incomplete or its id is there.
unfoldable pub add_group : List SpeakerGroup → Option SpeakerGroup → List SpeakerGroup
unfolding is_incomplete
add_group result none = result
add_group result (some group) =
    if is_incomplete group || any_of (λ existing. text_eq existing.id group.id) result
    then result
    else result ++ group ∷ []

unfoldable pub deserialize_lines : List SpeakerGroup → List Text → List SpeakerGroup
deserialize_lines result [] = result
deserialize_lines result (line ∷ lines) =
    deserialize_lines (add_group result (decode_fields (split b'|' line))) lines

unfoldable pub deserialize_speaker_groups : Text → List SpeakerGroup
deserialize_speaker_groups text = deserialize_lines [] (split b'\n' text)

-- The loop over the outputs; `result` is the vector that is returned.
pub resolve_onto : SpeakerGroup → List Text → List OutputDevice → List Text
unfolding output_matches_id
resolve_onto group result [] = result
resolve_onto group result (output ∷ outputs) =
    let member = any_of (λ id. output_matches_id output id) group.output_ids in
    resolve_onto group
      (if member && not (contains result output.id) then result ++ output.id ∷ [] else result)
      outputs

pub resolve_speaker_group_output_ids : SpeakerGroup → List OutputDevice → List Text
unfolding resolve_onto
resolve_speaker_group_output_ids group outputs = resolve_onto group [] outputs

unfoldable pub speaker_group_contains_persisted_output :
    SpeakerGroup → Text → List OutputDevice → Bool
unfolding output_matches_id
speaker_group_contains_persisted_output group persisted_output_id known_outputs =
    if contains group.output_ids persisted_output_id
    then true
    else elim (find_if (λ candidate. output_matches_id candidate persisted_output_id)
        known_outputs) [
          | none ↦ false
          | some output ↦ any_of (λ group_id. output_matches_id output group_id) group.output_ids
        ]

unfoldable pub speaker_group_matches_persisted_selection :
    SpeakerGroup → List Text → List OutputDevice → Bool
unfolding speaker_group_contains_persisted_output
speaker_group_matches_persisted_selection group persisted_selected_ids known_outputs =
    if is_empty persisted_selected_ids
    then false
    else if not (
        all_of
          (λ persisted_id. speaker_group_contains_persisted_output group persisted_id known_outputs)
          persisted_selected_ids)
    then false
    else all_of
        (λ group_id.
          any_of
            (λ persisted_id.
              text_eq persisted_id group_id
              || any_of
                  (λ output.
                    output_matches_id output persisted_id && output_matches_id output group_id)
                  known_outputs)
            persisted_selected_ids)
        group.output_ids

pub speaker_group_matches_selection : SpeakerGroup → List OutputDevice → Bool
unfolding resolve_speaker_group_output_ids
speaker_group_matches_selection group outputs =
    let expected = resolve_speaker_group_output_ids group outputs in
    let selected = map (λ output. output.id) (keep_if (λ output. output.selected) outputs) in
    if is_empty expected then false else texts_eq (sort selected) (sort expected)
