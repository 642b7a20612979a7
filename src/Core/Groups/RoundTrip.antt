-- ===== src/Core/Groups/RoundTrip.antt =====
-- The stored text of any groups, read back.
use foobar_universal_multiro.Base.{
  All, All-append, Bool, Bool-cases, List, Text, [], any_of, contains, false, if◌then◌else◌, inl,
  inr, is_empty, keep_if, map, not, refl, text_eq, ◌++◌, ◌||◌, ◌∷◌, ◌≡◌, ap, ◌∙◌,
}
use foobar_universal_multiro.Core.Groups.{
  SpeakerGroup, normalize_ids, normalize_speaker_group, is_incomplete, serialize_line,
  serialize_speaker_groups, add_group, deserialize_lines, deserialize_speaker_groups, decode_fields,
}
use foobar_universal_multiro.Core.Groups.Encoding.{trim_ascii, split}
use foobar_universal_multiro.Core.Groups.Encoding.Hex.{IsByte}
use foobar_universal_multiro.Core.Groups.Encoding.Trim.{trim_ascii-All}
use foobar_universal_multiro.Core.Groups.Encoding.Split.{split_cut}
use foobar_universal_multiro.Core.Groups.Line.{
  IsBytes, serialize_line-Lacks, decode_fields-serialize_line,
}
use foobar_universal_multiro.Core.Groups.Normal.{normalize_speaker_group-IsNormal, IsNormal}

normalize_ids-bytes :
    (kept ids : List Text)
    → All (All IsByte) kept
    → All (All IsByte) ids
    → All (All IsByte) (normalize_ids kept ids)
unfolding normalize_ids
normalize_ids-bytes kept [] k h = k
normalize_ids-bytes kept (id ∷ ids) k h =
    elim (Bool-cases (is_empty (trim_ascii id) || contains kept (trim_ascii id))) [
      | inl skip ↦ rw skip (normalize_ids-bytes kept ids k h.1)
      | inr keep ↦ rw keep (
          normalize_ids-bytes (kept ++ trim_ascii id ∷ []) ids
            (All-append (All IsByte) kept (trim_ascii id ∷ []) k (trim_ascii-All IsByte id h.0, tt))
            h.1)
    ]

pub normalize-IsBytes :
    (group : SpeakerGroup) → IsBytes group → IsBytes (normalize_speaker_group group)
unfolding normalize_speaker_group
normalize-IsBytes group b = record {
  id_bytes = trim_ascii-All IsByte group.id b.id_bytes;
  name_bytes = trim_ascii-All IsByte group.name b.name_bytes;
  ids_bytes = normalize_ids-bytes [] group.output_ids tt b.ids_bytes;
}

-- The groups in their order, but of those with one id only the first.
abbrev pub unique_onto : List SpeakerGroup → List SpeakerGroup → List SpeakerGroup
unique_onto result [] = result
unique_onto result (group ∷ groups) =
    unique_onto
      (if any_of (λ existing. text_eq existing.id group.id) result
        then result
        else result ++ group ∷ [])
      groups

abbrev pub is_complete : SpeakerGroup → Bool
is_complete group = not (is_incomplete group)

-- A line that was written adds its group.
add_line :
    (result : List SpeakerGroup) (group : SpeakerGroup)
    → IsNormal group
    → IsBytes group
    → is_incomplete group ≡ false
    → add_group result (decode_fields (split b'|' (serialize_line group))) ≡ (
        if any_of (λ existing. text_eq existing.id group.id) result
        then result
        else result ++ group ∷ [])
unfolding add_group
add_line result group v b h = rw (decode_fields-serialize_line group v b h) (rw h)

deserialize_lines-serialize :
    (result groups : List SpeakerGroup)
    → All IsBytes groups
    → deserialize_lines result (split b'\n' (serialize_speaker_groups groups))
      ≡ unique_onto result (keep_if is_complete (map normalize_speaker_group groups))
unfolding deserialize_lines serialize_speaker_groups keep_if split
deserialize_lines-serialize result [] b = refl
deserialize_lines-serialize result (g ∷ groups) b =
    let group = normalize_speaker_group g in
    elim (Bool-cases (is_incomplete group)) [
      | inl skip ↦ rw skip (deserialize_lines-serialize result groups b.1)
      | inr whole ↦ rw whole (
          ap (deserialize_lines result) (
            split_cut b'\n' (serialize_line group) (serialize_speaker_groups groups)
              (serialize_line-Lacks group))
          ∙ ap (λ r. deserialize_lines r (split b'\n' (serialize_speaker_groups groups)))
              (add_line result group (normalize_speaker_group-IsNormal g) (normalize-IsBytes g b.0)
                whole)
          ∙ deserialize_lines-serialize
              (if any_of (λ existing. text_eq existing.id group.id) result
                then result
                else result ++ group ∷ [])
              groups b.1)
    ]

-- Whatever bytes the groups hold: the text that is stored for them is read back as the groups in
-- normal form, in their order, without those that are left incomplete and, of those with one
-- id, with only the first.
pub deserialize-serialize :
    (groups : List SpeakerGroup)
    → All IsBytes groups
    → deserialize_speaker_groups (serialize_speaker_groups groups)
      ≡ unique_onto [] (keep_if is_complete (map normalize_speaker_group groups))
unfolding deserialize_speaker_groups
deserialize-serialize groups b = deserialize_lines-serialize [] groups b
