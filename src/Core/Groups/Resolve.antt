-- ===== src/Core/Groups/Resolve.antt =====
-- `resolve_speaker_group_output_ids`.
use foobar_universal_multiro.Device.{OutputDevice}
use foobar_universal_multiro.Base.{
  Bool, Bool-cases, Distinct, Distinct-snoc, List, Text, [], any_of, arith, contains,
  contains-append, contains_eq, inl, inr, not, text_eq, text_eq_iff, ◌&&◌, ◌++◌, ◌||◌, ◌∷◌, ◌≡◌,
}
use foobar_universal_multiro.Core.Groups.{
  SpeakerGroup, output_matches_id, resolve_onto, resolve_speaker_group_output_ids,
}

-- The group names the output, by its id or by an alias.
abbrev pub is_member : SpeakerGroup → OutputDevice → Bool
is_member group output = any_of (λ id. output_matches_id output id) group.output_ids

resolve_onto-contains :
    (group : SpeakerGroup) (result : List Text) (outputs : List OutputDevice) (k : Text)
    → contains (resolve_onto group result outputs) k ≡ (
        contains result k
        || any_of (λ output. text_eq output.id k && is_member group output) outputs)
unfolding resolve_onto any_of contains
resolve_onto-contains group result [] k = ground arith
resolve_onto-contains group result (o ∷ outputs) k =
    elim (Bool-cases (is_member group o && not (contains result o.id))) [
      | inl add ↦ rw add (
          rw (resolve_onto-contains group (result ++ o.id ∷ []) outputs k)
            (ground (arith, add, contains-append result (o.id ∷ []) k)))
      | inr skip ↦ rw skip (
          rw (resolve_onto-contains group result outputs k)
            (ground (arith, skip, text_eq_iff o.id k, contains_eq result o.id k)))
    ]

resolve_onto-Distinct :
    (group : SpeakerGroup) (result : List Text) (outputs : List OutputDevice)
    → Distinct result
    → Distinct (resolve_onto group result outputs)
unfolding resolve_onto
resolve_onto-Distinct group result [] d = d
resolve_onto-Distinct group result (o ∷ outputs) d =
    elim (Bool-cases (is_member group o && not (contains result o.id))) [
      | inl add ↦ rw add (
          resolve_onto-Distinct group (result ++ o.id ∷ []) outputs
            (Distinct-snoc result o.id d (ground (arith, add))))
      | inr skip ↦ rw skip (resolve_onto-Distinct group result outputs d)
    ]

-- For every group and every list of outputs, the ids that are returned are all different, and a text is among
-- them exactly if it is the id of an output that the group names by its id or by one of its aliases.
pub resolve_speaker_group_output_ids_exact :
    (group : SpeakerGroup) (outputs : List OutputDevice)
    → let resolved = resolve_speaker_group_output_ids group outputs in
      Distinct resolved
      × ((k : Text)
          → contains resolved k
            ≡ any_of (λ output. text_eq output.id k && is_member group output) outputs)
unfolding resolve_speaker_group_output_ids contains
resolve_speaker_group_output_ids_exact group outputs =
    (resolve_onto-Distinct group [] outputs tt, λ k. resolve_onto-contains group [] outputs k)
