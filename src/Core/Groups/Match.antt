-- ===== src/Core/Groups/Match.antt =====
-- The comparisons of a group with a selection.
use mathlib.Core.Path.{fun_ext}
use foobar_universal_multiro.Device.{OutputDevice}
use foobar_universal_multiro.Base.{
  Bool-cases, List, Text, [], all_of, arith, contains, inl, inr, is_empty-cases, keep_if, map, refl,
  text_eq, text_eq_iff, text_eq_refl, true, ◌↔◌, ◌∷◌, ◌≡◌, ◌≢◌, Bool, any_of, false, find_if,
  is_empty, not, sym, ◌&&◌, ◌||◌, ◌∙◌,
}
use mathlib.Core.List.{Perm}
use foobar_universal_multiro.Base.Sort.{sort, texts_eq_iff, sort-eq_iff}
use foobar_universal_multiro.Core.Groups.{
  SpeakerGroup, resolve_speaker_group_output_ids, speaker_group_matches_selection,
  speaker_group_contains_persisted_output, output_matches_id,
  speaker_group_matches_persisted_selection,
}

abbrev pub selected_ids : List OutputDevice → List Text
selected_ids outputs = map (λ output. output.id) (keep_if (λ output. output.selected) outputs)

-- A group matches the current selection exactly if it resolves to some output, and the ids of the selected
-- outputs are those that it resolves to, in any order but each as often.
pub speaker_group_matches_selection_iff :
    (group : SpeakerGroup) (outputs : List OutputDevice)
    → (speaker_group_matches_selection group outputs ≡ true) ↔ (
        (resolve_speaker_group_output_ids group outputs ≢ [])
        × Perm (selected_ids outputs) (resolve_speaker_group_output_ids group outputs))
unfolding speaker_group_matches_selection
speaker_group_matches_selection_iff group outputs =
    let expected = resolve_speaker_group_output_ids group outputs in
    let selected = selected_ids outputs in
    elim (is_empty-cases expected) [
      | inl (e, none_) ↦ (λ h. absurd (ground (arith, none_, h)), λ p. absurd (p.0 e))
      | inr (ne, some_) ↦ (
        λ h. (
          ne,
          (sort-eq_iff selected expected).0
              ((texts_eq_iff (sort selected) (sort expected)).0 (ground (arith, some_, h))),
        ),
        λ p. rw some_ (
            (texts_eq_iff (sort selected) (sort expected)).1
              ((sort-eq_iff selected expected).1 p.1)),
      )
    ]

all_of-contains :
    (xs ys : List Text)
    → (all_of (λ x. contains ys x) xs ≡ true)
      ↔ ((k : Text) → contains xs k ≡ true → contains ys k ≡ true)
unfolding all_of contains
all_of-contains [] ys = (λ h k m. cc, λ h. refl)
all_of-contains (x ∷ xs) ys = (
  λ h k m. elim (Bool-cases (text_eq x k)) [
    | inl same ↦ rw (← (text_eq_iff x k).0 same) (ground (arith, h))
    | inr other ↦ (all_of-contains xs ys).0 (ground (arith, h)) k (ground (arith, m, other))
  ],
  λ h.
      let first : contains ys x ≡ true = h x (ground (arith, text_eq_refl x)) in
      let rest = (all_of-contains xs ys).1 (λ k m. h k (ground (arith, m))) in
      ground (arith, first, rest),
)

contains_no_outputs :
    (group : SpeakerGroup) (k : Text)
    → speaker_group_contains_persisted_output group k [] ≡ contains group.output_ids k
unfolding speaker_group_contains_persisted_output find_if
contains_no_outputs group k = ground arith

any_of-text_eq :
    (xs : List Text) (k : Text)
    → any_of
        (λ x.
          text_eq x k
          || any_of (λ output. output_matches_id output x && output_matches_id output k) [])
        xs
      ≡ contains xs k
unfolding any_of contains
any_of-text_eq [] k = refl
any_of-text_eq (x ∷ xs) k = ground (arith, any_of-text_eq xs k)

matches_no_outputs :
    (group : SpeakerGroup) (persisted : List Text)
    → speaker_group_matches_persisted_selection group persisted [] ≡ (
        not (is_empty persisted)
        && all_of (λ k. contains group.output_ids k) persisted
        && all_of (λ k. contains persisted k) group.output_ids)
unfolding speaker_group_matches_persisted_selection
matches_no_outputs group persisted =
    rw (fun_ext (λ k. contains_no_outputs group k), fun_ext (λ k. any_of-text_eq persisted k))
      (ground arith)

same_of_both : (a b : Bool) → (a ≡ true → b ≡ true) → (b ≡ true → a ≡ true) → a ≡ b
same_of_both true true f g = refl
same_of_both true false f g = sym (f refl)
same_of_both false true f g = g refl
same_of_both false false f g = refl

-- Before any output is known, a group matches the stored selection exactly if something is stored and the
-- stored ids and the group's ids are the same set.
pub speaker_group_matches_persisted_selection_iff :
    (group : SpeakerGroup) (persisted : List Text)
    → (speaker_group_matches_persisted_selection group persisted [] ≡ true)
      ↔ ((persisted ≢ []) × ((k : Text) → contains persisted k ≡ contains group.output_ids k))
speaker_group_matches_persisted_selection_iff group persisted =
    let ids = group.output_ids in
    let e = matches_no_outputs group persisted in
    let (in_group, of_group) = all_of-contains persisted ids in
    let (in_stored, of_stored) = all_of-contains ids persisted in
    elim (is_empty-cases persisted) [
      | inl (none_, empty) ↦ (λ h. absurd (ground (arith, e, h, empty)), λ p. absurd (p.0 none_))
      | inr (ne, some_) ↦ (
        λ h. (
          ne,
          λ k.
              same_of_both (contains persisted k) (contains ids k)
                (in_group (ground (arith, e, h, some_)) k)
                (in_stored (ground (arith, e, h, some_)) k),
        ),
        λ p.
            let a = of_group (λ k m. sym (p.1 k) ∙ m) in
            let b = of_stored (λ k m. p.1 k ∙ m) in ground (arith, e, some_, a, b),
      )
    ]
