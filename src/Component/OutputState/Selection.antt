-- ===== src/Component/OutputState/Selection.antt =====
-- Activating a group stores a selection that the group matches.
use foobar_universal_multiro.Component.OutputState.Stored.{load-IsStored, load-store_fixed}
use foobar_universal_multiro.Base.Int.{pos}
use foobar_universal_multiro.Component.OutputState.Lines.{IsStored, IsPlain}
use foobar_universal_multiro.Device.{OutputDevice}
use foobar_universal_multiro.Core.Groups.{
  SpeakerGroup, speaker_group_contains_persisted_output, speaker_group_matches_persisted_selection,
  output_matches_id,
}
use foobar_universal_multiro.Component.OutputState.{
  StoredOutputState, replace_stored_output_selection, select_for, represents, add_missing,
  load_output_state,
}
use foobar_universal_multiro.Base.{
  Text, All, All-append, Bool, Bool-cases, List, [], all_of, any_of, arith, contains, false, inl,
  inr, is_empty, keep_if, map, refl, text_eq, text_eq_iff, text_eq_refl, true, ◌&&◌, ◌++◌, ◌||◌,
  ◌∷◌, ◌≡◌, ap, if◌then◌else◌, subst, sym,
}

-- The ids of the stored states that are selected, as `active_speaker_group_id` collects them.
abbrev pub selected_of : List StoredOutputState → List Text
selected_of states = map (λ state. state.output_id) (keep_if (λ state. state.selected) states)

module _ (group : SpeakerGroup) (known_outputs : List OutputDevice) where
  abbrev In : Text → Bool
  In id = speaker_group_contains_persisted_output group id known_outputs

  -- An output is known under both ids.
  abbrev linked : Text → Text → Bool
  linked id group_id =
      any_of (λ output. output_matches_id output id && output_matches_id output group_id)
        known_outputs

  abbrev covers : Text → Text → Bool
  covers group_id id = text_eq id group_id || linked id group_id

  -- Exactly the states of members are selected.
  abbrev IsExact : StoredOutputState → Type 0
  IsExact state = In state.output_id ≡ state.selected

  abbrev Covered : List StoredOutputState → Text → Type 0
  Covered states group_id = any_of (covers group_id) (selected_of states) ≡ true

  selected-IsExact :
      (states : List StoredOutputState) → All IsExact (map (select_for group known_outputs) states)
  selected-IsExact [] = tt
  selected-IsExact (state ∷ states) = (refl, selected-IsExact states)

  represented-Covered :
      (group_id : Text) (states : List StoredOutputState)
      → All IsExact states
      → any_of (represents known_outputs group group_id) states ≡ true
      → Covered states group_id
  unfolding any_of keep_if
  represented-Covered group_id [] x h = cc
  represented-Covered group_id (state ∷ states) x h =
      ground (arith, x.0, represented-Covered group_id states x.1)

  Covered-snoc :
      (group_id : Text) (states : List StoredOutputState) (state : StoredOutputState)
      → Covered states group_id
      → Covered (states ++ state ∷ []) group_id
  unfolding any_of keep_if
  Covered-snoc group_id [] state h = cc
  Covered-snoc group_id (first ∷ states) state h =
      ground (arith, Covered-snoc group_id states state)

  snoc-Covered :
      (group_id : Text) (states : List StoredOutputState) (state : StoredOutputState)
      → state.output_id ≡ group_id
      → state.selected ≡ true
      → Covered (states ++ state ∷ []) group_id
  unfolding any_of keep_if
  snoc-Covered group_id [] state e s = ground (arith, s, e, text_eq_iff state.output_id group_id)
  snoc-Covered group_id (first ∷ states) state e s =
      ground (arith, snoc-Covered group_id states state e s)

  -- What the loop over the ids of the group has done.
  abbrev Added : List Text → List StoredOutputState → List StoredOutputState → Type 0
  Added ids before after =
      All IsExact after
      × All (Covered after) ids
      × ((k : Text) → Covered before k → Covered after k)
      × All IsStored after

  -- An id of the group that the setting can keep.
  abbrev IsMember : Text → Type 0
  IsMember id = (In id ≡ true) × IsPlain id × (is_empty id ≡ false)

  added_state-IsStored :
      (id : Text)
      → IsMember id
      → IsStored
          (record { output_id = id; selected = true; volume = pos 50; visible_in_dropdown = true })
  added_state-IsStored id m = record { plain = m.1; named = m.2; in_range = refl }

  add_missing-Added :
      (ids : List Text) (states : List StoredOutputState)
      → All IsMember ids
      → All IsExact states
      → All IsStored states
      → Added ids states (add_missing known_outputs group ids states)
  unfolding add_missing
  add_missing-Added [] states m x s = (x, tt, λ k c. c, s)
  add_missing-Added (id ∷ ids) states m x s =
      let new : StoredOutputState = record {
        output_id = id;
        selected = true;
        volume = pos 50;
        visible_in_dropdown = true;
      } in
      let step = λ (b : Bool).
        add_missing known_outputs group ids (if b then states else states ++ new ∷ []) in
      elim (Bool-cases (any_of (represents known_outputs group id) states)) [
        | inl e ↦
            let (exact, covered, kept, stored) = add_missing-Added ids states m.1 x s in
            subst (Added (id ∷ ids) states) (sym (ap step e))
              (exact, (kept id (represented-Covered id states x e), covered), kept, stored)
        | inr e ↦
            let (exact, covered, kept, stored) =
              add_missing-Added ids (states ++ new ∷ []) m.1
                (All-append IsExact states (new ∷ []) x (m.0.0, tt))
                (All-append IsStored states (new ∷ []) s (added_state-IsStored id m.0, tt)) in
            subst (Added (id ∷ ids) states) (sym (ap step e)) (
              exact,
              (kept id (snoc-Covered id states new refl refl), covered),
              λ k c. kept k (Covered-snoc k states new c),
              stored,
            )
      ]

  select_for-IsStored :
      (states : List StoredOutputState)
      → All IsStored states
      → All IsStored (map (select_for group known_outputs) states)
  select_for-IsStored [] h = tt
  select_for-IsStored (state ∷ states) h = (
    record { plain = h.0.plain; named = h.0.named; in_range = h.0.in_range },
    select_for-IsStored states h.1,
  )

  selected-In :
      (states : List StoredOutputState) → All IsExact states → all_of In (selected_of states) ≡ true
  unfolding all_of keep_if
  selected-In [] x = refl
  selected-In (state ∷ states) x = ground (arith, x.0, selected-In states x.1)

  all_of-Covered :
      (ids : List Text) (states : List StoredOutputState)
      → All (Covered states) ids
      → all_of (λ id. any_of (covers id) (selected_of states)) ids ≡ true
  unfolding all_of
  all_of-Covered [] states c = refl
  all_of-Covered (id ∷ ids) states c = ground (arith, c.0, all_of-Covered ids states c.1)

  Covered-ne-nil :
      (id : Text) (selected : List Text)
      → any_of (covers id) selected ≡ true
      → is_empty selected ≡ false
  unfolding any_of is_empty
  Covered-ne-nil id [] c = cc
  Covered-ne-nil id (s ∷ selected) c = refl

  some_Covered :
      (ids : List Text) (states : List StoredOutputState)
      → is_empty ids ≡ false
      → All (Covered states) ids
      → is_empty (selected_of states) ≡ false
  unfolding is_empty
  some_Covered [] states n c = cc
  some_Covered (id ∷ ids) states n c =
      unfold any_of keep_if in Covered-ne-nil id (selected_of states) c.0

member_In :
    (group : SpeakerGroup) (known_outputs : List OutputDevice) (id : Text)
    → contains group.output_ids id ≡ true
    → speaker_group_contains_persisted_output group id known_outputs ≡ true
unfolding speaker_group_contains_persisted_output
member_In group known_outputs id h = rw h

members_In :
    (group : SpeakerGroup) (known_outputs : List OutputDevice) (ids : List Text)
    → ((id : Text) → contains ids id ≡ true → contains group.output_ids id ≡ true)
    → All (λ id. IsPlain id × (is_empty id ≡ false)) ids
    → All (IsMember group known_outputs) ids
unfolding contains
members_In group known_outputs [] sub h = tt
members_In group known_outputs (id ∷ ids) sub h = (
  (member_In group known_outputs id (sub id (ground (arith, text_eq_refl id))), h.0.0, h.0.1),
  members_In group known_outputs ids (λ k c. sub k (ground (arith, c))) h.1,
)

-- After a group with an output, whose ids a field can hold, has replaced the stored selection, the group matches the
-- selection that is loaded: `active_speaker_group_id` counts it as active, whatever was stored before.
pub replace_stored-matches :
    (group : SpeakerGroup) (known_outputs : List OutputDevice) (cfg : Text)
    → is_empty group.output_ids ≡ false
    → All (λ id. IsPlain id × (is_empty id ≡ false)) group.output_ids
    → speaker_group_matches_persisted_selection group
        (selected_of (load_output_state (replace_stored_output_selection group known_outputs cfg)))
        known_outputs
      ≡ true
unfolding replace_stored_output_selection speaker_group_matches_persisted_selection
replace_stored-matches group known_outputs cfg some_ids plain =
    let chosen = map (select_for group known_outputs) (load_output_state cfg) in
    let (exact, covered, _, stored) =
      add_missing-Added group known_outputs group.output_ids chosen
        (members_In group known_outputs group.output_ids (λ k c. c) plain)
        (selected-IsExact group known_outputs (load_output_state cfg))
        (select_for-IsStored group known_outputs (load_output_state cfg) (load-IsStored cfg)) in
    let states = add_missing known_outputs group group.output_ids chosen in
    rw (load-store_fixed states stored) (
      ground (
        arith,
        some_Covered group known_outputs group.output_ids states some_ids covered,
        selected-In group known_outputs states exact,
        all_of-Covered group known_outputs group.output_ids states covered,
      ))
