-- ===== src/Component/State/Choices/Activation.antt =====
-- multiroom_component_state.cpp: `activate_speaker_group` and `active_speaker_group_id`.
use foobar_universal_multiro.AirPlay.Discovery.Packet.{c_string}
use foobar_universal_multiro.Component.OutputState.Selection.{replace_stored-matches}
use foobar_universal_multiro.Component.OutputState.{replace_stored_output_selection}
use foobar_universal_multiro.Component.OutputState.Lines.{IsPlain}
use foobar_universal_multiro.Component.State.Choices.{
  with_refresh, ActivationResult, activate_speaker_group, active_speaker_group_id,
  load_speaker_groups, is_active_group, chosen, resolved_for, store_changed, refresh_in_progress,
}
use foobar_universal_multiro.Core.Groups.{SpeakerGroup, deserialize_speaker_groups}
use foobar_universal_multiro.Component.State.Control.{schedule_control_update, refresh_outputs}
use foobar_universal_multiro.Component.State.Shared.{ComponentState, Surroundings}
use foobar_universal_multiro.Base.{
  Bool, Bool-cases, List, [], arith, find_if, if_elim, inl, inr, not, refl, some, true, ◌&&◌, ◌∷◌,
  ◌≡◌, All, Text, false, is_empty, text_eq, ◌∙◌, subst, sym, ap, ◌||◌,
}

-- What a request of a worker leaves of the choices.
abbrev SameChoices : {S : Type 0} → ComponentState S → ComponentState S → Type 0
SameChoices c d =
    (d.cached_outputs ≡ c.cached_outputs)
    × (d.cfg_airplay_output_state ≡ c.cfg_airplay_output_state)
    × (d.cfg_speaker_groups ≡ c.cfg_speaker_groups)

-- With one that holds in a list, a search finds one that holds.
find_if-some :
    {A : Type 0} (p q : A → Bool) (xs : List A) (y : A)
    → find_if p xs ≡ some y
    → q y ≡ true
    → (z : A) × (find_if q xs ≡ some z) × (q z ≡ true)
unfolding find_if
find_if-some p q [] y e h = absurd (ground arith)
find_if-some p q (x ∷ xs) y e h = elim (Bool-cases (q x)) [
  | inl t ↦ (x, ground (arith, t), t)
  | inr f ↦ elim (Bool-cases (p x)) [
    | inl t ↦ absurd (ground (arith, t, f))
    | inr g ↦
        let (z, found, holds) = find_if-some p q xs y (ground (arith, g)) h in
        (z, ground (arith, f, found), holds)
  ]
]

module _ (env : Surroundings) where
  open env use {client}
  open client use {State}

  abbrev C : Type 0
  C = ComponentState State

  schedule-SameChoices : (c : C) → SameChoices c (schedule_control_update env c).1
  unfolding schedule_control_update
  schedule-SameChoices c = (ground arith, ground arith, ground arith)

  refresh-SameChoices : (c : C) → SameChoices c (refresh_outputs env c).1
  unfolding refresh_outputs
  refresh-SameChoices c = (ground arith, ground arith, ground arith)

  with_refresh-SameChoices :
      (none_available : Bool) (c : C)
      → ((with_refresh env none_available (schedule_control_update env c)).activated ≡ true)
        × SameChoices c (with_refresh env none_available (schedule_control_update env c)).state
  unfolding with_refresh
  with_refresh-SameChoices none_available c =
      let d = (schedule_control_update env c).1 in
      if_elim (λ (r : ActivationResult State). (r.activated ≡ true) × SameChoices c r.state)
        (none_available && not (refresh_in_progress env d)) _ _
        (λ _.
          let (outputs, states, groups) = schedule-SameChoices c in
          let (outputs', states', groups') = refresh-SameChoices d in
          (refl, (outputs' ∙ outputs, states' ∙ states, groups' ∙ groups)))
        (λ _. (refl, schedule-SameChoices c))

  -- No worker looks for the outputs and none is to, and no stream is in its way.
  abbrev pub free_to_refresh : C → Bool
  free_to_refresh c = not (
      c.refresh_in_progress || c.refresh_deferred_until_stop || c.playback_open
      || c.playback_connecting)

  schedule-free_to_refresh :
      (c : C) → free_to_refresh (schedule_control_update env c).1 ≡ free_to_refresh c
  unfolding schedule_control_update
  schedule-free_to_refresh c = ground arith

  with_refresh-starts :
      (none_available b : Bool) (d : C)
      → (with_refresh env none_available (b, d)).starts_refresh
        ≡ (none_available && free_to_refresh d)
  unfolding with_refresh refresh_outputs
  with_refresh-starts none_available b d = ground arith

  active_id-of :
      (d : C) (z : SpeakerGroup)
      → find_if (is_active_group env d) (load_speaker_groups env d) ≡ some z
      → active_speaker_group_id env d ≡ z.id
  unfolding active_speaker_group_id
  active_id-of d z e = rw (e, active_speaker_group_id) refl

  -- The state holds the choice of the group, over the settings of any text.
  abbrev HoldsChoice : SpeakerGroup → C → Type 0
  HoldsChoice group d =
      (cfg : Text) × (d.cfg_airplay_output_state
        ≡ replace_stored_output_selection group d.cached_outputs cfg)

  holds-active :
      (group : SpeakerGroup) (d : C)
      → HoldsChoice group d
      → is_empty group.output_ids ≡ false
      → All (λ o. IsPlain o × (is_empty o ≡ false)) group.output_ids
      → is_active_group env d group ≡ true
  holds-active group d (cfg, e) some_ids plain =
      rw e (replace_stored-matches group d.cached_outputs cfg some_ids plain)

  abbrev pub Activates : SpeakerGroup → ActivationResult State → Type 0
  Activates group r =
      (r.activated ≡ true)
      × (is_active_group env r.state group ≡ true)
      × ((active : SpeakerGroup) × (is_active_group env r.state active ≡ true)
          × (active_speaker_group_id env r.state ≡ active.id))

  chosen-Activates :
      (id : Text) (c : C) (group : SpeakerGroup) (r : ActivationResult State)
      → find_if (λ g. text_eq g.id id) (load_speaker_groups env c) ≡ some group
      → is_empty group.output_ids ≡ false
      → All (λ o. IsPlain o × (is_empty o ≡ false)) group.output_ids
      → r.activated ≡ true
      → SameChoices (chosen env group (resolved_for env group c) c) r.state
      → Activates group r
  chosen-Activates id c group r found some_ids plain activated (outputs, states, groups) =
      let act =
        holds-active group r.state
          (
            store_changed (resolved_for env group c) c.cached_outputs c.cfg_airplay_output_state,
            rw outputs states,
          )
          some_ids plain in
      let (z, there, holds) =
        find_if-some (λ g. text_eq g.id id) (is_active_group env r.state)
          (load_speaker_groups env c) group found act in
      (
        activated,
        act,
        (
          z,
          holds,
          active_id-of r.state z (
              subst
                (λ t.
                  find_if (is_active_group env r.state) (deserialize_speaker_groups (c_string t))
                  ≡ some z)
                (sym groups) there),
        ),
      )

  activate-found :
      (id : Text) (c : C) (group : SpeakerGroup)
      → find_if (λ g. text_eq g.id id) (load_speaker_groups env c) ≡ some group
      → activate_speaker_group env id c
        ≡ with_refresh env
            (is_empty (resolved_for env group c))
            (schedule_control_update env (chosen env group (resolved_for env group c) c))
  unfolding activate_speaker_group
  activate-found id c group e = rw (e, activate_speaker_group) refl

  -- If the group that is stored under an id has an output, and a field can hold the ids of its outputs, then activating it
  -- succeeds, the stored selection is that of the group, and the active id is the id of a group that the stored selection
  -- is that of. A refresh worker is started exactly if no output of the group is available, none is at work, no refresh is
  -- deferred, and the stream is neither open nor being opened.
  pub activate-active :
      (id : Text) (c : C) (group : SpeakerGroup)
      → find_if (λ g. text_eq g.id id) (load_speaker_groups env c) ≡ some group
      → is_empty group.output_ids ≡ false
      → All (λ o. IsPlain o × (is_empty o ≡ false)) group.output_ids
      → Activates group (activate_speaker_group env id c)
        × ((activate_speaker_group env id c).starts_refresh
            ≡ (is_empty (resolved_for env group c) && free_to_refresh c))
  activate-active id c group found some_ids plain =
      let none_available = is_empty (resolved_for env group c) in
      let d = chosen env group (resolved_for env group c) c in
      let (activated, same) = with_refresh-SameChoices none_available d in
      subst (λ r. Activates group r × (r.starts_refresh ≡ (none_available && free_to_refresh c)))
        (sym (activate-found id c group found))
        (
          chosen-Activates id c group
              (with_refresh env none_available (schedule_control_update env d)) found some_ids plain
              activated same,
          with_refresh-starts none_available (schedule_control_update env d).0
                (schedule_control_update env d).1
              ∙ ap (λ b. none_available && b) (schedule-free_to_refresh d),
        )
