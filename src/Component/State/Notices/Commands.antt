-- ===== src/Component/State/Notices/Commands.antt =====
-- multiroom_component_state.cpp, `handle_remote_command`: the recent ids of commands.
use foobar_universal_multiro.AirPlay.Client.{AirPlayRemoteCommandEvent}
use foobar_universal_multiro.Component.State.Shared.{Surroundings, ComponentState}
use foobar_universal_multiro.Component.State.Notices.{drop_front, remember, handle_remote_command}
use foobar_universal_multiro.Base.{
  Bool-cases, Distinct, Distinct-snoc, List, Text, [], arith, contains, contains-append, false,
  if_elim, if◌then◌else◌, inl, inr, is_empty, length, length-append, ltb, none, refl, some,
  text_eq_refl, true, ◌++◌, ◌<◌, ◌∷◌, ◌≡◌, ◌≤◌,
}

-- At most 64 ids are kept, no two of them equal.
abbrev pub AreRecent : List Text → Type 0
AreRecent ids = (length ids ≤ 64) × Distinct ids

drop_front-Distinct : (ids : List Text) → Distinct ids → Distinct (drop_front ids)
drop_front-Distinct [] d = tt
drop_front-Distinct (id ∷ ids) d = d.1

length-drop_front : (ids : List Text) → length ids ≤ 65 → length (drop_front ids) ≤ 64
length-drop_front [] h = omega arith
length-drop_front (id ∷ ids) h = omega arith

contains-snoc : (ids : List Text) (id : Text) → contains (ids ++ id ∷ []) id ≡ true
unfolding contains
contains-snoc ids id = rw (contains-append ids (id ∷ []) id) (ground (arith, text_eq_refl id))

contains-drop_front :
    (ids : List Text) (id : Text)
    → 64 < length (ids ++ id ∷ [])
    → contains (drop_front (ids ++ id ∷ [])) id ≡ true
contains-drop_front [] id h = absurd (omega arith)
contains-drop_front (first ∷ ids) id h = contains-snoc ids id

remember-AreRecent :
    (id : Text) (ids : List Text)
    → AreRecent ids
    → contains ids id ≡ false
    → AreRecent (remember id ids) × (contains (remember id ids) id ≡ true)
unfolding remember
remember-AreRecent id ids (few, distinct) new =
    if_elim (λ more. AreRecent more × (contains more id ≡ true)) (ltb 64 (length (ids ++ id ∷ [])))
      (drop_front (ids ++ id ∷ [])) (ids ++ id ∷ [])
      (λ t. (
        (
          length-drop_front (ids ++ id ∷ []) (omega (arith, length-append ids (id ∷ []))),
          drop_front-Distinct (ids ++ id ∷ []) (Distinct-snoc ids id distinct new),
        ),
        contains-drop_front ids id (ground (arith, t)),
      ))
      (λ f. ((ground (arith, f), Distinct-snoc ids id distinct new), contains-snoc ids id))

module _ (env : Surroundings) where
  open env use {client}
  open client use {State}

  abbrev C : Type 0
  C = ComponentState State

  abbrev recent : C → List Text
  recent c = c.recent_remote_command_ids

  -- While the component is not shutting down, a command with an id is passed to the main thread exactly if its id is none of
  -- the recent ones, which are at most 64 and distinct, and it then is one of them.
  pub handle_remote_command_lem :
      (event : AirPlayRemoteCommandEvent) (c : C)
      → AreRecent c.recent_remote_command_ids
      → c.shutting_down ≡ false
      → is_empty event.command_id ≡ false
      → AreRecent (handle_remote_command env event c).1.recent_remote_command_ids
        × (contains (handle_remote_command env event c).1.recent_remote_command_ids event.command_id
            ≡ true)
        × ((handle_remote_command env event c).0 ≡ (
            if contains c.recent_remote_command_ids event.command_id
            then none
            else some event.command))
  unfolding handle_remote_command
  handle_remote_command_lem event c few running named =
      elim (Bool-cases (contains c.recent_remote_command_ids event.command_id)) [
        | inl t ↦ rw (running, named, t) (few, t, refl)
        | inr f ↦
            rw (running, named, f)
              (let (a, b) = remember-AreRecent event.command_id c.recent_remote_command_ids few f in
                (a, b, refl))
      ]
