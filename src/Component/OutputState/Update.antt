-- ===== src/Component/OutputState/Update.antt =====
-- What storing one output does to the setting, and that the settings of an output survive a restart.
use foobar_universal_multiro.Component.OutputState.Stored.{load-store_fixed, load-IsStored}
use foobar_universal_multiro.Component.OutputState.Lines.{IsPlain, IsStored, clamp_percent_idem}
use foobar_universal_multiro.Device.{OutputDevice}
use foobar_universal_multiro.Component.OutputState.{
  StoredOutputState, put_state, state_of, update_stored_output_state, apply_one, apply_each,
  stored_for, apply_stored_output_state, load_output_state, with_state,
}
use foobar_universal_multiro.Base.{
  Text, All, All-keep_if, Bool-cases, List, Option, Option-cases, [], ap, arith, contains,
  contains_eq, false, find_if, if◌then◌else◌, inl, inr, is_empty, keep_if, map, none, not, refl,
  some, text_eq, text_eq_iff, text_eq_refl, true, ◌∙◌, ◌∷◌, ◌≡◌,
}

-- The state that is stored under an id.
abbrev pub state_under : Text → List StoredOutputState → Option StoredOutputState
state_under id states = find_if (λ state. text_eq state.output_id id) states

-- An id that the setting can keep.
abbrev pub IsStorable : OutputDevice → Type 0
IsStorable output = IsPlain output.id × (is_empty output.id ≡ false)

state_under-put_state :
    (k : Text) (updated : StoredOutputState) (states : List StoredOutputState)
    → state_under k (put_state updated states)
      ≡ (if text_eq updated.output_id k then some updated else state_under k states)
unfolding put_state find_if
state_under-put_state k updated [] = refl
state_under-put_state k updated (state ∷ states) = ground (
  arith,
  state_under-put_state k updated states,
  text_eq_iff state.output_id updated.output_id,
  text_eq_iff state.output_id k,
  text_eq_iff updated.output_id k,
)

abbrev without : List Text → List StoredOutputState → List StoredOutputState
without aliases states = keep_if (λ state. not (contains aliases state.output_id)) states

state_under-without :
    (k : Text) (aliases : List Text) (states : List StoredOutputState)
    → state_under k (without aliases states)
      ≡ (if contains aliases k then none else state_under k states)
unfolding keep_if find_if
state_under-without k aliases [] = ground arith
state_under-without k aliases (state ∷ states) =
    ground (arith, state_under-without k aliases states, contains_eq aliases state.output_id k)

put_state-IsStored :
    (updated : StoredOutputState) (states : List StoredOutputState)
    → IsStored updated
    → All IsStored states
    → All IsStored (put_state updated states)
unfolding put_state
put_state-IsStored updated [] u h = (u, tt)
put_state-IsStored updated (state ∷ states) u h =
    elim (Bool-cases (text_eq state.output_id updated.output_id)) [
      | inl e ↦ rw e (u, h.1)
      | inr e ↦ rw e (h.0, put_state-IsStored updated states u h.1)
    ]

state_of-IsStored : (output : OutputDevice) → IsStorable output → IsStored (state_of output)
unfolding state_of
state_of-IsStored output (p, named) = record {
  plain = p;
  named = named;
  in_range = clamp_percent_idem output.volume;
}

pub load-update :
    (output : OutputDevice) (cfg : Text)
    → IsStorable output
    → load_output_state (update_stored_output_state output cfg)
      ≡ put_state (state_of output) (without output.aliases (load_output_state cfg))
unfolding update_stored_output_state
load-update output cfg s = load-store_fixed _ (
    put_state-IsStored (state_of output) _ (state_of-IsStored output s)
      (All-keep_if IsStored _ (load_output_state cfg) (load-IsStored cfg)))

-- Storing an output with an id that a field can hold: under the id its settings are loaded afterwards, with the
-- volume clamped to 0 to 100; under an alias of it nothing; under any other id what was loaded before.
pub update_stored_output_state_lem :
    (output : OutputDevice) (cfg k : Text)
    → IsStorable output
    → state_under k (load_output_state (update_stored_output_state output cfg)) ≡ (
        if text_eq output.id k
        then some (state_of output)
        else if contains output.aliases k
        then none
        else state_under k (load_output_state cfg))
update_stored_output_state_lem output cfg k s =
    ap (state_under k) (load-update output cfg s)
    ∙ state_under-put_state k (state_of output) (without output.aliases (load_output_state cfg))
    ∙ unfold state_of in
      ground (arith, state_under-without k output.aliases (load_output_state cfg))

-- A discovered output with the settings that are stored for it.
abbrev pub with_stored : Option StoredOutputState → OutputDevice → OutputDevice
with_stored none output = output
with_stored (some state) output = with_state state output

abbrev pub restored : List StoredOutputState → OutputDevice → OutputDevice
restored states output = with_stored (stored_for output states) output

apply_one-restored :
    (states : List StoredOutputState) (output : OutputDevice) (cfg : Text)
    → (apply_one states output cfg).0 ≡ restored states output
unfolding apply_one
apply_one-restored states output cfg = elim (Option-cases (stored_for output states)) [
  | inl e ↦ ground (arith, e)
  | inr (state, e) ↦ ground (arith, e)
]

apply_each-restored :
    (states : List StoredOutputState) (outputs : List OutputDevice) (cfg : Text)
    → (apply_each states outputs cfg).0 ≡ map (restored states) outputs
unfolding apply_each
apply_each-restored states [] cfg = refl
apply_each-restored states (output ∷ outputs) cfg =
    ap (λ o. o ∷ (apply_each states outputs (apply_one states output cfg).1).0)
      (apply_one-restored states output cfg)
    ∙ ap (◌∷◌ (restored states output))
        (apply_each-restored states outputs (apply_one states output cfg).1)

-- The device that is discovered is the stored output: it has its id, and no alias that the output had not.
abbrev pub SameDevice : OutputDevice → OutputDevice → Type 0
SameDevice output device =
    (device.id ≡ output.id)
    × ((k : Text) → contains device.aliases k ≡ true → contains output.aliases k ≡ true)

stored_for-without :
    (device : OutputDevice) (id : Text) (aliases : List Text) (states : List StoredOutputState)
    → device.id ≡ id
    → ((k : Text) → contains device.aliases k ≡ true → contains aliases k ≡ true)
    → stored_for device (without aliases states) ≡ state_under id (without aliases states)
unfolding stored_for keep_if find_if
stored_for-without device id aliases [] e sub = refl
stored_for-without device id aliases (state ∷ states) e sub = ground (
  arith,
  stored_for-without device id aliases states e sub,
  sub state.output_id,
  ap (text_eq state.output_id) e,
)

stored_for-put_state :
    (device : OutputDevice) (updated : StoredOutputState) (aliases : List Text)
    (states : List StoredOutputState)
    → device.id ≡ updated.output_id
    → ((k : Text) → contains device.aliases k ≡ true → contains aliases k ≡ true)
    → stored_for device (put_state updated (without aliases states)) ≡ some updated
unfolding stored_for put_state keep_if find_if
stored_for-put_state device updated aliases [] e sub =
    ground (arith, ap (text_eq updated.output_id) e, text_eq_refl updated.output_id)
stored_for-put_state device updated aliases (state ∷ states) e sub = ground (
  arith,
  stored_for-put_state device updated aliases states e sub,
  sub state.output_id,
  ap (text_eq state.output_id) e,
  ap (text_eq updated.output_id) e,
  text_eq_refl updated.output_id,
)

-- Once an output with an id that a field can hold is stored, whatever the
-- setting held before, the stored settings are applied to each of the devices that a later discovery finds; and
-- to a device with the id of that output, and with no alias that the output did not have when it was stored, they give its
-- selection, its visibility and its volume, clamped to 0 to 100.
pub apply-update_stored :
    (output : OutputDevice) (cfg : Text) (devices : List OutputDevice) (device : OutputDevice)
    → IsStorable output
    → SameDevice output device
    → ((apply_stored_output_state devices (update_stored_output_state output cfg)).0
        ≡ map (restored (load_output_state (update_stored_output_state output cfg))) devices)
      × (restored (load_output_state (update_stored_output_state output cfg)) device
          ≡ with_state (state_of output) device)
unfolding apply_stored_output_state
apply-update_stored output cfg devices device s same = (
  apply_each-restored _ devices _,
  ap (λ states. restored states device) (load-update output cfg s)
      ∙ ap (λ o. with_stored o device)
          (stored_for-put_state device (state_of output) output.aliases (load_output_state cfg)
            (unfold state_of in same.0) same.1),
)
