-- ===== src/AirPlay/Discovery/Aliases.antt =====
-- The ids that a device answers to, and what the merge of two devices makes of them.
use foobar_universal_multiro.Device.{OutputDevice}
use foobar_universal_multiro.Base.{
  Bool, List, Text, [], arith, contains, contains-append, is_empty-cases, text_eq, text_eq_refl,
  text_eq_sym, true, ◌||◌, ◌∷◌, ◌≡◌, ◌≢◌, Bool-cases, inl, inr, refl, text_eq_iff, ◌∙◌,
}
use foobar_universal_multiro.AirPlay.Discovery.Identity.{append_alias, append_each, append_aliases}

-- The device has the id, or has it as an alias.
abbrev pub answers_to : Text → OutputDevice → Bool
answers_to id device = text_eq device.id id || contains device.aliases id

pub append_alias-answers_to :
    (device : OutputDevice) (alias id : Text)
    → answers_to id device ≡ true
    → answers_to id (append_alias device alias) ≡ true
unfolding append_alias
append_alias-answers_to device alias id h =
    ground (arith, h, contains-append device.aliases (alias ∷ []) id)

pub append_alias-answers_to_new :
    (device : OutputDevice) (alias : Text)
    → alias ≢ []
    → answers_to alias (append_alias device alias) ≡ true
unfolding append_alias contains
append_alias-answers_to_new device alias h = ground (
  arith,
  contains-append device.aliases (alias ∷ []) alias,
  text_eq_refl alias,
  text_eq_sym alias device.id,
  is_empty-cases alias,
)

pub append_each-answers_to :
    (device : OutputDevice) (aliases : List Text) (id : Text)
    → answers_to id device ≡ true
    → answers_to id (append_each device aliases) ≡ true
unfolding append_each
append_each-answers_to device [] id h = h
append_each-answers_to device (alias ∷ aliases) id h =
    append_each-answers_to (append_alias device alias) aliases id
      (append_alias-answers_to device alias id h)

pub append_each-answers_to_new :
    (device : OutputDevice) (aliases : List Text) (id : Text)
    → id ≢ []
    → contains aliases id ≡ true
    → answers_to id (append_each device aliases) ≡ true
unfolding append_each contains
append_each-answers_to_new device [] id ne h = absurd (cc)
append_each-answers_to_new device (alias ∷ aliases) id ne h = elim (Bool-cases (text_eq alias id)) [
  | inl e ↦
      let same = (text_eq_iff alias id).0 e in
      append_each-answers_to (append_alias device alias) aliases id
        (ground (arith, append_alias-answers_to_new device id ne, same))
  | inr e ↦ append_each-answers_to_new (append_alias device alias) aliases id ne (ground arith)
]

-- The merged device answers to all that either of the two answered to.
pub append_aliases-answers_to :
    (device source : OutputDevice) (id : Text)
    → id ≢ []
    → (answers_to id device || answers_to id source) ≡ true
    → answers_to id (append_aliases device source) ≡ true
unfolding append_aliases
append_aliases-answers_to device source id ne h = elim (Bool-cases (answers_to id device)) [
  | inl e ↦
      append_each-answers_to (append_alias device source.id) source.aliases id
        (append_alias-answers_to device source.id id e)
  | inr e ↦ elim (Bool-cases (text_eq source.id id)) [
    | inl q ↦
        let same = (text_eq_iff source.id id).0 q in
        append_each-answers_to (append_alias device source.id) source.aliases id
          (ground (arith, append_alias-answers_to_new device id ne, same))
    | inr q ↦
        append_each-answers_to_new (append_alias device source.id) source.aliases id ne
          (ground (arith, e, h, q))
  ]
]

pub append_alias-id :
    (device : OutputDevice) (alias : Text) → (append_alias device alias).id ≡ device.id
unfolding append_alias
append_alias-id device alias = ground arith

pub append_each-id :
    (device : OutputDevice) (aliases : List Text) → (append_each device aliases).id ≡ device.id
unfolding append_each
append_each-id device [] = refl
append_each-id device (alias ∷ aliases) =
    append_each-id (append_alias device alias) aliases ∙ append_alias-id device alias
