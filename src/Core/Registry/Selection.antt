-- ===== src/Core/Registry/Selection.antt =====
-- `set_enabled_outputs`: all or nothing.
use foobar_universal_multiro.Device.{OutputDevice}
use foobar_universal_multiro.Base.Sort.{contains-set_of, set_of}
use foobar_universal_multiro.Base.Outcome.{Threw, out_of_range, for_each, ok}
use foobar_universal_multiro.Core.Registry.{OutputRegistry}
use foobar_universal_multiro.Base.{
  Bool-cases, List, Option-cases, Text, [], arith, contains, inl, inr, none, refl, some, text_eq,
  text_eq_iff, text_eq_refl, true, ◌∷◌, ◌≡◌, ◌⊎◌,
}
use foobar_universal_multiro.Base.Map
use foobar_universal_multiro.Core.Registry

-- An output of that id is there.
abbrev pub Known : OutputRegistry → Text → Type 0
Known outputs id = (output : OutputDevice) × (Registry.find id outputs ≡ some output)

abbrev pub Unknown : OutputRegistry → List Text → Type 0
Unknown outputs ids = (id : Text) × (contains ids id ≡ true) × (Registry.find id outputs ≡ none)

pub require_each-cases :
    (ids : List Text) (outputs : OutputRegistry)
    → ((Registry.require_each ids outputs ≡ (ok tt, outputs))
        × ((id : Text) → contains ids id ≡ true → Known outputs id))
      ⊎ (Unknown outputs ids
          × Threw out_of_range (Registry.require_each ids outputs).0
          × ((Registry.require_each ids outputs).1 ≡ outputs))
unfolding Registry.require_each Registry.find contains for_each
require_each-cases [] outputs = inl (refl, λ id h. absurd (cc))
require_each-cases (x ∷ xs) outputs = elim (Option-cases (Map.find x outputs)) [
  | inl missing ↦ inr (
    (x, ground (arith, text_eq_refl x), missing),
    ground (arith, missing),
    ground (arith, missing),
  )
  | inr (output, found) ↦ elim (require_each-cases xs outputs) [
    | inl (e, known) ↦ inl (
      ground (arith, e, found),
      λ id h. elim (Bool-cases (text_eq x id)) [
        | inl same ↦ (output, rw (← (text_eq_iff x id).0 same) found)
        | inr other ↦ known id (ground (arith, h, other))
      ],
    )
    | inr ((id, among, missing), thrown, same) ↦ inr (
      (id, ground (arith, among), missing),
      ground (arith, found, thrown),
      ground (arith, found, same),
    )
  ]
]

pub enable_throws :
    (ids : List Text) (outputs : OutputRegistry)
    → Threw out_of_range (Registry.require_each (set_of ids) outputs).0
    → (Registry.require_each (set_of ids) outputs).1 ≡ outputs
    → (Registry.set_enabled_outputs ids outputs).1 ≡ outputs
unfolding Registry.set_enabled_outputs
enable_throws ids outputs thrown same = ground (arith, thrown, same)

-- Either every one of the ids is known, and after the call exactly the outputs with these ids are selected
-- while all else about each output is unchanged; or some id is unknown, and the call throws
-- `out_of_range` with the registry as it was. Repeated ids and their order make no difference.
pub set_enabled_outputs_exact :
    (ids : List Text) (outputs : OutputRegistry)
    → let r = Registry.set_enabled_outputs ids outputs in
      (((id : Text) → contains ids id ≡ true → Known outputs id)
        × (r.0 ≡ ok tt)
        × ((k : Text)
            → Registry.find k r.1 ≡ elim (Registry.find k outputs) [
              | none ↦ none
              | some output ↦ some (record output { selected = contains ids k })
            ]))
      ⊎ (((id : Text) × (contains ids id ≡ true) × (Registry.find id outputs ≡ none))
          × Threw out_of_range r.0
          × (r.1 ≡ outputs))
unfolding Registry.set_enabled_outputs Registry.find
set_enabled_outputs_exact ids outputs = elim (require_each-cases (set_of ids) outputs) [
  | inl (e, known) ↦ inl (
    λ id h. known id (rw (contains-set_of ids id) h),
    ground (arith, e),
    λ k. rw e (Map.find-update_all _ k outputs),
  )
  | inr ((id, among, missing), thrown, same) ↦ inr (
    (id, rw (← contains-set_of ids id) among, missing),
    ground (arith, thrown),
    ground (arith, thrown, same),
  )
]
