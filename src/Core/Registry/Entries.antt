-- ===== src/Core/Registry/Entries.antt =====
-- What each write of the registry leaves to be found.
use foobar_universal_multiro.Base.Int.{ℤ, clamp_ℤ, pos, negsuc, max_ℤ}
use foobar_universal_multiro.Device.{OutputDevice}
use foobar_universal_multiro.Base.Outcome.{Outcome, Threw, invalid_argument, out_of_range, ok}
use foobar_universal_multiro.Core.Registry.{OutputRegistry, clamped}
use foobar_universal_multiro.Base.{
  List, Option-cases, Text, [], arith, contains, if◌then◌else◌, inl, inr, none, some, text_eq, ◌≡◌,
  ◌≢◌, ◌⊎◌, is_empty-cases,
}
use foobar_universal_multiro.Base.Map
use foobar_universal_multiro.Core.Registry

-- An output with an id is found under it with its volume and its offset clamped, and no other entry
-- changes; without an id the call throws `invalid_argument` and nothing changes.
pub find-upsert :
    (device : OutputDevice) (outputs : OutputRegistry)
    → let r = Registry.upsert device outputs in
      ((device.id ≢ [])
        × (r.0 ≡ ok tt)
        × ((k : Text)
            → Registry.find k r.1
              ≡ (if text_eq device.id k then some (clamped device) else Registry.find k outputs)))
      ⊎ ((device.id ≡ []) × Threw invalid_argument r.0 × (r.1 ≡ outputs))
unfolding Registry.upsert Registry.find
find-upsert device outputs = elim (is_empty-cases device.id) [
  | inl (e, h) ↦ inr (e, ground (arith, h), ground (arith, h))
  | inr (ne, h) ↦ inl (
    ne,
    ground (arith, h),
    λ k. ground (arith, h, Map.find-assign device.id k (clamped device) outputs),
  )
]

-- Whatever the list of ids, `retain` keeps exactly the entries whose key is in it, each as it was.
pub find-retain :
    (ids : List Text) (k : Text) (outputs : OutputRegistry)
    → Registry.find k (Registry.retain ids outputs)
      ≡ (if contains ids k then Registry.find k outputs else none)
unfolding Registry.retain Registry.find
find-retain ids k outputs = Map.find-erase_unless (contains ids) k outputs

-- One entry is known and changes by `f`, and no other; or it is unknown, and nothing changes.
abbrev pub Changes :
    Text
    → (OutputDevice → OutputDevice)
    → OutputRegistry
    → Outcome (Unit {0}) × OutputRegistry
    → Type 0
Changes id f outputs r =
    ((output : OutputDevice) × (Registry.find id outputs ≡ some output)
      × (r.0 ≡ ok tt)
      × ((k : Text)
          → Registry.find k r.1
            ≡ (if text_eq id k then some (f output) else Registry.find k outputs)))
    ⊎ ((Registry.find id outputs ≡ none) × Threw out_of_range r.0 × (r.1 ≡ outputs))

pub change_known :
    (id : Text) (f : OutputDevice → OutputDevice) (outputs : OutputRegistry) (output : OutputDevice)
    → Map.find id outputs ≡ some output
    → Registry.change id f outputs ≡ (ok tt, Map.assign id (f output) outputs)
unfolding Registry.change
change_known id f outputs output e = ground (arith, e)

pub change_unknown :
    (id : Text) (f : OutputDevice → OutputDevice) (outputs : OutputRegistry)
    → Map.find id outputs ≡ none
    → (Registry.change id f outputs).1 ≡ outputs
unfolding Registry.change
change_unknown id f outputs e = ground (arith, e)

change-Changes :
    (id : Text) (f : OutputDevice → OutputDevice) (outputs : OutputRegistry)
    → Changes id f outputs (Registry.change id f outputs)
unfolding Registry.change Registry.find
change-Changes id f outputs = elim (Option-cases (Map.find id outputs)) [
  | inl e ↦ inr (e, ground (arith, e), ground (arith, e))
  | inr (output, e) ↦ inl (
    output,
    e,
    ground (arith, e),
    λ k. ground (arith, e, Map.find-assign id k (f output) outputs),
  )
]

-- Each of the three setters, on a known id, changes that entry alone and only in its field: the volume
-- is clamped to 0..100, the offset to -2000..2000 and the latency is at least 0. On an unknown id it throws
-- `out_of_range` and nothing changes.
pub setters-Changes :
    (id : Text) (v : ℤ) (outputs : OutputRegistry)
    → Changes id
        (λ output. record output { volume = clamp_ℤ v (pos 0) (pos 100) })
        outputs
        (Registry.set_output_volume id v outputs)
      × Changes id
          (λ output. record output { offset_ms = clamp_ℤ v (negsuc 1999) (pos 2000) })
          outputs
          (Registry.set_output_offset_ms id v outputs)
      × Changes id
          (λ output. record output { measured_latency_ms = max_ℤ (pos 0) v })
          outputs
          (Registry.set_measured_latency_ms id v outputs)
unfolding Registry.set_output_volume Registry.set_output_offset_ms Registry.set_measured_latency_ms
setters-Changes id v outputs =
    (change-Changes id _ outputs, change-Changes id _ outputs, change-Changes id _ outputs)
