-- ===== src/Core/Registry/Invariant.antt =====
-- What holds of the registry after any history of calls.
use foobar_universal_multiro.Core.Registry.Entries.{change_unknown, change_known}
use foobar_universal_multiro.Base.Sort.{set_of}
use foobar_universal_multiro.Core.Registry.Selection.{require_each-cases, enable_throws}
use foobar_universal_multiro.Base.Int.{pos, ℤ, clamp_ℤ_bounds, ◌≤ℤ◌, negsuc}
use foobar_universal_multiro.Core.Registry.{OutputRegistry, clamped}
use foobar_universal_multiro.Device.{OutputDevice}
use foobar_universal_multiro.Base.{
  List, Option-cases, Text, [], arith, contains, inl, inr, is_empty-cases, refl, subst, sym, ◌∷◌,
  ◌≡◌, ◌≢◌,
}
use foobar_universal_multiro.Base.Map
use foobar_universal_multiro.Core.Registry

-- An entry stands under its output's id, with the volume and the offset in range.
pub record IsEntry (k : Text) (output : OutputDevice) : Type 0 where
  pub under_id : output.id ≡ k
  pub has_id : k ≢ []
  pub volume_in_range : (pos 0 ≤ℤ output.volume) × (output.volume ≤ℤ pos 100)
  pub offset_in_range : (negsuc 1999 ≤ℤ output.offset_ms) × (output.offset_ms ≤ℤ pos 2000)

pub record IsRegistry (outputs : OutputRegistry) : Type 0 where
  pub ordered : Map.Ordered outputs
  pub entries : Map.Each IsEntry outputs

pub data Call : Type 0 where
  upserts : OutputDevice → Call
  retains enables : List Text → Call
  sets_volume sets_offset sets_latency : Text → ℤ → Call

-- The registry after a call, whether it returns or throws.
unfoldable pub step : Call → OutputRegistry → OutputRegistry
step (upserts device) outputs = (Registry.upsert device outputs).1
step (retains ids) outputs = Registry.retain ids outputs
step (enables ids) outputs = (Registry.set_enabled_outputs ids outputs).1
step (sets_volume id volume) outputs = (Registry.set_output_volume id volume outputs).1
step (sets_offset id offset_ms) outputs = (Registry.set_output_offset_ms id offset_ms outputs).1
step (sets_latency id latency) outputs = (Registry.set_measured_latency_ms id latency outputs).1

pub run : List Call → OutputRegistry → OutputRegistry
run [] outputs = outputs
run (c ∷ cs) outputs = run cs (step c outputs)

pub upsert-IsRegistry :
    (device : OutputDevice) (outputs : OutputRegistry)
    → IsRegistry outputs
    → IsRegistry (Registry.upsert device outputs).1
unfolding Registry.upsert
upsert-IsRegistry device outputs v = elim (is_empty-cases device.id) [
  | inl (_, h) ↦ rw h v
  | inr (ne, h) ↦ rw h (record {
    ordered = Map.assign-Ordered device.id (clamped device) outputs v.ordered;
    entries =
        Map.assign-Each IsEntry device.id (clamped device) outputs
          (record {
            under_id = refl;
            has_id = ne;
            volume_in_range = clamp_ℤ_bounds device.volume (pos 0) (pos 100) (omega arith);
            offset_in_range =
                clamp_ℤ_bounds device.offset_ms (negsuc 1999) (pos 2000) (omega arith);
          })
          v.entries;
  })
]

pub retain-IsRegistry :
    (ids : List Text) (outputs : OutputRegistry)
    → IsRegistry outputs
    → IsRegistry (Registry.retain ids outputs)
unfolding Registry.retain
retain-IsRegistry ids outputs v = record {
  ordered = Map.erase_unless-Ordered (contains ids) outputs v.ordered;
  entries = Map.erase_unless-Each IsEntry (contains ids) outputs v.entries;
}

select-IsEntry :
    (ids : List Text) (k : Text) (output : OutputDevice)
    → IsEntry k output
    → IsEntry k (record output { selected = contains ids k })
select-IsEntry ids k output v = record {
  under_id = v.under_id;
  has_id = v.has_id;
  volume_in_range = v.volume_in_range;
  offset_in_range = v.offset_in_range;
}

enable-IsRegistry :
    (ids : List Text) (outputs : OutputRegistry)
    → IsRegistry outputs
    → IsRegistry (Registry.set_enabled_outputs ids outputs).1
unfolding Registry.set_enabled_outputs
enable-IsRegistry ids outputs v = elim (require_each-cases (set_of ids) outputs) [
  | inl (e, known) ↦ rw e (record {
    ordered = Map.update_all-Ordered _ outputs v.ordered;
    entries = Map.update_all-Each IsEntry IsEntry _ (select-IsEntry ids) outputs v.entries;
  })
  | inr (missing, thrown, same) ↦ subst IsRegistry (sym (enable_throws ids outputs thrown same)) v
]

-- A write to the entry of `id` that leaves a good entry good.
change-IsRegistry :
    (id : Text) (f : OutputDevice → OutputDevice) (outputs : OutputRegistry)
    → ((output : OutputDevice) → IsEntry id output → IsEntry id (f output))
    → IsRegistry outputs
    → IsRegistry (Registry.change id f outputs).1
change-IsRegistry id f outputs keep v = elim (Option-cases (Map.find id outputs)) [
  | inl e ↦ rw (change_unknown id f outputs e) v
  | inr (output, e) ↦ rw (change_known id f outputs output e) (record {
    ordered = Map.assign-Ordered id (f output) outputs v.ordered;
    entries =
        Map.assign-Each IsEntry id (f output) outputs
          (keep output (Map.find-Each IsEntry id outputs output v.entries e)) v.entries;
  })
]

pub step-IsRegistry :
    (c : Call) (outputs : OutputRegistry) → IsRegistry outputs → IsRegistry (step c outputs)
unfolding step Registry.set_output_volume Registry.set_output_offset_ms
    Registry.set_measured_latency_ms
step-IsRegistry (upserts device) outputs v = upsert-IsRegistry device outputs v
step-IsRegistry (retains ids) outputs v = retain-IsRegistry ids outputs v
step-IsRegistry (enables ids) outputs v = enable-IsRegistry ids outputs v
step-IsRegistry (sets_volume id volume) outputs v =
    change-IsRegistry id _ outputs
      (λ o e. record {
        under_id = e.under_id;
        has_id = e.has_id;
        volume_in_range = clamp_ℤ_bounds volume (pos 0) (pos 100) (omega arith);
        offset_in_range = e.offset_in_range;
      })
      v
step-IsRegistry (sets_offset id offset_ms) outputs v =
    change-IsRegistry id _ outputs
      (λ o e. record {
        under_id = e.under_id;
        has_id = e.has_id;
        volume_in_range = e.volume_in_range;
        offset_in_range = clamp_ℤ_bounds offset_ms (negsuc 1999) (pos 2000) (omega arith);
      })
      v
step-IsRegistry (sets_latency id latency) outputs v =
    change-IsRegistry id _ outputs
      (λ o e. record {
        under_id = e.under_id;
        has_id = e.has_id;
        volume_in_range = e.volume_in_range;
        offset_in_range = e.offset_in_range;
      })
      v

run-IsRegistry :
    (cs : List Call) (outputs : OutputRegistry) → IsRegistry outputs → IsRegistry (run cs outputs)
unfolding run
run-IsRegistry [] outputs v = v
run-IsRegistry (c ∷ cs) outputs v = run-IsRegistry cs (step c outputs) (step-IsRegistry c outputs v)

-- After any sequence of calls on a new registry, those that throw included, the keys are in
-- strictly ascending order, every output stands under its own non-empty id, every volume is in 0..100 and every
-- offset in -2000..2000 ms.
pub run-nil-IsRegistry : (cs : List Call) → IsRegistry (run cs [])
run-nil-IsRegistry cs = run-IsRegistry cs [] (record { ordered = tt; entries = tt })
