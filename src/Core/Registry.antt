-- ===== src/Core/Registry.antt =====
-- components/foo_out_multiroom_bridge/core/output_registry.h and output_registry.cpp. Each method
-- runs under one mutex, so a history of the registry is a sequence of whole calls.
pub mod Entries
pub mod Invariant
pub mod Selection
use foobar_universal_multiro.Base.Sort.{set_of}
use foobar_universal_multiro.Base.Outcome.{
  M, raise, for_each, ◌>>=◌, ◌>>◌, throw_if, out_of_range, modify, invalid_argument, ok, pure,
}
use foobar_universal_multiro.Base.Int.{ℤ, clamp_ℤ, max_ℤ, pos, negsuc}
use foobar_universal_multiro.Device.{OutputDevice}
use foobar_universal_multiro.Base.{List, Option, Text, codes, contains, is_empty, none, some, ◌++◌}
use foobar_universal_multiro.Base.Map

-- `outputs_`
abbrev pub OutputRegistry : Type 0
OutputRegistry = List (Text × OutputDevice)

abbrev pub clamp_volume : ℤ → ℤ
clamp_volume volume = clamp_ℤ volume (pos 0) (pos 100)

abbrev pub clamp_offset_ms : ℤ → ℤ
clamp_offset_ms offset_ms = clamp_ℤ offset_ms (negsuc 1999) (pos 2000)

abbrev pub clamped : OutputDevice → OutputDevice
clamped device = record device {
  volume = clamp_volume device.volume;
  offset_ms = clamp_offset_ms device.offset_ms;
}

unfoldable pub upsert : OutputDevice → M OutputRegistry (Unit {0})
upsert device = do
  throw_if (is_empty device.id) invalid_argument (codes "Output device id cannot be empty.")
  modify (Map.assign device.id (clamped device))

-- `retained` is the set of the ids, which `find` searches.
pub retain : List Text → OutputRegistry → OutputRegistry
retain ids = Map.erase_unless (contains ids)

unfoldable pub list : OutputRegistry → List OutputDevice
list = Map.values

unfoldable pub find : Text → OutputRegistry → Option OutputDevice
find = Map.find

abbrev unknown_output : Text → Text
unknown_output id = codes "Unknown output device: " ++ id

pub require_output : Text → M OutputRegistry OutputDevice
require_output id outputs = elim (Map.find id outputs) [
  | none ↦ raise out_of_range (unknown_output id) outputs
  | some output ↦ (ok output, outputs)
]

-- The ids are first put in a `std::set`: they are required in ascending order, each once. Nothing has
-- changed when one is unknown.
pub require_each : List Text → M OutputRegistry (Unit {0})
unfolding require_output for_each
require_each ids = for_each (λ id. do require_output id; pure tt) ids

unfoldable pub set_enabled_outputs : List Text → M OutputRegistry (Unit {0})
unfolding require_each set_of
set_enabled_outputs ids = do
  require_each (set_of ids)
  modify (Map.update_all (λ id output. record output { selected = contains ids id }))

-- A write through the reference that `require_output` returns.
pub change : Text → (OutputDevice → OutputDevice) → M OutputRegistry (Unit {0})
unfolding require_output
change id f = do output ← require_output id; modify (Map.assign id (f output))

unfoldable pub set_output_volume : Text → ℤ → M OutputRegistry (Unit {0})
unfolding change
set_output_volume id volume = change id (λ output. record output { volume = clamp_volume volume })

unfoldable pub set_output_offset_ms : Text → ℤ → M OutputRegistry (Unit {0})
unfolding change
set_output_offset_ms id offset_ms =
    change id (λ output. record output { offset_ms = clamp_offset_ms offset_ms })

unfoldable pub set_measured_latency_ms : Text → ℤ → M OutputRegistry (Unit {0})
unfolding change
set_measured_latency_ms id measured_latency_ms =
    change id (λ output. record output { measured_latency_ms = max_ℤ (pos 0) measured_latency_ms })
