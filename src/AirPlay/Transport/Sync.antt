-- ===== src/AirPlay/Transport/Sync.antt =====
-- That the synchronisation of the registry with the discovered devices keeps the user's settings.
use foobar_universal_multiro.Core.Registry.Entries.{find-upsert, find-retain}
use foobar_universal_multiro.Base.Outcome.{ok, for_each, then_ok}
use foobar_universal_multiro.Core.Registry.{OutputRegistry, clamped}
use foobar_universal_multiro.Device.{OutputDevice}
use foobar_universal_multiro.Base.{
  List, Option-cases, Text, [], false, inl, inr, some, text_eq, ◌≡◌, ◌≢◌, ap, arith, if◌then◌else◌,
  none, refl, sym, ◌∙◌, ◌∷◌, Bool-cases, text_eq_iff, text_lt_ne, true, contains, map,
}
use foobar_universal_multiro.AirPlay.Transport
use foobar_universal_multiro.Core.Registry
use foobar_universal_multiro.Base.Map

-- Every device stands under its own id, which is not empty.
abbrev pub Named : List (Text × OutputDevice) → Type 0
Named = Map.Each (λ key device. (device.id ≡ key) × (key ≢ []))

synced-id :
    (device : OutputDevice) (registry : OutputRegistry)
    → (Transport.synced device registry).id ≡ device.id
unfolding Transport.synced Transport.keep_user_state
synced-id device registry = ground arith

synced-known :
    (device : OutputDevice) (registry : OutputRegistry) (existing : OutputDevice)
    → Registry.find device.id registry ≡ some existing
    → Transport.synced device registry ≡ Transport.keep_user_state existing device
unfolding Transport.synced
synced-known device registry existing e =
    let known : Transport.find_existing device registry ≡ some existing =
      unfold Transport.find_existing in rw (e, Transport.find_existing) refl in
    rw (known, Transport.synced) refl

-- One device: it is put under its id, with the settings of the entry that was there.
sync_output-find :
    (device : OutputDevice) (registry : OutputRegistry)
    → device.id ≢ []
    → let r = Transport.sync_output device registry in
      (r.0 ≡ ok tt)
      × ((k : Text)
          → Registry.find k r.1 ≡ (
              if text_eq device.id k
              then some (clamped (Transport.synced device registry))
              else Registry.find k registry))
unfolding Transport.sync_output
sync_output-find device registry ne =
    let same = synced-id device registry in
    elim (find-upsert (Transport.synced device registry) registry) [
      | inl (_, done, found) ↦ (
        done,
        λ k.
            found k
            ∙ ap
                (λ i.
                  if text_eq i k
                  then some (clamped (Transport.synced device registry))
                  else Registry.find k registry)
                same,
      )
      | inr (empty, _, _) ↦ absurd (ne (sym same ∙ empty))
    ]

-- A key that stands before a map is not in it.
absent :
    (key k : Text) (devices : List (Text × OutputDevice))
    → Map.Above key devices
    → text_eq key k ≡ true
    → Map.find k devices ≡ none
absent key k devices a e = elim (Option-cases (Map.find k devices)) [
  | inl f ↦ f
  | inr (d, f) ↦ absurd (ground (arith, e, text_lt_ne key k (Map.find-lt key k d devices a f)))
]

-- The loop: it returns; an id that was not discovered finds what it did, and one that was finds its device with
-- the settings of the entry that was there.
sync_each-find :
    (devices : List (Text × OutputDevice)) (registry : OutputRegistry)
    → Map.Ordered devices
    → Named devices
    → let r = for_each Transport.sync_output (Map.values devices) registry in
      (r.0 ≡ ok tt)
      × ((k : Text) → Map.find k devices ≡ none → Registry.find k r.1 ≡ Registry.find k registry)
      × ((k : Text) (device existing : OutputDevice)
          → Map.find k devices ≡ some device
          → Registry.find k registry ≡ some existing
          → Registry.find k r.1 ≡ some (clamped (Transport.keep_user_state existing device)))
unfolding for_each Map.values Map.find
sync_each-find [] registry o v = (refl, λ k h. refl, λ k d e h g. absurd (cc))
sync_each-find ((key, device) ∷ devices) registry o v =
    let (done, found) = sync_output-find device registry (λ e. v.0.1 (sym v.0.0 ∙ e)) in
    let after = (Transport.sync_output device registry).1 in
    let (returned, others, same) = sync_each-find devices after o.1 v.1 in
    let found' : (k : Text)
        → Registry.find k after ≡ (
            if text_eq key k
            then some (clamped (Transport.synced device registry))
            else Registry.find k registry) =
      λ k.
        found k
        ∙ ap
            (λ i.
              if text_eq i k
              then some (clamped (Transport.synced device registry))
              else Registry.find k registry)
            v.0.0 in
    let through =
      then_ok (λ _. for_each Transport.sync_output (Map.values devices))
        (Transport.sync_output device registry) tt done in
    unfold for_each Map.values Map.find in
    rw through (
      returned,
      λ k h. others k (ground (arith, h)) ∙ found' k ∙ ground (arith, h),
      λ k d existing h g. elim (Bool-cases (text_eq key k)) [
        | inl e ↦
            let here : device ≡ d = ground (arith, e, h) in
            let key_is : device.id ≡ k = v.0.0 ∙ (text_eq_iff key k).0 e in
            let known =
              synced-known device registry existing
                (ap (λ i. Registry.find i registry) key_is ∙ g) in
            others k (absent key k devices o.0 e)
            ∙ found' k
            ∙ ground (arith, e)
            ∙ ap (λ x. some (clamped x)) (known ∙ ap (Transport.keep_user_state existing) here)
        | inr e ↦ same k d existing (ground (arith, e, h)) (found' k ∙ ground (arith, e, g))
      ],
    )

-- The ids that are retained are the keys.
contains-ids :
    (devices : List (Text × OutputDevice)) (k : Text)
    → Named devices
    → contains (map (λ device. device.id) (Map.values devices)) k
      ≡ elim (Map.find k devices) [ none ↦ false | some _ ↦ true ]
unfolding contains Map.values Map.find
contains-ids [] k v = refl
contains-ids ((key, device) ∷ devices) k v =
    let same = ap (λ i. text_eq i k) v.0.0 in ground (arith, same, contains-ids devices k v.1)

-- Where every discovered device stands under its own id, `sync_discovered_outputs` returns, and afterwards the
-- registry has no id that was not discovered; a device whose id it had keeps the selection, the volume, the offset,
-- the latency and the visibility that the user gave it, and takes the rest from discovery.
pub sync_outputs-find :
    (devices : List (Text × OutputDevice)) (registry : OutputRegistry)
    → Map.Ordered devices
    → Named devices
    → let r = Transport.sync_outputs (Map.values devices) registry in
      (r.0 ≡ ok tt)
      × ((k : Text) → Map.find k devices ≡ none → Registry.find k r.1 ≡ none)
      × ((k : Text) (device existing : OutputDevice)
          → Map.find k devices ≡ some device
          → Registry.find k registry ≡ some existing
          → Registry.find k r.1
            ≡ some (
                clamped (record device {
                  selected = existing.selected;
                  volume = existing.volume;
                  offset_ms = existing.offset_ms;
                  measured_latency_ms = existing.measured_latency_ms;
                  visible_in_dropdown = existing.visible_in_dropdown;
                })))
unfolding Transport.sync_outputs Transport.keep_user_state
sync_outputs-find devices registry o v =
    let ids = map (λ device. device.id) (Map.values devices) in
    let each = for_each Transport.sync_output (Map.values devices) registry in
    let (returned, others, same) = sync_each-find devices registry o v in
    let through = then_ok (λ _ s. (ok tt, Registry.retain ids s)) each tt returned in
    rw (through, Transport.sync_outputs)
      (
        refl,
        λ k h. find-retain ids k each.1 ∙ ground (arith, contains-ids devices k v, h),
        λ k d existing h g.
            find-retain ids k each.1
            ∙ ground (arith, contains-ids devices k v, h)
            ∙ same k d existing h g,
      )
