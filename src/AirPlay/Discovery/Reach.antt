-- ===== src/AirPlay/Discovery/Reach.antt =====
-- That no identity is lost when devices are merged: each id that a device answered to still finds one.
use foobar_universal_multiro.AirPlay.Discovery.Aliases.{
  answers_to, append_each-answers_to, append_aliases-answers_to, append_each-answers_to_new,
}
use foobar_universal_multiro.Device.{OutputDevice}
use foobar_universal_multiro.Base.{
  Bool, List, Text, [], arith, false, text_eq, true, ◌||◌, ◌∷◌, ◌≡◌, ◌≢◌, Bool-cases, inl, inr,
  refl, some, text_eq_iff, not, text_lt_ne, ◌&&◌, Option-cases,
}
use foobar_universal_multiro.Base.Map
use foobar_universal_multiro.AirPlay.Discovery.Identity.{
  append_each, append_aliases, find_alias, same_physical_receiver, put_identity,
  upsert_discovered_identity, keep_endpoint, prefer_device_identity,
}

-- Some device answers to the id.
unfoldable pub reaches : Text → List (Text × OutputDevice) → Bool
reaches id [] = false
reaches id ((key, device) ∷ devices) = answers_to id device || reaches id devices

-- Every device stands under its own id.
abbrev pub Keyed : List (Text × OutputDevice) → Type 0
Keyed = Map.Each (λ key device. device.id ≡ key)

-- What stands under a key is reached; what is put there is reached.
find-reaches :
    (key : Text) (device : OutputDevice) (devices : List (Text × OutputDevice)) (id : Text)
    → Map.find key devices ≡ some device
    → answers_to id device ≡ true
    → reaches id devices ≡ true
unfolding Map.find reaches
find-reaches key device [] id f h = absurd (cc)
find-reaches key device ((k, d) ∷ devices) id f h =
    ground (arith, find-reaches key device devices id)

assign-reaches :
    (key : Text) (device : OutputDevice) (devices : List (Text × OutputDevice)) (id : Text)
    → answers_to id device ≡ true
    → reaches id (Map.assign key device devices) ≡ true
unfolding Map.assign reaches
assign-reaches key device [] id h = ground (arith, h)
assign-reaches key device ((k, d) ∷ devices) id h =
    ground (arith, h, assign-reaches key device devices id)

-- Putting a device that answers to all that the device under its key did keeps every id.
assign-keeps :
    (key : Text) (device : OutputDevice) (devices : List (Text × OutputDevice)) (id : Text)
    → ((old : OutputDevice)
        → Map.find key devices ≡ some old
        → answers_to id old ≡ true
        → answers_to id device ≡ true)
    → reaches id devices ≡ true
    → reaches id (Map.assign key device devices) ≡ true
unfolding Map.find Map.assign reaches
assign-keeps key device [] id f h = absurd (cc)
assign-keeps key device ((k, d) ∷ devices) id f h = elim (Bool-cases (text_eq k key)) [
  | inl e ↦ unfold Map.find Map.assign reaches in ground (arith, h, f d (rw e refl))
  | inr e ↦
      unfold Map.find Map.assign reaches in
      ground (arith, h, assign-keeps key device devices id (λ old g. f old (ground (arith, g, e))))
]

-- Erasing a device keeps every id that the device does not answer to.
erase-keeps :
    (key : Text) (device : OutputDevice) (devices : List (Text × OutputDevice)) (id : Text)
    → Map.find key devices ≡ some device
    → Map.Ordered devices
    → reaches id devices ≡ true
    → (answers_to id device || reaches id (Map.erase_unless (λ k. not (text_eq k key)) devices))
      ≡ true
unfolding Map.find Map.erase_unless reaches
erase-keeps key device [] id f o h = absurd (cc)
erase-keeps key device ((k, d) ∷ devices) id f o h = elim (Bool-cases (text_eq k key)) [
  | inl e ↦
      let same = (text_eq_iff k key).0 e in
      let rest : Map.erase_unless (λ j. not (text_eq j key)) devices ≡ devices =
        rw same at (Map.erase-Above k devices o.0) in
      unfold Map.find Map.erase_unless reaches in ground (arith, f, h, e, rest)
  | inr e ↦
      unfold Map.find Map.erase_unless reaches in
      ground (arith, f, h, e, erase-keeps key device devices id (ground (arith, f, e)) o.1)
]

-- The device that `find_alias` gives stands in the map.
pub find_alias-find :
    (device : OutputDevice) (devices : List (Text × OutputDevice)) (key : Text)
    (other : OutputDevice)
    → Map.Ordered devices
    → find_alias device devices ≡ some (key, other)
    → Map.find key devices ≡ some other
unfolding find_alias Map.find
find_alias-find device [] key other o f = absurd (cc)
find_alias-find device ((k, d) ∷ devices) key other o f =
    elim (Bool-cases (not (text_eq k device.id) && same_physical_receiver d device)) [
      | inl e ↦ unfold find_alias Map.find in ground (arith, f, e, text_eq_iff k key)
      | inr e ↦
          let below = find_alias-find device devices key other o.1 (ground (arith, f, e)) in
          unfold Map.find in
          ground (arith, text_lt_ne k key (Map.find-lt k key other devices o.0 below), below)
    ]

module _ (is_numeric : Text → Bool) where
  keep_endpoint-answers_to :
      (existing device : OutputDevice) (id : Text)
      → answers_to id device ≡ true
      → answers_to id (keep_endpoint is_numeric existing device) ≡ true
  unfolding keep_endpoint
  keep_endpoint-answers_to existing device id h = ground (arith, h)

  -- A device that replaces the one under its id answers to all that it did.
  merged-answers_to :
      (device existing : OutputDevice) (id : Text)
      → id ≢ []
      → existing.id ≡ device.id
      → (answers_to id device || answers_to id existing) ≡ true
      → answers_to id (keep_endpoint is_numeric existing (append_each device existing.aliases))
        ≡ true
  merged-answers_to device existing id ne same h =
      keep_endpoint-answers_to existing (append_each device existing.aliases) id
        (elim (Bool-cases (answers_to id device)) [
          | inl e ↦ append_each-answers_to device existing.aliases id e
          | inr e ↦
              append_each-answers_to_new device existing.aliases id ne (ground (arith, e, h, same))
        ])

  -- Putting a device under a key where only `old` may stand, to all of whose ids it answers.
  assign-reaches_both :
      (key : Text) (device new old : OutputDevice) (devices : List (Text × OutputDevice))
      (id : Text)
      → Map.find key devices ≡ some old
      → ((answers_to id device || answers_to id old) ≡ true → answers_to id new ≡ true)
      → (answers_to id device || reaches id devices) ≡ true
      → reaches id (Map.assign key new devices) ≡ true
  assign-reaches_both key device new old devices id f g h =
      elim (Bool-cases (answers_to id device)) [
        | inl e ↦ assign-reaches key new devices id (g (ground (arith, e)))
        | inr e ↦
            assign-keeps key new devices id
              (λ old' f' a.
                let same : old' ≡ old = ground (arith, f, f') in g (ground (arith, rw same at a)))
              (ground (arith, e, h))
      ]

  put_identity-reaches :
      (devices : List (Text × OutputDevice)) (device : OutputDevice) (id : Text)
      → id ≢ []
      → Keyed devices
      → (answers_to id device || reaches id devices) ≡ true
      → reaches id (put_identity is_numeric devices device) ≡ true
  unfolding put_identity
  put_identity-reaches devices device id ne v h = elim (Option-cases (Map.find device.id devices)) [
    | inl e ↦
        rw (e, put_identity)
          (elim (Bool-cases (answers_to id device)) [
            | inl a ↦ assign-reaches device.id device devices id a
            | inr a ↦
                assign-keeps device.id device devices id (λ old f x. absurd (ground (arith, e, f)))
                  (ground (arith, a, h))
          ])
    | inr (existing, e) ↦
        let keyed = Map.find-Each (λ key d. d.id ≡ key) device.id devices existing v e in
        rw (e, put_identity)
          (assign-reaches_both device.id device
            (keep_endpoint is_numeric existing (append_each device existing.aliases)) existing
            devices id e (merged-answers_to device existing id ne keyed) h)
  ]

  pub upsert_discovered_identity-reaches :
      (devices : List (Text × OutputDevice)) (device : OutputDevice) (id : Text)
      → id ≢ []
      → Map.Ordered devices
      → Keyed devices
      → (answers_to id device || reaches id devices) ≡ true
      → reaches id (upsert_discovered_identity is_numeric devices device) ≡ true
  unfolding upsert_discovered_identity
  upsert_discovered_identity-reaches devices device id ne o v h =
      elim (Option-cases (find_alias device devices)) [
        | inl e ↦ rw (e, upsert_discovered_identity) (put_identity-reaches devices device id ne v h)
        | inr ((key, other), e) ↦
            let found = find_alias-find device devices key other o e in
            let legacy_l16 = other.supports_legacy_l16 || device.supports_legacy_l16 in
            elim (Bool-cases (prefer_device_identity device other)) [
              | inl p ↦
                  rw (e, p, upsert_discovered_identity)
                    (put_identity-reaches (Map.erase_unless (λ k. not (text_eq k key)) devices)
                      (append_aliases (record device { supports_legacy_l16 = legacy_l16 }) other) id
                      ne (Map.erase_unless-Each (λ k d. d.id ≡ k) _ devices v)
                      (ground (
                        arith,
                        h,
                        erase-keeps key other devices id found o,
                        append_aliases-answers_to
                            (record device { supports_legacy_l16 = legacy_l16 }) other id ne,
                      )))
              | inr p ↦
                  rw (e, p, upsert_discovered_identity)
                    (assign-reaches_both key device
                      (append_aliases (record other { supports_legacy_l16 = legacy_l16 }) device)
                      other devices id found
                      (λ a.
                        append_aliases-answers_to
                          (record other { supports_legacy_l16 = legacy_l16 }) device id ne
                          (ground (arith, a)))
                      h)
            ]
      ]
