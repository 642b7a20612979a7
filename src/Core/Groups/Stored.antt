-- ===== src/Core/Groups/Stored.antt =====
-- What any stored text gives, and that storing it again loses nothing.
use foobar_universal_multiro.Base.{
  All, All-append, Bool-cases, Distinct, Distinct-snoc, List, Option, Option-cases, Text, [],
  any_of, ap, arith, codes, contains, false, inl, inr, none, refl, some, subst, text_eq, ◌++◌, ◌||◌,
  ◌∷◌, ◌≡◌, All-map, Distinct-middle, append-nil, append_assoc, keep_if, map, sym, ◌∙◌,
}
use foobar_universal_multiro.Core.Groups.{
  SpeakerGroup, is_incomplete, normalize_speaker_group, decode_ids, decode_fields, add_group,
  deserialize_lines, deserialize_speaker_groups, serialize_speaker_groups,
}
use foobar_universal_multiro.Core.Groups.Encoding.{split, hex_decode}
use foobar_universal_multiro.Core.Groups.Encoding.Hex.{IsByte, hex_decode-IsByte}
use foobar_universal_multiro.Core.Groups.Line.{IsBytes}
use foobar_universal_multiro.Core.Groups.Normal.{
  IsNormal, normalize_speaker_group-IsNormal, normalize_speaker_group_fixed,
}
use foobar_universal_multiro.Core.Groups.RoundTrip.{
  normalize-IsBytes, is_complete, unique_onto, deserialize-serialize,
}

-- A group as the store keeps it.
pub record IsStored (group : SpeakerGroup) : Type 0 where
  pub normal : IsNormal group
  pub bytes : IsBytes group
  pub complete : is_incomplete group ≡ false

abbrev pub ids : List SpeakerGroup → List Text
ids [] = []
ids (group ∷ groups) = group.id ∷ ids groups

decode_ids-bytes :
    (decoded encoded : List Text)
    → All (All IsByte) decoded
    → All (All IsByte) (decode_ids decoded encoded)
unfolding decode_ids
decode_ids-bytes decoded [] h = h
decode_ids-bytes decoded (e ∷ es) h = elim (Option-cases (hex_decode e)) [
  | inl bad ↦ rw (bad, decode_ids) tt
  | inr (id, good) ↦
      rw (good, decode_ids)
        (decode_ids-bytes (decoded ++ id ∷ []) es
          (All-append (All IsByte) decoded (id ∷ []) h (hex_decode-IsByte e id good, tt)))
]

-- A line that gives a group gives a normal group of bytes.
decode_four :
    (v i n o : Text) (group : SpeakerGroup)
    → decode_fields (v ∷ i ∷ n ∷ o ∷ []) ≡ some group
    → IsNormal group × IsBytes group
unfolding decode_fields
decode_four v i n o group e = elim (Bool-cases (text_eq v (codes "v1"))) [
  | inr other ↦ absurd (ground (arith, other))
  | inl known ↦ elim (Option-cases (hex_decode i)) [
    | inl bad ↦ absurd (ground (arith, known, bad))
    | inr (id, good_id) ↦ elim (Option-cases (hex_decode n)) [
      | inl bad ↦ absurd (ground (arith, known, good_id, bad))
      | inr (name, good_name) ↦
          let raw : SpeakerGroup = record {
            id = id;
            name = name;
            output_ids = decode_ids [] (split b',' o);
          } in
          let same : normalize_speaker_group raw ≡ group =
            ground (arith, known, good_id, good_name) in
          subst (λ g. IsNormal g × IsBytes g) same
            (
              normalize_speaker_group-IsNormal raw,
              normalize-IsBytes raw (record {
                id_bytes = hex_decode-IsByte i id good_id;
                name_bytes = hex_decode-IsByte n name good_name;
                ids_bytes = decode_ids-bytes [] (split b',' o) tt;
              }),
            )
    ]
  ]
]

decode_fields-good :
    (fields : List Text) (group : SpeakerGroup)
    → decode_fields fields ≡ some group
    → IsNormal group × IsBytes group
decode_fields-good (v ∷ i ∷ n ∷ o ∷ []) group e = decode_four v i n o group e
decode_fields-good [] group e = absurd (unfold decode_fields in cc)
decode_fields-good (a ∷ []) group e = absurd (unfold decode_fields in cc)
decode_fields-good (a ∷ b ∷ []) group e = absurd (unfold decode_fields in cc)
decode_fields-good (a ∷ b ∷ c ∷ []) group e = absurd (unfold decode_fields in cc)
decode_fields-good (a ∷ b ∷ c ∷ d ∷ f ∷ fs) group e = absurd (unfold decode_fields in cc)

any_of-contains :
    (k : Text) (groups : List SpeakerGroup)
    → any_of (λ existing. text_eq existing.id k) groups ≡ contains (ids groups) k
unfolding any_of contains
any_of-contains k [] = refl
any_of-contains k (group ∷ groups) = rw (any_of-contains k groups)

ids-snoc :
    (groups : List SpeakerGroup) (group : SpeakerGroup)
    → ids (groups ++ group ∷ []) ≡ ids groups ++ group.id ∷ []
ids-snoc [] group = refl
ids-snoc (g ∷ groups) group = ap (◌∷◌ g.id) (ids-snoc groups group)

AreStored : List SpeakerGroup → Type 0
AreStored groups = All IsStored groups × Distinct (ids groups)

add_group-AreStored :
    (result : List SpeakerGroup) (o : Option SpeakerGroup)
    → ((group : SpeakerGroup) → o ≡ some group → IsNormal group × IsBytes group)
    → AreStored result
    → AreStored (add_group result o)
unfolding add_group AreStored
add_group-AreStored result none h (a, d) = (a, d)
add_group-AreStored result (some group) h (a, d) =
    elim (Bool-cases
      (is_incomplete group || any_of (λ existing. text_eq existing.id group.id) result)) [
        | inl skip ↦ rw skip (a, d)
        | inr keep ↦
            let (normal, bytes) = h group refl in
            let fresh : contains (ids result) group.id ≡ false =
              ground (arith, keep, any_of-contains group.id result) in
            rw keep (
              All-append IsStored result (group ∷ []) a
                  (record { normal = normal; bytes = bytes; complete = ground (arith, keep) }, tt),
              rw (ids-snoc result group) (Distinct-snoc (ids result) group.id d fresh),
            )
      ]

deserialize_lines-AreStored :
    (result : List SpeakerGroup) (lines : List Text)
    → AreStored result
    → AreStored (deserialize_lines result lines)
unfolding deserialize_lines
deserialize_lines-AreStored result [] h = h
deserialize_lines-AreStored result (line ∷ lines) h =
    deserialize_lines-AreStored (add_group result (decode_fields (split b'|' line))) lines (
      add_group-AreStored result (decode_fields (split b'|' line))
        (decode_fields-good (split b'|' line)) h)

-- Whatever the stored text is, also one that the program never wrote: each group that comes out
-- of it is in normal form, made of bytes and complete, and no two have one id.
pub deserialize-IsStored :
    (text : Text)
    → All IsStored (deserialize_speaker_groups text)
      × Distinct (ids (deserialize_speaker_groups text))
unfolding deserialize_speaker_groups AreStored
deserialize-IsStored text = deserialize_lines-AreStored [] (split b'\n' text) (tt, tt)

normalize_stored :
    (groups : List SpeakerGroup) → All IsStored groups → map normalize_speaker_group groups ≡ groups
normalize_stored [] h = refl
normalize_stored (g ∷ groups) h =
    rw (normalize_speaker_group_fixed g h.0.normal, normalize_stored groups h.1)

keep_stored :
    (groups : List SpeakerGroup) → All IsStored groups → keep_if is_complete groups ≡ groups
unfolding keep_if
keep_stored [] h = refl
keep_stored (g ∷ groups) h = ground (arith, h.0.complete, keep_stored groups h.1)

ids-append : (xs ys : List SpeakerGroup) → ids (xs ++ ys) ≡ ids xs ++ ids ys
ids-append [] ys = refl
ids-append (x ∷ xs) ys = ap (◌∷◌ x.id) (ids-append xs ys)

unique_stored :
    (result groups : List SpeakerGroup)
    → Distinct (ids (result ++ groups))
    → unique_onto result groups ≡ result ++ groups
unique_stored result [] d = sym (append-nil result)
unique_stored result (g ∷ groups) d =
    let split_ids : Distinct (ids result ++ g.id ∷ ids groups) =
      rw (ids-append result (g ∷ groups)) at d in
    rw (any_of-contains g.id result, Distinct-middle (ids result) g.id (ids groups) split_ids)
      (unique_stored (result ++ g ∷ []) groups (rw (append_assoc result (g ∷ []) groups) d)
        ∙ append_assoc result (g ∷ []) groups)

-- Whatever the stored text is, storing what was read from it and reading that again gives the
-- same groups.
pub deserialize_stable :
    (text : Text)
    → deserialize_speaker_groups (serialize_speaker_groups (deserialize_speaker_groups text))
      ≡ deserialize_speaker_groups text
deserialize_stable text =
    let groups = deserialize_speaker_groups text in
    let (stored, distinct) = deserialize-IsStored text in
    deserialize-serialize groups (All-map (λ g s. s.bytes) groups stored)
    ∙ rw (normalize_stored groups stored, keep_stored groups stored)
        (unique_stored [] groups distinct)
