-- ===== src/Core/Groups/Line.antt =====
-- One line of the stored text: what was written is read back.
use foobar_universal_multiro.Base.{
  All, All-append, All-map, List, Text, [], ap, append-nil, append_assoc, arith, codes, false,
  is_empty, map, refl, some, sym, ℕ, ◌++◌, ◌==◌, ◌∙◌, ◌∷◌, ◌≡◌, ◌≢◌, text_eq,
}
use foobar_universal_multiro.Core.Groups.{
  SpeakerGroup, join_encoded, serialize_line, is_incomplete, decode_ids, decode_fields,
}
use foobar_universal_multiro.Core.Groups.Normal.{IsNormal, IsTrimmed, normalize_speaker_group_fixed}
use foobar_universal_multiro.Core.Groups.Encoding.{split, hex_encode}
use foobar_universal_multiro.Core.Groups.Encoding.Split.{Lacks, split_cut, split_last}
use foobar_universal_multiro.Core.Groups.Encoding.Hex.{
  IsByte, IsHexDigit, hex_encode-IsHexDigit, hex_encode-ne-nil, hex_decode-hex_encode,
}

-- Every text of the group is made of bytes.
pub record IsBytes (group : SpeakerGroup) : Type 0 where
  pub id_bytes : All IsByte group.id
  pub name_bytes : All IsByte group.name
  pub ids_bytes : All (All IsByte) group.output_ids

pub hex_encode-Lacks :
    (separator : ℕ) (text : Text)
    → ((c : ℕ) → IsHexDigit c → (c == separator) ≡ false)
    → Lacks separator (hex_encode text)
hex_encode-Lacks separator text h = All-map h (hex_encode text) (hex_encode-IsHexDigit text)

join_encoded-Lacks :
    (separator : ℕ) (ids : List Text)
    → ((c : ℕ) → IsHexDigit c → (c == separator) ≡ false)
    → (b',' == separator) ≡ false
    → Lacks separator (join_encoded ids)
unfolding join_encoded
join_encoded-Lacks separator [] h comma = tt
join_encoded-Lacks separator (id ∷ []) h comma = hex_encode-Lacks separator id h
join_encoded-Lacks separator (id ∷ next ∷ ids) h comma =
    All-append _ (hex_encode id) (b',' ∷ join_encoded (next ∷ ids))
      (hex_encode-Lacks separator id h) (comma, join_encoded-Lacks separator (next ∷ ids) h comma)

no_bar : (c : ℕ) → IsHexDigit c → (c == b'|') ≡ false
no_bar c h = ground (arith, h)

no_comma : (c : ℕ) → IsHexDigit c → (c == b',') ≡ false
no_comma c h = ground (arith, h)

no_newline : (c : ℕ) → IsHexDigit c → (c == b'\n') ≡ false
no_newline c h = ground (arith, h)

-- A line ends at its end only.
pub serialize_line-Lacks : (group : SpeakerGroup) → Lacks b'\n' (serialize_line group)
unfolding serialize_line
serialize_line-Lacks group = (
  refl,
  (
    refl,
    (
      refl,
      All-append _ (hex_encode group.id) _ (hex_encode-Lacks b'\n' group.id no_newline) (
        refl,
        All-append _ (hex_encode group.name) _ (hex_encode-Lacks b'\n' group.name no_newline)
            (refl, join_encoded-Lacks b'\n' group.output_ids no_newline refl),
      ),
    ),
  ),
)

ne-nil : (text : Text) → is_empty text ≡ false → text ≢ []
unfolding is_empty
ne-nil [] h = cc
ne-nil (ch ∷ text) h = λ e. cc

append-eq-nil : (xs ys : Text) → xs ++ ys ≡ [] → xs ≡ []
append-eq-nil [] ys e = refl
append-eq-nil (x ∷ xs) ys e = cc

join_encoded-ne-nil :
    (ids : List Text) → is_empty ids ≡ false → All IsTrimmed ids → join_encoded ids ≢ []
unfolding join_encoded is_empty
join_encoded-ne-nil [] h a = cc
join_encoded-ne-nil (id ∷ []) h a = hex_encode-ne-nil id (ne-nil id a.0.1)
join_encoded-ne-nil (id ∷ next ∷ ids) h a =
    λ e. hex_encode-ne-nil id (ne-nil id a.0.1) (append-eq-nil (hex_encode id) _ e)

split-join_encoded :
    (ids : List Text) → All IsTrimmed ids → split b',' (join_encoded ids) ≡ map hex_encode ids
unfolding join_encoded split
split-join_encoded [] a = refl
split-join_encoded (id ∷ []) a =
    split_last b',' (hex_encode id) (hex_encode-Lacks b',' id no_comma)
      (hex_encode-ne-nil id (ne-nil id a.0.1))
split-join_encoded (id ∷ next ∷ ids) a =
    split_cut b',' (hex_encode id) (join_encoded (next ∷ ids)) (hex_encode-Lacks b',' id no_comma)
    ∙ ap (◌∷◌ (hex_encode id)) (split-join_encoded (next ∷ ids) a.1)

decode_ids-hex_encode :
    (decoded ids : List Text)
    → All (All IsByte) ids
    → decode_ids decoded (map hex_encode ids) ≡ decoded ++ ids
unfolding decode_ids
decode_ids-hex_encode decoded [] h = sym (append-nil decoded)
decode_ids-hex_encode decoded (id ∷ ids) h =
    rw (hex_decode-hex_encode id h.0, decode_ids)
      (decode_ids-hex_encode (decoded ++ id ∷ []) ids h.1 ∙ append_assoc decoded (id ∷ []) ids)

split-serialize_line :
    (group : SpeakerGroup)
    → IsNormal group
    → is_incomplete group ≡ false
    → split b'|' (serialize_line group)
      ≡ codes "v1"
        ∷ hex_encode group.id
        ∷ hex_encode group.name
        ∷ join_encoded group.output_ids
        ∷ []
unfolding serialize_line is_incomplete
split-serialize_line group v whole =
    split_cut b'|' (codes "v1") _ (refl, (refl, tt))
    ∙ ap (◌∷◌ (codes "v1")) (
        split_cut b'|' (hex_encode group.id) _ (hex_encode-Lacks b'|' group.id no_bar)
        ∙ ap (◌∷◌ (hex_encode group.id)) (
            split_cut b'|' (hex_encode group.name) _ (hex_encode-Lacks b'|' group.name no_bar)
            ∙ ap (◌∷◌ (hex_encode group.name)) (
                split_last b'|' (join_encoded group.output_ids)
                  (join_encoded-Lacks b'|' group.output_ids no_bar refl)
                  (join_encoded-ne-nil group.output_ids (ground (arith, whole)) v.ids_trimmed))))

-- A complete normal group is read back from its line.
pub decode_fields-serialize_line :
    (group : SpeakerGroup)
    → IsNormal group
    → IsBytes group
    → is_incomplete group ≡ false
    → decode_fields (split b'|' (serialize_line group)) ≡ some group
unfolding decode_fields text_eq
decode_fields-serialize_line group v b whole =
    rw
      (
        split-serialize_line group v whole,
        hex_decode-hex_encode group.id b.id_bytes,
        hex_decode-hex_encode group.name b.name_bytes,
        split-join_encoded group.output_ids v.ids_trimmed,
        decode_ids-hex_encode [] group.output_ids b.ids_bytes,
      )
      (ap some (normalize_speaker_group_fixed group v))
