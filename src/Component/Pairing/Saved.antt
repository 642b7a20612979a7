-- ===== src/Component/Pairing/Saved.antt =====
-- The pairing store as a whole: what is saved is loaded, and nothing else changes.
use foobar_universal_multiro.Component.OutputState.Stored.{
  c_string_whole, fields-IsPlain, c_string-Lacks,
}
use foobar_universal_multiro.Base.Outcome.{Threw, invalid_argument, ok}
use foobar_universal_multiro.Core.Groups.Encoding.Hex.{IsByte}
use foobar_universal_multiro.Core.Groups.Encoding.Split.{split_cut, Lacks, split-All, split-Lacks}
use foobar_universal_multiro.AirPlay.Discovery.Packet.{c_string}
use foobar_universal_multiro.Component.OutputState.Lines.{IsPlain}
use foobar_universal_multiro.Component.Pairing.Lines.{
  IsKept, parse_fields-IsKept, format_line-Lacks, parse_fields-format_line,
}
use foobar_universal_multiro.Component.Fields.{split_pipe_fields}
use foobar_universal_multiro.Core.Groups.Encoding.{split}
use foobar_universal_multiro.AirPlay.Client.{AirPlayPairingCredentials}
use foobar_universal_multiro.Component.Pairing.{
  parse_pairing_credentials_text, format_pairing_credentials_text, parsed, parse_lines, put_item,
  save, is_valid, load, push, format_line,
}
use foobar_universal_multiro.Base.{
  Text, All, All-append, Bool-cases, List, Option, [], ap, arith, false, find_if, if◌then◌else◌,
  inl, inr, none, refl, some, text_eq, text_eq_iff, true, ◌∙◌, ◌∷◌, ◌≡◌, ◌⊎◌,
}

parse_lines-format :
    (items : List AirPlayPairingCredentials)
    → All IsKept items
    → parse_pairing_credentials_text (format_pairing_credentials_text items) ≡ items
unfolding parse_pairing_credentials_text parse_lines format_pairing_credentials_text split
parse_lines-format [] h = refl
parse_lines-format (item ∷ items) h = rw h.0.valid (
    ap parse_lines (
      split_cut b'\n' (format_line item) (format_pairing_credentials_text items)
        (format_line-Lacks b'\n' item refl refl h.0))
    ∙ ap (λ o. push o (parse_lines (split b'\n' (format_pairing_credentials_text items))))
        (parse_fields-format_line item h.0)
    ∙ ap (◌∷◌ item) (parse_lines-format items h.1))

format_text-Lacks :
    (items : List AirPlayPairingCredentials)
    → All IsKept items
    → Lacks 0 (format_pairing_credentials_text items)
unfolding format_pairing_credentials_text
format_text-Lacks [] h = tt
format_text-Lacks (item ∷ items) h = rw h.0.valid (
    All-append _ (format_line item) _ (format_line-Lacks 0 item refl refl h.0)
      (refl, format_text-Lacks items h.1))

parsed-stored :
    (items : List AirPlayPairingCredentials)
    → All IsKept items
    → parsed (c_string (format_pairing_credentials_text items)) ≡ items
unfolding parsed
parsed-stored items h =
    let cut = c_string_whole (format_pairing_credentials_text items) (format_text-Lacks items h) in
    ap (λ t. parse_pairing_credentials_text (c_string t)) cut
    ∙ ap parse_pairing_credentials_text cut
    ∙ parse_lines-format items h

push-IsKept :
    (o : Option AirPlayPairingCredentials) (items : List AirPlayPairingCredentials)
    → ((item : AirPlayPairingCredentials) → o ≡ some item → IsKept item)
    → All IsKept items
    → All IsKept (push o items)
push-IsKept none items h k = k
push-IsKept (some item) items h k = (h item refl, k)

parse_lines-IsKept :
    (lines : List Text)
    → All (Lacks 0) lines
    → All (Lacks b'\n') lines
    → All IsKept (parse_lines lines)
unfolding parse_lines split_pipe_fields
parse_lines-IsKept [] z n = tt
parse_lines-IsKept (line ∷ lines) z n =
    push-IsKept _ _
      (λ item e.
        parse_fields-IsKept (split b'|' line) item
          (fields-IsPlain (split b'|' line) (split-All _ b'|' line z.0) (split-All _ b'|' line n.0)
            (split-Lacks b'|' line))
          e)
      (parse_lines-IsKept lines z.1 n.1)

parsed-IsKept : (cfg : Text) → All IsKept (parsed cfg)
unfolding parsed parse_pairing_credentials_text
parsed-IsKept cfg =
    parse_lines-IsKept (split b'\n' (c_string cfg))
      (split-All _ b'\n' (c_string cfg) (c_string-Lacks cfg)) (split-Lacks b'\n' (c_string cfg))

put_item-IsKept :
    (credentials : AirPlayPairingCredentials) (items : List AirPlayPairingCredentials)
    → IsKept credentials
    → All IsKept items
    → All IsKept (put_item credentials items)
unfolding put_item
put_item-IsKept credentials [] k h = (k, tt)
put_item-IsKept credentials (item ∷ items) k h =
    elim (Bool-cases (text_eq item.output_id credentials.output_id)) [
      | inl e ↦ rw e (k, h.1)
      | inr e ↦ rw e (h.0, put_item-IsKept credentials items k h.1)
    ]

find-put_item :
    (k : Text) (credentials : AirPlayPairingCredentials) (items : List AirPlayPairingCredentials)
    → find_if (λ item. text_eq item.output_id k) (put_item credentials items) ≡ (
        if text_eq credentials.output_id k
        then some credentials
        else find_if (λ item. text_eq item.output_id k) items)
unfolding put_item find_if
find-put_item k credentials [] = refl
find-put_item k credentials (item ∷ items) = ground (
  arith,
  find-put_item k credentials items,
  text_eq_iff item.output_id credentials.output_id,
  text_eq_iff item.output_id k,
  text_eq_iff credentials.output_id k,
)

-- Credentials as the bytes and the ids that the setting can hold; they may be incomplete.
pub record IsWritable (item : AirPlayPairingCredentials) : Type 0 where
  pub plain_output : IsPlain item.output_id
  pub plain_client : IsPlain item.client_id
  pub seed_bytes : All IsByte item.controller_seed
  pub identifier_bytes : All IsByte item.accessory_identifier
  pub key_bytes : All IsByte item.accessory_public_key

writable-IsKept :
    (item : AirPlayPairingCredentials) → IsWritable item → is_valid item ≡ true → IsKept item
writable-IsKept item w v = record {
  valid = v;
  plain_output = w.plain_output;
  plain_client = w.plain_client;
  seed_bytes = w.seed_bytes;
  identifier_bytes = w.identifier_bytes;
  key_bytes = w.key_bytes;
}

-- Saving credentials of bytes, with ids that a field can hold, whatever the setting held: incomplete ones are refused with
-- `invalid_argument` and the setting stays; complete ones are loaded for their output afterwards, and for every
-- other output what was loaded before.
pub load-save :
    (credentials : AirPlayPairingCredentials) (cfg k : Text)
    → IsWritable credentials
    → ((is_valid credentials ≡ false)
        × Threw invalid_argument (save credentials cfg).0
        × ((save credentials cfg).1 ≡ cfg))
      ⊎ ((is_valid credentials ≡ true)
          × ((save credentials cfg).0 ≡ ok tt)
          × (load k (save credentials cfg).1
              ≡ (if text_eq credentials.output_id k then some credentials else load k cfg)))
unfolding save load
load-save credentials cfg k w = elim (Bool-cases (is_valid credentials)) [
  | inr e ↦ unfold save in inl (e, ground (arith, e), ground (arith, e))
  | inl e ↦
      let kept =
        put_item-IsKept credentials (parsed cfg) (writable-IsKept credentials w e)
          (parsed-IsKept cfg) in
      unfold save load in
      inr (
        e,
        ground (arith, e),
        ground (
          arith,
          e,
          parsed-stored (put_item credentials (parsed cfg)) kept,
          find-put_item k credentials (parsed cfg),
        ),
      )
]
