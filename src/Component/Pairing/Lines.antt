-- ===== src/Component/Pairing/Lines.antt =====
-- One stored line of `cfg_airplay_pairing_credentials`: what was written is read back.
use foobar_universal_multiro.Core.Groups.Line.{hex_encode-Lacks}
use foobar_universal_multiro.Core.Groups.Encoding.{decode_pairs}
use foobar_universal_multiro.Core.Groups.Encoding.Split.{split_cut, Lacks, split_last}
use foobar_universal_multiro.Component.OutputState.Lines.{is_plain_char, IsPlain, IsPlain-Lacks}
use foobar_universal_multiro.Core.Groups.Encoding.Hex.{
  IsByte, hex_encode-ne-nil, length-hex_encode, decode_pairs-hex_encode, decode_pairs-IsByte,
}
use foobar_universal_multiro.Component.Pairing.{format_line, parse_fields, is_valid}
use foobar_universal_multiro.Component.Fields.{bytes_from_hex, hex_from_bytes, split_pipe_fields}
use foobar_universal_multiro.AirPlay.Client.{AirPlayPairingCredentials}
use foobar_universal_multiro.Base.{
  Text, All, All-append, Bool-cases, List, Option-cases, [], ap, arith, false, inl, inr, length,
  refl, some, subst, true, ℕ, ◌%◌, ◌==◌, ◌∙◌, ◌∷◌, ◌≡◌, ◌≢◌,
}

-- Credentials that the setting can hold.
pub record IsKept (item : AirPlayPairingCredentials) : Type 0 where
  pub valid : is_valid item ≡ true
  pub plain_output : IsPlain item.output_id
  pub plain_client : IsPlain item.client_id
  pub seed_bytes : All IsByte item.controller_seed
  pub identifier_bytes : All IsByte item.accessory_identifier
  pub key_bytes : All IsByte item.accessory_public_key

bytes_from_hex-hex_from_bytes :
    (bytes : Text) → All IsByte bytes → bytes_from_hex (hex_from_bytes bytes) ≡ bytes
unfolding bytes_from_hex hex_from_bytes
bytes_from_hex-hex_from_bytes bytes h =
    ground (arith, length-hex_encode bytes, decode_pairs-hex_encode bytes h)

hex_from_bytes-Lacks :
    (c : ℕ) (bytes : Text) → is_plain_char c ≡ false → Lacks c (hex_from_bytes bytes)
unfolding hex_from_bytes
hex_from_bytes-Lacks c bytes h = hex_encode-Lacks c bytes (λ d x. ground (arith, x, h))

pub format_line-Lacks :
    (c : ℕ) (item : AirPlayPairingCredentials)
    → is_plain_char c ≡ false
    → (b'|' == c) ≡ false
    → IsKept item
    → Lacks c (format_line item)
unfolding format_line
format_line-Lacks c item h bar k =
    All-append _ item.output_id _ (IsPlain-Lacks c item.output_id h k.plain_output) (
      bar,
      All-append _ item.client_id _ (IsPlain-Lacks c item.client_id h k.plain_client) (
        bar,
        All-append _ (hex_from_bytes item.controller_seed) _
            (hex_from_bytes-Lacks c item.controller_seed h)
            (
              bar,
              All-append _ (hex_from_bytes item.accessory_identifier) _
                  (hex_from_bytes-Lacks c item.accessory_identifier h)
                  (bar, hex_from_bytes-Lacks c item.accessory_public_key h),
            ),
      ),
    )

hex_from_bytes-ne-nil : (bytes : Text) → length bytes ≡ 32 → hex_from_bytes bytes ≢ []
unfolding hex_from_bytes
hex_from_bytes-ne-nil bytes h =
    hex_encode-ne-nil bytes (λ e. absurd (omega (arith, h, ap length e)))

split-format_line :
    (item : AirPlayPairingCredentials)
    → IsKept item
    → split_pipe_fields (format_line item)
      ≡ item.output_id
        ∷ item.client_id
        ∷ hex_from_bytes item.controller_seed
        ∷ hex_from_bytes item.accessory_identifier
        ∷ hex_from_bytes item.accessory_public_key
        ∷ []
unfolding split_pipe_fields format_line
split-format_line item k =
    split_cut b'|' item.output_id _ (IsPlain-Lacks b'|' item.output_id refl k.plain_output)
    ∙ ap (◌∷◌ item.output_id) (
        split_cut b'|' item.client_id _ (IsPlain-Lacks b'|' item.client_id refl k.plain_client)
        ∙ ap (◌∷◌ item.client_id) (
            split_cut b'|' (hex_from_bytes item.controller_seed) _
              (hex_from_bytes-Lacks b'|' item.controller_seed refl)
            ∙ ap (◌∷◌ (hex_from_bytes item.controller_seed)) (
                split_cut b'|' (hex_from_bytes item.accessory_identifier) _
                  (hex_from_bytes-Lacks b'|' item.accessory_identifier refl)
                ∙ ap (◌∷◌ (hex_from_bytes item.accessory_identifier)) (
                    split_last b'|' (hex_from_bytes item.accessory_public_key)
                      (hex_from_bytes-Lacks b'|' item.accessory_public_key refl)
                      (hex_from_bytes-ne-nil item.accessory_public_key
                        (unfold is_valid in ground (arith, k.valid)))))))

pub parse_fields-format_line :
    (item : AirPlayPairingCredentials)
    → IsKept item
    → parse_fields (split_pipe_fields (format_line item)) ≡ some item
unfolding parse_fields
parse_fields-format_line item k =
    rw
      (
        split-format_line item k,
        bytes_from_hex-hex_from_bytes item.controller_seed k.seed_bytes,
        bytes_from_hex-hex_from_bytes item.accessory_identifier k.identifier_bytes,
        bytes_from_hex-hex_from_bytes item.accessory_public_key k.key_bytes,
        k.valid,
      )
      refl

bytes_from_hex-IsByte : (text : Text) → All IsByte (bytes_from_hex text)
unfolding bytes_from_hex
bytes_from_hex-IsByte text = elim (Bool-cases (length text % 2 == 0)) [
  | inr e ↦ rw e tt
  | inl e ↦ elim (Option-cases (decode_pairs text)) [
    | inl n ↦ rw (e, n) tt
    | inr (bytes, n) ↦ rw (e, n) (decode_pairs-IsByte text bytes n)
  ]
]

-- What is read from a line can be kept.
pub parse_fields-IsKept :
    (fields : List Text) (item : AirPlayPairingCredentials)
    → All IsPlain fields
    → parse_fields fields ≡ some item
    → IsKept item
unfolding parse_fields
parse_fields-IsKept (a ∷ b ∷ c ∷ d ∷ e ∷ []) item p h =
    let read : AirPlayPairingCredentials = record {
      output_id = a;
      client_id = b;
      controller_seed = bytes_from_hex c;
      accessory_identifier = bytes_from_hex d;
      accessory_public_key = bytes_from_hex e;
    } in
    elim (Bool-cases (is_valid read)) [
      | inr n ↦ absurd (ground (arith, n))
      | inl v ↦
          let same : read ≡ item = ground (arith, v) in
          subst IsKept same (record {
            valid = v;
            plain_output = p.0;
            plain_client = p.1.0;
            seed_bytes = bytes_from_hex-IsByte c;
            identifier_bytes = bytes_from_hex-IsByte d;
            key_bytes = bytes_from_hex-IsByte e;
          })
    ]
parse_fields-IsKept [] item p h = absurd (cc)
parse_fields-IsKept (a ∷ []) item p h = absurd (cc)
parse_fields-IsKept (a ∷ b ∷ []) item p h = absurd (cc)
parse_fields-IsKept (a ∷ b ∷ c ∷ []) item p h = absurd (cc)
parse_fields-IsKept (a ∷ b ∷ c ∷ d ∷ []) item p h = absurd (cc)
parse_fields-IsKept (a ∷ b ∷ c ∷ d ∷ e ∷ f ∷ rest) item p h = absurd (cc)
