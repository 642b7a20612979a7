-- ===== src/Component/OutputState/Stored.antt =====
-- The whole setting `cfg_airplay_output_state`: what is stored is loaded again, and what an update does to it.
use foobar_universal_multiro.Component.Fields.{split_pipe_fields, parse_int_field, clamp_percent}
use foobar_universal_multiro.Core.Groups.Encoding.{split}
use foobar_universal_multiro.Core.Groups.Encoding.Split.{Lacks, split-All, split_cut, split-Lacks}
use foobar_universal_multiro.Component.OutputState.Lines.{
  is_plain_char, IsPlain, IsStored, clamped_state, format_line-Lacks, parse_fields-format_line,
  clamp_percent_idem,
}
use foobar_universal_multiro.AirPlay.Discovery.Packet.{c_string}
use foobar_universal_multiro.Component.OutputState.{
  StoredOutputState, parse_output_state_text, format_output_state_text, load_output_state,
  read_state, parse_fields, parse_lines, format_line, store, push,
}
use foobar_universal_multiro.Base.{
  Text, All, All-append, All-map, Bool, Bool-cases, List, Option, Option-cases, [], ap, arith,
  codes, false, inl, inr, is_empty, keep_if, map, none, not, refl, some, subst, text_eq, true, ℕ,
  ◌==◌, ◌∙◌, ◌∷◌, ◌≡◌,
}

abbrev HasPlainId : StoredOutputState → Type 0
HasPlainId state = IsPlain state.output_id

abbrev pub has_id : StoredOutputState → Bool
has_id state = not (is_empty state.output_id)

parse-format_text :
    (states : List StoredOutputState)
    → All HasPlainId states
    → parse_output_state_text (format_output_state_text states)
      ≡ map clamped_state (keep_if has_id states)
unfolding parse_output_state_text parse_lines format_output_state_text keep_if split
parse-format_text [] h = refl
parse-format_text (state ∷ states) h = elim (Bool-cases (is_empty state.output_id)) [
  | inl e ↦ rw e (parse-format_text states h.1)
  | inr e ↦ rw e (
      ap parse_lines (
        split_cut b'\n' (format_line state) (format_output_state_text states)
          (format_line-Lacks b'\n' state refl refl h.0))
      ∙ ap (λ o. push o (parse_lines (split b'\n' (format_output_state_text states))))
          (parse_fields-format_line state h.0 e)
      ∙ ap (◌∷◌ (clamped_state state)) (parse-format_text states h.1))
]

format_text-Lacks :
    (states : List StoredOutputState)
    → All HasPlainId states
    → Lacks 0 (format_output_state_text states)
unfolding format_output_state_text
format_text-Lacks [] h = tt
format_text-Lacks (state ∷ states) h = elim (Bool-cases (is_empty state.output_id)) [
  | inl e ↦ rw e (format_text-Lacks states h.1)
  | inr e ↦ rw e (
      All-append _ (format_line state) _ (format_line-Lacks 0 state refl refl h.0)
        (refl, format_text-Lacks states h.1))
]

pub c_string_whole : (text : Text) → Lacks 0 text → c_string text ≡ text
unfolding c_string
c_string_whole [] h = refl
c_string_whole (c ∷ text) h = ground (arith, h.0, c_string_whole text h.1)

pub c_string-Lacks : (text : Text) → Lacks 0 (c_string text)
unfolding c_string
c_string-Lacks [] = tt
c_string-Lacks (c ∷ text) = elim (Bool-cases (c == 0)) [
  | inl e ↦ rw e tt
  | inr e ↦ rw e (e, c_string-Lacks text)
]

-- States with ids that can stand in a field are loaded as they were stored: those with an id, in their order,
-- with their volumes clamped.
pub load-store :
    (states : List StoredOutputState)
    → All HasPlainId states
    → load_output_state (store states) ≡ map clamped_state (keep_if has_id states)
unfolding load_output_state
load-store states h =
    let cut = c_string_whole (format_output_state_text states) (format_text-Lacks states h) in
    ap (λ t. parse_output_state_text (c_string t)) cut
    ∙ ap parse_output_state_text cut
    ∙ parse-format_text states h

-- What is read from a line.
read_state-IsStored :
    (id selected volume : Text) (visible : Bool) (state : StoredOutputState)
    → IsPlain id
    → read_state id selected volume visible ≡ some state
    → IsStored state
unfolding read_state
read_state-IsStored id selected volume visible state p h = elim (Bool-cases (is_empty id)) [
  | inl e ↦ absurd (ground (arith, e))
  | inr e ↦ elim (Option-cases (parse_int_field volume)) [
    | inl n ↦ absurd (ground (arith, e, n))
    | inr (v, n) ↦
        let same : record {
          output_id = id;
          selected = text_eq selected (codes "1");
          volume = clamp_percent v;
          visible_in_dropdown = visible;
        }
            ≡ state =
          ground (arith, e, n) in
        subst IsStored same (record { plain = p; named = e; in_range = clamp_percent_idem v })
  ]
]

plain_char :
    (c : ℕ) → (c == 0) ≡ false → (c == b'\n') ≡ false → (c == b'|') ≡ false → is_plain_char c ≡ true
plain_char c z n b = ground (arith, z, n, b)

-- The fields of a line of a C string.
abbrev FieldOf : Text → Type 0
FieldOf field = Lacks 0 field × Lacks b'\n' field × Lacks b'|' field

field-IsPlain :
    (field : Text) → Lacks 0 field → Lacks b'\n' field → Lacks b'|' field → IsPlain field
field-IsPlain [] z n b = tt
field-IsPlain (c ∷ field) z n b = (plain_char c z.0 n.0 b.0, field-IsPlain field z.1 n.1 b.1)

pub fields-IsPlain :
    (fields : List Text)
    → All (Lacks 0) fields
    → All (Lacks b'\n') fields
    → All (Lacks b'|') fields
    → All IsPlain fields
fields-IsPlain [] z n b = tt
fields-IsPlain (field ∷ fields) z n b =
    (field-IsPlain field z.0 n.0 b.0, fields-IsPlain fields z.1 n.1 b.1)

parse_fields-IsStored :
    (fields : List Text) (state : StoredOutputState)
    → All IsPlain fields
    → parse_fields fields ≡ some state
    → IsStored state
unfolding parse_fields
parse_fields-IsStored [] state p h = absurd (cc)
parse_fields-IsStored (a ∷ []) state p h = absurd (cc)
parse_fields-IsStored (a ∷ b ∷ []) state p h = absurd (cc)
parse_fields-IsStored (a ∷ b ∷ c ∷ []) state p h = read_state-IsStored a b c true state p.0 h
parse_fields-IsStored (a ∷ b ∷ c ∷ d ∷ []) state p h =
    read_state-IsStored a b c (not (text_eq d (codes "0"))) state p.0 h
parse_fields-IsStored (a ∷ b ∷ c ∷ d ∷ e ∷ rest) state p h = absurd (cc)

push-IsStored :
    (o : Option StoredOutputState) (states : List StoredOutputState)
    → ((state : StoredOutputState) → o ≡ some state → IsStored state)
    → All IsStored states
    → All IsStored (push o states)
push-IsStored none states h k = k
push-IsStored (some state) states h k = (h state refl, k)

parse_lines-IsStored :
    (lines : List Text)
    → All (Lacks 0) lines
    → All (Lacks b'\n') lines
    → All IsStored (parse_lines lines)
unfolding parse_lines split_pipe_fields
parse_lines-IsStored [] z n = tt
parse_lines-IsStored (line ∷ lines) z n =
    push-IsStored _ _
      (λ state e.
        parse_fields-IsStored (split b'|' line) state
          (fields-IsPlain (split b'|' line) (split-All _ b'|' line z.0) (split-All _ b'|' line n.0)
            (split-Lacks b'|' line))
          e)
      (parse_lines-IsStored lines z.1 n.1)

-- Whatever the setting holds, what is loaded from it can be stored.
pub load-IsStored : (cfg : Text) → All IsStored (load_output_state cfg)
unfolding load_output_state parse_output_state_text
load-IsStored cfg =
    parse_lines-IsStored (split b'\n' (c_string cfg))
      (split-All _ b'\n' (c_string cfg) (c_string-Lacks cfg)) (split-Lacks b'\n' (c_string cfg))

stored_fixed :
    (states : List StoredOutputState)
    → All IsStored states
    → map clamped_state (keep_if has_id states) ≡ states
unfolding keep_if
stored_fixed [] h = refl
stored_fixed (state ∷ states) h = rw h.0.named (
    ap (λ v. record state { volume = v } ∷ map clamped_state (keep_if has_id states)) h.0.in_range
    ∙ ap (◌∷◌ state) (stored_fixed states h.1))

pub IsStored-plain : (states : List StoredOutputState) → All IsStored states → All HasPlainId states
IsStored-plain states h = All-map (λ s v. v.plain) states h

-- States as the setting keeps them are loaded exactly as they were stored.
pub load-store_fixed :
    (states : List StoredOutputState)
    → All IsStored states
    → load_output_state (store states) ≡ states
load-store_fixed states h = load-store states (IsStored-plain states h) ∙ stored_fixed states h
