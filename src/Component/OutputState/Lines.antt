-- ===== src/Component/OutputState/Lines.antt =====
-- One stored line of `cfg_airplay_output_state`: what was written is read back, and what is read can be written.
use foobar_universal_multiro.Base.Int.{ℤ, pos, negsuc, clamp_ℤ_idem}
use foobar_universal_multiro.Component.Fields.{
  parse_int_field, print_int, split_pipe_fields, clamp_percent,
}
use foobar_universal_multiro.Base.Decimal.{is_digit, decimal, decimal-IsDigit}
use foobar_universal_multiro.Core.Groups.Encoding.Split.{Lacks, split_cut, split_last}
use foobar_universal_multiro.Component.OutputState.{
  StoredOutputState, format_line, flag, parse_fields, read_state,
}
use foobar_universal_multiro.Base.{
  Text, ==_iff, All, All-append, All-map, Bool, Option, [], ap, arith, codes, every_until,
  every_until_at, false, if◌then◌else◌, is_empty, ltb, none, not, refl, some, text_eq, true, ℕ, ◌<◌,
  ◌==◌, ◌||◌, ◌∙◌, ◌∷◌, ◌≡◌, ◌≢◌,
}

-- A text that can stand in a field of the setting: no separator, no line end, no NUL.
abbrev pub is_plain_char : ℕ → Bool
is_plain_char c = not (c == b'|' || c == b'\n' || c == 0)

abbrev pub IsPlain : Text → Type 0
IsPlain = All (λ c. is_plain_char c ≡ true)

-- A state as the setting keeps it.
pub record IsStored (state : StoredOutputState) : Type 0 where
  pub plain : IsPlain state.output_id
  pub named : is_empty state.output_id ≡ false
  pub in_range : clamp_percent state.volume ≡ state.volume

pub IsPlain-Lacks :
    (separator : ℕ) (text : Text)
    → is_plain_char separator ≡ false
    → IsPlain text
    → Lacks separator text
IsPlain-Lacks separator text h = All-map (λ c p. ground (arith, p, h)) text

decimal-Lacks : (separator n : ℕ) → is_digit separator ≡ false → Lacks separator (decimal n)
decimal-Lacks separator n h = All-map (λ c p. ground (arith, p, h)) (decimal n) (decimal-IsDigit n)

-- The volumes are read back as they were written.
abbrev reads_back : ℕ → Bool
reads_back n = elim (parse_int_field (print_int (pos n))) [
  | none ↦ false
  | some v ↦ elim v [ pos m ↦ m == n | negsuc m ↦ false ]
]

percent_table : every_until reads_back 101 ≡ true
unfolding every_until parse_int_field print_int is_empty
percent_table = refl

reads_back_lem :
    (n : ℕ) (read : Option ℤ)
    → elim read [ none ↦ false | some v ↦ elim v [ pos m ↦ m == n | negsuc m ↦ false ] ] ≡ true
    → read ≡ some (pos n)
reads_back_lem n none h = cc
reads_back_lem n (some (pos m)) h = ap (λ k. some (pos k)) ((==_iff m n).0 h)
reads_back_lem n (some (negsuc m)) h = cc

percent-cases : (v : ℤ) → (n : ℕ) × (clamp_percent v ≡ pos n) × (n < 101)
percent-cases (pos n) = (if ltb 100 n then 100 else n, ground arith, ground arith)
percent-cases (negsuc n) = (0, ground arith, omega arith)

parse_int_field-print_int :
    (v : ℤ) → parse_int_field (print_int (clamp_percent v)) ≡ some (clamp_percent v)
parse_int_field-print_int v =
    let (n, e, lt) = percent-cases v in
    rw e (reads_back_lem n _ (every_until_at reads_back 101 n lt percent_table))

print_int-Lacks :
    (separator : ℕ) (v : ℤ)
    → is_digit separator ≡ false
    → Lacks separator (print_int (clamp_percent v))
unfolding print_int
print_int-Lacks separator v h =
    let (n, e, lt) = percent-cases v in rw e (decimal-Lacks separator n h)

flag-Lacks : (separator : ℕ) (b : Bool) → is_digit separator ≡ false → Lacks separator (flag b)
flag-Lacks separator true h = (ground (arith, h), tt)
flag-Lacks separator false h = (ground (arith, h), tt)

-- A character that no field of the line holds stands nowhere in it.
pub format_line-Lacks :
    (c : ℕ) (state : StoredOutputState)
    → is_plain_char c ≡ false
    → (b'|' == c) ≡ false
    → IsPlain state.output_id
    → Lacks c (format_line state)
unfolding format_line
format_line-Lacks c state h bar p =
    let no_digit : is_digit c ≡ false = ground (arith, h) in
    All-append _ state.output_id _ (IsPlain-Lacks c state.output_id h p) (
      bar,
      All-append _ (flag state.selected) _ (flag-Lacks c state.selected no_digit) (
        bar,
        All-append _ (print_int (clamp_percent state.volume)) _
            (print_int-Lacks c state.volume no_digit)
            (bar, flag-Lacks c state.visible_in_dropdown no_digit),
      ),
    )

flag-ne-nil : (b : Bool) → flag b ≢ []
flag-ne-nil true = λ e. cc
flag-ne-nil false = λ e. cc

split-format_line :
    (state : StoredOutputState)
    → IsPlain state.output_id
    → split_pipe_fields (format_line state)
      ≡ state.output_id
        ∷ flag state.selected
        ∷ print_int (clamp_percent state.volume)
        ∷ flag state.visible_in_dropdown
        ∷ []
unfolding split_pipe_fields format_line
split-format_line state p =
    split_cut b'|' state.output_id _ (IsPlain-Lacks b'|' state.output_id refl p)
    ∙ ap (◌∷◌ state.output_id) (
        split_cut b'|' (flag state.selected) _ (flag-Lacks b'|' state.selected refl)
        ∙ ap (◌∷◌ (flag state.selected)) (
            split_cut b'|' (print_int (clamp_percent state.volume)) _
              (print_int-Lacks b'|' state.volume refl)
            ∙ ap (◌∷◌ (print_int (clamp_percent state.volume))) (
                split_last b'|' (flag state.visible_in_dropdown)
                  (flag-Lacks b'|' state.visible_in_dropdown refl)
                  (flag-ne-nil state.visible_in_dropdown))))

flag-selected : (b : Bool) → text_eq (flag b) (codes "1") ≡ b
unfolding text_eq
flag-selected true = refl
flag-selected false = refl

flag-visible : (b : Bool) → not (text_eq (flag b) (codes "0")) ≡ b
unfolding text_eq
flag-visible true = refl
flag-visible false = refl

-- The state that is read for a state that was written.
abbrev pub clamped_state : StoredOutputState → StoredOutputState
clamped_state state = record state { volume = clamp_percent state.volume }

pub clamp_percent_idem : (v : ℤ) → clamp_percent (clamp_percent v) ≡ clamp_percent v
clamp_percent_idem v = clamp_ℤ_idem v (pos 0) (pos 100) (omega arith)

pub parse_fields-format_line :
    (state : StoredOutputState)
    → IsPlain state.output_id
    → is_empty state.output_id ≡ false
    → parse_fields (split_pipe_fields (format_line state)) ≡ some (clamped_state state)
unfolding parse_fields read_state
parse_fields-format_line state p named = rw (split-format_line state p) (
    ground (
      arith,
      named,
      parse_int_field-print_int state.volume,
      flag-selected state.selected,
      flag-visible state.visible_in_dropdown,
      clamp_percent_idem state.volume,
    ))
