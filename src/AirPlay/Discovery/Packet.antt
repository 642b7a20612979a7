-- ===== src/AirPlay/Discovery/Packet.antt =====
-- transports/airplay/airplay_discovery.cpp: the DNS packets that discovery writes and reads.
use foobar_universal_multiro.AirPlay.Discovery.Names.{find_char, trim_trailing_dot, lower_ascii}
use foobar_universal_multiro.Core.Groups.Encoding.{nth}
use foobar_universal_multiro.Base.{
  Bool, List, Text, [], codes, drop, false, if◌then◌else◌, is_empty, length, ltb, none, not, some,
  suc, take, true, zero, ℕ, ◌%◌, ◌*◌, ◌++◌, ◌+◌, ◌/◌, ◌==◌, ◌^◌, ◌||◌, ◌∷◌, Option, leb, ◌&&◌,
}
use foobar_universal_multiro.Base.Throws.{fail_if, ◌>>=◌, ◌>>◌}
use foobar_universal_multiro.Base.Outcome.{Outcome, ok, out_of_range, invalid_argument}
use foobar_universal_multiro.Base.Map

abbrev truncated : Text
truncated = codes "DNS packet is truncated."

unfoldable pub read_u16 : Text → ℕ → Outcome ℕ
read_u16 packet offset = do
  fail_if (ltb (length packet) (offset + 2)) out_of_range truncated
  ok (nth packet offset * 2 ^ 8 + nth packet (offset + 1))

unfoldable pub read_u32 : Text → ℕ → Outcome ℕ
read_u32 packet offset = do
  fail_if (ltb (length packet) (offset + 4)) out_of_range truncated
  ok (
      nth packet offset * 2 ^ 24
      + nth packet (offset + 1) * 2 ^ 16
      + nth packet (offset + 2) * 2 ^ 8
      + nth packet (offset + 3))

-- What `c_str` shows: the text up to the first NUL.
unfoldable pub c_string : Text → Text
c_string [] = []
c_string (c ∷ text) = if c == 0 then [] else c ∷ c_string text

-- The text up to a separator, which `find` gave, and the text behind it.
abbrev pub before : Option ℕ → Text → Text
before none text = text
before (some separator) text = take separator text

abbrev pub behind : Option ℕ → Text → Text
behind none text = []
behind (some separator) text = drop (separator + 1) text

-- The loop over the labels; each pass takes a character at least.
pub append_labels : ℕ → Text → Outcome Text
append_labels fuel [] = ok []
append_labels zero name = ok []
append_labels (suc fuel) name =
    let label = before (find_char b'.' name) name in
    let rest = behind (find_char b'.' name) name in
    do
      fail_if (length label == 0 || ltb 63 (length label)) invalid_argument
          (codes "Invalid mDNS service name.")
      labels ← append_labels fuel rest
      ok (length label ∷ (label ++ labels))

-- What `append_dns_name` appends.
unfoldable pub append_dns_name : Text → Outcome Text
unfolding append_labels c_string
append_dns_name name =
    let label = c_string (trim_trailing_dot name) in
    do labels ← append_labels (length label) label; ok (labels ++ 0 ∷ [])

unfoldable pub make_dns_query : Text → ℕ → Bool → Outcome Text
make_dns_query name type request_unicast_response = do
  labels ← append_dns_name name
  let question_class = if request_unicast_response then 1 + 2 ^ 15 else 1
  ok (
      (0 ∷ 0 ∷ 0 ∷ 0 ∷ 0 ∷ 1 ∷ 0 ∷ 0 ∷ 0 ∷ 0 ∷ 0 ∷ 0 ∷ [])
      ++ (labels
          ++ (type / 2 ^ 8 ∷ type % 2 ^ 8 ∷ question_class / 2 ^ 8 ∷ question_class % 2 ^ 8 ∷ [])))

-- What `read_name` returns, what it leaves in `out` and in `offset`, and whether all that it read stands in the packet: the
-- source reads it without a check of its own.
pub record NameRead : Type 0 where
  pub found : Bool
  pub out : Text
  pub offset : ℕ
  pub in_range : Bool

-- A read of the packet up to `end`, behind which the name is read on.
abbrev pub reading : Text → ℕ → NameRead → NameRead
reading packet end name = record name { in_range = leb end (length packet) && name.in_range }

abbrev pub not_found : Text → ℕ → NameRead
not_found out cursor = record { found = false; out = out; offset = cursor; in_range = true }

-- A label behind those that were read.
abbrev pub append_label : Text → Text → Text
append_label out label = if is_empty out then label else out ++ b'.' ∷ label

-- The loop at `cursor`, where `jump` follows a pointer. Each pass without a jump moves the cursor on, so
-- `steps` is enough when it is the size of the packet.
unfoldable pub read_labels : Text → (ℕ → Text → NameRead) → ℕ → ℕ → Text → NameRead
read_labels packet jump zero cursor out = not_found out cursor
read_labels packet jump (suc steps) cursor out = elim (ltb cursor (length packet)) [
  | false ↦ not_found out cursor
  | true ↦
      let size = nth packet cursor in
      reading packet (cursor + 1) (elim (size == 0) [
        | true ↦ record { found = true; out = out; offset = cursor + 1; in_range = true }
        | false ↦ elim (size / 64 == 3) [
          | true ↦ elim (ltb (cursor + 1) (length packet)) [
            | false ↦ not_found out cursor
            | true ↦
                let pointer = size % 64 * 2 ^ 8 + nth packet (cursor + 1) in
                reading packet (cursor + 2) (elim (ltb pointer (length packet)) [
                  | false ↦ not_found out cursor
                  | true ↦ record (jump pointer out) { offset = cursor + 2 }
                ])
          ]
          | false ↦ elim (not (size / 64 == 0) || ltb (length packet) (cursor + 1 + size)) [
            | true ↦ not_found out cursor
            | false ↦ reading packet (cursor + 1 + size) (
                read_labels packet jump steps (cursor + 1 + size)
                  (append_label out (take size (drop (cursor + 1) packet))))
          ]
        ]
      ])
]

-- After a jump, with `depth` jumps left.
unfoldable pub follow : Text → ℕ → ℕ → Text → NameRead
unfolding read_labels
follow packet zero pointer out = not_found out pointer
follow packet (suc depth) pointer out =
    read_labels packet (follow packet depth) (length packet) pointer out

unfoldable pub read_name : Text → ℕ → NameRead
unfolding read_labels follow
read_name packet offset = read_labels packet (follow packet 12) (length packet) offset []

-- One item of a TXT record, `key=value` or a key alone.
pub add_item : Text → List (Text × Text) → List (Text × Text)
unfolding find_char lower_ascii
add_item item result =
    let key = lower_ascii (before (find_char b'=' item) item) in
    let value = behind (find_char b'=' item) item in
    if is_empty key then result else Map.assign key value result

-- The loop over the record's bytes; each pass takes one at least.
pub parse_items : ℕ → Text → List (Text × Text) → List (Text × Text)
unfolding add_item
parse_items fuel [] result = result
parse_items zero bytes result = result
parse_items (suc fuel) (item_length ∷ bytes) result =
    let rest =
      parse_items fuel (drop item_length bytes) (add_item (take item_length bytes) result) in
    if ltb (length bytes) item_length then result else rest

unfoldable pub parse_txt : Text → ℕ → ℕ → List (Text × Text)
unfolding parse_items
parse_txt packet offset size = parse_items size (take size (drop offset packet)) []
