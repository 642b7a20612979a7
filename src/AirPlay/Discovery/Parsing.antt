-- ===== src/AirPlay/Discovery/Parsing.antt =====
-- That a response of mDNS is read without an exception, whatever its bytes.
use foobar_universal_multiro.Core.Groups.Encoding.{nth}
use foobar_universal_multiro.Base.Outcome.{ok, when, Returned, when-Returned, then_Returned, modify}
use foobar_universal_multiro.AirPlay.Discovery.Packet.{
  read_u16, read_u32, read_name, read_labels, follow, NameRead, append_label,
}
use foobar_universal_multiro.Base.{
  Text, take, drop, [], arith, false, length, ltb, refl, suc, true, zero, ℕ, ◌*◌, ◌+◌, ◌^◌, ◌≡◌,
  ◌≤◌, Bool-cases, inl, inr, leb, not, ◌%◌, ◌&&◌, ◌==◌, ◌||◌, Option-cases,
}
use foobar_universal_multiro.AirPlay.Discovery.Response.{
  Known, add_record, parse_records, parse_response, skip_questions, parse_sections,
  apply_host_addresses,
}

read_u16-ok :
    (packet : Text) (offset : ℕ)
    → ltb (length packet) (offset + 2) ≡ false
    → (n : ℕ) × (read_u16 packet offset ≡ ok n)
unfolding read_u16
read_u16-ok packet offset h = (nth packet offset * 2 ^ 8 + nth packet (offset + 1), rw h refl)

read_u32-ok :
    (packet : Text) (offset : ℕ)
    → ltb (length packet) (offset + 4) ≡ false
    → (n : ℕ) × (read_u32 packet offset ≡ ok n)
unfolding read_u32
read_u32-ok packet offset h = (
  nth packet offset * 2 ^ 24
      + nth packet (offset + 1) * 2 ^ 16
      + nth packet (offset + 2) * 2 ^ 8
      + nth packet (offset + 3),
  rw h refl,
)

read_labels-in_range :
    (packet : Text) (jump : ℕ → Text → NameRead) (steps cursor : ℕ) (out : Text)
    → ((pointer : ℕ) (text : Text) → (jump pointer text).in_range ≡ true)
    → (read_labels packet jump steps cursor out).in_range ≡ true
unfolding read_labels
read_labels-in_range packet jump zero cursor out h = refl
read_labels-in_range packet jump (suc steps) cursor out h =
    let size = nth packet cursor in
    let next = cursor + 1 + size in
    let longer = append_label out (take size (drop (cursor + 1) packet)) in
    ground (
      arith,
      h (size % 64 * 2 ^ 8 + nth packet (cursor + 1)) out,
      read_labels-in_range packet jump steps next longer h,
    )

follow-in_range :
    (packet : Text) (depth pointer : ℕ) (out : Text)
    → (follow packet depth pointer out).in_range ≡ true
unfolding follow
follow-in_range packet zero pointer out = refl
follow-in_range packet (suc depth) pointer out =
    read_labels-in_range packet (follow packet depth) (length packet) pointer out
      (follow-in_range packet depth)

read_name-in_range : (packet : Text) (offset : ℕ) → (read_name packet offset).in_range ≡ true
unfolding read_name
read_name-in_range packet offset =
    read_labels-in_range packet (follow packet 12) (length packet) offset []
      (follow-in_range packet 12)

module _ (ntop4 ntop6 : Text → Text) where
  add_record-ok :
      (packet response_address name : Text) (type rdata_offset rdlength : ℕ) (known : Known)
      → rdata_offset + rdlength ≤ length packet
      → (add_record ntop4 ntop6 packet response_address name type rdata_offset rdlength known).0
        ≡ ok tt
  unfolding add_record read_u16
  add_record-ok packet response_address name type rdata_offset rdlength known h = ground arith

  when-add_record-Returned :
      (packet response_address name : Text) (type rr_class rdata_offset rdlength : ℕ)
      (known : Known)
      → Returned (
          when
            (rr_class % 2 ^ 15 == 1 && leb (rdata_offset + rdlength) (length packet))
            (add_record ntop4 ntop6 packet response_address name type rdata_offset rdlength)
            known)
  when-add_record-Returned packet response_address name type rr_class rdata_offset rdlength known =
      when-Returned (rr_class % 2 ^ 15 == 1 && leb (rdata_offset + rdlength) (length packet))
        (add_record ntop4 ntop6 packet response_address name type rdata_offset rdlength) known
        (λ h. (
          tt,
          add_record-ok packet response_address name type rdata_offset rdlength known
              (ground arith),
        ))

  parse_records-Returned :
      (packet response_address : Text) (count offset : ℕ) (known : Known)
      → Returned (parse_records ntop4 ntop6 packet response_address count offset known)
  unfolding parse_records
  parse_records-Returned packet response_address zero offset known = (true, refl)
  parse_records-Returned packet response_address (suc count) offset known =
      let name = read_name packet offset in
      elim (Bool-cases (not name.found || ltb (length packet) (name.offset + 10))) [
        | inl e ↦ rw (e, parse_records) (false, refl)
        | inr e ↦
            rw (e, parse_records)
              (then_Returned _ _ (read_u16-ok packet name.offset (ground arith)) (λ type s1.
                then_Returned _ _ (read_u16-ok packet (name.offset + 2) (ground arith))
                  (λ rr_class s2.
                    then_Returned _ _ (read_u32-ok packet (name.offset + 4) (ground arith))
                      (λ ttl s3.
                        then_Returned _ _ (read_u16-ok packet (name.offset + 8) (ground arith))
                          (λ rdlength s4.
                            then_Returned _ _
                              (when-add_record-Returned packet response_address name.out type
                                rr_class (name.offset + 10) rdlength s4)
                              (λ u s5.
                                parse_records-Returned packet response_address count
                                  (name.offset + 10 + rdlength) s5))))))
      ]

  parse_sections-Returned :
      (packet response_address : Text) (qdcount rr_count : ℕ) (known : Known)
      → Returned (parse_sections ntop4 ntop6 packet response_address qdcount rr_count known)
  unfolding parse_sections
  parse_sections-Returned packet response_address qdcount rr_count known =
      elim (Option-cases (skip_questions packet qdcount 12)) [
        | inl e ↦ rw (e, parse_sections) (tt, refl)
        | inr (offset, e) ↦
            rw (e, parse_sections)
              (then_Returned (λ finished. when finished (modify apply_host_addresses))
                (parse_records ntop4 ntop6 packet response_address rr_count offset known)
                (parse_records-Returned packet response_address rr_count offset known)
                (λ finished s.
                  when-Returned finished (modify apply_host_addresses) s (λ f. (tt, refl))))
      ]

  parse_bytes-Returned :
      (packet response_address : Text) (known : Known)
      → Returned (parse_response ntop4 ntop6 packet response_address known)
  unfolding parse_response
  parse_bytes-Returned packet response_address known = elim (Bool-cases (leb 12 (length packet))) [
    | inr e ↦ rw (e, parse_response) (tt, refl)
    | inl e ↦
        rw (e, parse_response)
          (then_Returned _ _ (read_u16-ok packet 4 (ground (arith, e))) (λ qdcount s1.
            then_Returned _ _ (read_u16-ok packet 6 (ground (arith, e))) (λ ancount s2.
              then_Returned _ _ (read_u16-ok packet 8 (ground (arith, e))) (λ nscount s3.
                then_Returned _ _ (read_u16-ok packet 10 (ground (arith, e))) (λ arcount s4.
                  parse_sections-Returned packet response_address qdcount
                    (ancount + nscount + arcount) s4)))))
  ]

  -- Whatever bytes a response holds, `parse_response` returns: it calls `read_u16` and `read_u32` only where they do not throw.
  -- And wherever a name is read, whatever pointers it follows, `read_name` reads bytes of the packet only.
  pub parse_response-Returned :
      (packet response_address : Text) (known : Known) (offset : ℕ)
      → Returned (parse_response ntop4 ntop6 packet response_address known)
        × ((read_name packet offset).in_range ≡ true)
  parse_response-Returned packet response_address known offset =
      (parse_bytes-Returned packet response_address known, read_name-in_range packet offset)
