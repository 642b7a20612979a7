-- ===== src/Core/Groups/Normal.antt =====
-- `normalize_speaker_group`: what it gives, and that it does so once and for all.
use foobar_universal_multiro.Base.{
  All, All-append, Bool-cases, Distinct, Distinct-snoc, Distinct-middle, List, Text, [], append-nil,
  append_assoc, arith, contains, contains-append, false, inl, inr, is_empty, map, not, refl, sym,
  text_eq, text_eq_iff, ◌&&◌, ◌++◌, ◌||◌, ◌∙◌, ◌∷◌, ◌≡◌,
}
use foobar_universal_multiro.Core.Groups.{SpeakerGroup, normalize_ids, normalize_speaker_group}
use foobar_universal_multiro.Core.Groups.Encoding.{trim_ascii}
use foobar_universal_multiro.Core.Groups.Encoding.Trim.{trim_ascii_idem}

-- An id as the groups keep it.
abbrev pub IsTrimmed : Text → Type 0
IsTrimmed text = (trim_ascii text ≡ text) × (is_empty text ≡ false)

pub record IsNormal (group : SpeakerGroup) : Type 0 where
  pub id_trimmed : trim_ascii group.id ≡ group.id
  pub name_trimmed : trim_ascii group.name ≡ group.name
  pub ids_trimmed : All IsTrimmed group.output_ids
  pub ids_distinct : Distinct group.output_ids

normalize_ids-normal :
    (kept ids : List Text)
    → All IsTrimmed kept
    → Distinct kept
    → All IsTrimmed (normalize_ids kept ids) × Distinct (normalize_ids kept ids)
unfolding normalize_ids
normalize_ids-normal kept [] a d = (a, d)
normalize_ids-normal kept (id ∷ ids) a d =
    elim (Bool-cases (is_empty (trim_ascii id) || contains kept (trim_ascii id))) [
      | inl skip ↦ rw skip (normalize_ids-normal kept ids a d)
      | inr keep ↦ rw keep (
          normalize_ids-normal (kept ++ trim_ascii id ∷ []) ids
            (All-append IsTrimmed kept (trim_ascii id ∷ []) a
              ((trim_ascii_idem id, ground (arith, keep)), tt))
            (Distinct-snoc kept (trim_ascii id) d (ground (arith, keep))))
    ]

normalize_ids-contains :
    (kept ids : List Text) (k : Text)
    → contains (normalize_ids kept ids) k
      ≡ (contains kept k || (not (is_empty k) && contains (map trim_ascii ids) k))
unfolding normalize_ids contains
normalize_ids-contains kept [] k = ground arith
normalize_ids-contains kept (id ∷ ids) k =
    let t = trim_ascii id in
    elim (Bool-cases (text_eq t k)) [
      | inl same ↦
          let e : t ≡ k = (text_eq_iff t k).0 same in
          ground (
            arith,
            same,
            e,
            normalize_ids-contains kept ids k,
            normalize_ids-contains (kept ++ t ∷ []) ids k,
            contains-append kept (t ∷ []) k,
          )
      | inr other ↦ ground (
        arith,
        other,
        normalize_ids-contains kept ids k,
        normalize_ids-contains (kept ++ t ∷ []) ids k,
        contains-append kept (t ∷ []) k,
      )
    ]

pub normalize_speaker_group-IsNormal :
    (group : SpeakerGroup) → IsNormal (normalize_speaker_group group)
unfolding normalize_speaker_group
normalize_speaker_group-IsNormal group =
    let (trimmed, distinct) = normalize_ids-normal [] group.output_ids tt tt in
    record {
      id_trimmed = trim_ascii_idem group.id;
      name_trimmed = trim_ascii_idem group.name;
      ids_trimmed = trimmed;
      ids_distinct = distinct;
    }

normalize_ids_fixed :
    (kept ids : List Text)
    → All IsTrimmed ids
    → Distinct (kept ++ ids)
    → normalize_ids kept ids ≡ kept ++ ids
unfolding normalize_ids
normalize_ids_fixed kept [] a d = sym (append-nil kept)
normalize_ids_fixed kept (id ∷ ids) ((t, ne), a) d =
    rw (t, ne, Distinct-middle kept id ids d)
      (normalize_ids_fixed (kept ++ id ∷ []) ids a (rw append_assoc d)
        ∙ append_assoc kept (id ∷ []) ids)

pub normalize_speaker_group_fixed :
    (group : SpeakerGroup) → IsNormal group → normalize_speaker_group group ≡ group
unfolding normalize_speaker_group
normalize_speaker_group_fixed group v = ground (
  arith,
  v.id_trimmed,
  v.name_trimmed,
  normalize_ids_fixed [] group.output_ids v.ids_trimmed v.ids_distinct,
)

-- For every group, the normal form has its id and name trimmed, and holds an output id exactly
-- if that is non-empty and is one of the group's output ids trimmed; no output id is in it twice, each is
-- trimmed, and normalizing again changes nothing.
pub normalize_speaker_group_lem :
    (group : SpeakerGroup)
    → let normal = normalize_speaker_group group in
      (normal.id ≡ trim_ascii group.id)
      × (normal.name ≡ trim_ascii group.name)
      × ((k : Text)
          → contains normal.output_ids k
            ≡ (not (is_empty k) && contains (map trim_ascii group.output_ids) k))
      × Distinct normal.output_ids
      × All IsTrimmed normal.output_ids
      × (normalize_speaker_group normal ≡ normal)
normalize_speaker_group_lem group =
    let v = normalize_speaker_group-IsNormal group in
    (
      unfold normalize_speaker_group in refl,
      unfold normalize_speaker_group in refl,
      λ k. unfold normalize_speaker_group contains in normalize_ids-contains [] group.output_ids k,
      v.ids_distinct,
      v.ids_trimmed,
      normalize_speaker_group_fixed (normalize_speaker_group group) v,
    )
