-- ===== src/Base/Map.antt =====
-- `std::map<std::string, V>` as the list of its entries in the order of its keys.
use foobar_universal_multiro.Base.{
  ◌≡◌, refl, ap, inl, inr, Bool, true, Option, none, some, List, [], ◌∷◌, arith, Text, text_eq,
  text_eq_iff, text_eq_sym, text_lt, text_lt_trans, text_lt_total, if◌then◌else◌, Bool-cases,
  Option-cases, not, text_lt_ne,
}

module _ {ℓ} {V : Type ℓ} where
  unfoldable pub find : Text → List (Text × V) → Option V
  find k [] = none
  find k ((j, v) ∷ m) = if text_eq j k then some v else find k m

  -- `m[k] = v`
  unfoldable pub assign : Text → V → List (Text × V) → List (Text × V)
  assign k v [] = (k, v) ∷ []
  assign k v ((j, w) ∷ m) =
      if text_eq j k
      then (k, v) ∷ m
      else if text_lt k j
      then (k, v) ∷ (j, w) ∷ m
      else (j, w) ∷ assign k v m

  -- The loop that erases each entry whose key fails the test.
  unfoldable pub erase_unless : (Text → Bool) → List (Text × V) → List (Text × V)
  erase_unless p [] = []
  erase_unless p ((j, w) ∷ m) = if p j then (j, w) ∷ erase_unless p m else erase_unless p m

  -- `for (auto& [id, v] : m) v = f(id, v)`
  pub update_all : (Text → V → V) → List (Text × V) → List (Text × V)
  update_all f [] = []
  update_all f ((j, w) ∷ m) = (j, f j w) ∷ update_all f m

  unfoldable pub values : List (Text × V) → List V
  values [] = []
  values ((j, w) ∷ m) = w ∷ values m

  unfoldable pub keys : List (Text × V) → List Text
  keys [] = []
  keys ((j, w) ∷ m) = j ∷ keys m

  unfoldable pub find_or : V → Text → List (Text × V) → V
  find_or d k m = elim (find k m) [ none ↦ d | some v ↦ v ]

  -- Every key is above `k`; every key is above those before it.
  abbrev pub Above : Text → List (Text × V) → Type 0
  Above k [] = Unit
  Above k ((j, w) ∷ m) = (text_lt k j ≡ true) × Above k m

  abbrev pub Ordered : List (Text × V) → Type 0
  Ordered [] = Unit
  Ordered ((j, w) ∷ m) = Above j m × Ordered m

  pub find-assign :
      (k j : Text) (v : V) (m : List (Text × V))
      → find j (assign k v m) ≡ (if text_eq k j then some v else find j m)
  unfolding find assign
  find-assign k j v [] = refl
  find-assign k j v ((i, w) ∷ m) =
      ground (arith, text_eq_iff k j, text_eq_iff i k, text_eq_iff i j, find-assign k j v m)

  pub find-erase_unless :
      (p : Text → Bool) (k : Text) (m : List (Text × V))
      → find k (erase_unless p m) ≡ (if p k then find k m else none)
  unfolding find erase_unless
  find-erase_unless p k [] = ground arith
  find-erase_unless p k ((i, w) ∷ m) = elim (Bool-cases (text_eq i k)) [
    | inl e ↦
        unfold find erase_unless in
        ground (arith, find-erase_unless p k m, ap p ((text_eq_iff i k).0 e))
    | inr e ↦ unfold find erase_unless in ground (arith, find-erase_unless p k m)
  ]

  pub find-update_all :
      (f : Text → V → V) (k : Text) (m : List (Text × V))
      → find k (update_all f m) ≡ elim (find k m) [ none ↦ none | some v ↦ some (f k v) ]
  unfolding find update_all
  find-update_all f k [] = refl
  find-update_all f k ((i, w) ∷ m) = elim (Bool-cases (text_eq i k)) [
    | inl e ↦
        unfold find update_all in
        ground (arith, find-update_all f k m, ap (λ j. f j w) ((text_eq_iff i k).0 e))
    | inr e ↦ unfold find update_all in ground (arith, find-update_all f k m)
  ]

  Above-trans : (j k : Text) (m : List (Text × V)) → text_lt j k ≡ true → Above k m → Above j m
  Above-trans j k [] h a = tt
  Above-trans j k ((i, w) ∷ m) h a = (text_lt_trans j k i h a.0, Above-trans j k m h a.1)

  Above-assign :
      (j k : Text) (v : V) (m : List (Text × V))
      → text_lt j k ≡ true
      → Above j m
      → Above j (assign k v m)
  unfolding assign
  Above-assign j k v [] h a = (h, tt)
  Above-assign j k v ((i, w) ∷ m) h a = ground (arith, Above-assign j k v m h)

  pub assign-Ordered : (k : Text) (v : V) (m : List (Text × V)) → Ordered m → Ordered (assign k v m)
  unfolding assign
  assign-Ordered k v [] o = (tt, tt)
  assign-Ordered k v ((i, w) ∷ m) o = ground (
    arith,
    text_eq_iff i k,
    text_lt_total i k,
    text_eq_sym i k,
    Above-trans k i m,
    Above-assign i k v m,
    assign-Ordered k v m,
  )

  Above-erase_unless :
      (p : Text → Bool) (j : Text) (m : List (Text × V)) → Above j m → Above j (erase_unless p m)
  unfolding erase_unless
  Above-erase_unless p j [] a = tt
  Above-erase_unless p j ((i, w) ∷ m) a = ground (arith, Above-erase_unless p j m a.1)

  pub erase_unless-Ordered :
      (p : Text → Bool) (m : List (Text × V)) → Ordered m → Ordered (erase_unless p m)
  unfolding erase_unless
  erase_unless-Ordered p [] o = tt
  erase_unless-Ordered p ((i, w) ∷ m) o =
      ground (arith, erase_unless-Ordered p m o.1, Above-erase_unless p i m o.0)

  Above-update_all :
      (f : Text → V → V) (j : Text) (m : List (Text × V)) → Above j m → Above j (update_all f m)
  unfolding update_all
  Above-update_all f j [] a = tt
  Above-update_all f j ((i, w) ∷ m) a = (a.0, Above-update_all f j m a.1)

  pub update_all-Ordered :
      (f : Text → V → V) (m : List (Text × V)) → Ordered m → Ordered (update_all f m)
  unfolding update_all
  update_all-Ordered f [] o = tt
  update_all-Ordered f ((i, w) ∷ m) o = (Above-update_all f i m o.0, update_all-Ordered f m o.1)

  -- A predicate on every entry.
  abbrev pub Each {κ} : (Text → V → Type κ) → List (Text × V) → Type κ
  Each P [] = Unit
  Each P ((j, w) ∷ m) = P j w × Each P m

  pub assign-Each {κ} :
      (P : Text → V → Type κ) (k : Text) (v : V) (m : List (Text × V))
      → P k v
      → Each P m
      → Each P (assign k v m)
  unfolding assign
  assign-Each P k v [] h e = (h, tt)
  assign-Each P k v ((i, w) ∷ m) h (e, r) = elim (Bool-cases (text_eq i k)) [
    | inl q ↦ rw q (h, r)
    | inr q ↦ elim (Bool-cases (text_lt k i)) [
      | inl l ↦ rw (q, l) (h, (e, r))
      | inr l ↦ rw (q, l) (e, assign-Each P k v m h r)
    ]
  ]

  pub erase_unless-Each {κ} :
      (P : Text → V → Type κ) (p : Text → Bool) (m : List (Text × V))
      → Each P m
      → Each P (erase_unless p m)
  unfolding erase_unless
  erase_unless-Each P p [] e = tt
  erase_unless-Each P p ((i, w) ∷ m) (e, r) = elim (Bool-cases (p i)) [
    | inl q ↦ rw q (e, erase_unless-Each P p m r)
    | inr q ↦ rw q (erase_unless-Each P p m r)
  ]

  pub update_all-Each {κ μ} :
      (P : Text → V → Type κ) (Q : Text → V → Type μ) (f : Text → V → V)
      → ((k : Text) (v : V) → P k v → Q k (f k v))
      → (m : List (Text × V)) → Each P m
      → Each Q (update_all f m)
  unfolding update_all
  update_all-Each P Q f h [] e = tt
  update_all-Each P Q f h ((i, w) ∷ m) (e, r) = (h i w e, update_all-Each P Q f h m r)

  pub find-Each {κ} :
      (P : Text → V → Type κ) (k : Text) (m : List (Text × V)) (v : V)
      → Each P m
      → find k m ≡ some v
      → P k v
  unfolding find
  find-Each P k [] v e h = absurd (cc)
  find-Each P k ((i, w) ∷ m) v (e, r) h = elim (Bool-cases (text_eq i k)) [
    | inl q ↦
        let same : w ≡ v = ground arith in
        let key : i ≡ k = (text_eq_iff i k).0 q in rw same at (rw key at e)
    | inr q ↦ find-Each P k m v r (ground arith)
  ]

  pub find_or_elim {κ} :
      (P : V → Type κ) (d : V) (k : Text) (m : List (Text × V))
      → P d
      → ((v : V) → find k m ≡ some v → P v)
      → P (find_or d k m)
  unfolding find_or
  find_or_elim P d k m h f = elim (Option-cases (find k m)) [
    | inl e ↦ rw (e, find_or) h
    | inr (v, e) ↦ rw (e, find_or) (f v e)
  ]

  -- Where the keys are above `k`, `k` has no entry.
  pub find-lt :
      (k j : Text) (v : V) (m : List (Text × V))
      → Above k m
      → find j m ≡ some v
      → text_lt k j ≡ true
  unfolding find
  find-lt k j v [] a h = absurd (cc)
  find-lt k j v ((i, w) ∷ m) a h = elim (Bool-cases (text_eq i j)) [
    | inl e ↦ let same = (text_eq_iff i j).0 e in rw same at (a.0)
    | inr e ↦ find-lt k j v m a.1 (ground (arith, h, e))
  ]

  pub erase-Above :
      (k : Text) (m : List (Text × V)) → Above k m → erase_unless (λ j. not (text_eq j k)) m ≡ m
  unfolding erase_unless
  erase-Above k [] a = refl
  erase-Above k ((i, w) ∷ m) a =
      ground (arith, text_lt_ne k i a.0, text_eq_sym k i, erase-Above k m a.1)

  Each-find_in :
      (whole m : List (Text × V))
      → ((k : Text) (v : V) → find k m ≡ some v → find k whole ≡ some v)
      → Ordered m
      → Each (λ k v. find k whole ≡ some v) m
  unfolding find
  Each-find_in whole [] h o = tt
  Each-find_in whole ((j, w) ∷ m) h o = (
    h j w (ground (arith, text_eq_iff j j)),
    Each-find_in whole m
        (λ k v f. h k v (ground (arith, f, text_lt_ne j k (find-lt j k v m o.0 f)))) o.1,
  )

  -- Every entry is what is found under its key.
  pub Each-find : (m : List (Text × V)) → Ordered m → Each (λ k v. find k m ≡ some v) m
  Each-find m o = Each-find_in m m (λ k v f. f) o

  pub Each-both {κ μ} :
      (P : Text → V → Type κ) (Q : Text → V → Type μ) (m : List (Text × V))
      → Each P m
      → Each Q m
      → Each (λ k v. P k v × Q k v) m
  Each-both P Q [] p q = tt
  Each-both P Q ((j, w) ∷ m) p q = ((p.0, q.0), Each-both P Q m p.1 q.1)
