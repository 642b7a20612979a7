-- ===== src/Base/Sort.antt =====
-- `std::sort` on a vector of strings. Equal strings cannot be told apart, so any sorting gives the
-- same list; the model inserts.
use mathlib.Core.List.{Perm, Permᴰ}
use mathlib.Core.List.Perm
use mathlib.Core.Logic.{∥∥₁_elim}
use foobar_universal_multiro.Base.{
  contains, ◌||◌, text_eq, ◌≡◌, refl, sym, ap, ◌∙◌, subst, ◌↔◌, inl, inr, List, [], ◌∷◌, arith,
  Text, text_eq_iff, text_lt, text_lt_trans, text_lt_total, text_lt_asym, if◌then◌else◌, Bool-cases,
  Bool, true, ◌&&◌, false,
}

pub insert_sorted : Text → List Text → List Text
insert_sorted k [] = k ∷ []
insert_sorted k (x ∷ xs) = if text_lt x k then x ∷ insert_sorted k xs else k ∷ x ∷ xs

pub sort : List Text → List Text
sort [] = []
sort (x ∷ xs) = insert_sorted x (sort xs)

-- `std::set<std::string>` of a range: each string once, in ascending order.
pub insert_once : Text → List Text → List Text
insert_once k [] = k ∷ []
insert_once k (x ∷ xs) =
    if text_eq x k then x ∷ xs else if text_lt x k then x ∷ insert_once k xs else k ∷ x ∷ xs

unfoldable pub set_of : List Text → List Text
unfolding insert_once
set_of [] = []
set_of (x ∷ xs) = insert_once x (set_of xs)

contains-insert_once :
    (k : Text) (xs : List Text) (j : Text)
    → contains (insert_once k xs) j ≡ (text_eq k j || contains xs j)
unfolding insert_once contains
contains-insert_once k [] j = refl
contains-insert_once k (x ∷ xs) j =
    ground (arith, contains-insert_once k xs j, text_eq_iff x k, text_eq_iff x j, text_eq_iff k j)

pub contains-set_of : (xs : List Text) (j : Text) → contains (set_of xs) j ≡ contains xs j
unfolding set_of contains
contains-set_of [] j = refl
contains-set_of (x ∷ xs) j = rw (contains-insert_once x (set_of xs) j, contains-set_of xs j)

-- `==` on vectors of strings.
pub texts_eq : List Text → List Text → Bool
texts_eq [] [] = true
texts_eq (x ∷ xs) (y ∷ ys) = text_eq x y && texts_eq xs ys
texts_eq _ _ = false

pub texts_eq_iff : (xs ys : List Text) → (texts_eq xs ys ≡ true) ↔ (xs ≡ ys)
unfolding texts_eq
texts_eq_iff [] [] = ground arith
texts_eq_iff (x ∷ xs) (y ∷ ys) = ground (arith, text_eq_iff x y, texts_eq_iff xs ys)
texts_eq_iff _ _ = ground arith

insert_sorted-perm : (k : Text) (xs : List Text) → Perm (insert_sorted k xs) (k ∷ xs)
unfolding insert_sorted
insert_sorted-perm k [] = Perm.refl (k ∷ [])
insert_sorted-perm k (x ∷ xs) = elim (Bool-cases (text_lt x k)) [
  | inl l ↦ rw l (Perm.trans (Perm.cons x (insert_sorted-perm k xs)) (Perm.swap k x xs))
  | inr g ↦ rw g (Perm.refl (k ∷ x ∷ xs))
]

pub sort-perm : (xs : List Text) → Perm (sort xs) xs
unfolding sort
sort-perm [] = Perm.refl []
sort-perm (x ∷ xs) = Perm.trans (insert_sorted-perm x (sort xs)) (Perm.cons x (sort-perm xs))

insert_sorted_comm :
    (a b : Text) (xs : List Text)
    → insert_sorted a (insert_sorted b xs) ≡ insert_sorted b (insert_sorted a xs)
unfolding insert_sorted
insert_sorted_comm a b [] =
    ground (arith, text_lt_total a b, text_lt_asym a b, text_lt_asym b a, text_eq_iff a b)
insert_sorted_comm a b (x ∷ xs) = ground (
  arith,
  insert_sorted_comm a b xs,
  text_lt_total a b,
  text_lt_asym a b,
  text_lt_asym b a,
  text_eq_iff a b,
  text_lt_trans x a b,
  text_lt_trans x b a,
)

sort-Permᴰ : {xs ys : List Text} → Permᴰ xs ys → sort xs ≡ sort ys
unfolding sort
sort-Permᴰ Permᴰ.nil = refl
sort-Permᴰ (Permᴰ.cons p d) = rw p (ap (insert_sorted _) (sort-Permᴰ d))
sort-Permᴰ (Permᴰ.swap {l = l} p q) = rw (p, q) (insert_sorted_comm _ _ (sort l))
sort-Permᴰ (Permᴰ.trans d e) = sort-Permᴰ d ∙ sort-Permᴰ e

texts_set : IsSet (List Text)
texts_set = hlevel

-- Sorting forgets the order, and nothing else.
pub sort-eq_iff : (xs ys : List Text) → (sort xs ≡ sort ys) ↔ Perm xs ys
sort-eq_iff xs ys = (
  λ e. Perm.trans (Perm.symm (sort-perm xs)) (subst (λ zs. Perm zs ys) (sym e) (sort-perm ys)),
  λ p. ∥∥₁_elim p (texts_set (sort xs) (sort ys)) sort-Permᴰ,
)
