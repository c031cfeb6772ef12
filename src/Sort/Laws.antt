-- ===== src/Sort/Laws.antt =====
-- Sorting gives a sorted permutation, and strings are totally ordered.
use mathlib.Core.List.{Perm}
use mathlib.Core.List.Perm
use s.Prelude.{
  text_eq, ◌≡◌, refl, Bool, true, false, List, [], ◌∷◌, Text, arith, ltb, text_beq, text_beq_iff,
  if◌then◌else◌, Bool-cases, inl, inr, All, Elem, ◌↔◌, ◌⊎◌,
}
use s.Sort.{text_lt, insert, sort}

-- What `sort.Slice` asks of its function.
pub record IsWeakOrder {ℓ} {A : Type ℓ} (less : A → A → Bool) : Type ℓ where
  pub asym : (a b : A) → less a b ≡ true → less b a ≡ false
  pub neg_trans : (a b c : A) → less b a ≡ false → less c b ≡ false → less c a ≡ false

module _ {ℓ} {A : Type ℓ} (less : A → A → Bool) where
  -- No item is less than one before it.
  abbrev pub IsSorted : List A → Type 0
  IsSorted [] = Unit
  IsSorted (x ∷ xs) = All (λ y. less y x ≡ false) xs × IsSorted xs

  pub All-insert {κ} :
      (P : A → Type κ) (x : A) (ys : List A) → P x → All P ys → All P (insert less x ys)
  unfolding insert
  All-insert P x [] p h = (p, tt)
  All-insert P x (y ∷ ys) p h = elim (Bool-cases (less x y)) [
    | inl lt ↦ rw lt (p, h)
    | inr ge ↦ rw ge (h.0, All-insert P x ys p h.1)
  ]

  pub All-sort {κ} : (P : A → Type κ) (xs : List A) → All P xs → All P (sort less xs)
  unfolding sort
  All-sort P [] h = tt
  All-sort P (x ∷ xs) h = All-insert P x (sort less xs) h.0 (All-sort P xs h.1)

  insert-perm : (x : A) (ys : List A) → Perm (insert less x ys) (x ∷ ys)
  unfolding insert
  insert-perm x [] = Perm.refl _
  insert-perm x (y ∷ ys) = elim (Bool-cases (less x y)) [
    | inl lt ↦ rw lt (Perm.refl _)
    | inr ge ↦ rw ge (Perm.trans (Perm.cons y (insert-perm x ys)) (Perm.swap x y ys))
  ]

  pub sort-perm : (xs : List A) → Perm (sort less xs) xs
  unfolding sort
  sort-perm [] = Perm.refl _
  sort-perm (x ∷ xs) = Perm.trans (insert-perm x (sort less xs)) (Perm.cons x (sort-perm xs))

  module _ (order : IsWeakOrder less) where
    All-trans :
        (x y : A) (zs : List A)
        → less y x ≡ false
        → All (λ z. less z y ≡ false) zs
        → All (λ z. less z x ≡ false) zs
    All-trans x y [] h a = tt
    All-trans x y (z ∷ zs) h a = (order.neg_trans x y z h a.0, All-trans x y zs h a.1)

    insert-IsSorted : (x : A) (ys : List A) → IsSorted ys → IsSorted (insert less x ys)
    unfolding insert
    insert-IsSorted x [] h = (tt, tt)
    insert-IsSorted x (y ∷ ys) h = elim (Bool-cases (less x y)) [
      | inl lt ↦ rw lt (let back = order.asym x y lt in ((back, All-trans x y ys back h.0), h))
      | inr ge ↦ rw ge (All-insert (λ z. less z y ≡ false) x ys ge h.0, insert-IsSorted x ys h.1)
    ]

    pub sort-IsSorted : (xs : List A) → IsSorted (sort less xs)
    unfolding sort
    sort-IsSorted [] = tt
    sort-IsSorted (x ∷ xs) = insert-IsSorted x (sort less xs) (sort-IsSorted xs)

pub text_lt_asym : (a b : Text) → text_lt a b ≡ true → text_lt b a ≡ false
unfolding text_lt
text_lt_asym [] [] h = refl
text_lt_asym [] (y ∷ ys) h = refl
text_lt_asym (x ∷ xs) [] h = cc
text_lt_asym (x ∷ xs) (y ∷ ys) h = ground (arith, text_lt_asym xs ys)

pub text_lt_neg_trans :
    (a b c : Text) → text_lt b a ≡ false → text_lt c b ≡ false → text_lt c a ≡ false
unfolding text_lt
text_lt_neg_trans [] [] [] h k = refl
text_lt_neg_trans [] [] (z ∷ zs) h k = k
text_lt_neg_trans [] (y ∷ ys) [] h k = refl
text_lt_neg_trans [] (y ∷ ys) (z ∷ zs) h k = refl
text_lt_neg_trans (x ∷ xs) [] c h k = cc
text_lt_neg_trans (x ∷ xs) (y ∷ ys) [] h k = cc
text_lt_neg_trans (x ∷ xs) (y ∷ ys) (z ∷ zs) h k = ground (arith, text_lt_neg_trans xs ys zs)

-- Strings of which neither is less are the same.
pub text_lt_total : (a b : Text) → text_lt a b ≡ false → text_lt b a ≡ false → a ≡ b
unfolding text_lt
text_lt_total [] [] h k = refl
text_lt_total [] (y ∷ ys) h k = cc
text_lt_total (x ∷ xs) [] h k = cc
text_lt_total (x ∷ xs) (y ∷ ys) h k = ground (arith, text_lt_total xs ys)

pub text_lt_irrefl : (a : Text) → text_lt a a ≡ false
unfolding text_lt
text_lt_irrefl [] = refl
text_lt_irrefl (x ∷ xs) = ground (arith, text_lt_irrefl xs)

pub ltb-IsWeakOrder : IsWeakOrder ltb
ltb-IsWeakOrder = record { asym = λ a b h. ground arith; neg_trans = λ a b c h k. ground arith }

-- A first key that decides, and a second where that ties.
module _ {ℓ} {A : Type ℓ} (key : A → Text) (tie : A → A → Bool) (order : IsWeakOrder tie) where
  pub lexicographic-IsWeakOrder :
      IsWeakOrder (λ a b. if text_beq (key a) (key b) then tie a b else text_lt (key a) (key b))
  lexicographic-IsWeakOrder = record {
    asym = λ a b h. ground (
      arith,
      text_beq_iff (key a) (key b),
      text_beq_iff (key b) (key a),
      order.asym a b,
      text_lt_asym (key a) (key b),
      text_lt_asym (key b) (key a),
    );
    neg_trans = λ a b c h k. ground (
      arith,
      text_beq_iff (key b) (key a),
      text_beq_iff (key c) (key b),
      text_beq_iff (key c) (key a),
      order.neg_trans a b c,
      text_lt_neg_trans (key a) (key b) (key c),
      text_lt_total (key b) (key a),
      text_lt_total (key c) (key b),
      text_lt_total (key a) (key b),
      text_lt_total (key b) (key c),
      text_lt_asym (key a) (key b),
      text_lt_asym (key b) (key a),
      text_lt_asym (key b) (key c),
      text_lt_asym (key c) (key b),
      text_lt_irrefl (key a),
    );
  }

-- Sorting keeps the items.
module _ {A : Type 0} (less : A → A → Bool) (z : A) where
  Elem-insert : (x : A) (ys : List A) → Elem z (insert less x ys) ↔ ((z ≡ x) ⊎ Elem z ys)
  unfolding insert
  Elem-insert x [] = (λ h. h, λ h. h)
  Elem-insert x (y ∷ ys) = elim (Bool-cases (less x y)) [
    | inl lt ↦ rw lt (λ h. h, λ h. h)
    | inr ge ↦ rw ge (ground (arith, Elem-insert x ys))
  ]

  pub Elem-sort : (xs : List A) → Elem z (sort less xs) ↔ Elem z xs
  unfolding sort
  Elem-sort [] = (λ h. h, λ h. h)
  Elem-sort (x ∷ xs) = ground (arith, Elem-insert x (sort less xs), Elem-sort xs)
