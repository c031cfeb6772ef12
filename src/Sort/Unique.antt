-- ===== src/Sort/Unique.antt =====
-- Sorting by a total order, and the order in which the items stood.
use mathlib.Core.List.{Permᴰ}
use s.Prelude.{◌≡◌, ◌∙◌, refl, ap, Bool, false, List, [], ◌∷◌, arith, Bool-cases, inl, inr}
use s.Sort.{insert, sort}
use s.Sort.Laws.{IsWeakOrder}

module _ {ℓ} {A : Type ℓ} (less : A → A → Bool) (order : IsWeakOrder less)
    (total : (a b : A) → less a b ≡ false → less b a ≡ false → a ≡ b) where
  insert_comm :
      (x y : A) (zs : List A) → insert less x (insert less y zs) ≡ insert less y (insert less x zs)
  unfolding insert
  insert_comm x y [] = elim (Bool-cases (less x y)) [
    | inl lt ↦ rw (lt, order.asym x y lt) refl
    | inr ge ↦ elim (Bool-cases (less y x)) [
      | inl gt ↦ rw (ge, gt) refl
      | inr le ↦ let same = total x y ge le in cc
    ]
  ]
  insert_comm x y (z ∷ zs) =
      let deep = insert_comm x y zs in
      ground (
        arith,
        deep,
        order.asym x y,
        order.asym y x,
        total x y,
        order.neg_trans z y x,
        order.neg_trans z x y,
        order.neg_trans x y z,
        order.neg_trans y x z,
        order.asym x z,
        order.asym y z,
        order.asym z x,
        order.asym z y,
      )

  -- Sorting a permutation gives the same list.
  pub sort-Perm : {xs ys : List A} → Permᴰ xs ys → sort less xs ≡ sort less ys
  unfolding sort
  sort-Perm Permᴰ.nil = refl
  sort-Perm (Permᴰ.cons {a} {b} e p) = rw e (ap (insert less b) (sort-Perm p))
  sort-Perm (Permᴰ.swap {a} {b} {a'} {b'} {l} e f) = rw (e, f) (insert_comm b' a' (sort less l))
  sort-Perm (Permᴰ.trans p q) = sort-Perm p ∙ sort-Perm q
