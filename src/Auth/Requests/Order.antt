-- ===== src/Auth/Requests/Order.antt =====
-- Proofs on the canonical query of internal/auth/sigv4.go: the order of the map.
use mathlib.Core.List.{Permᴰ}
use mathlib.Core.List.Permᴰ
use s.Prelude.{
  ◌≡◌, refl, ap, Bool, false, ◌&&◌, List, [], ◌∷◌, ◌++◌, map, Text, text, text_eq, text_beq_iff,
  arith, Bool-cases, inl, inr,
}
use s.Dict.{Dict}
use s.Sort.{sort, text_lt}
use s.Sort.Laws.{
  IsWeakOrder, lexicographic-IsWeakOrder, text_lt_asym, text_lt_neg_trans, text_lt_total,
}
use s.Sort.Unique.{sort-Perm}
use s.Strings.{join}
use s.Auth.Requests.{Library, x_amz_signature, pair_less, query_pairs, print_pair, canonical_query}

text_lt-IsWeakOrder : IsWeakOrder (λ (a b : Text × Text). text_lt a.1 b.1)
text_lt-IsWeakOrder = record {
  asym = λ a b h. text_lt_asym a.1 b.1 h;
  neg_trans = λ a b c h k. text_lt_neg_trans a.1 b.1 c.1 h k;
}

pair_less-IsWeakOrder : IsWeakOrder pair_less
pair_less-IsWeakOrder =
    lexicographic-IsWeakOrder (λ p. p.0) (λ a b. text_lt a.1 b.1) text_lt-IsWeakOrder

pair_less_total : (a b : Text × Text) → pair_less a b ≡ false → pair_less b a ≡ false → a ≡ b
pair_less_total (k, v) (k', v') h h' =
    ground (arith, text_beq_iff k k', text_beq_iff k' k, text_lt_total k k', text_lt_total v v')

swap_blocks : {A : Type 0} (xs ys zs : List A) → Permᴰ (xs ++ (ys ++ zs)) (ys ++ (xs ++ zs))
swap_blocks [] ys zs = Permᴰ.refl (ys ++ zs)
swap_blocks (x ∷ xs) ys zs =
    Permᴰ.trans (Permᴰ.cons refl (swap_blocks xs ys zs)) (Permᴰ.symm (Permᴰ.middle x ys (xs ++ zs)))

module _ (lib : Library) (presigned : Bool) where
  abbrev is_skipped : Text → Bool
  is_skipped key = presigned && lib.equal_fold key x_amz_signature

  abbrev entry_pairs : Text × List Text → List (Text × Text)
  entry_pairs e = map (λ value. (e.0, value)) (sort text_lt e.1)

  query_pairs-Perm :
      {m m' : Dict Text (List Text)}
      → Permᴰ m m'
      → Permᴰ (query_pairs lib presigned m) (query_pairs lib presigned m')
  unfolding query_pairs
  query_pairs-Perm Permᴰ.nil = Permᴰ.nil
  query_pairs-Perm (Permᴰ.cons {a} {b} e p) = rw e (elim (Bool-cases (is_skipped b.0)) [
    | inl skipped ↦ rw skipped (query_pairs-Perm p)
    | inr kept ↦ rw kept (Permᴰ.append_left (entry_pairs b) (query_pairs-Perm p))
  ])
  query_pairs-Perm (Permᴰ.swap {a} {b} {a'} {b'} {l} e f) =
      let rest = query_pairs lib presigned l in
      rw (e, f)
        (elim (Bool-cases (is_skipped b'.0)) [
          | inl skipped ↦ rw skipped (Permᴰ.refl _)
          | inr kept ↦ rw kept (elim (Bool-cases (is_skipped a'.0)) [
            | inl skipped' ↦ rw skipped' (Permᴰ.refl _)
            | inr kept' ↦ rw kept' (swap_blocks (entry_pairs b') (entry_pairs a') rest)
          ])
        ])
  query_pairs-Perm (Permᴰ.trans p q) = Permᴰ.trans (query_pairs-Perm p) (query_pairs-Perm q)

-- The canonical query is the same for any order of the entries of the map of values.
pub canonical_query-Perm :
    (lib : Library) (presigned : Bool) (m m' : Dict Text (List Text))
    → Permᴰ m m'
    → canonical_query lib m presigned ≡ canonical_query lib m' presigned
unfolding canonical_query
canonical_query-Perm lib presigned m m' p =
    ap (λ ps. join (text "&") (map (print_pair lib) ps))
      (sort-Perm pair_less pair_less-IsWeakOrder pair_less_total (query_pairs-Perm lib presigned p))
