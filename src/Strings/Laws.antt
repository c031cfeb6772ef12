-- ===== src/Strings/Laws.antt =====
-- How splitting undoes joining.
use s.Prelude.{
  ℕ, zero, suc, ◌+◌, ◌≤◌, length, ◌≡◌, ◌∙◌, refl, sym, ap, true, false, List, [], ◌∷◌, ◌++◌, Text,
  nat_beq, arith, Bool-cases, inl, inr,
}
use s.Strings.{take, drop, split, cons_first, join, has_prefix, drop_prefix, trim_prefix}

-- The byte does not occur in the text.
abbrev pub Lacks : ℕ → Text → Type 0
Lacks sep [] = Unit
Lacks sep (c ∷ cs) = (nat_beq c sep ≡ false) × Lacks sep cs

pub split-Lacks : (sep : ℕ) (a : Text) → Lacks sep a → split sep a ≡ a ∷ []
unfolding split
split-Lacks sep [] h = refl
split-Lacks sep (c ∷ cs) (ne, h) = rw (ne, split) (ap (cons_first c) (split-Lacks sep cs h))

pub split-append : (sep : ℕ) (a b : Text) → Lacks sep a → split sep (a ++ sep ∷ b) ≡ a ∷ split sep b
unfolding split
split-append sep [] b h = ground arith
split-append sep (c ∷ cs) b (ne, h) = rw (ne, split) (ap (cons_first c) (split-append sep cs b h))

pub has_prefix-append : (p s : Text) → has_prefix (p ++ s) p ≡ true
unfolding has_prefix
has_prefix-append [] s = refl
has_prefix-append (c ∷ p) s = ground (arith, has_prefix-append p s)

pub drop_prefix-append : (p s : Text) → drop_prefix (p ++ s) p ≡ s
unfolding drop_prefix
drop_prefix-append [] s = refl
drop_prefix-append (c ∷ p) s = drop_prefix-append p s

pub trim_prefix-append : (p s : Text) → trim_prefix (p ++ s) p ≡ s
unfolding trim_prefix
trim_prefix-append p s = rw (has_prefix-append p s) (drop_prefix-append p s)

join-cons_first :
    (sep c : ℕ) (parts : List Text)
    → join (sep ∷ []) (cons_first c parts) ≡ c ∷ join (sep ∷ []) parts
unfolding join
join-cons_first sep c [] = refl
join-cons_first sep c (part ∷ []) = refl
join-cons_first sep c (part ∷ next ∷ parts) = refl

split-cons : (sep : ℕ) (s : Text) → (a : Text) × (rest : List Text) × (split sep s ≡ a ∷ rest)
unfolding split
split-cons sep [] = ([], [], refl)
split-cons sep (c ∷ s) =
    let (a, rest, e) = split-cons sep s in
    elim (Bool-cases (nat_beq c sep)) [
      | inl same ↦ ([], split sep s, rw (same, split) refl)
      | inr other ↦ (c ∷ a, rest, rw (other, split) (rw e refl))
    ]

-- A text is its parts, joined again.
pub join-split : (sep : ℕ) (s : Text) → join (sep ∷ []) (split sep s) ≡ s
unfolding split join
join-split sep [] = refl
join-split sep (c ∷ s) = elim (Bool-cases (nat_beq c sep)) [
  | inl same ↦
      let (a, rest, e) = split-cons sep s in
      let ih = join-split sep s in
      let here : c ≡ sep = ground arith in
      rw (same, split)
        (ap (λ l. join (sep ∷ []) ([] ∷ l)) e
          ∙ (rw here (ap (λ t. sep ∷ t) (ap (join (sep ∷ [])) (sym e) ∙ ih))))
  | inr other ↦
      rw (other, split) (join-cons_first sep c (split sep s) ∙ ap (λ t. c ∷ t) (join-split sep s))
]

pub length-take-drop : (n : ℕ) (s : Text) → length (take n s) + length (drop n s) ≡ length s
unfolding take drop
length-take-drop zero s = omega arith
length-take-drop (suc n) [] = refl
length-take-drop (suc n) (c ∷ s) = omega (arith, length-take-drop n s)

pub length-take : (n : ℕ) (s : Text) → n ≤ length s → length (take n s) ≡ n
unfolding take
length-take zero s h = refl
length-take (suc n) [] h = absurd (omega arith)
length-take (suc n) (c ∷ s) h = omega (arith, length-take n s (omega arith))
