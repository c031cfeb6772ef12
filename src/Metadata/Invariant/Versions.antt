-- ===== src/Metadata/Invariant/Versions.antt =====
-- The versions of one key: what a replaced, removed or added version does to them.
use s.Prelude.{
  ap, ℕ, ◌+◌, ◌≡◌, ◌≢◌, refl, Bool, true, false, not, List, [], ◌∷◌, ◌++◌, Text, text_eq, arith,
  Option-cases, Bool-cases, inl, inr, some, All, All-append, keep, length,
}
use s.Dict.{Dict}
use s.Metadata.Model.{ObjectVersion}
use s.Metadata.State.{ObjectKey, object_key_eq}
use s.Metadata.Objects.{has_id, null_id, replace_metadata, remove_version}
use s.Metadata.Invariant.{VersionsFit}

abbrev pub nulls : List ObjectVersion → ℕ
nulls vs = length (keep (has_id null_id) vs)

-- What the loops over the versions of one key keep.
pub keep-append :
    (p : ObjectVersion → Bool) (xs ys : List ObjectVersion)
    → length (keep p (xs ++ ys)) ≡ length (keep p xs) + length (keep p ys)
keep-append p [] ys = omega arith
keep-append p (x ∷ xs) ys = ground (arith, keep-append p xs ys)

pub keep-not :
    (p : ObjectVersion → Bool) (xs : List ObjectVersion)
    → length (keep p (keep (λ x. not (p x)) xs)) ≡ 0
keep-not p [] = refl
keep-not p (x ∷ xs) = ground (arith, keep-not p xs)

pub append-ne-nil : (xs : List ObjectVersion) (x : ObjectVersion) → xs ++ x ∷ [] ≢ []
append-ne-nil [] x h = cc
append-ne-nil (y ∷ ys) x h = cc

-- Where `UpdateObjectMetadata` and `DeleteObjectVersion` stop: at the first version of that id.
record IsFirst (id : Text) (vs : List ObjectVersion) (v : ObjectVersion)
    (pre post : List ObjectVersion) : Type 0 where
  pub whole : vs ≡ pre ++ (v ∷ post)
  pub matches : has_id id v ≡ true
  pub earlier : All (λ u. has_id id u ≡ false) pre

IsFirst-cons :
    (id : Text) (u : ObjectVersion) (vs : List ObjectVersion) {v : ObjectVersion}
    {pre post : List ObjectVersion}
    → has_id id u ≡ false
    → IsFirst id vs v pre post
    → IsFirst id (u ∷ vs) v (u ∷ pre) post
IsFirst-cons id u vs other f = record {
  whole = ap (λ l. u ∷ l) f.whole;
  matches = f.matches;
  earlier = (other, f.earlier);
}

replace_metadata-IsFirst :
    (id : Text) (m : Dict Text Text) (vs out : List ObjectVersion)
    → replace_metadata id m vs ≡ some out
    → (pre : List ObjectVersion) × (v : ObjectVersion) × (post : List ObjectVersion) × IsFirst id vs
        v pre post
      × (out ≡ pre ++ (record v { metadata = m } ∷ post))
unfolding replace_metadata
replace_metadata-IsFirst id m [] out h = absurd (cc)
replace_metadata-IsFirst id m (v ∷ vs) out h = elim (Bool-cases (has_id id v)) [
  | inl hit ↦ ([], v, vs, record { whole = refl; matches = hit; earlier = tt }, ground arith)
  | inr miss ↦ elim (Option-cases (replace_metadata id m vs)) [
    | inl missing ↦ absurd (ground arith)
    | inr (rest, found) ↦
        let (pre, u, post, first, same) = replace_metadata-IsFirst id m vs rest found in
        (v ∷ pre, u, post, IsFirst-cons id v vs miss first, ground arith)
  ]
]

remove_version-IsFirst :
    (id : Text) (vs : List ObjectVersion) (removed : ObjectVersion) (rest : List ObjectVersion)
    → remove_version id vs ≡ some (removed, rest)
    → (pre : List ObjectVersion) × (post : List ObjectVersion) × IsFirst id vs removed pre post
      × (rest ≡ pre ++ post)
unfolding remove_version
remove_version-IsFirst id [] removed rest h = absurd (cc)
remove_version-IsFirst id (v ∷ vs) removed rest h = elim (Bool-cases (has_id id v)) [
  | inl hit ↦
      ([], vs, record { whole = ground arith; matches = ground arith; earlier = tt }, ground arith)
  | inr miss ↦ elim (Option-cases (remove_version id vs)) [
    | inl missing ↦ absurd (ground arith)
    | inr ((r, others), found) ↦
        let (pre, post, first, same) = remove_version-IsFirst id vs r others found in
        (
          v ∷ pre,
          post,
          rw (← removed_eq r others found miss) (IsFirst-cons id v vs miss first),
          ground arith,
        )
  ]
]
  where
    removed_eq :
        (r : ObjectVersion) (others : List ObjectVersion)
        → remove_version id vs ≡ some (r, others)
        → has_id id v ≡ false
        → r ≡ removed
    removed_eq r others found miss = ground arith

All-split {ℓ κ} :
    {A : Type ℓ} (P : A → Type κ) (xs ys : List A) → All P (xs ++ ys) → All P xs × All P ys
All-split P [] ys h = (tt, h)
All-split P (x ∷ xs) ys h = let (l, r) = All-split P xs ys h.1 in ((h.0, l), r)

middle-ne-nil : (xs ys : List ObjectVersion) (x : ObjectVersion) → xs ++ (x ∷ ys) ≢ []
middle-ne-nil [] ys x h = cc
middle-ne-nil (y ∷ xs) ys x h = cc

nulls-middle :
    (xs ys : List ObjectVersion) (x : ObjectVersion)
    → nulls (xs ++ (x ∷ ys)) ≡ nulls (xs ++ ys) + nulls (x ∷ [])
nulls-middle [] ys x = ground arith
nulls-middle (y ∷ xs) ys x = ground (arith, nulls-middle xs ys x)

nulls-metadata :
    (pre post : List ObjectVersion) (v : ObjectVersion) (m : Dict Text Text)
    → nulls (pre ++ (record v { metadata = m } ∷ post)) ≡ nulls (pre ++ (v ∷ post))
nulls-metadata [] post v m = ground arith
nulls-metadata (u ∷ pre) post v m = ground (arith, nulls-metadata pre post v m)

pub replaced-VersionsFit :
    (k : ObjectKey) (id : Text) (m : Dict Text Text) (vs out : List ObjectVersion)
    → replace_metadata id m vs ≡ some out
    → VersionsFit k vs
    → VersionsFit k out
replaced-VersionsFit k id m vs out h (all, at_most, some') =
    let (pre, v, post, first, same) = replace_metadata-IsFirst id m vs out h in
    let fits = λ (u : ObjectVersion). (u.bucket ≡ k.bucket) × (u.key ≡ k.key) in
    let (before, here) = All-split fits pre (v ∷ post) (rw first.whole at all) in
    let v' : ObjectVersion = record v { metadata = m } in
    rw same (
      All-append fits pre (v' ∷ post) before here,
      rw nulls-metadata (rw first.whole at at_most),
      middle-ne-nil pre post v',
    )

pub removed-VersionsFit :
    (k : ObjectKey) (id : Text) (vs rest : List ObjectVersion) (removed : ObjectVersion)
    → remove_version id vs ≡ some (removed, rest)
    → rest ≢ []
    → VersionsFit k vs
    → VersionsFit k rest
removed-VersionsFit k id vs rest removed h more (all, at_most, some') =
    let (pre, post, first, same) = remove_version-IsFirst id vs removed rest h in
    let fits = λ (u : ObjectVersion). (u.bucket ≡ k.bucket) × (u.key ≡ k.key) in
    let (before, here) = All-split fits pre (removed ∷ post) (rw first.whole at all) in
    (
      rw same (All-append fits pre post before here.1),
      omega (arith, at_most, nulls-middle pre post removed, ap nulls first.whole, ap nulls same),
      more,
    )
