-- ===== src/Metadata/Objects/Listing.antt =====
-- What the listings of a bucket hold.
use s.Prelude.{
  ◌≡◌, ◌≢◌, ◌↔◌, refl, Option, none, some, true, false, List, [], ◌∷◌, Text, ◌==◌, text_eq, ok,
  if◌then◌else◌, arith, text_beq, text_beq_iff, All-Elem, Elem, Elem-append, last?, All-last?, ltb,
  Option-cases, Bool-cases, inl, inr,
}
use s.Dict.{Dict, lookup, has}
use s.Dict.Keyed.{HasDistinctKeys}
use s.Sort.{sort}
use s.Sort.Laws.{Elem-sort, IsSorted, sort-IsSorted, IsWeakOrder, lexicographic-IsWeakOrder}
use s.Metadata.Model.{Time, ObjectVersion}
use s.Metadata.State.{MemoryState, ObjectKey, object_key_eq, object_key_beq, object_key_beq_iff}
use s.Metadata.Objects.{
  object_key, versions_of, get_latest_object_version, visible, gather, list_objects, delete_object,
  delete_marker_version, version_less, list_object_versions,
}
use s.Metadata.Objects.Reads.{get_latest-put}
use s.Metadata.Invariant.Objects.{delete_object-IsWellFormed}
use s.Metadata.Invariant.{IsWellFormed}

Elem-visible :
    (v : ObjectVersion) (o : Option ObjectVersion)
    → Elem v (visible o) ↔ ((o ≡ some v) × (v.delete_marker ≡ false))
unfolding visible
Elem-visible v none = ground arith
Elem-visible v (some latest) = ground arith

-- An entry of the map from which a listing took `v`.
abbrev Lists :
    (List ObjectVersion → List ObjectVersion)
    → Text
    → ObjectVersion
    → Dict ObjectKey (List ObjectVersion)
    → Type 0
Lists pick bucket v m =
    (k : ObjectKey) × (vs : List ObjectVersion) × (lookup k m ≡ some vs)
    × (k.bucket ≡ bucket)
    × Elem v (pick vs)

module _ (pick : List ObjectVersion → List ObjectVersion) (bucket : Text) (v : ObjectVersion) where
  Lists-cons :
      (k : ObjectKey) (vs : List ObjectVersion) (m : Dict ObjectKey (List ObjectVersion))
      → lookup k m ≡ none
      → Lists pick bucket v m
      → Lists pick bucket v ((k, vs) ∷ m)
  unfolding lookup
  Lists-cons k vs m fresh (j, ws, found, same, listed) =
      (j, ws, ground (arith, object_key_beq_iff k j), same, listed)

  gather_sound :
      (m : Dict ObjectKey (List ObjectVersion))
      → HasDistinctKeys m
      → Elem v (gather pick bucket m)
      → Lists pick bucket v m
  unfolding gather
  gather_sound [] d h = absurd h
  gather_sound ((k, vs) ∷ m) d h = elim (Bool-cases (k.bucket == bucket)) [
    | inl same ↦ elim ((Elem-append v (pick vs) (gather pick bucket m)).0 (rw same at h)) [
      | inl here ↦
          unfold lookup in
          (k, vs, rw object_key_beq_refl refl, (text_beq_iff k.bucket bucket).0 same, here)
      | inr later ↦ Lists-cons k vs m d.0 (gather_sound m d.1 later)
    ]
    | inr other ↦ Lists-cons k vs m d.0 (gather_sound m d.1 (rw other at h))
  ]
    where
      object_key_beq_refl : object_key_beq k k ≡ true
      object_key_beq_refl = (object_key_beq_iff k k).1 refl

  gather_complete :
      (m : Dict ObjectKey (List ObjectVersion))
      → Lists pick bucket v m
      → Elem v (gather pick bucket m)
  unfolding gather lookup
  gather_complete [] (j, ws, found, same, listed) = absurd (cc)
  gather_complete ((k, vs) ∷ m) (j, ws, found, same, listed) =
      elim (Bool-cases (object_key_beq k j)) [
        | inl hit ↦
            let whole : ws ≡ vs = ground arith in
            let here : Elem v (pick vs) = rw whole at listed in
            rw (text_beq_of hit) ((Elem-append v _ _).1 (inl here))
        | inr miss ↦
            let later : Elem v (gather pick bucket m) =
              gather_complete m (j, ws, rw miss at found, same, listed) in
            elim (Bool-cases (k.bucket == bucket)) [
              | inl hit ↦ rw hit ((Elem-append v _ _).1 (inr later))
              | inr other ↦ rw other later
            ]
      ]
    where
      text_beq_of : object_key_beq k j ≡ true → text_beq k.bucket bucket ≡ true
      text_beq_of hit = ground (arith, object_key_beq_iff k j, text_beq_iff k.bucket bucket)

versions_of-lookup :
    (k : ObjectKey) (vs : List ObjectVersion) (st : MemoryState)
    → lookup k st.objects ≡ some vs
    → versions_of k st ≡ vs
unfolding versions_of
versions_of-lookup k vs st h = ground arith

latest_lookup :
    (b k : Text) (v : ObjectVersion) (st : MemoryState)
    → get_latest_object_version b k st ≡ ok v
    → (vs : List ObjectVersion) × (lookup (object_key b k) st.objects ≡ some vs)
      × (last? vs ≡ some v)
unfolding get_latest_object_version versions_of
latest_lookup b k v st h = elim (Option-cases (lookup (object_key b k) st.objects)) [
  | inl missing ↦ absurd (ground arith)
  | inr (vs, found) ↦ (vs, found, ground arith)
]

get_latest-delete :
    (b k id : Text) (at : Time) (b' k' : Text) (st : MemoryState)
    → get_latest_object_version b' k' (delete_object b k id at st).1 ≡ (
        if object_key_beq (object_key b k) (object_key b' k')
        then ok (delete_marker_version b k id at)
        else get_latest_object_version b' k' st)
unfolding delete_object
get_latest-delete b k id at b' k' st = get_latest-put (delete_marker_version b k id at) b' k' st

module _ (st : MemoryState) (w : IsWellFormed st) where
  listed_key :
      (k : ObjectKey) (vs : List ObjectVersion) (b : Text) (v : ObjectVersion)
      → lookup k st.objects ≡ some vs
      → k.bucket ≡ b
      → last? vs ≡ some v
      → (v.bucket ≡ b) × (k ≡ object_key b v.key)
  listed_key k vs b v found same latest =
      let (all, _, _) = w.objects.at k vs found in
      let (in_bucket, under_key) =
        All-last? (λ (u : ObjectVersion). (u.bucket ≡ k.bucket) × (u.key ≡ k.key)) vs v all
          latest in
      (ground arith, ground arith)

  -- In a well-formed state `ListObjects` lists exactly the latest versions of the bucket's keys that are no delete marker.
  pub list_objects_iff :
      (b : Text) (v : ObjectVersion)
      → Elem v (list_objects b st) ↔ (
          (v.bucket ≡ b)
          × (get_latest_object_version b v.key st ≡ ok v)
          × (v.delete_marker ≡ false))
  unfolding list_objects get_latest_object_version
  list_objects_iff b v = (
    λ listed.
        let (k, vs, found, same, shown) =
          gather_sound (λ us. visible (last? us)) b v st.objects w.objects_distinct listed in
        let (latest, plain) = (Elem-visible v (last? vs)).0 shown in
        let (in_bucket, key) = listed_key k vs b v found same latest in
        (in_bucket, ground (arith, versions_of-lookup k vs st found), plain),
    λ (in_bucket, latest, plain).
        let (vs, found, last) = latest_lookup b v.key v st latest in
        gather_complete (λ us. visible (last? us)) b v st.objects
          (object_key b v.key, vs, found, refl, (Elem-visible v (last? vs)).1 (last, plain)),
  )

version_less-IsWeakOrder : IsWeakOrder version_less
unfolding version_less
version_less-IsWeakOrder =
    lexicographic-IsWeakOrder (λ v. v.key) (λ a b. ltb b.created_at a.created_at)
      (record { asym = λ a b h. ground arith; neg_trans = λ a b c h k. ground arith })

-- In a well-formed state: after `DeleteObject` the listing of the bucket no longer shows the key, and shows of the other
-- keys what it showed.
pub delete_object_hides :
    (st : MemoryState)
    → IsWellFormed st
    → (b k id : Text) (at : Time) (v : ObjectVersion)
    → Elem v (list_objects b (delete_object b k id at st).1)
      ↔ ((v.key ≢ k) × Elem v (list_objects b st))
delete_object_hides st w b k id at v =
    let st' : MemoryState = (delete_object b k id at st).1 in
    let after = list_objects_iff st' (delete_object-IsWellFormed st w b k id at) b v in
    let before = list_objects_iff st w b v in
    let now = get_latest-delete b k id at b v.key st in
    let keys = object_key_beq_iff (object_key b k) (object_key b v.key) in
    (
      λ listed. ground (arith, after.0 listed, before.1, now, keys),
      λ (other, listed). after.1 (ground (arith, before.0 listed, now, keys)),
    )

entry_of :
    (st : MemoryState) (b : Text) (v : ObjectVersion)
    → Elem v (versions_of (object_key b v.key) st)
    → Lists (λ us. us) b v st.objects
unfolding versions_of
entry_of st b v stored = elim (Option-cases (lookup (object_key b v.key) st.objects)) [
  | inl missing ↦ absurd (rw (missing, versions_of) at stored)
  | inr (us, found) ↦ (object_key b v.key, us, found, refl, rw (found, versions_of) at stored)
]

-- In a well-formed state `ListObjectVersions` of a bucket that exists gives exactly the versions that are stored in it,
-- by key and the newest first within a key.
pub list_object_versions-IsSorted :
    (b : Text) (st : MemoryState)
    → IsWellFormed st
    → has b st.buckets ≡ true
    → (vs : List ObjectVersion) × (list_object_versions b st ≡ ok vs)
      × IsSorted version_less vs
      × ((v : ObjectVersion)
          → Elem v vs ↔ ((v.bucket ≡ b) × Elem v (versions_of (object_key b v.key) st)))
unfolding list_object_versions
list_object_versions-IsSorted b st w there = (
  sort version_less (gather (λ us. us) b st.objects),
  rw there refl,
  sort-IsSorted version_less version_less-IsWeakOrder _,
  λ v. (
    λ listed.
        let (k, us, found, same, shown) =
          gather_sound (λ us. us) b v st.objects w.objects_distinct
            ((Elem-sort version_less v (gather (λ us. us) b st.objects)).0 listed) in
        let (all, _, _) = w.objects.at k us found in
        let (in_bucket, under_key) =
          All-Elem (λ (u : ObjectVersion). (u.bucket ≡ k.bucket) × (u.key ≡ k.key)) us v all
            shown in
        let key : k ≡ object_key b v.key = ground arith in
        (ground arith, rw (← key) (rw (versions_of-lookup k us st found) shown)),
    λ (in_bucket, stored).
        (Elem-sort version_less v (gather (λ us. us) b st.objects)).1
          (gather_complete (λ us. us) b v st.objects (entry_of st b v stored)),
  ),
)
