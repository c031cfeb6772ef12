-- ===== src/Metadata/Objects/Reads.antt =====
-- What the object versions read after a write.
use s.Prelude.{
  ◌≡◌, ◌≢◌, refl, ◌∙◌, Option, none, some, Bool, false, not, List, [], ◌∷◌, ◌++◌, Text, ◌==◌,
  text_eq, ok, if◌then◌else◌, arith, text_beq_iff, keep, last?-append, Option-cases, Bool-cases,
  inl, inr,
}
use s.Dict.Laws.{lookup-put, lookup-erase}
use s.Metadata.Model.{ObjectVersion}
use s.Metadata.State.{MemoryState, ObjectKey, object_key_eq, object_key_beq, object_key_beq_iff}
use s.Metadata.Objects.{
  object_key, versions_of, null_id, has_id, put_object_version, get_latest_object_version,
  find_version, get_object_version, remove_version, store_versions, delete_object_version,
}

-- The versions that a write of `v` keeps.
abbrev kept : ObjectVersion → List ObjectVersion → List ObjectVersion
kept v vs =
    if v.version_id == null_id then keep (λ existing. not (has_id null_id existing)) vs else vs

-- The same key, as `objectKey` compares it.
abbrev pub same_key : Text → Text → Text → Text → Bool
same_key b k b' k' = object_key_beq (object_key b k) (object_key b' k')

versions_of-put :
    (v : ObjectVersion) (k : ObjectKey) (st : MemoryState)
    → versions_of k (put_object_version v st).1 ≡ (
        if object_key_beq (object_key v.bucket v.key) k
        then kept v (versions_of (object_key v.bucket v.key) st) ++ v ∷ []
        else versions_of k st)
unfolding put_object_version versions_of
versions_of-put v k st = ground (
  arith,
  lookup-put (object_key v.bucket v.key) k
      (kept v (versions_of (object_key v.bucket v.key) st) ++ v ∷ []) st.objects,
)

-- After a write the latest version of its key is the one written, and the latest version of any
-- other key is what it was.
pub get_latest-put :
    (v : ObjectVersion) (b k : Text) (st : MemoryState)
    → get_latest_object_version b k (put_object_version v st).1
      ≡ (if same_key v.bucket v.key b k then ok v else get_latest_object_version b k st)
unfolding get_latest_object_version
get_latest-put v b k st = ground (
  arith,
  versions_of-put v (object_key b k) st,
  last?-append (kept v (versions_of (object_key v.bucket v.key) st)) v,
)

find_version-append :
    (id : Text) (vs : List ObjectVersion) (v : ObjectVersion)
    → has_id id v ≡ false
    → find_version id (vs ++ v ∷ []) ≡ find_version id vs
unfolding find_version
find_version-append id [] v h = rw h
find_version-append id (u ∷ vs) v h = ground (arith, find_version-append id vs v)

find_version-keep :
    (id : Text) (vs : List ObjectVersion)
    → id ≢ null_id
    → find_version id (keep (λ existing. not (has_id null_id existing)) vs) ≡ find_version id vs
unfolding find_version
find_version-keep id [] h = refl
find_version-keep id (u ∷ vs) h = ground (
  arith,
  find_version-keep id vs h,
  text_beq_iff u.version_id id,
  text_beq_iff u.version_id null_id,
)

find_version-put :
    (id : Text) (v : ObjectVersion) (vs : List ObjectVersion)
    → id ≢ v.version_id
    → find_version id (kept v vs ++ v ∷ []) ≡ find_version id vs
find_version-put id v vs other = elim (Bool-cases (v.version_id == null_id)) [
  | inl hit ↦ rw hit (
      find_version-append id (keep (λ existing. not (has_id null_id existing)) vs) v miss
      ∙ find_version-keep id vs (ground (arith, text_beq_iff v.version_id null_id)))
  | inr plain ↦ rw plain (find_version-append id vs v miss)
]
  where
    miss : has_id id v ≡ false
    miss = ground (arith, text_beq_iff v.version_id id)

-- A write changes no read of a version under another id: earlier versions stay readable. Reads
-- with an empty id, which ask for the latest version, are excepted.
pub get_object_version-put_ne :
    (v : ObjectVersion) (b k id : Text) (st : MemoryState)
    → id ≢ []
    → id ≢ v.version_id
    → get_object_version b k id (put_object_version v st).1 ≡ get_object_version b k id st
unfolding get_object_version
get_object_version-put_ne v b k id st named other = ground (
  arith,
  text_beq_iff id [],
  versions_of-put v (object_key b k) st,
  object_key_beq_iff (object_key v.bucket v.key) (object_key b k),
  find_version-put id v (versions_of (object_key v.bucket v.key) st) other,
)

find_version_removed :
    (id : Text) (vs : List ObjectVersion)
    → find_version id vs ≡ elim (remove_version id vs) as (λ _. Option ObjectVersion) [
      | none ↦ none
      | some r ↦ some r.0
    ]
unfolding find_version remove_version
find_version_removed id [] = refl
find_version_removed id (v ∷ vs) = ground (arith, find_version_removed id vs)

find_version-remove_ne :
    (id other : Text) (vs rest : List ObjectVersion) (removed : ObjectVersion)
    → id ≢ other
    → remove_version id vs ≡ some (removed, rest)
    → find_version other rest ≡ find_version other vs
unfolding find_version remove_version
find_version-remove_ne id other [] rest removed ne h = absurd (cc)
find_version-remove_ne id other (v ∷ vs) rest removed ne h = elim (Bool-cases (has_id id v)) [
  | inl hit ↦ ground (arith, text_beq_iff v.version_id id, text_beq_iff v.version_id other)
  | inr miss ↦ elim (Option-cases (remove_version id vs)) [
    | inl missing ↦ absurd (ground arith)
    | inr ((r, others), found) ↦
        let ih = find_version-remove_ne id other vs others r ne found in
        let shape : rest ≡ v ∷ others = ground arith in rw shape (ground (arith, ih))
  ]
]

versions_of-store :
    (k j : ObjectKey) (vs : List ObjectVersion) (st : MemoryState)
    → versions_of j (record st { objects = store_versions k vs st.objects })
      ≡ (if object_key_beq k j then vs else versions_of j st)
unfolding versions_of store_versions
versions_of-store k j [] st = ground (arith, lookup-erase k j st.objects)
versions_of-store k j (v ∷ vs) st = ground (arith, lookup-put k j (v ∷ vs) st.objects)

-- Deleting a version by an id that is not empty returns the version that a read of its id returned, and fails exactly where
-- that read finds nothing.
pub delete_object_version_result :
    (b k id : Text) (st : MemoryState)
    → id ≢ []
    → (delete_object_version b k id st).0 ≡ get_object_version b k id st
unfolding delete_object_version get_object_version
delete_object_version_result b k id st named =
    ground (arith, text_beq_iff id [], find_version_removed id (versions_of (object_key b k) st))

-- Deleting a version changes no read of a version under another id that is not empty, of any key.
pub delete_object_version_ne :
    (b k id b' k' other : Text) (st : MemoryState)
    → other ≢ []
    → id ≢ other
    → get_object_version b' k' other (delete_object_version b k id st).1
      ≡ get_object_version b' k' other st
unfolding delete_object_version get_object_version
delete_object_version_ne b k id b' k' other st named ne =
    elim (Option-cases (remove_version id (versions_of (object_key b k) st))) [
      | inl missing ↦ rw (missing, delete_object_version) refl
      | inr ((removed, rest), found) ↦ ground (
        arith,
        text_beq_iff other [],
        versions_of-store (object_key b k) (object_key b' k') rest st,
        object_key_beq_iff (object_key b k) (object_key b' k'),
        find_version-remove_ne id other (versions_of (object_key b k) st) rest removed ne found,
      )
    ]
