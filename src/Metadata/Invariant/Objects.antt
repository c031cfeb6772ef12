-- ===== src/Metadata/Invariant/Objects.antt =====
-- The operations on object versions keep the state well formed.
use s.Prelude.{
  ap, ◌∙◌, ◌≤◌, ◌≡◌, refl, Bool, not, List, [], ◌∷◌, ◌++◌, Text, ◌==◌, text_eq, arith, Option-cases,
  Bool-cases, List-cases, inl, inr, none, some, if◌then◌else◌, All, All-append, All-keep, keep,
}
use s.Dict.{Dict, put, erase, lookup}
use s.Dict.Keyed.{Keyed-put, Keyed-erase, HasDistinctKeys-put, HasDistinctKeys-erase}
use s.Metadata.Model.{Time, ObjectVersion}
use s.Metadata.State.{MemoryState, ObjectKey, object_key_eq}
use s.Metadata.Objects.{
  has_id, null_id, versions_of, put_object_version, replace_metadata, update_object_metadata,
  remove_version, store_versions, delete_object_version, delete_object, delete_marker_version,
  delete_all_object_versions, object_key,
}
use s.Metadata.Invariant.{IsWellFormed, VersionsFit}
use s.Metadata.Invariant.Versions.{
  nulls, keep-append, keep-not, append-ne-nil, replaced-VersionsFit, removed-VersionsFit,
}

module _ (st : MemoryState) (w : IsWellFormed st) where
  -- What the rows of a key hold, also of a key that is not there.
  pub versions_of-fits :
      (k : ObjectKey)
      → All (λ v. (v.bucket ≡ k.bucket) × (v.key ≡ k.key)) (versions_of k st)
        × (nulls (versions_of k st) ≤ 1)
  unfolding versions_of
  versions_of-fits k = elim (Option-cases (lookup k st.objects)) [
    | inl missing ↦ rw (missing, versions_of) (tt, omega arith)
    | inr (vs, found) ↦
        rw (found, versions_of)
          (let (all, at_most, some') = w.objects.at k vs found in (all, at_most))
  ]

  versions_of-eq-nil : (k : ObjectKey) → versions_of k st ≡ [] → lookup k st.objects ≡ none
  unfolding versions_of
  versions_of-eq-nil k h = elim (Option-cases (lookup k st.objects)) [
    | inl missing ↦ missing
    | inr (vs, found) ↦
        absurd (let (_, _, more) = w.objects.at k vs found in more (rw (found, versions_of) at h))
  ]

  versions_of-found :
      (k : ObjectKey) {v : ObjectVersion} {vs : List ObjectVersion}
      → versions_of k st ≡ v ∷ vs
      → lookup k st.objects ≡ some (v ∷ vs)
  unfolding versions_of
  versions_of-found k h = elim (Option-cases (lookup k st.objects)) [
    | inl missing ↦ absurd (let impossible = rw (missing, versions_of) at h in cc impossible)
    | inr (vs, found) ↦ found ∙ ap some (rw (found, versions_of) at h)
  ]

  put_versions :
      (k : ObjectKey) (vs : List ObjectVersion)
      → VersionsFit k vs
      → IsWellFormed (record st { objects = put k vs st.objects })
  put_versions k vs fits = assumption (
    Keyed-put k vs st.objects w.objects fits,
    HasDistinctKeys-put k vs st.objects w.objects_distinct,
  )

  erase_versions : (k : ObjectKey) → IsWellFormed (record st { objects = erase k st.objects })
  erase_versions k =
      assumption
        (Keyed-erase k st.objects w.objects, HasDistinctKeys-erase k st.objects w.objects_distinct)

  kept_fits :
      (k : ObjectKey) (version : ObjectVersion)
      → version.bucket ≡ k.bucket
      → version.key ≡ k.key
      → VersionsFit k (
          (if version.version_id == null_id
            then keep (λ existing. not (has_id null_id existing)) (versions_of k st)
            else versions_of k st)
          ++ version ∷ [])
  kept_fits k version eb ek =
      let fits = λ (u : ObjectVersion). (u.bucket ≡ k.bucket) × (u.key ≡ k.key) in
      let (all, at_most) = versions_of-fits k in
      let p : ObjectVersion → Bool = λ existing. not (has_id null_id existing) in
      elim (Bool-cases (version.version_id == null_id)) [
        | inl hit ↦ rw hit (
          All-append fits (keep p (versions_of k st)) (version ∷ [])
              (All-keep fits p (versions_of k st) all) ((eb, ek), tt),
          ground (
            arith,
            keep-append (has_id null_id) (keep p (versions_of k st)) (version ∷ []),
            keep-not (has_id null_id) (versions_of k st),
          ),
          append-ne-nil _ version,
        )
        | inr miss ↦ rw miss (
          All-append fits (versions_of k st) (version ∷ []) all ((eb, ek), tt),
          ground (arith, keep-append (has_id null_id) (versions_of k st) (version ∷ [])),
          append-ne-nil _ version,
        )
      ]

  fits_of_found :
      (k : ObjectKey) {v : ObjectVersion} {vs : List ObjectVersion}
      → versions_of k st ≡ v ∷ vs
      → VersionsFit k (v ∷ vs)
  fits_of_found k {v} {vs} h = w.objects.at k (v ∷ vs) (versions_of-found k h)

  replaced_fits :
      (k : ObjectKey) (id : Text) (m : Dict Text Text) (out : List ObjectVersion)
      → replace_metadata id m (versions_of k st) ≡ some out
      → VersionsFit k out
  unfolding replace_metadata
  replaced_fits k id m out found = elim (List-cases (versions_of k st)) [
    | inl none' ↦ absurd (let impossible : none ≡ some out = rw none' at found in cc impossible)
    | inr (v, vs, e) ↦ replaced-VersionsFit k id m (v ∷ vs) out (rw e at found) (fits_of_found k e)
  ]

  stored_fits :
      (k : ObjectKey) (id : Text) (rest : List ObjectVersion) (removed : ObjectVersion)
      → remove_version id (versions_of k st) ≡ some (removed, rest)
      → IsWellFormed (record st { objects = store_versions k rest st.objects })
  unfolding store_versions remove_version
  stored_fits k id [] removed found = erase_versions k
  stored_fits k id (u ∷ rest) removed found = elim (List-cases (versions_of k st)) [
    | inl none' ↦
        absurd
          (let impossible : none ≡ some (removed, u ∷ rest) = rw none' at found in cc impossible)
    | inr (v, vs, e) ↦ put_versions k (u ∷ rest) (
        removed-VersionsFit k id (v ∷ vs) (u ∷ rest) removed (rw e at found) (λ h. cc)
          (fits_of_found k e))
  ]

  pub put_object_version-IsWellFormed :
      (version : ObjectVersion) → IsWellFormed (put_object_version version st).1
  unfolding put_object_version
  put_object_version-IsWellFormed version =
      put_versions (object_key version.bucket version.key) _ (kept_fits _ version refl refl)

  pub delete_object-IsWellFormed :
      (b k v : Text) (at : Time) → IsWellFormed (delete_object b k v at st).1
  unfolding delete_object
  delete_object-IsWellFormed b k v at =
      put_object_version-IsWellFormed (delete_marker_version b k v at)

  pub update_object_metadata-IsWellFormed :
      (b key id : Text) (m : Dict Text Text) → IsWellFormed (update_object_metadata b key id m st).1
  unfolding update_object_metadata
  update_object_metadata-IsWellFormed b key id m =
      let k : ObjectKey = object_key b key in
      elim (Option-cases (replace_metadata id m (versions_of k st))) [
        | inl missing ↦ rw (missing, update_object_metadata) w
        | inr (out, found) ↦
            rw (found, update_object_metadata) (put_versions k out (replaced_fits k id m out found))
      ]

  pub delete_object_version-IsWellFormed :
      (b key id : Text) → IsWellFormed (delete_object_version b key id st).1
  unfolding delete_object_version
  delete_object_version-IsWellFormed b key id =
      let k : ObjectKey = object_key b key in
      elim (Option-cases (remove_version id (versions_of k st))) [
        | inl missing ↦ rw (missing, delete_object_version) w
        | inr ((removed, rest), found) ↦
            rw (found, delete_object_version) (stored_fits k id rest removed found)
      ]

  pub delete_all_object_versions-IsWellFormed :
      (b key : Text) → IsWellFormed (delete_all_object_versions b key st).1
  unfolding delete_all_object_versions
  delete_all_object_versions-IsWellFormed b key =
      elim (List-cases (versions_of (object_key b key) st)) [
        | inl none' ↦ rw (none', delete_all_object_versions) w
        | inr (v, vs, found) ↦
            rw (found, delete_all_object_versions) (erase_versions (object_key b key))
      ]
