-- ===== src/Metadata/Objects.antt =====
-- internal/metadata/store.go: the object versions of `memoryState`.
-- The versions of a key stand in the order of their insertion, the latest last.
pub mod Reads
pub mod Listing
use s.Prelude.{
  ℕ, Option, none, some, Bool, true, false, not, ◌&&◌, List, [], ◌∷◌, ◌++◌, Text, ◌==◌, text_eq,
  Outcome, ok, err, if◌then◌else◌, text, keep, last?, ltb,
}
use s.Dict.{Dict, lookup, put, erase, has}
use s.Sort.{sort, text_lt}
use s.Metadata.Model.{Time, ObjectVersion}
use s.Metadata.State.{MemoryState, Op, StoreError, not_found, ObjectKey, object_key_eq}

abbrev pub object_key : Text → Text → ObjectKey
object_key bucket key = record { bucket = bucket; key = key }

-- st.objects[k], an empty slice for a key that is not there
unfoldable pub versions_of : ObjectKey → MemoryState → List ObjectVersion
versions_of k st = elim (lookup k st.objects) [ none ↦ [] | some versions ↦ versions ]

abbrev pub null_id : Text
null_id = text "null"

abbrev pub has_id : Text → ObjectVersion → Bool
has_id version_id v = v.version_id == version_id

-- `putObjectVersion`: the "null" version of a key is replaced, any other is added.
unfoldable pub put_object_version : ObjectVersion → Op (Unit {0})
put_object_version version st =
    let k = object_key version.bucket version.key in
    let versions = versions_of k st in
    let kept =
      if version.version_id == null_id
      then keep (λ existing. not (has_id null_id existing)) versions
      else versions in
    (ok tt, record st { objects = put k (kept ++ version ∷ []) st.objects })

unfoldable pub get_latest_object_version :
    Text → Text → MemoryState → Outcome StoreError ObjectVersion
get_latest_object_version bucket key st = elim (last? (versions_of (object_key bucket key) st)) [
  | none ↦ err not_found
  | some v ↦ ok v
]

-- the loop of `GetObjectVersion`
unfoldable pub find_version : Text → List ObjectVersion → Option ObjectVersion
find_version version_id [] = none
find_version version_id (v ∷ vs) =
    if has_id version_id v then some v else find_version version_id vs

unfoldable pub get_object_version :
    Text → Text → Text → MemoryState → Outcome StoreError ObjectVersion
unfolding find_version get_latest_object_version
get_object_version bucket key version_id st =
    if version_id == []
    then get_latest_object_version bucket key st
    else elim (find_version version_id (versions_of (object_key bucket key) st)) [
      | none ↦ err not_found
      | some v ↦ ok v
    ]

-- the loop of `UpdateObjectMetadata`: the first version of that id gets the new metadata
unfoldable pub replace_metadata :
    Text → Dict Text Text → List ObjectVersion → Option (List ObjectVersion)
replace_metadata version_id metadata [] = none
replace_metadata version_id metadata (v ∷ vs) =
    if has_id version_id v
    then some (record v { metadata = metadata } ∷ vs)
    else elim (replace_metadata version_id metadata vs) [
      | none ↦ none
      | some rest ↦ some (v ∷ rest)
    ]

unfoldable pub update_object_metadata : Text → Text → Text → Dict Text Text → Op (Unit {0})
update_object_metadata bucket key version_id metadata st =
    let k = object_key bucket key in
    elim (replace_metadata version_id metadata (versions_of k st)) [
      | none ↦ (err not_found, st)
      | some versions ↦ (ok tt, record st { objects = put k versions st.objects })
    ]

-- the loop of `DeleteObjectVersion`: the first version of that id, and the others
unfoldable pub remove_version :
    Text → List ObjectVersion → Option (ObjectVersion × List ObjectVersion)
remove_version version_id [] = none
remove_version version_id (v ∷ vs) =
    if has_id version_id v then some (v, vs) else elim (remove_version version_id vs) [
      | none ↦ none
      | some (removed, rest) ↦ some (removed, v ∷ rest)
    ]

-- `delete` for a key whose last version is gone
unfoldable pub store_versions :
    ObjectKey
    → List ObjectVersion
    → Dict ObjectKey (List ObjectVersion)
    → Dict ObjectKey (List ObjectVersion)
store_versions k [] objects = erase k objects
store_versions k (v ∷ vs) objects = put k (v ∷ vs) objects

unfoldable pub delete_object_version : Text → Text → Text → Op ObjectVersion
delete_object_version bucket key version_id st =
    let k = object_key bucket key in
    elim (remove_version version_id (versions_of k st)) [
      | none ↦ (err not_found, st)
      | some (removed, rest) ↦
          (ok removed, record st { objects = store_versions k rest st.objects })
    ]

-- the composite literal of `DeleteObject`
abbrev pub delete_marker_version : Text → Text → Text → Time → ObjectVersion
delete_marker_version bucket key version_id at = record {
  bucket = bucket;
  key = key;
  version_id = version_id;
  size = 0;
  etag = [];
  checksum_sha256 = [];
  checksum_sha1 = [];
  checksum_crc32 = [];
  checksum_crc32c = [];
  storage_path = [];
  metadata = [];
  delete_marker = true;
  created_at = at;
}

unfoldable pub delete_object : Text → Text → Text → Time → Op (Unit {0})
unfolding put_object_version
delete_object bucket key version_id at =
    put_object_version (delete_marker_version bucket key version_id at)

unfoldable pub delete_all_object_versions : Text → Text → Op (List ObjectVersion)
delete_all_object_versions bucket key st =
    let k = object_key bucket key in
    elim (versions_of k st) [
      | [] ↦ (err not_found, st)
      | v ∷ vs ↦ (ok (v ∷ vs), record st { objects = erase k st.objects })
    ]

-- one round of the loop of `ListObjects`
unfoldable pub visible : Option ObjectVersion → List ObjectVersion
visible none = []
visible (some latest) = if latest.delete_marker then [] else latest ∷ []

-- the loop over the map that `ListObjects` and `ListObjectVersions` share: what they append for
-- the versions of each key of the bucket
unfoldable pub gather :
    (List ObjectVersion → List ObjectVersion)
    → Text
    → Dict ObjectKey (List ObjectVersion)
    → List ObjectVersion
gather pick bucket [] = []
gather pick bucket ((k, versions) ∷ m) =
    let rest = gather pick bucket m in if k.bucket == bucket then pick versions ++ rest else rest

unfoldable pub list_objects : Text → MemoryState → List ObjectVersion
unfolding gather visible
list_objects bucket st = gather (λ versions. visible (last? versions)) bucket st.objects

-- by key, the newest version of a key first
unfoldable pub version_less : ObjectVersion → ObjectVersion → Bool
version_less a b = if a.key == b.key then ltb b.created_at a.created_at else text_lt a.key b.key

unfoldable pub list_object_versions : Text → MemoryState → Outcome StoreError (List ObjectVersion)
unfolding gather version_less
list_object_versions bucket st =
    if has bucket st.buckets
    then ok (sort version_less (gather (λ versions. versions) bucket st.objects))
    else err not_found
