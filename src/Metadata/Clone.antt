-- ===== src/Metadata/Clone.antt =====
-- internal/metadata/store.go: `cloneState`, the copy on which a transaction works. Every map is
-- filled anew from the entries of the old one, and so are the slices and maps inside.
pub mod Cells
use s.Prelude.{ℕ, ◌≡◌, refl, ap, List, [], ◌∷◌}
use s.Dict.{Dict}
use s.Metadata.Model.{ObjectVersion, MultipartPart}
use s.Metadata.State.{MemoryState}

module _ {ℓ κ} {K : Type ℓ} {V : Type κ} where
  -- a loop over a map that copies each value
  unfoldable pub copy_entries : (V → V) → Dict K V → Dict K V
  copy_entries copy [] = []
  copy_entries copy ((k, v) ∷ m) = (k, copy v) ∷ copy_entries copy m

  copy_entries-eq :
      (copy : V → V) → ((v : V) → copy v ≡ v) → (m : Dict K V) → copy_entries copy m ≡ m
  unfolding copy_entries
  copy_entries-eq copy same [] = refl
  copy_entries-eq copy same ((k, v) ∷ m) =
      rw (same v) (ap (λ n. (k, v) ∷ n) (copy_entries-eq copy same m))

same {ℓ κ} : {K : Type ℓ} {V : Type κ} (m : Dict K V) → copy_entries (λ (v : V). v) m ≡ m
same = copy_entries-eq (λ v. v) (λ v. refl)

-- append([]ObjectVersion(nil), versions...)
unfoldable pub copy_versions : List ObjectVersion → List ObjectVersion
copy_versions [] = []
copy_versions (v ∷ vs) = v ∷ copy_versions vs

copy_versions-eq : (vs : List ObjectVersion) → copy_versions vs ≡ vs
unfolding copy_versions
copy_versions-eq [] = refl
copy_versions-eq (v ∷ vs) = ap (λ us. v ∷ us) (copy_versions-eq vs)

abbrev pub copy_parts : Dict ℕ MultipartPart → Dict ℕ MultipartPart
copy_parts = copy_entries (λ p. p)

unfoldable pub clone_state : MemoryState → MemoryState
unfolding copy_entries copy_versions
clone_state st = record {
  buckets = copy_entries (λ v. v) st.buckets;
  objects = copy_entries copy_versions st.objects;
  multipart = copy_entries (λ v. v) st.multipart;
  parts = copy_entries copy_parts st.parts;
  credentials = copy_entries (λ v. v) st.credentials;
  websites = copy_entries (λ v. v) st.websites;
  cors = copy_entries (λ v. v) st.cors;
  policies = copy_entries (λ v. v) st.policies;
  public_access = copy_entries (λ v. v) st.public_access;
  lifecycles = copy_entries (λ v. v) st.lifecycles;
  notifications = copy_entries (λ v. v) st.notifications;
  replications = copy_entries (λ v. v) st.replications;
  taggings = copy_entries (λ v. v) st.taggings;
  backend_label = st.backend_label;
}

-- The copy holds what the state holds, map by map.
pub clone_state-eq : (st : MemoryState) → clone_state st ≡ st
unfolding clone_state
clone_state-eq st =
    rw
      (
        same st.buckets,
        copy_entries-eq copy_versions copy_versions-eq st.objects,
        same st.multipart,
        copy_entries-eq copy_parts (copy_entries-eq (λ p. p) (λ p. refl)) st.parts,
        same st.credentials,
        same st.websites,
        same st.cors,
        same st.policies,
        same st.public_access,
        same st.lifecycles,
        same st.notifications,
        same st.replications,
        same st.taggings,
      )
      refl
