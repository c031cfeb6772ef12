-- ===== src/Metadata/Consistency/Repair.antt =====
-- Repairing removes exactly what validation reports.
use s.Prelude.{
  ℕ, suc, ◌≡◌, refl, ap, ◌∙◌, Bool, true, false, [], ◌∷◌, arith, Text, length, length-append, Eq,
  text_eq, some, none, if◌then◌else◌, Bool-cases, inl, inr,
}
use s.Dict.{Dict, has, lookup}
use s.Metadata.Model.{Bucket, MultipartUpload, MultipartPart}
use s.Metadata.State.{MemoryState, ObjectKey, object_key_eq}
use s.Metadata.Consistency.{
  ConsistencyIssue, report, sweep, swept, sweep_parts, upload_orphan, object_orphan, setting_orphan,
  missing, validate_state, repair_state,
}

module _ {ℓ κ} {K : Type ℓ} {V : Type κ} (orphan : K → V → Bool)
    (issue : K → V → ConsistencyIssue) where
  report-sweep : (m : Dict K V) → report orphan issue (sweep orphan m) ≡ []
  unfolding report sweep
  report-sweep [] = refl
  report-sweep ((k, v) ∷ m) = elim (Bool-cases (orphan k v)) [
    | inl bad ↦ rw bad (report-sweep m)
    | inr fine ↦ rw (fine, fine) (report-sweep m)
  ]

  length-report : (m : Dict K V) → length (report orphan issue m) ≡ swept orphan m
  unfolding report swept
  length-report [] = refl
  length-report ((k, v) ∷ m) = elim (Bool-cases (orphan k v)) [
    | inl bad ↦ rw bad (ap suc (length-report m))
    | inr fine ↦ rw fine (length-report m)
  ]

module _ {ℓ κ} {K : Type ℓ} {V : Type κ} (orphan : K → V → Bool) where
  sweep_clean : (m : Dict K V) → swept orphan m ≡ 0 → sweep orphan m ≡ m
  unfolding sweep swept
  sweep_clean [] h = refl
  sweep_clean ((k, v) ∷ m) h = ground (arith, sweep_clean m)

sweep_parts_clean :
    (buckets : Dict Text Bucket) (m : Dict Text MultipartUpload)
    (parts : Dict Text (Dict ℕ MultipartPart))
    → swept (upload_orphan buckets) m ≡ 0
    → sweep_parts buckets m parts ≡ parts
unfolding sweep_parts swept
sweep_parts_clean buckets [] parts h = refl
sweep_parts_clean buckets ((id, u) ∷ m) parts h = ground (arith, sweep_parts_clean buckets m parts)

-- After a repair there is nothing left to report.
pub validate-repair : (st : MemoryState) → validate_state (repair_state st).1 ≡ []
unfolding validate_state repair_state
validate-repair st = simp report-sweep

-- A repair counts as many repairs as there were issues.
pub repair_count : (st : MemoryState) → (repair_state st).0 ≡ length (validate_state st)
unfolding validate_state repair_state
repair_count st = simp (length-append, length-report)

-- The six counts of a repair that finds nothing.
pub record IsClean (st : MemoryState) : Type 0 where
  objects : swept (object_orphan st.buckets) st.objects ≡ 0
  multipart : swept (upload_orphan st.buckets) st.multipart ≡ 0
  websites : swept (setting_orphan st.buckets) st.websites ≡ 0
  cors : swept (setting_orphan st.buckets) st.cors ≡ 0
  policies : swept (setting_orphan st.buckets) st.policies ≡ 0
  public_access : swept (setting_orphan st.buckets) st.public_access ≡ 0

pub IsClean-of_count : (st : MemoryState) → (repair_state st).0 ≡ 0 → IsClean st
unfolding repair_state
IsClean-of_count st h = omega arith

pub repair_clean : (st : MemoryState) → IsClean st → (repair_state st).1 ≡ st
unfolding repair_state
repair_clean st c = λ i. record st {
  objects = sweep_clean (object_orphan st.buckets) st.objects c.objects i;
  multipart = sweep_clean (upload_orphan st.buckets) st.multipart c.multipart i;
  parts = sweep_parts_clean st.buckets st.multipart st.parts c.multipart i;
  websites = sweep_clean (setting_orphan st.buckets) st.websites c.websites i;
  cors = sweep_clean (setting_orphan st.buckets) st.cors c.cors i;
  policies = sweep_clean (setting_orphan st.buckets) st.policies c.policies i;
  public_access = sweep_clean (setting_orphan st.buckets) st.public_access c.public_access i;
}

-- A state without issues is left as it was, and no repair is counted.
pub repair_consistent :
    (st : MemoryState)
    → validate_state st ≡ []
    → ((repair_state st).0 ≡ 0) × ((repair_state st).1 ≡ st)
repair_consistent st h =
    let none_counted : (repair_state st).0 ≡ 0 = repair_count st ∙ ap length h in
    (none_counted, repair_clean st (IsClean-of_count st none_counted))

module _ {ℓ κ} {K : Type ℓ} ⦃e : Eq K⦄ {V : Type κ} (orphan : K → V → Bool) where
  pub lookup-sweep :
      (k : K) (v : V) (m : Dict K V)
      → lookup k m ≡ some v
      → orphan k v ≡ false
      → lookup k (sweep orphan m) ≡ some v
  unfolding lookup sweep
  lookup-sweep k v [] h live = h
  lookup-sweep k v ((j, w) ∷ m) h live = ground (arith, e.beq_iff j k, lookup-sweep k v m)

module _ {ℓ κ} {K : Type ℓ} ⦃e : Eq K⦄ {V : Type κ} (bad : K → Bool) where
  pub lookup-sweep_keys :
      (k : K) (m : Dict K V)
      → lookup k (sweep (λ j _. bad j) m) ≡ (if bad k then none else lookup k m)
  unfolding lookup sweep
  lookup-sweep_keys k [] = ground arith
  lookup-sweep_keys k ((j, w) ∷ m) = ground (arith, e.beq_iff j k, lookup-sweep_keys k m)

-- What a repair leaves, read key by key.
module _ (st : MemoryState) where
  abbrev repaired_state : MemoryState
  repaired_state = (repair_state st).1

  -- A repair keeps every bucket; it keeps the versions, website, CORS, policy and public access
  -- rows of the buckets that exist and drops those of all others.
  pub repair_rows :
      (repaired_state.buckets ≡ st.buckets)
      × ((k : ObjectKey)
          → lookup k repaired_state.objects
            ≡ (if has k.bucket st.buckets then lookup k st.objects else none))
      × ((b : Text)
          → lookup b repaired_state.websites
            ≡ (if has b st.buckets then lookup b st.websites else none))
      × ((b : Text)
          → lookup b repaired_state.cors ≡ (if has b st.buckets then lookup b st.cors else none))
      × ((b : Text)
          → lookup b repaired_state.policies
            ≡ (if has b st.buckets then lookup b st.policies else none))
      × ((b : Text)
          → lookup b repaired_state.public_access
            ≡ (if has b st.buckets then lookup b st.public_access else none))
  unfolding repair_state
  repair_rows = (
    refl,
    λ k. ground (arith, lookup-sweep_keys (λ j. missing st.buckets j.bucket) k st.objects),
    λ b. ground (arith, lookup-sweep_keys (missing st.buckets) b st.websites),
    λ b. ground (arith, lookup-sweep_keys (missing st.buckets) b st.cors),
    λ b. ground (arith, lookup-sweep_keys (missing st.buckets) b st.policies),
    λ b. ground (arith, lookup-sweep_keys (missing st.buckets) b st.public_access),
  )

  -- A repair keeps the uploads whose bucket exists.
  pub repair_uploads :
      (id : Text) (u : MultipartUpload)
      → lookup id st.multipart ≡ some u
      → has u.bucket st.buckets ≡ true
      → lookup id repaired_state.multipart ≡ some u
  unfolding repair_state
  repair_uploads id u found live =
      lookup-sweep (upload_orphan st.buckets) id u st.multipart found (rw live refl)
