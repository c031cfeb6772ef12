-- ===== src/Metadata/Invariant/Repair.antt =====
-- A repair keeps the state well formed.
use s.Prelude.{
  ℕ, ◌≡◌, refl, Bool, true, false, [], ◌∷◌, Text, text_eq, Eq, arith, none, some, Option-cases, inl,
  inr, if◌then◌else◌,
}
use s.Dict.{Dict, erase, lookup, has}
use s.Dict.Laws.{lookup-erase}
use s.Dict.Keyed.{Keyed, HasDistinctKeys}
use s.Metadata.Model.{Bucket, MultipartUpload, MultipartPart}
use s.Metadata.State.{MemoryState, object_key_eq}
use s.Metadata.Consistency.{sweep, sweep_parts, missing, upload_orphan, object_orphan, repair_state}
use s.Metadata.Consistency.Repair.{lookup-sweep, lookup-sweep_keys}
use s.Metadata.Invariant.{IsWellFormed, PartsFit}

module _ {ℓ κ} {K : Type ℓ} ⦃e : Eq K⦄ {V : Type κ} (orphan : K → V → Bool) where
  lookup-sweep-none : (k : K) (m : Dict K V) → lookup k m ≡ none → lookup k (sweep orphan m) ≡ none
  unfolding lookup sweep
  lookup-sweep-none k [] h = refl
  lookup-sweep-none k ((j, w) ∷ m) h = ground (arith, lookup-sweep-none k m)

  HasDistinctKeys-sweep : (m : Dict K V) → HasDistinctKeys m → HasDistinctKeys (sweep orphan m)
  unfolding sweep
  HasDistinctKeys-sweep [] h = tt
  HasDistinctKeys-sweep ((j, w) ∷ m) h =
      ground (arith, lookup-sweep-none j m, HasDistinctKeys-sweep m h.1)

  lookup-sweep-some :
      (k : K) (v : V) (m : Dict K V)
      → HasDistinctKeys m
      → lookup k (sweep orphan m) ≡ some v
      → lookup k m ≡ some v
  unfolding lookup sweep
  lookup-sweep-some k v [] d h = h
  lookup-sweep-some k v ((j, w) ∷ m) d h =
      ground (arith, e.beq_iff j k, lookup-sweep-some k v m d.1, lookup-sweep-none k m)

module _ {ℓ κ ι} {K : Type ℓ} ⦃e : Eq K⦄ {V : Type κ} {P : K → V → Type ι} where
  Keyed-sweep_keys : (bad : K → Bool) (m : Dict K V) → Keyed P m → Keyed P (sweep (λ k _. bad k) m)
  Keyed-sweep_keys bad m h = record {
    at = λ k v q. ground (arith, lookup-sweep_keys bad k m, h.at k v);
  }

  Keyed-sweep :
      (orphan : K → V → Bool) (m : Dict K V)
      → HasDistinctKeys m
      → Keyed P m
      → Keyed P (sweep orphan m)
  Keyed-sweep orphan m d h = record { at = λ k v q. h.at k v (lookup-sweep-some orphan k v m d q) }

-- What is left of the parts belonged to an upload that is left.
lookup-sweep_parts :
    (buckets : Dict Text Bucket) (id : Text) (m : Dict Text MultipartUpload)
    (parts : Dict Text (Dict ℕ MultipartPart)) (ps : Dict ℕ MultipartPart)
    → lookup id (sweep_parts buckets m parts) ≡ some ps
    → (lookup id parts ≡ some ps)
      × ((u : MultipartUpload) → lookup id m ≡ some u → upload_orphan buckets id u ≡ false)
unfolding sweep_parts lookup
lookup-sweep_parts buckets id [] parts ps h = (h, λ u q. cc)
lookup-sweep_parts buckets id ((j, w) ∷ m) parts ps h =
    let (there, live) =
      lookup-sweep_parts buckets id m (if missing buckets w.bucket then erase j parts else parts) ps
        h in
    (
      ground (arith, there, lookup-erase j id parts),
      λ u q. ground (arith, there, live u, lookup-erase j id parts),
    )

repair-PartsFit :
    (st : MemoryState)
    → Keyed (PartsFit st.multipart) st.parts
    → Keyed
        (PartsFit (sweep (upload_orphan st.buckets) st.multipart))
        (sweep_parts st.buckets st.multipart st.parts)
repair-PartsFit st h = record {
  at = λ id ps found.
      let (there, live) = lookup-sweep_parts st.buckets id st.multipart st.parts ps found in
      let (listed, keyed, distinct) = h.at id ps there in (kept id listed live, keyed, distinct);
}
  where
    kept :
        (id : Text)
        → has id st.multipart ≡ true
        → ((u : MultipartUpload)
            → lookup id st.multipart ≡ some u
            → upload_orphan st.buckets id u ≡ false)
        → has id (sweep (upload_orphan st.buckets) st.multipart) ≡ true
    kept id listed live = elim (Option-cases (lookup id st.multipart)) [
      | inl gone ↦ absurd (let impossible = rw gone at listed in cc impossible)
      | inr (u, found) ↦
          rw (lookup-sweep (upload_orphan st.buckets) id u st.multipart found (live u found)) refl
    ]

pub repair_state-IsWellFormed :
    (st : MemoryState) → IsWellFormed st → IsWellFormed (repair_state st).1
unfolding repair_state
repair_state-IsWellFormed st w = assumption (
  Keyed-sweep_keys (λ k. missing st.buckets k.bucket) st.objects w.objects,
  Keyed-sweep (upload_orphan st.buckets) st.multipart w.multipart_distinct w.multipart,
  repair-PartsFit st w.parts,
  Keyed-sweep_keys (missing st.buckets) st.websites w.websites,
  Keyed-sweep_keys (missing st.buckets) st.cors w.cors,
  Keyed-sweep_keys (missing st.buckets) st.policies w.policies,
  Keyed-sweep_keys (missing st.buckets) st.public_access w.public_access,
  HasDistinctKeys-sweep (object_orphan st.buckets) st.objects w.objects_distinct,
  HasDistinctKeys-sweep (upload_orphan st.buckets) st.multipart w.multipart_distinct,
)
