-- ===== src/Metadata/Snapshot/Laws.antt =====
-- A state that is saved and loaded again reads as it did.
use s.Prelude.{
  ◌≡◌, ◌≢◌, refl, ◌∙◌, Option, none, some, Bool, List, [], ◌∷◌, map, ◌==◌, Eq, text_eq, arith, All,
  Bool-cases, inl, inr,
}
use s.Dict.{Dict, lookup, put}
use s.Dict.Laws.{lookup-put}
use s.Dict.Keyed.{Keyed, HasDistinctKeys}
use s.Sort.{sort, insert}
use s.Sort.Laws.{All-sort}
use s.Metadata.Model.{ObjectVersion, ObjectTagging}
use s.Metadata.State.{MemoryState, ObjectKey, object_key_eq}
use s.Metadata.Settings.{tagging_key}
use s.Metadata.Snapshot.{
  PersistedObject, persisted_object, persisted_less, snapshot_state, restore_taggings,
  restore_objects, apply_persisted_state,
}
use s.Metadata.Invariant.{IsWellFormed}

-- A loop that writes each item of a list under its key.
module _ {A K V : Type 0} ⦃e : Eq K⦄ (key : A → K) (value : A → V) where
  restore : List A → Dict K V → Dict K V
  restore [] m = m
  restore (a ∷ rest) m = restore rest (put (key a) (value a) m)

  -- Writing to maps that read the same gives maps that read the same.
  restore_cong :
      (l : List A) (m m' : Dict K V)
      → ((k : K) → lookup k m ≡ lookup k m')
      → (k : K) → lookup k (restore l m) ≡ lookup k (restore l m')
  unfolding restore
  restore_cong [] m m' h k = h k
  restore_cong (a ∷ l) m m' h k =
      restore_cong l (put (key a) (value a) m) (put (key a) (value a) m')
        (λ j.
          ground (arith, lookup-put (key a) j (value a) m, lookup-put (key a) j (value a) m', h j))
        k

  -- Where items with distinct keys are written, their order is not seen.
  restore-insert :
      (less : A → A → Bool) (a : A) (l : List A) (m : Dict K V)
      → All (λ b. key a ≢ key b) l
      → (k : K) → lookup k (restore (insert less a l) m) ≡ lookup k (restore (a ∷ l) m)
  unfolding restore insert
  restore-insert less a [] m h k = refl
  restore-insert less a (b ∷ l) m h k = elim (Bool-cases (less a b)) [
    | inl lt ↦ rw lt refl
    | inr ge ↦ rw ge (
        restore-insert less a l (put (key b) (value b) m) h.1 k
        ∙ restore_cong l _ _ (λ j. swapped j) k)
  ]
    where
      swapped :
          (j : K)
          → lookup j (put (key a) (value a) (put (key b) (value b) m))
            ≡ lookup j (put (key b) (value b) (put (key a) (value a) m))
      swapped j = ground (
        arith,
        e.beq_iff (key a) j,
        e.beq_iff (key b) j,
        h.0,
        lookup-put (key a) j (value a) (put (key b) (value b) m),
        lookup-put (key b) j (value b) m,
        lookup-put (key b) j (value b) (put (key a) (value a) m),
        lookup-put (key a) j (value a) m,
      )

  HasDistinct : List A → Type 0
  HasDistinct [] = Unit
  HasDistinct (a ∷ l) = All (λ b. key a ≢ key b) l × HasDistinct l

  restore-sort :
      (less : A → A → Bool) (l : List A) (m : Dict K V)
      → HasDistinct l
      → (k : K) → lookup k (restore (sort less l) m) ≡ lookup k (restore l m)
  unfolding restore sort HasDistinct
  restore-sort less [] m h k = refl
  restore-sort less (a ∷ l) m h k =
      restore-insert less a (sort less l) m (All-sort less (λ b. key a ≢ key b) l h.0) k
      ∙ restore-sort less l (put (key a) (value a) m) h.1 k

-- The items are those of a map, each under its key.
module _ {A K V : Type 0} ⦃e : Eq K⦄ (key : A → K) (value : A → V) {W : Type 0} (item : K × W → A)
    (shown : W → V) where
  Fits : K × W → Type 0
  Fits entry = (key (item entry) ≡ entry.0) × (value (item entry) ≡ shown entry.1)

  lookup-restore :
      (entries : Dict K W) (m : Dict K V)
      → HasDistinctKeys entries
      → All Fits entries
      → (k : K)
      → lookup k (restore key value (map item entries) m)
        ≡ elim (lookup k entries) as (λ _. Option V) [ none ↦ lookup k m | some w ↦ some (shown w) ]
  unfolding restore lookup Fits
  lookup-restore [] m d h k = refl
  lookup-restore ((j, w) ∷ entries) m d ((same_key, same_value), h) k =
      lookup-restore entries (put (key (item (j, w))) (value (item (j, w))) m) d.1 h k
      ∙ ground (
        arith,
        e.beq_iff j k,
        d.0,
        same_key,
        same_value,
        lookup-put (key (item (j, w))) k (value (item (j, w))) m,
      )

  missing_key :
      (j : K) (entries : Dict K W)
      → lookup j entries ≡ none
      → All Fits entries
      → All (λ a. j ≢ key a) (map item entries)
  unfolding lookup Fits
  missing_key j [] h f = tt
  missing_key j ((k, w) ∷ entries) h (fit, f) = elim (Bool-cases (k == j)) [
    | inl hit ↦ absurd (ground arith)
    | inr miss ↦
        (λ same. ground (arith, e.beq_iff k j, same, fit.0), missing_key j entries (rw miss at h) f)
  ]

  HasDistinct-map :
      (entries : Dict K W)
      → HasDistinctKeys entries
      → All Fits entries
      → HasDistinct key value (map item entries)
  unfolding HasDistinct Fits
  HasDistinct-map [] d h = tt
  HasDistinct-map ((j, w) ∷ entries) d (fit, h) =
      (rw fit.0 (missing_key j entries d.0 h), HasDistinct-map entries d.1 h)

restore_objects-restore :
    (l : List PersistedObject) (m : Dict ObjectKey (List ObjectVersion))
    → restore_objects l m
      ≡ restore
          (λ (po : PersistedObject). record { bucket = po.bucket; key = po.key })
          (λ po. po.versions)
          l
          m
unfolding restore_objects restore
restore_objects-restore [] m = refl
restore_objects-restore (po ∷ l) m = restore_objects-restore l _

restore_taggings-restore :
    (l : List ObjectTagging) (m : Dict ObjectKey ObjectTagging)
    → restore_taggings l m
      ≡ restore
          (λ (cfg : ObjectTagging). tagging_key cfg.bucket cfg.key cfg.version_id)
          (λ cfg. cfg)
          l
          m
unfolding restore_taggings restore
restore_taggings-restore [] m = refl
restore_taggings-restore (cfg ∷ l) m = restore_taggings-restore l _

All-of-Keyed :
    {K V : Type 0} ⦃e : Eq K⦄ {P : K → V → Type 0} (m : Dict K V)
    → HasDistinctKeys m
    → Keyed P m
    → All (λ entry. P entry.0 entry.1) m
unfolding lookup
All-of-Keyed [] d h = tt
All-of-Keyed ⦃e⦄ ((k, v) ∷ m) d h = (
  h.at k v (rw ((e.beq_iff k k).1 refl) refl),
  All-of-Keyed m d.1
      (record { at = λ j w found. h.at j w (ground (arith, e.beq_iff k j, d.0, found)) }),
)

-- The states read the same: all maps are the same but for the order of the entries of `objects`
-- and `taggings`, which no read by key sees.
pub record SameState (a b : MemoryState) : Type 0 where
  pub buckets : a.buckets ≡ b.buckets
  pub objects : (k : ObjectKey) → lookup k a.objects ≡ lookup k b.objects
  pub multipart : a.multipart ≡ b.multipart
  pub parts : a.parts ≡ b.parts
  pub credentials : a.credentials ≡ b.credentials
  pub websites : a.websites ≡ b.websites
  pub cors : a.cors ≡ b.cors
  pub policies : a.policies ≡ b.policies
  pub public_access : a.public_access ≡ b.public_access
  pub lifecycles : a.lifecycles ≡ b.lifecycles
  pub notifications : a.notifications ≡ b.notifications
  pub replications : a.replications ≡ b.replications
  pub taggings : (k : ObjectKey) → lookup k a.taggings ≡ lookup k b.taggings

lookup-eta :
    {V : Type 0} (k : ObjectKey) (m : Dict ObjectKey V)
    → (elim (lookup k m) as (λ _. Option V) [ none ↦ none | some v ↦ some v ]) ≡ lookup k m
lookup-eta k m = ground arith

objects_round_trip :
    (m : Dict ObjectKey (List ObjectVersion))
    → HasDistinctKeys m
    → (k : ObjectKey)
    → lookup k (restore_objects (sort persisted_less (map persisted_object m)) []) ≡ lookup k m
unfolding lookup Fits
objects_round_trip m d k = rw restore_objects-restore (
    restore-sort _ _ persisted_less (map persisted_object m) []
      (HasDistinct-map _ _ persisted_object (λ vs. vs) m d (fits m)) k
    ∙ (lookup-restore _ _ persisted_object (λ vs. vs) m [] d (fits m) k ∙ lookup-eta k m))
  where
    fits :
        (entries : Dict ObjectKey (List ObjectVersion))
        → All
            (Fits
              (λ (po : PersistedObject). record { bucket = po.bucket; key = po.key })
              (λ po. po.versions)
              persisted_object
              (λ vs. vs))
            entries
    fits [] = tt
    fits ((j, vs) ∷ entries) = ((refl, refl), fits entries)

taggings_round_trip :
    (m : Dict ObjectKey ObjectTagging)
    → HasDistinctKeys m
    → Keyed (λ k (cfg : ObjectTagging). tagging_key cfg.bucket cfg.key cfg.version_id ≡ k) m
    → (k : ObjectKey) → lookup k (restore_taggings (map (λ entry. entry.1) m) []) ≡ lookup k m
unfolding lookup Fits
taggings_round_trip m d h k = rw restore_taggings-restore (
    lookup-restore _ _ (λ (entry : ObjectKey × ObjectTagging). entry.1) (λ cfg. cfg) m [] d
      (fits m (All-of-Keyed m d h)) k
    ∙ lookup-eta k m)
  where
    fits :
        (entries : Dict ObjectKey ObjectTagging)
        → All (λ entry. tagging_key entry.1.bucket entry.1.key entry.1.version_id ≡ entry.0) entries
        → All
            (Fits
              (λ (cfg : ObjectTagging). tagging_key cfg.bucket cfg.key cfg.version_id)
              (λ cfg. cfg)
              (λ (entry : ObjectKey × ObjectTagging). entry.1)
              (λ cfg. cfg))
            entries
    fits [] h = tt
    fits ((j, cfg) ∷ entries) h = ((h.0, refl), fits entries h.1)

-- A well-formed state that is saved and loaded again reads as it did, in every map.
pub snapshot_round_trip :
    (st fresh : MemoryState)
    → IsWellFormed st
    → SameState (apply_persisted_state (snapshot_state st) fresh) st
unfolding apply_persisted_state snapshot_state
snapshot_round_trip st fresh w = record {
  buckets = refl;
  objects = objects_round_trip st.objects w.objects_distinct;
  multipart = refl;
  parts = refl;
  credentials = refl;
  websites = refl;
  cors = refl;
  policies = refl;
  public_access = refl;
  lifecycles = refl;
  notifications = refl;
  replications = refl;
  taggings = taggings_round_trip st.taggings w.taggings_distinct w.taggings;
}
