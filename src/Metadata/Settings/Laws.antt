-- ===== src/Metadata/Settings/Laws.antt =====
-- What the settings of a bucket read after a write, over every kind of settings at once.
use s.Prelude.{
  ◌≡◌, ◌≢◌, refl, ap, true, ◌&&◌, [], ◌∷◌, ◌++◌, Text, ◌==◌, text_eq, ok, err, if◌then◌else◌, arith,
  text_beq_iff, All,
}
use s.Dict.{put, erase, has}
use s.Dict.Laws.{lookup-put, lookup-erase}
use s.Metadata.Model.{Bucket, ObjectTagging}
use s.Metadata.State.{
  keeps_if, MemoryState, not_found, ObjectKey, object_key_eq, object_key_beq_iff,
}
use s.Metadata.Buckets.{create_bucket, delete_bucket, tx_delete_bucket}
use s.Metadata.Settings.{
  Table, put_setting, get_setting, delete_setting, tagging_key, put_object_tagging,
  get_object_tagging, notification_table, replication_table, website_table, cors_table,
  policy_table, public_access_table, lifecycle_table,
}

module _ {C : Type 0} (t : Table C) where
  -- A read of settings after a write: the new settings for their bucket, if that exists, and the
  -- old ones for any other bucket; for a bucket that does not exist the write changes nothing.
  pub get_setting-put :
      (cfg : C) (b : Text) (st : MemoryState)
      → get_setting t b (put_setting t cfg st).1 ≡ (
          if has (t.bucket_of cfg) st.buckets && (t.bucket_of cfg == b)
          then ok cfg
          else get_setting t b st)
  unfolding get_setting put_setting
  get_setting-put cfg b st = ground (
    arith,
    t.rows_with st (put (t.bucket_of cfg) cfg (t.rows st)),
    lookup-put (t.bucket_of cfg) b cfg (t.rows st),
  )

  -- A read of settings after their deletion: none for that bucket, and the old ones for any other.
  pub get_setting-delete :
      (b c : Text) (st : MemoryState)
      → get_setting t c (delete_setting t b st).1
        ≡ (if b == c then err not_found else get_setting t c st)
  unfolding get_setting delete_setting
  get_setting-delete b c st =
      ground (
        arith,
        text_beq_iff b c,
        t.rows_with st (erase b (t.rows st)),
        lookup-erase b c (t.rows st),
      )

-- The seven kinds of settings of a bucket are all unset.
pub record HasNoSettings (b : Text) (st : MemoryState) : Type 0 where
  pub website : get_setting website_table b st ≡ err not_found
  pub cors : get_setting cors_table b st ≡ err not_found
  pub policy : get_setting policy_table b st ≡ err not_found
  pub public_access : get_setting public_access_table b st ≡ err not_found
  pub lifecycle : get_setting lifecycle_table b st ≡ err not_found
  pub notification : get_setting notification_table b st ≡ err not_found
  pub replication : get_setting replication_table b st ≡ err not_found

deleted-HasNoSettings :
    (b : Text) (st : MemoryState) → has b st.buckets ≡ true → HasNoSettings b (delete_bucket b st).1
unfolding delete_bucket get_setting
deleted-HasNoSettings b st there = rw there (record {
  website = ground (arith, lookup-erase b b st.websites, text_beq_iff b b);
  cors = ground (arith, lookup-erase b b st.cors, text_beq_iff b b);
  policy = ground (arith, lookup-erase b b st.policies, text_beq_iff b b);
  public_access = ground (arith, lookup-erase b b st.public_access, text_beq_iff b b);
  lifecycle = ground (arith, lookup-erase b b st.lifecycles, text_beq_iff b b);
  notification = ground (arith, lookup-erase b b st.notifications, text_beq_iff b b);
  replication = ground (arith, lookup-erase b b st.replications, text_beq_iff b b);
})

created-HasNoSettings :
    (b : Text) (bucket : Bucket) (st : MemoryState)
    → HasNoSettings b st
    → HasNoSettings b (create_bucket bucket st).1
unfolding create_bucket get_setting
created-HasNoSettings b bucket st h =
    keeps_if (HasNoSettings b) (bucket.name == []) _ _ (λ _. h)
      λ _. keeps_if (HasNoSettings b) (has bucket.name st.buckets) _ _ (λ _. h) λ _. assumption

-- Of a deleted bucket no settings are left, and a bucket created under its name inherits none.
pub delete_bucket-HasNoSettings :
    (b : Bucket) (st : MemoryState)
    → has b.name st.buckets ≡ true
    → HasNoSettings b.name (delete_bucket b.name st).1
      × HasNoSettings b.name (create_bucket b (delete_bucket b.name st).1).1
delete_bucket-HasNoSettings b st there =
    let deleted = deleted-HasNoSettings b.name st there in
    (deleted, created-HasNoSettings b.name b (delete_bucket b.name st).1 deleted)

-- The same deletion inside a transaction leaves the notification and replication settings, and a
-- bucket created under that name inherits them.
pub tx_delete_bucket_leaves :
    (b : Bucket) (st : MemoryState)
    → (get_setting notification_table b.name (create_bucket b (tx_delete_bucket b.name st).1).1
        ≡ get_setting notification_table b.name st)
      × (get_setting replication_table b.name (create_bucket b (tx_delete_bucket b.name st).1).1
          ≡ get_setting replication_table b.name st)
unfolding tx_delete_bucket create_bucket get_setting
tx_delete_bucket_leaves b st = (ground arith, ground arith)

-- A version id without the separator of tagging keys.
abbrev pub HasNoNul : Text → Type 0
HasNoNul = All (λ c. c ≢ 0)

nul_inside : (k v : Text) → HasNoNul (k ++ (0 ∷ v)) → ⊥
nul_inside [] v h = h.0 refl
nul_inside (c ∷ k) v h = nul_inside k v h.1

split_at_nul :
    (k k' v v' : Text)
    → HasNoNul v
    → HasNoNul v'
    → k ++ (0 ∷ v) ≡ k' ++ (0 ∷ v')
    → (k ≡ k') × (v ≡ v')
split_at_nul [] [] v v' h h' e = (refl, cc)
split_at_nul [] (c ∷ k') v v' h h' e =
    absurd (nul_inside k' v' (let tails : v ≡ k' ++ (0 ∷ v') = cc in rw tails at h))
split_at_nul (c ∷ k) [] v v' h h' e =
    absurd (nul_inside k v (let tails : v' ≡ k ++ (0 ∷ v) = cc in rw tails at h'))
split_at_nul (c ∷ k) (c' ∷ k') v v' h h' e =
    let (same_key, same_id) = split_at_nul k k' v v' h h' (cc) in (cc, same_id)

-- The taggings of two objects or versions share a key only if they are the same, as long as the
-- version ids hold no NUL byte.
pub tagging_key-injective :
    (b k v b' k' v' : Text)
    → HasNoNul v
    → HasNoNul v'
    → tagging_key b k v ≡ tagging_key b' k' v'
    → (b ≡ b') × (k ≡ k') × (v ≡ v')
unfolding tagging_key
tagging_key-injective b k v b' k' v' h h' e =
    let (same_key, same_id) = split_at_nul k k' v v' h h' (ap (λ (o : ObjectKey). o.key) e) in
    (ap (λ (o : ObjectKey). o.bucket) e, same_key, same_id)

-- A read of a tagging after a write, with version ids that hold no NUL byte: the new one for its
-- own object and version, and the old one
-- for any other.
pub get_object_tagging-put :
    (cfg : ObjectTagging) (b k v : Text) (st : MemoryState)
    → HasNoNul cfg.version_id
    → HasNoNul v
    → get_object_tagging b k v (put_object_tagging cfg st).1 ≡ (
        if (cfg.bucket == b) && ((cfg.key == k) && (cfg.version_id == v))
        then ok cfg
        else get_object_tagging b k v st)
unfolding get_object_tagging put_object_tagging
get_object_tagging-put cfg b k v st h h' = ground (
  arith,
  lookup-put (tagging_key cfg.bucket cfg.key cfg.version_id) (tagging_key b k v) cfg st.taggings,
  object_key_beq_iff (tagging_key cfg.bucket cfg.key cfg.version_id) (tagging_key b k v),
  tagging_key-injective cfg.bucket cfg.key cfg.version_id b k v h h',
  text_beq_iff cfg.bucket b,
  text_beq_iff cfg.key k,
  text_beq_iff cfg.version_id v,
)
