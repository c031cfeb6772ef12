-- ===== src/Metadata/Invariant/Settings.antt =====
-- Buckets, settings and taggings keep the state well formed.
use s.Prelude.{◌≡◌, refl, [], Text, ◌==◌, text_eq, ==_iff, arith, Option-cases, inl, inr}
use s.Dict.{lookup, has}
use s.Dict.Keyed.{Keyed, Keyed-put, Keyed-erase, HasDistinctKeys-put, HasDistinctKeys-erase}
use s.Metadata.Model.{Bucket, ObjectTagging}
use s.Metadata.State.{keeps_if, MemoryState, ObjectKey, object_key_eq}
use s.Metadata.Buckets.{create_bucket, update_bucket_versioning, delete_bucket, tx_delete_bucket}
use s.Metadata.Settings.{
  Table, put_setting, delete_setting, put_object_tagging, delete_object_tagging, tagging_key,
  website_table, cors_table, policy_table, public_access_table, lifecycle_table, notification_table,
  replication_table,
}
use s.Metadata.Invariant.{IsWellFormed}

-- A table whose rows the invariant covers.
pub record IsCovered {C : Type 0} (t : Table C) : Type 0 where
  pub rows : (st : MemoryState) → IsWellFormed st → Keyed (λ b cfg. t.bucket_of cfg ≡ b) (t.rows st)
  pub with_rows :
      (st : MemoryState) (m : _)
      → Keyed (λ b cfg. t.bucket_of cfg ≡ b) m
      → IsWellFormed st
      → IsWellFormed (t.with_rows st m)

pub website-IsCovered : IsCovered website_table
website-IsCovered = record { rows = λ st w. w.websites; with_rows = λ st m h w. assumption }

pub cors-IsCovered : IsCovered cors_table
cors-IsCovered = record { rows = λ st w. w.cors; with_rows = λ st m h w. assumption }

pub policy-IsCovered : IsCovered policy_table
policy-IsCovered = record { rows = λ st w. w.policies; with_rows = λ st m h w. assumption }

pub public_access-IsCovered : IsCovered public_access_table
public_access-IsCovered = record {
  rows = λ st w. w.public_access;
  with_rows = λ st m h w. assumption;
}

pub lifecycle-IsCovered : IsCovered lifecycle_table
lifecycle-IsCovered = record { rows = λ st w. w.lifecycles; with_rows = λ st m h w. assumption }

pub notification-IsCovered : IsCovered notification_table
notification-IsCovered = record {
  rows = λ st w. w.notifications;
  with_rows = λ st m h w. assumption;
}

pub replication-IsCovered : IsCovered replication_table
replication-IsCovered = record { rows = λ st w. w.replications; with_rows = λ st m h w. assumption }

module _ {C : Type 0} (t : Table C) (covered : IsCovered t) (st : MemoryState)
    (w : IsWellFormed st) where
  pub put_setting-IsWellFormed : (cfg : C) → IsWellFormed (put_setting t cfg st).1
  unfolding put_setting
  put_setting-IsWellFormed cfg =
      keeps_if IsWellFormed (has (t.bucket_of cfg) st.buckets) _ _
        (λ _. covered.with_rows st _ (Keyed-put _ cfg _ (covered.rows st w) refl) w) (λ _. w)

  pub delete_setting-IsWellFormed : (b : Text) → IsWellFormed (delete_setting t b st).1
  unfolding delete_setting
  delete_setting-IsWellFormed b =
      keeps_if IsWellFormed (has b (t.rows st)) _ _
        (λ _. covered.with_rows st _ (Keyed-erase b _ (covered.rows st w)) w) (λ _. w)

module _ (st : MemoryState) (w : IsWellFormed st) where
  pub create_bucket-IsWellFormed : (b : Bucket) → IsWellFormed (create_bucket b st).1
  unfolding create_bucket
  create_bucket-IsWellFormed b =
      keeps_if IsWellFormed (b.name == []) _ _ (λ _. w)
        λ named.
          keeps_if IsWellFormed (has b.name st.buckets) _ _ (λ _. w)
            λ _. assumption (
              Keyed-put b.name b st.buckets w.buckets (refl, ground (arith, ==_iff b.name [])),
              HasDistinctKeys-put b.name b st.buckets w.buckets_distinct,
            )

  pub update_bucket_versioning-IsWellFormed :
      (name status : Text) → IsWellFormed (update_bucket_versioning name status st).1
  unfolding update_bucket_versioning
  update_bucket_versioning-IsWellFormed name status = elim (Option-cases (lookup name st.buckets)) [
    | inl missing ↦ rw (missing, update_bucket_versioning) w
    | inr (b, found) ↦
        rw (found, update_bucket_versioning)
          (assumption (
            Keyed-put name (record b { versioning_status = status }) st.buckets w.buckets
                (w.buckets.at name b found),
            HasDistinctKeys-put name (record b { versioning_status = status }) st.buckets
                w.buckets_distinct,
          ))
  ]

  pub delete_bucket-IsWellFormed : (name : Text) → IsWellFormed (delete_bucket name st).1
  unfolding delete_bucket
  delete_bucket-IsWellFormed name =
      keeps_if IsWellFormed (has name st.buckets) _ _
        (λ _. assumption (
          Keyed-erase name st.buckets w.buckets,
          Keyed-erase name st.websites w.websites,
          Keyed-erase name st.cors w.cors,
          Keyed-erase name st.policies w.policies,
          Keyed-erase name st.public_access w.public_access,
          Keyed-erase name st.lifecycles w.lifecycles,
          Keyed-erase name st.notifications w.notifications,
          Keyed-erase name st.replications w.replications,
          HasDistinctKeys-erase name st.buckets w.buckets_distinct,
        ))
        (λ _. w)

  pub tx_delete_bucket-IsWellFormed : (name : Text) → IsWellFormed (tx_delete_bucket name st).1
  unfolding tx_delete_bucket
  tx_delete_bucket-IsWellFormed name =
      keeps_if IsWellFormed (has name st.buckets) _ _
        (λ _. assumption (
          Keyed-erase name st.buckets w.buckets,
          Keyed-erase name st.websites w.websites,
          Keyed-erase name st.cors w.cors,
          Keyed-erase name st.policies w.policies,
          Keyed-erase name st.public_access w.public_access,
          Keyed-erase name st.lifecycles w.lifecycles,
          HasDistinctKeys-erase name st.buckets w.buckets_distinct,
        ))
        (λ _. w)

  pub put_object_tagging-IsWellFormed :
      (cfg : ObjectTagging) → IsWellFormed (put_object_tagging cfg st).1
  unfolding put_object_tagging
  put_object_tagging-IsWellFormed cfg =
      let k : ObjectKey = tagging_key cfg.bucket cfg.key cfg.version_id in
      assumption (
        Keyed-put k cfg st.taggings w.taggings refl,
        HasDistinctKeys-put k cfg st.taggings w.taggings_distinct,
      )

  pub delete_object_tagging-IsWellFormed :
      (b key v : Text) → IsWellFormed (delete_object_tagging b key v st).1
  unfolding delete_object_tagging
  delete_object_tagging-IsWellFormed b key v =
      let k : ObjectKey = tagging_key b key v in
      keeps_if IsWellFormed (has k st.taggings) _ _
        (λ _. assumption (
          Keyed-erase k st.taggings w.taggings,
          HasDistinctKeys-erase k st.taggings w.taggings_distinct,
        ))
        (λ _. w)
