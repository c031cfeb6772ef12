-- ===== src/Lifecycle/Delete/Attempts.antt =====
-- How often a candidate is tried, and what a retry can still do.
use s.Prelude.{
  ℕ, zero, suc, ◌+◌, ◌*◌, ◌^◌, ◌%◌, ◌≤◌, ◌≡◌, refl, Bool, false, Option, none, some, List, [], ◌∷◌,
  Text, Outcome, ok, err, arith, nat_beq, Bool-cases, Option-cases, Outcome-cases, inl, inr,
}
use s.Metadata.Model.{ObjectVersion}
use s.Lifecycle.World.{World, WorldError, not_found, Config}
use s.Lifecycle.Delete.{delete_blobs, delete_removed, delete_one, pause, retry, delete_with_retry}

-- What the worker relies on in a metadata store: the rows that a deletion removed stay removed,
-- and neither the blobs nor the sleep bring them back.
pub record RemovesRows {W : Type 0} (world : World W) (b k : Text) : Type 1 where
  pub Gone : W → Type 0
  pub removed :
      (w : W) (vs : List ObjectVersion)
      → (world.delete_all_object_versions b k w).0 ≡ ok vs
      → Gone (world.delete_all_object_versions b k w).1
  pub gone : (w : W) → Gone w → (world.delete_all_object_versions b k w).0 ≡ err not_found
  pub keeps_blob : (vb vk vid : Text) (w : W) → Gone w → Gone (world.delete_blob vb vk vid w).1
  pub keeps_sleep : (d : ℕ) (w : W) → Gone w → Gone (world.sleep d w).1

module _ {W : Type 0} (world : World W) (cfg : Config) (c : ObjectVersion)
    (rows : RemovesRows world c.bucket c.key) where
  delete_blobs-Gone :
      (vs : List ObjectVersion) (w : W) → rows.Gone w → rows.Gone (delete_blobs world vs w).1
  unfolding delete_blobs
  delete_blobs-Gone [] w h = h
  delete_blobs-Gone (v ∷ vs) w h =
      let kept = rows.keeps_blob v.bucket v.key v.version_id w h in
      elim (Option-cases (world.delete_blob v.bucket v.key v.version_id w).0) [
        | inl deleted ↦
            rw (deleted, delete_blobs)
              (delete_blobs-Gone vs (world.delete_blob v.bucket v.key v.version_id w).1 kept)
        | inr (e, failed) ↦ rw (failed, delete_blobs) kept
      ]

  one_gone : (w : W) → rows.Gone w → (delete_one world c w).0 ≡ ok false
  unfolding delete_one
  one_gone w h = rw (rows.gone w h, delete_removed) refl

  one_failed :
      (w : W) (vs : List ObjectVersion) (e : WorldError)
      → (world.delete_all_object_versions c.bucket c.key w).0 ≡ ok vs
      → (delete_blobs world vs (world.delete_all_object_versions c.bucket c.key w).1).0 ≡ some e
      → ((delete_one world c w).0 ≡ err e) × rows.Gone (delete_one world c w).1
  unfolding delete_one delete_removed
  one_failed w vs e removed failed =
      rw (removed, delete_removed)
        (
          rw failed refl,
          delete_blobs-Gone vs (world.delete_all_object_versions c.bucket c.key w).1
              (rows.removed w vs removed),
        )

  pause-Gone : (attempt : ℕ) (w : W) → rows.Gone w → rows.Gone (pause world cfg attempt w).1
  unfolding pause
  pause-Gone attempt w h = elim (Bool-cases (nat_beq cfg.retry_backoff 0)) [
    | inl none' ↦ rw none' h
    | inr some' ↦ rw some' (rows.keeps_sleep (cfg.retry_backoff * 2 ^ attempt % 2 ^ 64) w h)
  ]

  -- With an error behind it and the rows gone, an attempt ends the loop with that error.
  retry_gone :
      (left attempt : ℕ) (e : WorldError) (w : W)
      → rows.Gone w
      → (retry world cfg c left attempt (some e) w).0 ≡ err e
  unfolding retry
  retry_gone zero attempt e w h = refl
  retry_gone (suc left) attempt e w h = rw (one_gone w h, retry) refl

  retry_failed :
      (left attempt : ℕ) (e : WorldError) (w : W)
      → (delete_one world c w).0 ≡ err e
      → rows.Gone (delete_one world c w).1
      → (error : WorldError) × ((retry world cfg c (suc left) attempt none w).0 ≡ err error)
  unfolding retry
  retry_failed zero attempt e w failed h = (e, rw (failed, retry) refl)
  retry_failed (suc left) attempt e w failed h =
      let w1 : W = (delete_one world c w).1 in
      elim (Option-cases (pause world cfg attempt w1).0) [
        | inl go_on ↦ (
          e,
          rw (failed, retry)
              (rw (go_on, retry)
                (retry_gone (suc left) (suc attempt) e (pause world cfg attempt w1).1
                  (pause-Gone attempt w1 h))),
        )
        | inr (stop, stopped) ↦ (stop, rw (failed, retry) (rw (stopped, retry) refl))
      ]

  -- With a metadata store whose removed rows stay removed: if the first attempt removes the rows and
  -- then fails to delete a blob, no retry can succeed, and the call ends in an error whatever the
  -- number of retries.
  pub no_retry_after_blob_failure :
      (w : W) (vs : List ObjectVersion) (e : WorldError)
      → (world.delete_all_object_versions c.bucket c.key w).0 ≡ ok vs
      → (delete_blobs world vs (world.delete_all_object_versions c.bucket c.key w).1).0 ≡ some e
      → (error : WorldError) × ((delete_with_retry world cfg c w).0 ≡ err error)
  unfolding delete_with_retry
  no_retry_after_blob_failure w vs e removed failed =
      let (one, gone) = one_failed w vs e removed failed in
      retry_failed cfg.max_retries 0 e w one gone

-- Each attempt costs a call; `calls` counts them in the world.
module _ {W : Type 0} (world : World W) (cfg : Config) (c : ObjectVersion) (calls : W → ℕ)
    (one : (w : W) → calls (delete_one world c w).1 ≤ calls w + 1)
    (asleep : (d : ℕ) (w : W) → calls (world.sleep d w).1 ≡ calls w) where
  calls-pause : (attempt : ℕ) (w : W) → calls (pause world cfg attempt w).1 ≡ calls w
  unfolding pause
  calls-pause attempt w = elim (Bool-cases (nat_beq cfg.retry_backoff 0)) [
    | inl none' ↦ rw none' refl
    | inr some' ↦ rw some' (asleep _ w)
  ]

  calls-retry :
      (left attempt : ℕ) (last : Option WorldError) (w : W)
      → calls (retry world cfg c left attempt last w).1 ≤ calls w + left
  unfolding retry
  calls-retry zero attempt last w = omega arith
  calls-retry (suc left) attempt last w = elim (Outcome-cases (delete_one world c w).0) [
    | inl (deleted, done) ↦ rw (done, retry) (omega (arith, one w))
    | inr (e, failed) ↦
        rw (failed, retry)
          (calls-rest left attempt e (delete_one world c w).1 (one w)
            (calls-retry left (suc attempt) (some e)))
  ]
    where
      calls-rest :
          (left attempt : ℕ) (e : WorldError) (w1 : W)
          → calls w1 ≤ calls w + 1
          → ((w2 : W)
              → calls (retry world cfg c left (suc attempt) (some e) w2).1 ≤ calls w2 + left)
          → calls
              (elim left as (λ _. Outcome WorldError Bool × W) [
                | zero ↦ (err e, w1)
                | suc _ ↦
                    elim (pause world cfg attempt w1).0 as (λ _. Outcome WorldError Bool × W) [
                      | none ↦
                          retry world cfg c left
                            (suc attempt)
                            (some e)
                            (pause world cfg attempt w1).1
                      | some stopped ↦ (err stopped, (pause world cfg attempt w1).1)
                    ]
              ]).1
            ≤ calls w + suc left
      calls-rest zero attempt e w1 h ih = omega arith
      calls-rest (suc left) attempt e w1 h ih = elim (Option-cases (pause world cfg attempt w1).0) [
        | inl go_on ↦
            rw go_on (omega (arith, ih (pause world cfg attempt w1).1, calls-pause attempt w1))
        | inr (stop, stopped) ↦ rw stopped (omega (arith, calls-pause attempt w1))
      ]

  -- A candidate is tried at most once more than the number of retries: of a count that a try raises
  -- by at most one and a sleep leaves as it is, the call adds no more than that.
  pub delete_with_retry_attempts :
      (w : W) → calls (delete_with_retry world cfg c w).1 ≤ calls w + (cfg.max_retries + 1)
  unfolding delete_with_retry
  delete_with_retry_attempts w = omega (arith, calls-retry (suc cfg.max_retries) 0 none w)
