-- ===== src/Lifecycle/Delete.antt =====
-- internal/lifecycle/worker.go: `deleteOne` and `deleteWithRetry`.
pub mod Attempts
use s.Prelude.{
  ℕ, zero, suc, ◌+◌, ◌*◌, ◌^◌, ◌%◌, ◌≡◌, ◌≢◌, refl, Bool, true, false, not, ◌&&◌, Option, none,
  some, List, [], ◌∷◌, Text, Outcome, ok, err, if◌then◌else◌, nat_beq, is_some, arith, Option-cases,
  inl, inr,
}
use s.Metadata.Model.{ObjectVersion}
use s.Lifecycle.World.{World, WorldError, not_found, Config}

module _ {W : Type 0} (world : World W) where
  -- the loop of `deleteOne` over the removed versions
  unfoldable pub delete_blobs : List ObjectVersion → W → Option WorldError × W
  delete_blobs [] w = (none, w)
  delete_blobs (v ∷ vs) w =
      let (e, w') = world.delete_blob v.bucket v.key v.version_id w in
      elim e [ none ↦ delete_blobs vs w' | some error ↦ (some error, w') ]

  -- what is left to do once the metadata rows are gone
  unfoldable pub delete_removed :
      Outcome WorldError (List ObjectVersion) → W → Outcome WorldError Bool × W
  unfolding delete_blobs
  delete_removed (err not_found) w = (ok false, w)
  delete_removed (err e) w = (err e, w)
  delete_removed (ok versions) w =
      let (e, w') = delete_blobs versions w in
      (
        elim e [ some error ↦ err error | none ↦ ok (elim versions [ [] ↦ false | _ ∷ _ ↦ true ]) ],
        w',
      )

  unfoldable pub delete_one : ObjectVersion → W → Outcome WorldError Bool × W
  unfolding delete_removed
  delete_one candidate w =
      let (removed, w') = world.delete_all_object_versions candidate.bucket candidate.key w in
      delete_removed removed w'

  -- The wait before the next attempt, none for a backoff that is not positive. The shift and the
  -- product are taken modulo 2^64; the error is that of the sleep.
  unfoldable pub pause : Config → ℕ → W → Option WorldError × W
  pause cfg attempt w =
      if nat_beq cfg.retry_backoff 0
      then (none, w)
      else world.sleep (cfg.retry_backoff * 2 ^ attempt % 2 ^ 64) w

  -- The loop of `deleteWithRetry` with `left` attempts to go, `attempt` made and `last` the last
  -- error. The last attempt makes no pause.
  unfoldable pub retry :
      Config → ObjectVersion → ℕ → ℕ → Option WorldError → W → Outcome WorldError Bool × W
  retry cfg candidate zero attempt last w = (elim last [ some e ↦ err e | none ↦ ok false ], w)
  retry cfg candidate (suc left) attempt last w =
      let (r, w1) = delete_one candidate w in
      elim r [
        | ok deleted ↦
            (elim last [ none ↦ ok deleted | some e ↦ if deleted then ok true else err e ], w1)
        | err e ↦
            let (stop, w2) = pause cfg attempt w1 in
            elim left [
              | zero ↦ (err e, w1)
              | suc _ ↦ elim stop [
                | some stopped ↦ (err stopped, w2)
                | none ↦ retry cfg candidate left (suc attempt) (some e) w2
              ]
            ]
      ]

  unfoldable pub delete_with_retry : Config → ObjectVersion → W → Outcome WorldError Bool × W
  unfolding retry
  delete_with_retry cfg candidate w = retry cfg candidate (suc cfg.max_retries) 0 none w
