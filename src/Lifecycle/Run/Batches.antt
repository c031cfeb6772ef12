-- ===== src/Lifecycle/Run/Batches.antt =====
-- The batches do not matter: candidates are processed in order, up to the first cancellation.
use s.Prelude.{
  ℕ, zero, suc, ◌≤◌, ◌<◌, ◌≡◌, ◌∙◌, refl, ap, sym, some, List, [], ◌∷◌, ◌++◌, length, arith,
  Option-cases, inl, inr,
}
use s.Metadata.Model.{ObjectVersion}
use s.Lifecycle.World.{World, WorldError, Config}
use s.Lifecycle.Run.{take, drop, Progress, process_one, process, run_batches}

take-append-drop : (n : ℕ) (xs : List ObjectVersion) → take n xs ++ drop n xs ≡ xs
take-append-drop zero xs = refl
take-append-drop (suc n) [] = refl
take-append-drop (suc n) (x ∷ xs) = ap (λ l. x ∷ l) (take-append-drop n xs)

length-drop : (n : ℕ) (xs : List ObjectVersion) → length (drop n xs) ≤ length xs
length-drop zero xs = omega arith
length-drop (suc n) [] = omega arith
length-drop (suc n) (x ∷ xs) = omega (arith, length-drop n xs)

length-drop_cons :
    (n : ℕ) (x : ObjectVersion) (xs : List ObjectVersion)
    → 0 < n
    → length (drop n (x ∷ xs)) ≤ length xs
length-drop_cons zero x xs h = absurd (omega arith)
length-drop_cons (suc n) x xs h = length-drop n xs

module _ {W : Type 0} (world : World W) (cfg : Config) (total : ℕ) where
  process_stopped :
      (cs : List ObjectVersion) (p : Progress W) (e : WorldError)
      → p.stopped ≡ some e
      → process world cfg total cs p ≡ p
  unfolding process
  process_stopped [] p e h = refl
  process_stopped (c ∷ cs) p e h = ground arith

  process-append :
      (xs ys : List ObjectVersion) (p : Progress W)
      → process world cfg total (xs ++ ys) p
        ≡ process world cfg total ys (process world cfg total xs p)
  unfolding process
  process-append [] ys p = refl
  process-append (x ∷ xs) ys p = elim (Option-cases p.stopped) [
    | inl go_on ↦ ground (arith, process-append xs ys (process_one world cfg total x p))
    | inr (e, stopped) ↦ ground (arith, process_stopped ys p e stopped)
  ]

  -- With batches of at least one candidate, and as much fuel as there are candidates, the loop
  -- over the batches does what one loop over all candidates does.
  pub run_batches-eq-process :
      (fuel : ℕ) (cs : List ObjectVersion) (p : Progress W)
      → 0 < cfg.batch_size
      → length cs ≤ fuel
      → run_batches world cfg total fuel cs p ≡ process world cfg total cs p
  unfolding run_batches
  run_batches-eq-process zero [] p pos fits = unfold process in refl
  run_batches-eq-process zero (c ∷ cs) p pos fits = absurd (omega arith)
  run_batches-eq-process (suc fuel) [] p pos fits = unfold process in refl
  run_batches-eq-process (suc fuel) (c ∷ cs) p pos fits =
      let n : ℕ = cfg.batch_size in
      let whole = take-append-drop n (c ∷ cs) in
      let first : Progress W = process world cfg total (take n (c ∷ cs)) p in
      let split = process-append (take n (c ∷ cs)) (drop n (c ∷ cs)) p in
      elim (Option-cases first.stopped) [
        | inl go_on ↦
            rw (go_on, run_batches)
              (run_batches-eq-process fuel (drop n (c ∷ cs)) first pos
                  (omega (arith, length-drop_cons n c cs pos))
                ∙ (sym split ∙ ap (λ l. process world cfg total l p) whole))
        | inr (e, stopped) ↦
            rw (stopped, run_batches)
              (sym (process_stopped (drop n (c ∷ cs)) first e stopped)
                ∙ (sym split ∙ ap (λ l. process world cfg total l p) whole))
      ]
