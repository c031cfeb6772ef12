-- ===== src/Dict.antt =====
-- Go's map, as an association list. A write replaces the entry in place or adds one at the end,
-- so the entries stand in insertion order; the program must not depend on that order.
pub mod Laws
pub mod Keyed
use s.Prelude.{ℕ, Option, none, some, Bool, List, [], ◌∷◌, Eq, ◌==◌, is_some, if◌then◌else◌}

abbrev pub Dict {ℓ κ} : Type ℓ → Type κ → Type (ℓ ⊔ κ)
Dict K V = List (K × V)

module _ {ℓ κ} {K : Type ℓ} ⦃e : Eq K⦄ {V : Type κ} where
  -- m[k], with the comma-ok form
  unfoldable pub lookup : K → Dict K V → Option V
  lookup k [] = none
  lookup k ((j, v) ∷ m) = if j == k then some v else lookup k m

  -- m[k] = v
  unfoldable pub put : K → V → Dict K V → Dict K V
  put k v [] = (k, v) ∷ []
  put k v ((j, w) ∷ m) = if j == k then (k, v) ∷ m else (j, w) ∷ put k v m

  -- delete(m, k)
  unfoldable pub erase : K → Dict K V → Dict K V
  erase k [] = []
  erase k ((j, v) ∷ m) = if j == k then erase k m else (j, v) ∷ erase k m

  -- _, ok := m[k]
  abbrev pub has : K → Dict K V → Bool
  has k m = is_some (lookup k m)
