-- ===== src/Sort.antt =====
-- The order of Go strings, and sorting by a `less` function as `sort.Slice` and `sort.Ints` do.
-- `sort.Slice` is not stable: where two items tie, their order here is one that it may give.
pub mod Laws
pub mod Unique
use s.Prelude.{ℕ, Bool, true, false, List, [], ◌∷◌, Text, ltb, nat_beq, if◌then◌else◌}

-- a < b on strings, byte by byte
unfoldable pub text_lt : Text → Text → Bool
text_lt [] [] = false
text_lt [] (y ∷ ys) = true
text_lt (x ∷ xs) [] = false
text_lt (x ∷ xs) (y ∷ ys) = if nat_beq x y then text_lt xs ys else ltb x y

module _ {ℓ} {A : Type ℓ} (less : A → A → Bool) where
  unfoldable pub insert : A → List A → List A
  insert x [] = x ∷ []
  insert x (y ∷ ys) = if less x y then x ∷ y ∷ ys else y ∷ insert x ys

  unfoldable pub sort : List A → List A
  unfolding insert
  sort [] = []
  sort (x ∷ xs) = insert x (sort xs)
