-- ===== src/Metadata/Clone/Cells.antt =====
-- internal/metadata/store.go: the maps of `memoryState` whose values are slices or maps themselves, objects
-- and parts, with the cells in which those stand: a cell holds an inner map, or the elements of a slice.
-- `cloneState` makes a cell of its own for each, and what a transaction then writes in place (a part of
-- an upload in its inner map, the filtered versions of a key in the array of its slice) goes through the
-- table of the copy.
pub mod Apart
use s.Prelude.{ℕ, ◌+◌, Option, none, some, List, [], ◌∷◌, Eq, nat_beq, if◌then◌else◌}
use s.Dict.{Dict, lookup, put, erase}

-- the cells, and the first address that is free
pub record Memory {κ} (V : Type κ) : Type κ where
  pub cells : ℕ → V
  pub free : ℕ

unfoldable pub write {κ} : {V : Type κ} → ℕ → V → Memory V → Memory V
write a v m = record m { cells = λ b. if nat_beq b a then v else m.cells b }

-- What a transaction does: the value of a key is changed in its cell, made anew where the key is
-- missing, or a key is deleted.
pub data CellCall {ℓ κ} (K : Type ℓ) (V : Type κ) : Type (ℓ ⊔ κ) where
  change : K → (V → V) → V → CellCall K V
  remove : K → CellCall K V

module _ {ℓ κ} {K : Type ℓ} ⦃e : Eq K⦄ {V : Type κ} where
  -- what a table of addresses stands for
  unfoldable pub view : Dict K ℕ → Memory V → Dict K V
  view [] m = []
  view ((k, a) ∷ t) m = (k, m.cells a) ∷ view t m

  -- the loops of `cloneState` over such a map
  unfoldable pub clone_cells : (V → V) → Dict K ℕ → Memory V → Dict K ℕ × Memory V
  unfolding write
  clone_cells copy [] m = ([], m)
  clone_cells copy ((k, a) ∷ t) m =
      let made = record (write m.free (copy (m.cells a)) m) { free = m.free + 1 } in
      let rest = clone_cells copy t made in ((k, m.free) ∷ rest.0, rest.1)

  unfoldable pub cell_call : CellCall K V → Dict K ℕ × Memory V → Dict K ℕ × Memory V
  unfolding write
  cell_call (change k f v) (t, m) = elim (lookup k t) [
    | none ↦ (put k m.free t, record (write m.free (f v) m) { free = m.free + 1 })
    | some a ↦ (t, write a (f (m.cells a)) m)
  ]
  cell_call (remove k) (t, m) = (erase k t, m)

  unfoldable pub cell_calls : List (CellCall K V) → Dict K ℕ × Memory V → Dict K ℕ × Memory V
  unfolding cell_call
  cell_calls [] s = s
  cell_calls (c ∷ cs) s = cell_calls cs (cell_call c s)
