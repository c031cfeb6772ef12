-- ===== src/Metadata/Clone/Cells/Apart.antt =====
-- Proofs on `cloneState` with the cells of the inner maps and slices.
use s.Prelude.{
  ℕ, ◌+◌, ◌≤◌, ◌<◌, ◌≡◌, ◌∙◌, refl, ap, Bool-cases, inl, inr, some, List, [], ◌∷◌, Eq, ◌==◌, arith,
  Option-cases,
}
use s.Dict.{Dict, lookup, put, erase}
use s.Metadata.Clone.Cells.{
  Memory, write, view, clone_cells, CellCall, change, remove, cell_call, cell_calls,
}

module _ {ℓ} {K : Type ℓ} where
  -- All addresses of the table are below the number, or none is.
  abbrev pub Below : ℕ → Dict K ℕ → Type 0
  Below n [] = Unit
  Below n ((k, a) ∷ t) = (a < n) × Below n t

  abbrev Above : ℕ → Dict K ℕ → Type 0
  Above n [] = Unit
  Above n ((k, a) ∷ t) = (n ≤ a) × Above n t

  Below-le : (n p : ℕ) (t : Dict K ℕ) → n ≤ p → Below n t → Below p t
  Below-le n p [] h b = tt
  Below-le n p ((k, a) ∷ t) h (b, bs) = (omega arith, Below-le n p t h bs)

  Above-le : (n p : ℕ) (t : Dict K ℕ) → n ≤ p → Above p t → Above n t
  Above-le n p [] h b = tt
  Above-le n p ((k, a) ∷ t) h (b, bs) = (omega arith, Above-le n p t h bs)

module _ {ℓ} {K : Type ℓ} ⦃e : Eq K⦄ where
  lookup-Above : (n a : ℕ) (k : K) (t : Dict K ℕ) → Above n t → lookup k t ≡ some a → n ≤ a
  unfolding lookup
  lookup-Above n a k [] h f = absurd (ground arith)
  lookup-Above n a k ((j, b) ∷ t) (h, hs) f = elim (Bool-cases (j == k)) [
    | inl same ↦ ground arith
    | inr other ↦ lookup-Above n a k t hs (ground arith)
  ]

  put-Above : (n a : ℕ) (k : K) (t : Dict K ℕ) → n ≤ a → Above n t → Above n (put k a t)
  unfolding put
  put-Above n a k [] le h = (le, tt)
  put-Above n a k ((j, b) ∷ t) le (h, hs) = elim (Bool-cases (j == k)) [
    | inl same ↦ rw (same, put) (le, hs)
    | inr other ↦ rw (other, put) (h, put-Above n a k t le hs)
  ]

  erase-Above : (n : ℕ) (k : K) (t : Dict K ℕ) → Above n t → Above n (erase k t)
  unfolding erase
  erase-Above n k [] h = tt
  erase-Above n k ((j, b) ∷ t) (h, hs) = elim (Bool-cases (j == k)) [
    | inl same ↦ rw (same, erase) (erase-Above n k t hs)
    | inr other ↦ rw (other, erase) (h, erase-Above n k t hs)
  ]

-- the memory with the new cell of one round of the loop
abbrev made {κ} : {V : Type κ} → (V → V) → ℕ → Memory V → Memory V
made copy a m = record (write m.free (copy (m.cells a)) m) { free = m.free + 1 }

write-other {κ} :
    {V : Type κ} (a b : ℕ) (v : V) (m : Memory V) → a < b → (write b v m).cells a ≡ m.cells a
unfolding write
write-other a b v m h = ground arith

write-same {κ} : {V : Type κ} (a : ℕ) (v : V) (m : Memory V) → (write a v m).cells a ≡ v
unfolding write
write-same a v m = ground arith

module _ {ℓ κ} {K : Type ℓ} ⦃e : Eq K⦄ {V : Type κ} where
  -- The table is away from the cells below the number, which are as in the first memory.
  record IsApart (n : ℕ) (first : Memory V) (s : Dict K ℕ × Memory V) : Type κ where
    above : Above n s.0
    room : n ≤ s.1.free
    same : (a : ℕ) → a < n → s.1.cells a ≡ first.cells a

  view-same :
      (n : ℕ) (t : Dict K ℕ) (m first : Memory V)
      → Below n t
      → ((a : ℕ) → a < n → m.cells a ≡ first.cells a)
      → view t m ≡ view t first
  unfolding view
  view-same n [] m first b h = refl
  view-same n ((k, a) ∷ t) m first (b, bs) h =
      rw (h a b) (ap (λ d. (k, first.cells a) ∷ d) (view-same n t m first bs h))

  cell_call-IsApart :
      (n : ℕ) (first : Memory V) (c : CellCall K V) (t : Dict K ℕ) (m : Memory V)
      → IsApart n first (t, m)
      → IsApart n first (cell_call c (t, m))
  unfolding cell_call
  cell_call-IsApart n first (remove k) t m h = record {
    above = erase-Above n k t h.above;
    room = h.room;
    same = h.same;
  }
  cell_call-IsApart n first (change k f v) t m h = elim (Option-cases (lookup k t)) [
    | inl missing ↦
        rw (missing, cell_call)
          (record {
            above = put-Above n m.free k t h.room h.above;
            room = unfold write in omega (arith, h.room);
            same = λ a le. write-other a m.free (f v) m (omega (arith, h.room)) ∙ h.same a le;
          })
    | inr (b, found) ↦
        let le = lookup-Above n b k t h.above found in
        rw (found, cell_call)
          (record {
            above = h.above;
            room = unfold write in h.room;
            same = λ a less. write-other a b (f (m.cells b)) m (omega arith) ∙ h.same a less;
          })
  ]

  cell_calls-IsApart :
      (n : ℕ) (first : Memory V) (cs : List (CellCall K V)) (t : Dict K ℕ) (m : Memory V)
      → IsApart n first (t, m)
      → IsApart n first (cell_calls cs (t, m))
  unfolding cell_calls
  cell_calls-IsApart n first [] t m h = h
  cell_calls-IsApart n first (c ∷ cs) t m h =
      let (t', m') = cell_call c (t, m) in
      cell_calls-IsApart n first cs t' m' (cell_call-IsApart n first c t m h)

  module _ (copy : V → V) where
    clone_cells-IsApart :
        (n : ℕ) (t : Dict K ℕ) (first m : Memory V)
        → n ≤ m.free
        → ((a : ℕ) → a < n → m.cells a ≡ first.cells a)
        → IsApart n first (clone_cells copy t m)
    unfolding clone_cells
    clone_cells-IsApart n [] first m le same = record { above = tt; room = le; same = same }
    clone_cells-IsApart n ((k, a) ∷ t) first m le same =
        let rest =
          clone_cells-IsApart n t first (made copy a m) (omega arith)
            (λ b less. write-other b m.free (copy (m.cells a)) m (omega arith) ∙ same b less) in
        record { above = (le, rest.above); room = rest.room; same = rest.same }

    view-clone_cells :
        ((v : V) → copy v ≡ v)
        → (t : Dict K ℕ) (m : Memory V) → Below m.free t
        → view (clone_cells copy t m).0 (clone_cells copy t m).1 ≡ view t m
    unfolding clone_cells view
    view-clone_cells kept [] m b = refl
    view-clone_cells kept ((k, a) ∷ t) m (b, bs) =
        let next = made copy a m in
        let rest = clone_cells-IsApart (m.free + 1) t next next (omega arith) (λ c less. refl) in
        let own : (clone_cells copy t next).1.cells m.free ≡ m.cells a =
          rest.same m.free (omega arith)
          ∙ (write-same m.free (copy (m.cells a)) m ∙ kept (m.cells a)) in
        let others : view (clone_cells copy t next).0 (clone_cells copy t next).1 ≡ view t m =
          view-clone_cells kept t next (Below-le m.free (m.free + 1) t (omega arith) bs)
          ∙ view-same m.free t next m bs
              (λ c less. write-other c m.free (copy (m.cells a)) m less) in
        rw (own, clone_cells) (ap (λ d. (k, m.cells a) ∷ d) others)

    -- The copy of a table reads as the table does, and whatever is then written in place through the copy,
    -- the table reads as before. `copy` makes an equal value, and the table's cells are in use.
    pub clone_cells-calls :
        ((v : V) → copy v ≡ v)
        → (t : Dict K ℕ) (m : Memory V) (cs : List (CellCall K V)) → Below m.free t
        → (view (clone_cells copy t m).0 (clone_cells copy t m).1 ≡ view t m)
          × (view t (cell_calls cs (clone_cells copy t m)).1 ≡ view t m)
    clone_cells-calls kept t m cs b =
        let (t', m') = clone_cells copy t m in
        let apart =
          cell_calls-IsApart m.free m cs t' m'
            (clone_cells-IsApart m.free t m m (omega arith) (λ a less. refl)) in
        (
          view-clone_cells kept t m b,
          view-same m.free t (cell_calls cs (clone_cells copy t m)).1 m b apart.same,
        )
