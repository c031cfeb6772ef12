-- ===== src/Metadata/Uploads/Laws.antt =====
-- What an upload reads: its parts in ascending order, each under the number that it was last
-- uploaded with.
use mathlib.Core.Path.{subst}
use s.Prelude.{
  ℕ, ◌<◌, ◌≡◌, ◌≢◌, ◌↔◌, refl, ap, ◌∙◌, sym, none, some, true, false, ◌&&◌, List, [], ◌∷◌, map,
  Text, ◌==◌, text_eq, nat_eq, ok, err, if◌then◌else◌, arith, text_beq_iff, All, Elem, ltb, nat_beq,
  Bool-cases, inl, inr,
}
use s.Dict.{Dict, lookup, put, has, erase}
use s.Dict.Laws.{lookup-put, lookup-erase}
use s.Dict.Keyed.{HasDistinctKeys}
use s.Sort.{insert, sort}
use s.Sort.Laws.{IsSorted, sort-IsSorted, Elem-sort, All-insert, All-sort, ltb-IsWeakOrder}
use s.Metadata.Model.{MultipartUpload, MultipartPart}
use s.Metadata.State.{MemoryState, not_found}
use s.Metadata.Uploads.{
  create_multipart_upload, delete_multipart_upload, parts_of, upsert_multipart_part, part_at,
  sorted_parts, get_multipart_upload,
}
use s.Metadata.Invariant.{IsWellFormed}
use s.Metadata.Invariant.Uploads.{parts_of-PartsFit}

-- The part numbers of a map.
abbrev numbers : Dict ℕ MultipartPart → List ℕ
numbers parts = map (λ entry. entry.0) parts

Elem-numbers :
    (n : ℕ) (parts : Dict ℕ MultipartPart)
    → Elem n (numbers parts)
    → (p : MultipartPart) × (lookup n parts ≡ some p)
unfolding lookup
Elem-numbers n [] h = absurd h
Elem-numbers n ((k, p) ∷ m) h = elim (Bool-cases (nat_beq k n)) [
  | inl hit ↦ (p, rw hit refl)
  | inr miss ↦
      let later : Elem n (numbers m) = ground arith in
      let (q, found) = Elem-numbers n m later in (q, rw miss found)
]

numbers-Elem :
    (n : ℕ) (p : MultipartPart) (parts : Dict ℕ MultipartPart)
    → lookup n parts ≡ some p
    → Elem n (numbers parts)
unfolding lookup
numbers-Elem n p [] h = cc
numbers-Elem n p ((k, q) ∷ m) h = elim (Bool-cases (nat_beq k n)) [
  | inl hit ↦ inl (ground arith)
  | inr miss ↦ inr (numbers-Elem n p m (rw miss at h))
]

-- Numbers without a repetition.
abbrev AreDistinct : List ℕ → Type 0
AreDistinct [] = Unit
AreDistinct (n ∷ ns) = All (λ m. n ≢ m) ns × AreDistinct ns

missing_number :
    (n : ℕ) (parts : Dict ℕ MultipartPart)
    → lookup n parts ≡ none
    → All (λ m. n ≢ m) (numbers parts)
unfolding lookup
missing_number n [] h = tt
missing_number n ((k, p) ∷ m) h = elim (Bool-cases (nat_beq k n)) [
  | inl hit ↦ absurd (ground arith)
  | inr miss ↦ (ground arith, missing_number n m (rw miss at h))
]

numbers-AreDistinct :
    (parts : Dict ℕ MultipartPart) → HasDistinctKeys parts → AreDistinct (numbers parts)
numbers-AreDistinct [] h = tt
numbers-AreDistinct ((k, p) ∷ m) h = (missing_number k m h.0, numbers-AreDistinct m h.1)

All-sym : (n : ℕ) (ns : List ℕ) → All (λ m. n ≢ m) ns → All (λ m. m ≢ n) ns
All-sym n [] h = tt
All-sym n (m ∷ ns) h = (λ e. h.0 (sym e), All-sym n ns h.1)

insert-AreDistinct :
    (n : ℕ) (ns : List ℕ) → All (λ m. n ≢ m) ns → AreDistinct ns → AreDistinct (insert ltb n ns)
unfolding insert
insert-AreDistinct n [] a d = (tt, tt)
insert-AreDistinct n (m ∷ ns) a d = elim (Bool-cases (ltb n m)) [
  | inl lt ↦ rw lt (a, d)
  | inr ge ↦
      rw ge
        (All-insert ltb (λ k. m ≢ k) n ns (λ e. a.0 (sym e)) d.0, insert-AreDistinct n ns a.1 d.1)
]

sort-AreDistinct : (ns : List ℕ) → AreDistinct ns → AreDistinct (sort ltb ns)
unfolding sort
sort-AreDistinct [] d = tt
sort-AreDistinct (n ∷ ns) d =
    insert-AreDistinct n (sort ltb ns) (All-sort ltb (λ m. n ≢ m) ns d.0) (sort-AreDistinct ns d.1)

-- Part numbers that ascend strictly.
abbrev pub IsAscending : List MultipartPart → Type 0
IsAscending [] = Unit
IsAscending (p ∷ ps) =
    All (λ (q : MultipartPart). p.part_number < q.part_number) ps × IsAscending ps

module _ (parts : Dict ℕ MultipartPart) where
  abbrev Numbered : ℕ → Type 0
  Numbered n = (part_at parts n).part_number ≡ n

  map_above :
      (n : ℕ) (ns : List ℕ)
      → All (λ m. ltb m n ≡ false) ns
      → All (λ m. n ≢ m) ns
      → All Numbered ns
      → All (λ (q : MultipartPart). n < q.part_number) (map (part_at parts) ns)
  map_above n [] s d h = tt
  map_above n (m ∷ ns) s d h =
      (let below : n < m = ground (arith, s.0, d.0) in rw h.0 below, map_above n ns s.1 d.1 h.1)

  map-IsAscending :
      (ns : List ℕ)
      → IsSorted ltb ns
      → AreDistinct ns
      → All Numbered ns
      → IsAscending (map (part_at parts) ns)
  map-IsAscending [] s d h = tt
  map-IsAscending (n ∷ ns) s d h =
      (rw h.0 (map_above n ns s.0 d.0 h.1), map-IsAscending ns s.1 d.1 h.1)

module _ (parts : Dict ℕ MultipartPart)
    (keyed : (n : ℕ) (p : MultipartPart) → lookup n parts ≡ some p → p.part_number ≡ n)
    (distinct : HasDistinctKeys parts) where
  part_at_found : (n : ℕ) (p : MultipartPart) → lookup n parts ≡ some p → part_at parts n ≡ p
  unfolding part_at
  part_at_found n p h = ground arith

  Numbered-of_found : (n : ℕ) (p : MultipartPart) → lookup n parts ≡ some p → Numbered parts n
  Numbered-of_found n p h = rw (part_at_found n p h) (keyed n p h)

  All-Numbered :
      (ns : List ℕ) → ((n : ℕ) → Elem n ns → Elem n (numbers parts)) → All (Numbered parts) ns
  All-Numbered [] h = tt
  All-Numbered (n ∷ ns) h = (
    let (p, found) = Elem-numbers n parts (h n (inl refl)) in Numbered-of_found n p found,
    All-Numbered ns (λ m later. h m (inr later)),
  )

  sorted_parts-IsAscending : IsAscending (sorted_parts parts)
  unfolding sorted_parts
  sorted_parts-IsAscending =
      map-IsAscending parts (sort ltb (numbers parts))
        (sort-IsSorted ltb ltb-IsWeakOrder (numbers parts))
        (sort-AreDistinct (numbers parts) (numbers-AreDistinct parts distinct))
        (All-Numbered (sort ltb (numbers parts)) (λ n. (Elem-sort ltb n (numbers parts)).0))

  Elem-map_part :
      (p : MultipartPart) (ns : List ℕ)
      → Elem p (map (part_at parts) ns)
      → (n : ℕ) × Elem n ns × (p ≡ part_at parts n)
  Elem-map_part p [] h = absurd h
  Elem-map_part p (n ∷ ns) (inl e) = (n, inl refl, e)
  Elem-map_part p (n ∷ ns) (inr h) = let (m, later, e) = Elem-map_part p ns h in (m, inr later, e)

  map_part-Elem :
      (n : ℕ) (ns : List ℕ) → Elem n ns → Elem (part_at parts n) (map (part_at parts) ns)
  map_part-Elem n [] h = absurd h
  map_part-Elem n (m ∷ ns) (inl e) = inl (ap (part_at parts) e)
  map_part-Elem n (m ∷ ns) (inr h) = inr (map_part-Elem n ns h)

  sorted_parts_iff :
      (p : MultipartPart) → Elem p (sorted_parts parts) ↔ (lookup p.part_number parts ≡ some p)
  unfolding sorted_parts
  sorted_parts_iff p = (
    λ listed.
        let (n, there, e) = Elem-map_part p (sort ltb (numbers parts)) listed in
        let (q, found) = Elem-numbers n parts ((Elem-sort ltb n (numbers parts)).0 there) in
        let same : q ≡ p = sym (part_at_found n q found) ∙ sym e in
        let number : p.part_number ≡ n = rw (← same) (keyed n q found) in
        subst (λ m. lookup m parts ≡ some p) (sym number) (found ∙ ap some same),
    λ found.
        subst (λ q. Elem q (map (part_at parts) (sort ltb (numbers parts))))
          (part_at_found p.part_number p found)
          (map_part-Elem p.part_number (sort ltb (numbers parts)) (
            (Elem-sort ltb p.part_number (numbers parts)).1
              (numbers-Elem p.part_number p parts found))),
  )

-- In a well-formed state `GetMultipartUpload` of an upload that exists gives the upload, and its parts by strictly
-- ascending part number: exactly the parts that are stored under their numbers.
pub get_multipart_upload_parts :
    (st : MemoryState)
    → IsWellFormed st
    → (id : Text) (u : MultipartUpload) → lookup id st.multipart ≡ some u
    → (ps : List MultipartPart) × (get_multipart_upload id st ≡ ok (u, ps))
      × IsAscending ps
      × ((p : MultipartPart) → Elem p ps ↔ (lookup p.part_number (parts_of id st) ≡ some p))
unfolding get_multipart_upload
get_multipart_upload_parts st w id u found =
    let (keyed, distinct) = parts_of-PartsFit st w id in
    let numbered =
      λ (n : ℕ) (p : MultipartPart) (h : lookup n (parts_of id st) ≡ some p). (keyed.at n p h).0 in
    (
      sorted_parts (parts_of id st),
      ground (arith, found),
      sorted_parts-IsAscending (parts_of id st) numbered distinct,
      sorted_parts_iff (parts_of id st) numbered distinct,
    )

-- After the upload of a part to an upload that exists, a part number of any upload reads the new
-- part if it is that part's, and what it read before if not; a part of an upload that does not
-- exist changes nothing.
pub parts_of-upsert :
    (p : MultipartPart) (id : Text) (n : ℕ) (st : MemoryState)
    → lookup n (parts_of id (upsert_multipart_part p st).1) ≡ (
        if has p.upload_id st.multipart && ((p.upload_id == id) && (p.part_number == n))
        then some p
        else lookup n (parts_of id st))
unfolding upsert_multipart_part parts_of
parts_of-upsert p id n st = ground (
  arith,
  text_beq_iff p.upload_id id,
  lookup-put p.upload_id id (put p.part_number p (parts_of p.upload_id st)) st.parts,
  lookup-put p.part_number n p (parts_of p.upload_id st),
)

-- An aborted or completed upload is gone with its parts: a new upload under the same id has none.
pub delete_multipart_upload_clears :
    (u : MultipartUpload) (st : MemoryState)
    → has u.upload_id st.multipart ≡ true
    → (get_multipart_upload u.upload_id (delete_multipart_upload u.upload_id st).1 ≡ err not_found)
      × (get_multipart_upload u.upload_id
            (create_multipart_upload u (delete_multipart_upload u.upload_id st).1).1
          ≡ ok (u, []))
unfolding get_multipart_upload delete_multipart_upload create_multipart_upload parts_of sorted_parts
    sort
delete_multipart_upload_clears u st there = (
  ground (
    arith,
    text_beq_iff u.upload_id u.upload_id,
    lookup-erase u.upload_id u.upload_id st.multipart,
  ),
  ground (
    arith,
    text_beq_iff u.upload_id u.upload_id,
    lookup-erase u.upload_id u.upload_id st.multipart,
    lookup-erase u.upload_id u.upload_id st.parts,
    lookup-put u.upload_id u.upload_id u (erase u.upload_id st.multipart),
  ),
)
