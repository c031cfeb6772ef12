-- ===== src/Server/Sse/Roundtrip.antt =====
-- Proofs on internal/server/sse.go: reads of what was written.
use s.Prelude.{
  ℕ, zero, suc, ◌+◌, ◌-◌, ◌*◌, ◌/◌, ◌%◌, ◌≤◌, ◌<◌, ◌≡◌, ◌∙◌, refl, sym, ap, false, Option, none,
  some, [], ◌∷◌, ◌++◌, length, length-append, Text, ltb, arith, Option-cases, inl, inr,
}
use s.Strings.{take, drop}
use s.Strings.Laws.{length-take-drop, length-take}
use s.Server.Sse.{
  Stream, advance_ctr_iv, crypt, write_encrypted, checked_range, read_blocks, read_encrypted,
}
use s.Server.Sse.Counter.{range_of, number, advance_ctr_iv_lem}

-- What is relied on in Go's counter mode: a byte is changed back by the same change, and a counter
-- that is some blocks on, but for whole turns, gives the bytes from those blocks on.
pub record IsStream (stream : Stream) : Type 0 where
  pub back : (b k : ℕ) → stream.xor (stream.xor b k) k ≡ b
  pub counts :
      (iv iv' : Text) (blocks turns i : ℕ)
      → length iv ≡ 16
      → length iv' ≡ 16
      → number iv' + turns * range_of iv ≡ number iv + blocks
      → stream.at iv' i ≡ stream.at iv (16 * blocks + i)

take-append : (a b : Text) → take (length a) (a ++ b) ≡ a
unfolding take
take-append [] b = refl
take-append (c ∷ a) b = ap (λ t. c ∷ t) (take-append a b)

drop-append : (n : ℕ) (a b : Text) → drop (length a + n) (a ++ b) ≡ drop n b
unfolding drop
drop-append n [] b = ap (λ k. drop k b) (omega arith)
drop-append n (c ∷ a) b =
    let next : length (c ∷ a) + n ≡ suc (length a + n) = omega arith in
    ap (λ k. drop k (c ∷ (a ++ b))) next ∙ drop-append n a b

drop-nil : (n : ℕ) → drop n [] ≡ []
unfolding drop
drop-nil zero = refl
drop-nil (suc n) = refl

drop-drop : (a b : ℕ) (s : Text) → drop a (drop b s) ≡ drop (b + a) s
unfolding drop
drop-drop a zero s = ap (λ k. drop k s) (omega arith)
drop-drop a (suc b) [] = drop-nil a ∙ sym (drop-nil (suc b + a))
drop-drop a (suc b) (c ∷ s) =
    let next : suc b + a ≡ suc (b + a) = omega arith in
    drop-drop a b s ∙ ap (λ k. drop k (c ∷ s)) (sym next)

take-nil : (n : ℕ) → take n [] ≡ []
unfolding take
take-nil zero = refl
take-nil (suc n) = refl

drop-take : (a m : ℕ) (s : Text) → drop a (take (a + m) s) ≡ take m (drop a s)
unfolding drop take
drop-take zero m s = ap (λ k. take k s) (omega arith)
drop-take (suc a) m [] = ap (drop (suc a)) (take-nil (suc a + m)) ∙ sym (take-nil m)
drop-take (suc a) m (c ∷ s) =
    let next : suc a + m ≡ suc (a + m) = omega arith in
    ap (λ k. drop (suc a) (take k (c ∷ s))) next ∙ drop-take a m s

module _ (stream : Stream) (law : IsStream stream) where
  crypt-length : (iv : Text) (i : ℕ) (bs : Text) → length (crypt stream iv i bs) ≡ length bs
  unfolding crypt
  crypt-length iv i [] = refl
  crypt-length iv i (b ∷ bs) = ap suc (crypt-length iv (i + 1) bs)

  take-crypt :
      (iv : Text) (i n : ℕ) (bs : Text)
      → take n (crypt stream iv i bs) ≡ crypt stream iv i (take n bs)
  unfolding crypt take
  take-crypt iv i zero bs = refl
  take-crypt iv i (suc n) [] = refl
  take-crypt iv i (suc n) (b ∷ bs) =
      ap (λ t. stream.xor b (stream.at iv i) ∷ t) (take-crypt iv (i + 1) n bs)

  drop-crypt :
      (iv : Text) (i n : ℕ) (bs : Text)
      → drop n (crypt stream iv i bs) ≡ crypt stream iv (i + n) (drop n bs)
  unfolding crypt drop
  drop-crypt iv i zero bs = ap (λ j. crypt stream iv j bs) (omega arith)
  drop-crypt iv i (suc n) [] = refl
  drop-crypt iv i (suc n) (b ∷ bs) =
      drop-crypt iv (i + 1) n bs ∙ ap (λ j. crypt stream iv j (drop n bs)) (omega arith)

  -- A text is changed back by the stream of a counter that has moved to where it was changed.
  crypt-back :
      (iv iv' : Text) (blocks turns i : ℕ) (bs : Text)
      → length iv ≡ 16
      → length iv' ≡ 16
      → number iv' + turns * range_of iv ≡ number iv + blocks
      → crypt stream iv' i (crypt stream iv (16 * blocks + i) bs) ≡ bs
  unfolding crypt
  crypt-back iv iv' blocks turns i [] h h' e = refl
  crypt-back iv iv' blocks turns i (b ∷ bs) h h' e =
      let same = law.counts iv iv' blocks turns i h h' e in
      let rest : crypt stream iv' (i + 1) (crypt stream iv (16 * blocks + i + 1) bs) ≡ bs =
        ap (λ j. crypt stream iv' (i + 1) (crypt stream iv j bs)) (omega arith)
        ∙ crypt-back iv iv' blocks turns (i + 1) bs h h' e in
      rw same (rw (law.back b (stream.at iv (16 * blocks + i))) (ap (λ t. b ∷ t) rest))

  read_blocks_lem :
      (iv plain : Text) (start end : ℕ)
      → length iv ≡ 16
      → start ≤ end
      → end < length plain
      → read_blocks stream (write_encrypted stream iv plain) iv start end
        ≡ some (take (end - start + 1) (drop start plain))
  unfolding read_blocks write_encrypted
  read_blocks_lem iv plain start end h order within =
      let first = start - start % 16 in
      let blocks = first / 16 in
      let n = end - first + 1 in
      let (long, turns, turned) = advance_ctr_iv_lem iv blocks in
      let dropped : drop (16 + first) (iv ++ crypt stream iv 0 plain)
          ≡ crypt stream iv (16 * blocks + 0) (drop first plain) =
        ap (λ k. drop (k + first) (iv ++ crypt stream iv 0 plain)) (sym h)
        ∙ (drop-append first iv (crypt stream iv 0 plain)
            ∙ (drop-crypt iv 0 first plain
                ∙ ap (λ k. crypt stream iv k (drop first plain)) (omega arith))) in
      let limited : take n (drop (16 + first) (iv ++ crypt stream iv 0 plain))
          ≡ crypt stream iv (16 * blocks + 0) (take n (drop first plain)) =
        ap (take n) dropped ∙ take-crypt iv (16 * blocks + 0) n (drop first plain) in
      let opened : crypt stream (advance_ctr_iv iv blocks) 0
            (crypt stream iv (16 * blocks + 0) (take n (drop first plain)))
          ≡ take n (drop first plain) =
        crypt-back iv (advance_ctr_iv iv blocks) blocks turns 0 (take n (drop first plain)) h
          (long ∙ h) turned in
      let sizes : n ≡ (start - first) + (end - start + 1) = omega arith in
      let starts : first + (start - first) ≡ start = omega arith in
      let long_enough : ltb (length (crypt stream iv (16 * blocks + 0) (take n (drop first plain))))
            (start - first)
          ≡ false =
        ground (
          arith,
          crypt-length iv (16 * blocks + 0) (take n (drop first plain)),
          length-take n (drop first plain)
              (omega (arith, length-take-drop first plain, length-take first plain (omega arith))),
        ) in
      rw (limited, read_blocks)
        (rw (long_enough, read_blocks)
          (ap (λ t. some t)
            (ap (drop (start - first)) opened
              ∙ (ap (λ k. drop (start - first) (take k (drop first plain))) sizes
                  ∙ (drop-take (start - first) (end - start + 1) (drop first plain)
                      ∙ (ap (take (end - start + 1)) (drop-drop (start - first) first plain)
                          ∙ ap (λ k. take (end - start + 1) (drop k plain)) starts))))))

  range_order :
      (range : Option (ℕ × ℕ)) (size start end : ℕ)
      → checked_range stream range size ≡ some (start, end)
      → (start ≤ end) × (end < size)
  unfolding checked_range
  range_order none size start end h = ground arith
  range_order (some (s, e)) size start end h = ground arith

  -- A read of an encrypted object gives the bytes of its range, and fails exactly where the range is
  -- refused: for a key of 32 bytes and an initial vector of 16, in a counter mode as in `IsStream`. Without a range the
  -- range is that of all bytes, which is refused for an object without any.
  pub read_encrypted-write :
      (iv plain : Text) (range : Option (ℕ × ℕ))
      → length iv ≡ 16
      → read_encrypted stream 32 (write_encrypted stream iv plain) (length plain) range
        ≡ elim (checked_range stream range (length plain)) [
          | none ↦ none
          | some (start, end) ↦ some (take (end - start + 1) (drop start plain))
        ]
  unfolding read_encrypted
  read_encrypted-write iv plain range h =
      let file = write_encrypted stream iv plain in
      let enough : ltb (length file) 16 ≡ false =
        unfold write_encrypted in ground (arith, length-append iv (crypt stream iv 0 plain)) in
      let vector : take 16 file ≡ iv =
        unfold write_encrypted in
        ap (λ k. take k (iv ++ crypt stream iv 0 plain)) (sym h)
        ∙ take-append iv (crypt stream iv 0 plain) in
      rw (enough, read_encrypted)
        (elim (Option-cases (checked_range stream range (length plain))) [
          | inl refused ↦ rw refused refl
          | inr ((start, end), fine) ↦ rw fine (
              rw vector (
                let order = range_order range (length plain) start end fine in
                read_blocks_lem iv plain start end h order.0 order.1))
        ])
