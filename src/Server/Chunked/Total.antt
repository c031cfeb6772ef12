-- ===== src/Server/Chunked/Total.antt =====
-- Proofs on internal/server/aws_chunked.go: the number of reads.
use s.Prelude.{
  ℕ, zero, suc, ◌+◌, ◌≡◌, ◌≢◌, ◌≤◌, ◌<◌, refl, false, Option, none, some, [], ◌∷◌, ◌++◌, length,
  Text, text_eq, nat_beq, ◌==◌, if◌then◌else◌, ltb, ok, arith, Option-cases, Outcome-cases,
  Bool-cases, inl, inr,
}
use s.Strings.{first_part, drop}
use s.Lifecycle.Rules.{Int64, pos, neg}
use s.Server.Chunked.{
  ReadError, ChunkedReader, take_line, trim_right, discard_trailers, fresh, read_crlf,
  read_chunk_size, read_data, read_chunk, read, read_all, new_reader,
}

drop-length : (n : ℕ) (s : Text) → length (drop n s) ≤ length s
unfolding drop
drop-length zero s = omega arith
drop-length (suc n) [] = omega arith
drop-length (suc n) (c ∷ s) = omega (arith, drop-length n s)

drop_suc-length : (n : ℕ) (s : Text) → 1 ≤ n → s ≢ [] → length (drop n s) < length s
unfolding drop
drop_suc-length zero s h filled = absurd (omega arith)
drop_suc-length (suc n) [] h filled = absurd (filled refl)
drop_suc-length (suc n) (c ∷ s) h filled = omega (arith, drop-length n s)

take_line-length : (s line tail : Text) → take_line s ≡ some (line, tail) → length tail < length s
unfolding take_line
take_line-length [] line tail h = absurd (ground arith)
take_line-length (c ∷ s) line tail h = elim (Option-cases (take_line s)) [
  | inl nothing ↦ ground arith
  | inr ((l, t), found) ↦ ground (arith, take_line-length s l t found)
]

read_crlf-length : (s tail : Text) → read_crlf s ≡ ok tail → length tail < length s
unfolding read_crlf
read_crlf-length [] tail h = absurd (ground arith)
read_crlf-length (c ∷ []) tail h = absurd (ground arith)
read_crlf-length (c ∷ d ∷ s) tail h = ground arith

module _ (parse_size : Text → Option Int64) where
  read_chunk_size-length :
      (s tail : Text) (n : ℕ) → read_chunk_size parse_size s ≡ ok (n, tail) → length tail < length s
  unfolding read_chunk_size
  read_chunk_size-length s tail n h = elim (Option-cases (take_line s)) [
    | inl nothing ↦ absurd (ground arith)
    | inr ((line, t), found) ↦ elim (Option-cases (parse_size (first_part 59 (trim_right line)))) [
      | inl bad ↦ absurd (ground arith)
      | inr (neg m, parsed) ↦ absurd (ground arith)
      | inr (pos m, parsed) ↦ ground (arith, take_line-length s line t found)
    ]
  ]

  read_data-length :
      (want most : ℕ) (r : ChunkedReader)
      → 1 ≤ want
      → 1 ≤ r.remain
      → (read_data parse_size want most r).1 ≡ none
      → length (read_data parse_size want most r).2.rest < length r.rest
  unfolding read_data
  read_data-length want most r h k e = elim (Bool-cases (r.rest == [])) [
    | inl empty ↦ absurd (ground arith)
    | inr filled ↦
        let limit : ℕ = if ltb r.remain want then r.remain else want in
        let n : ℕ = if ltb most limit then most + 1 else limit in
        rw filled
          (drop_suc-length n r.rest (ground arith) (ground (arith, text_eq.beq_iff r.rest [])))
  ]

  read_chunk-length :
      (want most : ℕ) (r : ChunkedReader)
      → 1 ≤ want
      → (read_chunk parse_size want most r).1 ≡ none
      → length (read_chunk parse_size want most r).2.rest < length r.rest
  unfolding read_chunk
  read_chunk-length want most r h e = elim (Outcome-cases (read_chunk_size parse_size r.rest)) [
    | inr (bad, failed) ↦ absurd (ground arith)
    | inl ((zero, tail), sized) ↦ elim (Outcome-cases (discard_trailers fresh tail)) [
      | inr (bad, failed) ↦ absurd (ground arith)
      | inl (left, discarded) ↦ absurd (ground arith)
    ]
    | inl ((suc n, tail), sized) ↦
        let r' : ChunkedReader = record r { rest = tail; remain = suc n } in
        let e' : (read_data parse_size want most r').1 ≡ none = ground arith in
        let less = read_data-length want most r' h (omega arith) e' in
        rw (sized, read_chunk)
          (omega (arith, less, read_chunk_size-length r.rest tail (suc n) sized))
  ]

  pub read-length :
      (want most : ℕ) (r : ChunkedReader)
      → 1 ≤ want
      → (read parse_size want most r).1 ≡ none
      → length (read parse_size want most r).2.rest < length r.rest
  unfolding read
  read-length want most r h e = elim (Bool-cases r.done) [
    | inl finished ↦ absurd (ground arith)
    | inr going ↦ elim (Bool-cases (nat_beq r.remain 0)) [
      | inr within ↦
          let less = read_data-length want most r h (ground arith) (ground arith) in ground arith
      | inl between ↦ elim (Bool-cases r.need_crlf) [
        | inr first ↦ let less = read_chunk-length want most r h (ground arith) in ground arith
        | inl ended ↦ elim (Outcome-cases (read_crlf r.rest)) [
          | inr (bad, failed) ↦ absurd (ground arith)
          | inl (tail, found) ↦
              let r' : ChunkedReader = record r { rest = tail; need_crlf = false } in
              let less = read_chunk-length want most r' h (ground arith) in
              ground (arith, read_crlf-length r.rest tail found)
        ]
      ]
    ]
  ]

  pub read_all-last :
      (most : ℕ → ℕ) (want fuel : ℕ) (r : ChunkedReader) (e : ReadError)
      → (read parse_size want (most fuel) r).1 ≡ some e
      → read_all parse_size most want (suc fuel) r
        ≡ some ((read parse_size want (most fuel) r).0, e)
  unfolding read_all
  read_all-last most want fuel r e stopped = rw (stopped, read_all) refl

  pub read_all-more :
      (most : ℕ → ℕ) (want fuel : ℕ) (r : ChunkedReader) (bytes : Text) (e : ReadError)
      → (read parse_size want (most fuel) r).1 ≡ none
      → read_all parse_size most want fuel (read parse_size want (most fuel) r).2 ≡ some (bytes, e)
      → read_all parse_size most want (suc fuel) r
        ≡ some ((read parse_size want (most fuel) r).0 ++ bytes, e)
  unfolding read_all
  read_all-more most want fuel r bytes e goes_on rest =
      rw (goes_on, read_all) (rw (rest, read_all) refl)

  read_all_stops :
      (most : ℕ → ℕ) (want fuel : ℕ) (r : ChunkedReader)
      → 1 ≤ want
      → length r.rest < fuel
      → (bytes : Text) × (e : ReadError) × (read_all parse_size most want fuel r ≡ some (bytes, e))
  read_all_stops most want zero r h enough = absurd (omega arith)
  read_all_stops most want (suc fuel) r h enough =
      let step = read parse_size want (most fuel) r in
      elim (Option-cases step.1) [
        | inr (e, stopped) ↦ (step.0, e, read_all-last most want fuel r e stopped)
        | inl goes_on ↦
            let less = read-length want (most fuel) r h goes_on in
            let (bytes, e, rest) = read_all_stops most want fuel step.2 h (omega (arith, less)) in
            (step.0 ++ bytes, e, read_all-more most want fuel r bytes e goes_on rest)
      ]

-- Reading a body to its end stops with an end or an error: for any text, any reads of at least a
-- byte and whatever the buffered reader gives at once, one read more than the text has bytes is enough.
pub read_all-new_reader :
    (parse_size : Text → Option Int64) (most : ℕ → ℕ) (want : ℕ) (body : Text)
    → 1 ≤ want
    → (bytes : Text) × (e : ReadError) × (read_all parse_size most want
          (length body + 1)
          (new_reader body)
        ≡ some (bytes, e))
unfolding new_reader
read_all-new_reader parse_size most want body h =
    read_all_stops parse_size most want (length body + 1) (new_reader body) h (omega arith)
