-- ===== src/Server/Chunked/Framing.antt =====
-- Proofs on internal/server/aws_chunked.go: the bytes of a framed body.
use s.Prelude.{
  ℕ, zero, suc, ◌+◌, ◌-◌, ◌≡◌, ◌≢◌, ◌≤◌, ◌<◌, ◌∙◌, ◌⊎◌, refl, sym, ap, Bool, true, false, Option,
  none, some, [], ◌∷◌, ◌++◌, length, Text, text_eq, text_beq, nat_beq, if◌then◌else◌, ltb, ok,
  arith, inl, inr,
}
use s.Strings.{first_part, take, drop}
use s.Strings.Laws.{Lacks, length-take-drop}
use s.Lifecycle.Rules.{Int64, pos}
use s.Server.Chunked.{
  ReadError, eof, ChunkedReader, take_line, trim_right, discard_trailers, fresh, read_crlf,
  read_chunk_size, read_data, read_chunk, read, read_all, new_reader,
}
use s.Server.Chunked.Total.{read-length, read_all-last, read_all-more}

-- A body with what it carries: chunks with a line that tells their size, up to one of size 0 with
-- its trailers, or up to where the body is cut off, between two chunks or within one.
pub data IsFramed (parse_size : Text → Option Int64) : Text → Text → Type 0 where
  last :
      (line tail left : Text)
      → Lacks 10 line
      → parse_size (first_part 59 (trim_right line)) ≡ some (pos 0)
      → discard_trailers fresh tail ≡ ok left
      → IsFramed parse_size (line ++ 10 ∷ tail) []
  chunk :
      (line body payload : Text) (c : ℕ) (piece : Text)
      → Lacks 10 line
      → parse_size (first_part 59 (trim_right line)) ≡ some (pos (suc (length piece)))
      → IsFramed parse_size body payload
      → IsFramed parse_size (line ++ 10 ∷ c ∷ (piece ++ 13 ∷ 10 ∷ body)) (c ∷ (piece ++ payload))
  cut : IsFramed parse_size [] []
  cut_within :
      (line : Text) (n : ℕ) (piece : Text)
      → Lacks 10 line
      → parse_size (first_part 59 (trim_right line)) ≡ some (pos (suc n))
      → length piece ≤ n
      → IsFramed parse_size (line ++ 10 ∷ piece) piece

append_assoc : (a b c : Text) → a ++ (b ++ c) ≡ (a ++ b) ++ c
append_assoc [] b c = refl
append_assoc (x ∷ a) b c = ap (λ t. x ∷ t) (append_assoc a b c)

take-drop : (n : ℕ) (s : Text) → take n s ++ drop n s ≡ s
unfolding take drop
take-drop zero s = refl
take-drop (suc n) [] = refl
take-drop (suc n) (c ∷ s) = ap (λ t. c ∷ t) (take-drop n s)

take_le-append : (n : ℕ) (a b : Text) → n ≤ length a → take n (a ++ b) ≡ take n a
unfolding take
take_le-append zero a b h = refl
take_le-append (suc n) [] b h = absurd (omega arith)
take_le-append (suc n) (c ∷ a) b h = ap (λ t. c ∷ t) (take_le-append n a b (omega arith))

drop_le-append : (n : ℕ) (a b : Text) → n ≤ length a → drop n (a ++ b) ≡ drop n a ++ b
unfolding drop
drop_le-append zero a b h = refl
drop_le-append (suc n) [] b h = absurd (omega arith)
drop_le-append (suc n) (c ∷ a) b h = drop_le-append n a b (omega arith)

take_line-append :
    (line tail : Text) → Lacks 10 line → take_line (line ++ 10 ∷ tail) ≡ some (line, tail)
unfolding take_line
take_line-append [] tail h = refl
take_line-append (c ∷ line) tail (ne, h) = rw (take_line-append line tail h) (rw ne refl)

-- a reader within a body, after the size of a chunk or between two of them
abbrev at : Text → ℕ → Bool → ChunkedReader
at rest remain need = record { rest = rest; remain = remain; done = false; need_crlf = need }

module _ (parse_size : Text → Option Int64) where
  data Expects : ChunkedReader → Text → Type 0 where
    between :
        {body payload : Text} → IsFramed parse_size body payload → Expects (at body 0 false) payload
    ended :
        {body payload : Text}
        → IsFramed parse_size body payload
        → Expects (at (13 ∷ 10 ∷ body) 0 true) payload
    within :
        (body payload piece : Text)
        → piece ≢ []
        → IsFramed parse_size body payload
        → Expects (at (piece ++ 13 ∷ 10 ∷ body) (length piece) false) (piece ++ payload)
    short : (n : ℕ) (piece : Text) → length piece ≤ n → Expects (at piece (suc n) false) piece

  -- a read either ends with nothing left, or gives some of it and expects the rest
  abbrev IsStep : Text → Text → Option ReadError → ChunkedReader → Type 0
  IsStep payload bytes e r =
      ((e ≡ some eof) × (payload ≡ bytes))
      ⊎ ((e ≡ none) × (left : Text) × Expects r left × (payload ≡ bytes ++ left))

  -- what is left of a chunk of which some was read
  rest_of :
      (body payload piece : Text) (n : ℕ) (need : Bool)
      → IsFramed parse_size body payload
      → n ≡ length piece
      → need ≡ nat_beq n 0
      → Expects (at (piece ++ 13 ∷ 10 ∷ body) n need) (piece ++ payload)
  rest_of body payload [] n need framed e f =
      let same : need ≡ true = ground (arith, e) in rw (e, same) (ended framed)
  rest_of body payload (c ∷ piece) n need framed e f =
      let same : need ≡ false = ground (arith, e) in
      rw (e, same) (within body payload (c ∷ piece) (λ h. ground arith) framed)

  read_data_within :
      (body payload : Text) (want most c : ℕ) (piece : Text)
      → 1 ≤ want
      → IsFramed parse_size body payload
      → (r : ChunkedReader) → r ≡ at (c ∷ (piece ++ 13 ∷ 10 ∷ body)) (suc (length piece)) false
      → IsStep
          (c ∷ (piece ++ payload))
          (read_data parse_size want most r).0
          (read_data parse_size want most r).1
          (read_data parse_size want most r).2
  unfolding read_data text_beq
  read_data_within body payload want most c piece h framed r e =
      let all = c ∷ piece in
      let full = length all in
      let limit : ℕ = if ltb full want then full else want in
      let n : ℕ = if ltb most limit then most + 1 else limit in
      let small : n ≤ full = ground arith in
      let end = 13 ∷ 10 ∷ body in
      let taken = take_le-append n all end small in
      let m = full - length (take n (all ++ end)) in
      let size : m ≡ length (drop n all) = omega (arith, length-take-drop n all, ap length taken) in
      let after = rest_of body payload (drop n all) m (nat_beq m 0) framed size refl in
      let joined : all ++ payload ≡ take n (all ++ end) ++ (drop n all ++ payload) = rw taken (
        sym (
          append_assoc (take n all) (drop n all) payload
          ∙ ap (λ t. t ++ payload) (take-drop n all))) in
      rw e (inr (refl, drop n all ++ payload, rw (drop_le-append n all end small) after, joined))

  short_of :
      (piece : Text) (left : ℕ) (need : Bool)
      → length piece < left
      → need ≡ nat_beq left 0
      → Expects (at piece left need) piece
  short_of piece zero need h e = absurd (omega arith)
  short_of piece (suc n) need h e =
      let same : need ≡ false = ground arith in rw same (short n piece (omega arith))

  read_data_short :
      (want most n : ℕ) (piece : Text)
      → 1 ≤ want
      → length piece ≤ n
      → IsStep piece
          (read_data parse_size want most (at piece (suc n) false)).0
          (read_data parse_size want most (at piece (suc n) false)).1
          (read_data parse_size want most (at piece (suc n) false)).2
  unfolding read_data text_beq
  read_data_short want most n [] h fits = inl (refl, refl)
  read_data_short want most n (c ∷ piece) h fits =
      let all = c ∷ piece in
      let limit : ℕ = if ltb (suc n) want then suc n else want in
      let k : ℕ = if ltb most limit then most + 1 else limit in
      let both = length-take-drop k all in
      let left = suc n - length (take k all) in
      inr (
        refl,
        drop k all,
        short_of (drop k all) left (nat_beq left 0) (omega (arith, both)) refl,
        sym (take-drop k all),
      )

  read_chunk-IsStep :
      (body payload : Text) (want most : ℕ)
      → 1 ≤ want
      → IsFramed parse_size body payload
      → IsStep payload
          (read_chunk parse_size want most (at body 0 false)).0
          (read_chunk parse_size want most (at body 0 false)).1
          (read_chunk parse_size want most (at body 0 false)).2
  unfolding read_chunk read_chunk_size
  read_chunk-IsStep body payload want most h cut = unfold take_line in inl (refl, refl)
  read_chunk-IsStep body payload want most h (last line tail left plain sized ends) =
      rw (take_line-append line tail plain, read_chunk)
        (rw (sized, read_chunk) (rw (ends, read_chunk) (inl (refl, refl))))
  read_chunk-IsStep body payload want most h (chunk line rest more c piece plain sized framed) =
      rw (take_line-append line (c ∷ (piece ++ 13 ∷ 10 ∷ rest)) plain, read_chunk)
        (rw (sized, read_chunk)
          (read_data_within rest more want most c piece h framed
            (at (c ∷ (piece ++ 13 ∷ 10 ∷ rest)) (suc (length piece)) false) refl))
  read_chunk-IsStep body payload want most h (cut_within line n piece plain sized fits) =
      rw (take_line-append line piece plain, read_chunk)
        (rw (sized, read_chunk) (read_data_short want most n piece h fits))

  read-IsStep :
      (payload : Text) (want most : ℕ) (r : ChunkedReader)
      → 1 ≤ want
      → Expects r payload
      → IsStep payload
          (read parse_size want most r).0
          (read parse_size want most r).1
          (read parse_size want most r).2
  unfolding read read_crlf
  read-IsStep payload want most r h (between {body} framed) =
      let waits : nat_beq want 0 ≡ false = ground arith in
      rw (waits, read) (read_chunk-IsStep body payload want most h framed)
  read-IsStep payload want most r h (ended {body} framed) =
      let waits : nat_beq want 0 ≡ false = ground arith in
      rw (waits, read) (read_chunk-IsStep body payload want most h framed)
  read-IsStep payload want most r h (within body more [] filled framed) = absurd (filled refl)
  read-IsStep payload want most r h (within body more (c ∷ piece) filled framed) =
      let waits : nat_beq want 0 ≡ false = ground arith in
      let some_left : nat_beq (suc (length piece)) 0 ≡ false = ground arith in
      rw (waits, read)
        (rw (some_left, read)
          (read_data_within body more want most c piece h framed
            (at (c ∷ (piece ++ 13 ∷ 10 ∷ body)) (suc (length piece)) false) refl))
  read-IsStep payload want most r h (short n piece fits) =
      let waits : nat_beq want 0 ≡ false = ground arith in
      let some_left : nat_beq (suc n) 0 ≡ false = ground arith in
      rw (waits, read) (rw (some_left, read) (read_data_short want most n piece h fits))

  read_all-Expects :
      (most : ℕ → ℕ) (want fuel : ℕ) (r : ChunkedReader) (payload : Text)
      → 1 ≤ want
      → length r.rest < fuel
      → Expects r payload
      → read_all parse_size most want fuel r ≡ some (payload, eof)
  read_all-Expects most want zero r payload h enough state = absurd (omega arith)
  read_all-Expects most want (suc fuel) r payload h enough state =
      elim (read-IsStep payload want (most fuel) r h state) [
        | inl (stopped, given) ↦
            read_all-last parse_size most want fuel r eof stopped
            ∙ ap (λ t. some (t, eof)) (sym given)
        | inr (goes_on, left, state', given) ↦
            let less = read-length parse_size want (most fuel) r h goes_on in
            let rest =
              read_all-Expects most want fuel (read parse_size want (most fuel) r).2 left h
                (omega (arith, less)) state' in
            read_all-more parse_size most want fuel r left eof goes_on rest
            ∙ ap (λ t. some (t, eof)) (sym given)
      ]

-- A framed body is read as what it carries, with a clean end, whatever the sizes of the reads, which
-- are at least a byte each; and so is a body that is cut off between two chunks or within one.
pub read_all-IsFramed :
    (parse_size : Text → Option Int64) (most : ℕ → ℕ) (want : ℕ) (body payload : Text)
    → 1 ≤ want
    → IsFramed parse_size body payload
    → read_all parse_size most want (length body + 1) (new_reader body) ≡ some (payload, eof)
unfolding new_reader
read_all-IsFramed parse_size most want body payload h framed =
    read_all-Expects parse_size most want (length body + 1) (new_reader body) payload h
      (omega arith) (between framed)
