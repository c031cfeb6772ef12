-- ===== src/Server/Chunked.antt =====
-- internal/server/aws_chunked.go: the body of a request in signed chunks. The buffered reader is the
-- text that it still gives, and how much it gives at once is an input of each read.
pub mod Total
pub mod Framing
mod Tests
use s.Prelude.{
  ℕ, zero, suc, ◌+◌, ◌-◌, Bool, true, false, not, ◌&&◌, ◌||◌, Option, none, some, List, [], ◌∷◌,
  ◌++◌, length, Text, text_eq, nat_beq, ◌==◌, if◌then◌else◌, ltb, Outcome, ok, err,
}
use s.Strings.{first_part, take, drop}
use s.Lifecycle.Rules.{Int64, pos, neg}

pub data ReadError : Type 0 where
  eof bad_size bad_terminator : ReadError

pub record ChunkedReader : Type 0 where
  pub rest : Text
  pub remain : ℕ
  pub done : Bool
  pub need_crlf : Bool

-- r.ReadString('\n') without the newline, and what follows; `none` where the text ends before
unfoldable pub take_line : Text → Option (Text × Text)
take_line [] = none
take_line (c ∷ s) =
    let rest = take_line s in
    if nat_beq c 10
    then some ([], s)
    else elim rest [ none ↦ none | some (line, tail) ↦ some (c ∷ line, tail) ]

-- strings.TrimRight(line, "\r\n")
unfoldable pub trim_right : Text → Text
trim_right [] = []
trim_right (c ∷ s) =
    let rest = trim_right s in
    if (rest == []) && (nat_beq c 13 || nat_beq c 10) then [] else c ∷ rest

-- What `discardTrailers` has seen of the line: nothing, only returns, or more.
pub data Line : Type 0 where
  fresh returns other : Line

-- the loop of `discardTrailers`, byte by byte
unfoldable pub discard_trailers : Line → Text → Outcome ReadError Text
discard_trailers fresh [] = ok []
discard_trailers returns [] = err eof
discard_trailers other [] = err eof
discard_trailers fresh (c ∷ s) =
    let as_return = discard_trailers returns s in
    let as_text = discard_trailers other s in
    if nat_beq c 10 then ok s else if nat_beq c 13 then as_return else as_text
discard_trailers returns (c ∷ s) =
    let as_return = discard_trailers returns s in
    let as_text = discard_trailers other s in
    if nat_beq c 10 then ok s else if nat_beq c 13 then as_return else as_text
discard_trailers other (c ∷ s) =
    let next = discard_trailers fresh s in
    let more = discard_trailers other s in if nat_beq c 10 then next else more

unfoldable pub read_crlf : Text → Outcome ReadError Text
read_crlf (c ∷ d ∷ s) = if nat_beq c 13 && nat_beq d 10 then ok s else err bad_terminator
read_crlf _ = err eof

module _ (parse_size : Text → Option Int64) where
  -- the size on a line, as the given function reads it, and what follows
  unfoldable pub read_chunk_size : Text → Outcome ReadError (ℕ × Text)
  unfolding take_line trim_right
  read_chunk_size s = elim (take_line s) [
    | none ↦ err eof
    | some (line, tail) ↦ elim (parse_size (first_part 59 (trim_right line))) [
      | none ↦ err bad_size
      | some n ↦ elim n [ pos size ↦ ok (size, tail) | neg _ ↦ err bad_size ]
    ]
  ]

  abbrev pub Read : Type 0
  Read = Text × Option ReadError × ChunkedReader

  -- a read that fails; a caller stops there, and what is left of the text is dropped
  abbrev pub failed : ReadError → Text → ChunkedReader → Read
  failed e rest r = ([], some e, record r { rest = rest })

  -- a read within a chunk, of at most `want` bytes, where the buffered reader gives at most one more
  -- than `most`
  unfoldable pub read_data : ℕ → ℕ → ChunkedReader → Read
  read_data want most r =
      let limit = if ltb r.remain want then r.remain else want in
      let n = if ltb most limit then most + 1 else limit in
      let bytes = take n r.rest in
      let left = r.remain - length bytes in
      if r.rest == [] then ([], some eof, r) else (
        bytes,
        none,
        record r { rest = drop n r.rest; remain = left; need_crlf = r.need_crlf || nat_beq left 0 },
      )

  -- the size of the next chunk, and a read within it
  unfoldable pub read_chunk : ℕ → ℕ → ChunkedReader → Read
  unfolding read_chunk_size read_data discard_trailers
  read_chunk want most r = elim (read_chunk_size r.rest) [
    | err e ↦ failed e [] r
    | ok (zero, tail) ↦ elim (discard_trailers fresh tail) [
      | err e ↦ failed e [] r
      | ok after ↦ ([], some eof, record r { rest = after; done = true })
    ]
    | ok (suc n, tail) ↦ read_data want most (record r { rest = tail; remain = suc n })
  ]

  unfoldable pub read : ℕ → ℕ → ChunkedReader → Read
  unfolding read_chunk read_crlf
  read want most r =
      if r.done
      then ([], some eof, r)
      else if nat_beq want 0
      then ([], none, r)
      else if not (nat_beq r.remain 0)
      then read_data want most r
      else if not r.need_crlf
      then read_chunk want most r
      else elim (read_crlf r.rest) [
        | err e ↦ failed e [] r
        | ok tail ↦ read_chunk want most (record r { rest = tail; need_crlf = false })
      ]

  -- The loop of a caller that reads to the end: all bytes, and the error at the end. The fuel runs
  -- down with each read, and what the buffered reader gives may depend on it.
  unfoldable pub read_all : (ℕ → ℕ) → ℕ → ℕ → ChunkedReader → Option (Text × ReadError)
  unfolding read
  read_all most want zero r = none
  read_all most want (suc fuel) r =
      let step = read want (most fuel) r in
      let rest = read_all most want fuel step.2 in
      elim step.1 [
        | some e ↦ some (step.0, e)
        | none ↦ elim rest [ none ↦ none | some (bytes, e) ↦ some (step.0 ++ bytes, e) ]
      ]

unfoldable pub new_reader : Text → ChunkedReader
new_reader s = record { rest = s; remain = 0; done = false; need_crlf = false }
