-- ===== src/Server/Sse.antt =====
-- internal/server/sse.go: objects that are encrypted in counter mode behind their initial vector, and
-- reads of a range of one. The key stream of Go's counter mode is given; a byte is a number below 256.
pub mod Counter
pub mod Roundtrip
use s.Prelude.{
  ℕ, suc, ◌+◌, ◌-◌, ◌*◌, ◌/◌, ◌%◌, Bool, true, false, not, ◌&&◌, ◌||◌, Option, none, some, List, [],
  ◌∷◌, ◌++◌, length, Text, text, text_eq, nat_beq, ◌==◌, if◌then◌else◌, ltb, leb, Outcome, ok, err,
}
use s.Dict.{Dict, lookup, put, erase}
use s.Strings.{has_prefix, trim_prefix, split_once, take, drop}
use s.Lifecycle.Rules.{Int64, pos, neg}

-- The key stream under the key: the byte that a counter gives at an offset, and how it changes a byte.
pub record Stream : Type 0 where
  pub at : Text → ℕ → ℕ
  pub xor : ℕ → ℕ → ℕ

-- the loop of `advanceCTRIV`, from the last byte on: the bytes after it and what is carried
unfoldable pub add_carry : Text → ℕ → Text × ℕ
add_carry [] carry = ([], carry)
add_carry (b ∷ bs) carry =
    let rest = add_carry bs carry in
    let sum = b + rest.1 % 256 in
    if nat_beq rest.1 0 then (b ∷ rest.0, 0) else ((sum % 256) ∷ rest.0, rest.1 / 256 + sum / 256)

unfoldable pub advance_ctr_iv : Text → ℕ → Text
unfolding add_carry
advance_ctr_iv iv blocks = (add_carry iv blocks).0

module _ (stream : Stream) where
  -- the bytes of a text from an offset of the stream on, changed
  unfoldable pub crypt : Text → ℕ → Text → Text
  crypt iv offset [] = []
  crypt iv offset (b ∷ bs) = stream.xor b (stream.at iv offset) ∷ crypt iv (offset + 1) bs

  -- what `writeMaybeEncryptedObject` stores of an object that is encrypted
  unfoldable pub write_encrypted : Text → Text → Text
  unfolding crypt
  write_encrypted iv plain = iv ++ crypt iv 0 plain

  -- the range that is read, the whole object without one; `none` where it is refused
  unfoldable pub checked_range : Option (ℕ × ℕ) → ℕ → Option (ℕ × ℕ)
  checked_range none size = if nat_beq size 0 then none else some (0, size - 1)
  checked_range (some (start, end)) size =
      if ltb end start || leb size end then none else some (start, end)

  -- the end of `readMaybeEncryptedObject`: from the start of a block, without the bytes before the range;
  -- `none` where the file ends before the range starts
  unfoldable pub read_blocks : Text → Text → ℕ → ℕ → Option Text
  unfolding advance_ctr_iv
  read_blocks file iv start end =
      let block_start = start - start % 16 in
      let limited = take (end - block_start + 1) (drop (16 + block_start) file) in
      if ltb (length limited) (start - block_start)
      then none
      else some
          (drop (start - block_start) (crypt (advance_ctr_iv iv (block_start / 16)) 0 limited))

  -- a read of an encrypted object's file, of the size that its metadata tell, with the length of the key
  unfoldable pub read_encrypted : ℕ → Text → ℕ → Option (ℕ × ℕ) → Option Text
  unfolding checked_range read_blocks
  read_encrypted key_length file size range =
      if not (nat_beq key_length 32)
      then none
      else if ltb (length file) 16
      then none
      else elim (checked_range range size) [
        | none ↦ none
        | some (start, end) ↦ read_blocks file (take 16 file) start end
      ]

abbrev pub sse_metadata_key : Text
sse_metadata_key = text "__s000_sse"

abbrev pub aes256 : Text
aes256 = text "AES256"

pub data SseError : Type 0 where
  invalid_argument invalid_request : SseError

-- validateSSEHeaders, on the trimmed header and the length of the key: whether to encrypt
unfoldable pub validate_sse_headers : Text → ℕ → Outcome SseError Bool
validate_sse_headers alg key_length =
    if alg == []
    then ok false
    else if not (alg == aes256)
    then err invalid_argument
    else if not (nat_beq key_length 32)
    then err invalid_request
    else ok true

unfoldable pub object_uses_sse : Dict Text Text → Bool
object_uses_sse meta = elim (lookup sse_metadata_key meta) [
  | none ↦ false
  | some alg ↦ alg == aes256
]

unfoldable pub mark_sse_metadata : Dict Text Text → Bool → Dict Text Text
mark_sse_metadata meta encrypted =
    if encrypted then put sse_metadata_key aes256 meta else erase sse_metadata_key meta

-- internal/server/s3_api.go: `parseRange`, where numbers are read by the given function
unfoldable pub parse_range : (Text → Option Int64) → Text → ℕ → Option (ℕ × ℕ)
parse_range parse_int header size =
    if not (has_prefix header (text "bytes="))
    then none
    else elim (split_once 45 (trim_prefix header (text "bytes="))) [
      | none ↦ none
      | some (first, last) ↦ elim (parse_int first) [
        | none ↦ none
        | some a ↦ elim (parse_int last) [
          | none ↦ none
          | some b ↦ elim a [
            | neg _ ↦ none
            | pos start ↦ elim b [
              | neg _ ↦ none
              | pos end ↦ if ltb end start || leb size end then none else some (start, end)
            ]
          ]
        ]
      ]
    ]
