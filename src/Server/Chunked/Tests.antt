-- ===== src/Server/Chunked/Tests.antt =====
-- A concrete chunked body.
use s.Prelude.{
  ◌+◌, ◌-◌, ◌≡◌, refl, text_beq, Option, none, some, [], ◌∷◌, ◌++◌, length, Text, text, arith,
}
use s.Strings.{split_once}
use s.Lifecycle.Rules.{Int64, pos}
use s.Server.Chunked.{ReadError, eof, trim_right, discard_trailers, read_all, new_reader}
use s.Server.Chunked.Total.{read_all-new_reader}
use s.Server.Chunked.Framing.{IsFramed, last, chunk, read_all-IsFramed}

-- sizes of one digit
abbrev digit : Text → Option Int64
digit (d ∷ []) = some (pos (d - 48))
digit _ = none

abbrev crlf : Text
crlf = 13 ∷ 10 ∷ []

abbrev body : Text
body = text "2;x" ++ (10 ∷ (text "hi" ++ (crlf ++ (text "0" ++ (10 ∷ [])))))

framed : IsFramed digit body (text "hi")
unfolding split_once trim_right discard_trailers text_beq
framed =
    chunk (text "2;x") (text "0" ++ (10 ∷ [])) [] 104 (text "i") (refl, (refl, (refl, tt))) refl
      (last (text "0") [] [] (refl, tt) refl refl)

read_all-IsFramed_example :
    read_all digit (λ k. 0) 4 (length body + 1) (new_reader body) ≡ some (text "hi", eof)
read_all-IsFramed_example = read_all-IsFramed digit (λ k. 0) 4 body (text "hi") (omega arith) framed

read_all-new_reader_example :
    (bytes : Text) × (e : ReadError) × (read_all digit
        (λ k. 0)
        4
        (length body + 1)
        (new_reader body)
      ≡ some (bytes, e))
read_all-new_reader_example = read_all-new_reader digit (λ k. 0) 4 body (omega arith)
