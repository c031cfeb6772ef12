-- ===== src/Auth/Requests/Query.antt =====
-- Proofs on the canonical request of internal/auth/sigv4.go: the query.
use s.Prelude.{
  ◌≡◌, ◌∙◌, refl, ap, true, false, Option, none, some, List, [], ◌∷◌, Text, text_eq, ◌==◌,
  if◌then◌else◌, Outcome, ok, err, arith, Bool-cases, inl, inr,
}
use s.Dict.{Dict, lookup, put, erase}
use s.Dict.Laws.{lookup-put, lookup-erase}
use s.Auth.Requests.{
  SignatureError, HttpRequest, Library, add_line, get, x_amz_signature, query_pairs,
  canonical_header_value, canonical_headers,
}

pub get-put :
    (k j v : Text) (m : Dict Text (List Text))
    → get j (put k (v ∷ []) m) ≡ (if k == j then v else get j m)
unfolding get
get-put k j v m = ground (arith, lookup-put k j (v ∷ []) m)

pub get-erase :
    (k j : Text) (m : Dict Text (List Text)) → (k == j) ≡ false → get j (erase k m) ≡ get j m
unfolding get
get-erase k j m other = ground (arith, lookup-erase k j m)

add_line-query :
    (name : Text) (value : Option Text) (r : HttpRequest)
    (rest : Outcome SignatureError (List Text) × HttpRequest) (q : Dict Text (List Text))
    → add_line name value (record r { query = q }) (rest.0, record rest.1 { query = q })
      ≡ ((add_line name value r rest).0, record (add_line name value r rest).1 { query = q })
unfolding add_line
add_line-query name none r rest q = refl
add_line-query name (some v) r (ok lines, r') q = refl
add_line-query name (some v) r (err e, r') q = refl

module _ (lib : Library) where
  -- The signature is no part of what is signed.
  pub query_pairs-put :
      (values : List Text) (m : Dict Text (List Text))
      → lib.equal_fold x_amz_signature x_amz_signature ≡ true
      → lookup x_amz_signature m ≡ none
      → query_pairs lib true (put x_amz_signature values m) ≡ query_pairs lib true m
  unfolding query_pairs put lookup
  query_pairs-put values [] folds missing = rw folds refl
  query_pairs-put values ((k, vs) ∷ m) folds missing = elim (Bool-cases (k == x_amz_signature)) [
    | inl same ↦ absurd (ground arith)
    | inr other ↦ rw other (rw (query_pairs-put values m folds (ground arith)) refl)
  ]

  -- The headers are read without the query, which stays as it is.
  pub canonical_headers-query :
      (names : List Text) (r : HttpRequest) (q : Dict Text (List Text))
      → canonical_headers lib names (record r { query = q }) ≡ (
        (canonical_headers lib names r).0,
        record (canonical_headers lib names r).1 { query = q },
      )
  unfolding canonical_headers canonical_header_value
  canonical_headers-query [] r q = refl
  canonical_headers-query (name ∷ names) r q =
      let value = canonical_header_value lib r name in
      let r' : HttpRequest = record r { headers = value.1 } in
      let rest = canonical_headers-query names r' q in
      elim (Bool-cases (name == [])) [
        | inl bad ↦ rw bad refl
        | inr named ↦ rw named (
            ap (add_line name value.0 (record r' { query = q })) rest
            ∙ add_line-query name value.0 r' (canonical_headers lib names r') q)
      ]
