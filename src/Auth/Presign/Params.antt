-- ===== src/Auth/Presign/Params.antt =====
-- Proofs on the query of internal/auth/presign.go: what the verifier reads of it.
use s.Prelude.{◌≡◌, ◌∙◌, refl, List, [], ◌∷◌, Text, text, text_eq, text_beq, none}
use s.Dict.{Dict, lookup, put, erase}
use s.Dict.Laws.{lookup-erase}
use s.Auth.Requests.{get, algorithm, x_amz_signature}
use s.Auth.Requests.Query.{get-put, get-erase}
use s.Auth.Presign.{signed_params}

module _ (credential amz_date seconds signature : Text) (q : Dict Text (List Text)) where
  abbrev pub presigned : Dict Text (List Text)
  presigned = put x_amz_signature (signature ∷ []) (signed_params credential amz_date seconds q)

  abbrev q1 : Dict Text (List Text)
  q1 = put (text "X-Amz-Algorithm") ((algorithm) ∷ []) q

  abbrev q2 : Dict Text (List Text)
  q2 = put (text "X-Amz-Credential") ((credential) ∷ []) q1

  abbrev q3 : Dict Text (List Text)
  q3 = put (text "X-Amz-Date") ((amz_date) ∷ []) q2

  abbrev q4 : Dict Text (List Text)
  q4 = put (text "X-Amz-Expires") ((seconds) ∷ []) q3

  abbrev q5 : Dict Text (List Text)
  q5 = put (text "X-Amz-SignedHeaders") ((text "host") ∷ []) q4

  pub get_signature : get x_amz_signature presigned ≡ signature
  unfolding text_beq
  get_signature =
      get-put x_amz_signature x_amz_signature signature
        (signed_params credential amz_date seconds q)

  pub get_signed_headers : get (text "X-Amz-SignedHeaders") presigned ≡ text "host"
  unfolding text_beq
  get_signed_headers =
      let k = text "X-Amz-SignedHeaders" in
      get-put x_amz_signature k signature (erase x_amz_signature q5)
      ∙ (get-erase x_amz_signature k q5 refl ∙ get-put k k (text "host") q4)

  pub get_expires : get (text "X-Amz-Expires") presigned ≡ seconds
  unfolding text_beq
  get_expires =
      let k = text "X-Amz-Expires" in
      get-put x_amz_signature k signature (erase x_amz_signature q5)
      ∙ (get-erase x_amz_signature k q5 refl
          ∙ (get-put (text "X-Amz-SignedHeaders") k (text "host") q4 ∙ get-put k k seconds q3))

  pub get_date : get (text "X-Amz-Date") presigned ≡ amz_date
  unfolding text_beq
  get_date =
      let k = text "X-Amz-Date" in
      get-put x_amz_signature k signature (erase x_amz_signature q5)
      ∙ (get-erase x_amz_signature k q5 refl
          ∙ (get-put (text "X-Amz-SignedHeaders") k (text "host") q4
              ∙ (get-put (text "X-Amz-Expires") k seconds q3 ∙ get-put k k amz_date q2)))

  pub get-credential : get (text "X-Amz-Credential") presigned ≡ credential
  unfolding text_beq
  get-credential =
      let k = text "X-Amz-Credential" in
      get-put x_amz_signature k signature (erase x_amz_signature q5)
      ∙ (get-erase x_amz_signature k q5 refl
          ∙ (get-put (text "X-Amz-SignedHeaders") k (text "host") q4
              ∙ (get-put (text "X-Amz-Expires") k seconds q3
                  ∙ (get-put (text "X-Amz-Date") k amz_date q2 ∙ get-put k k credential q1))))

  pub get-algorithm : get (text "X-Amz-Algorithm") presigned ≡ algorithm
  unfolding text_beq
  get-algorithm =
      let k = text "X-Amz-Algorithm" in
      get-put x_amz_signature k signature (erase x_amz_signature q5)
      ∙ (get-erase x_amz_signature k q5 refl
          ∙ (get-put (text "X-Amz-SignedHeaders") k (text "host") q4
              ∙ (get-put (text "X-Amz-Expires") k seconds q3
                  ∙ (get-put (text "X-Amz-Date") k amz_date q2
                      ∙ (get-put (text "X-Amz-Credential") k credential q1
                          ∙ get-put k k algorithm q)))))

  pub unsigned_params : lookup x_amz_signature (signed_params credential amz_date seconds q) ≡ none
  unfolding text_beq
  unsigned_params = lookup-erase x_amz_signature x_amz_signature q5
