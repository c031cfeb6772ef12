-- ===== src/Metadata/Invariant/Uploads.antt =====
-- Uploads, parts and credential records keep the state well formed.
use s.Prelude.{ℕ, ◌≡◌, refl, Text, text_eq, nat_eq, arith, Option-cases, inl, inr}
use s.Dict.{Dict, put, erase, lookup, has}
use s.Dict.Laws.{lookup-put, lookup-erase}
use s.Dict.Keyed.{
  Keyed, Keyed-put, Keyed-erase, Keyed-empty, HasDistinctKeys, HasDistinctKeys-put,
  HasDistinctKeys-erase,
}
use s.Metadata.Model.{MultipartUpload, MultipartPart, CredentialRecord}
use s.Metadata.State.{keeps_if, MemoryState}
use s.Metadata.Uploads.{
  create_multipart_upload, delete_multipart_upload, upsert_multipart_part, parts_of,
  upsert_credential_record,
}
use s.Metadata.Invariant.{IsWellFormed, PartsFit}

PartsFit-put :
    (id : Text) (u : MultipartUpload) (multipart : Dict Text MultipartUpload)
    (parts : Dict Text (Dict ℕ MultipartPart))
    → Keyed (PartsFit multipart) parts
    → Keyed (PartsFit (put id u multipart)) parts
PartsFit-put id u multipart parts h = record {
  at = λ j m found.
      let (there, keyed, distinct) = h.at j m found in
      (ground (arith, lookup-put id j u multipart), keyed, distinct);
}

PartsFit-erase :
    (id : Text) (multipart : Dict Text MultipartUpload) (parts : Dict Text (Dict ℕ MultipartPart))
    → Keyed (PartsFit multipart) parts
    → Keyed (PartsFit (erase id multipart)) (erase id parts)
PartsFit-erase id multipart parts h = record {
  at = λ j m found.
      let (there, keyed, distinct) = h.at j m (ground (arith, lookup-erase id j parts)) in
      (ground (arith, lookup-erase id j multipart, lookup-erase id j parts), keyed, distinct);
}

module _ (st : MemoryState) (w : IsWellFormed st) where
  pub create_multipart_upload-IsWellFormed :
      (u : MultipartUpload) → IsWellFormed (create_multipart_upload u st).1
  unfolding create_multipart_upload
  create_multipart_upload-IsWellFormed u =
      keeps_if IsWellFormed (has u.upload_id st.multipart) _ _ (λ _. w)
        (λ _. assumption (
          Keyed-put u.upload_id u st.multipart w.multipart refl,
          PartsFit-put u.upload_id u st.multipart st.parts w.parts,
          HasDistinctKeys-put u.upload_id u st.multipart w.multipart_distinct,
        ))

  pub delete_multipart_upload-IsWellFormed :
      (id : Text) → IsWellFormed (delete_multipart_upload id st).1
  unfolding delete_multipart_upload
  delete_multipart_upload-IsWellFormed id =
      keeps_if IsWellFormed (has id st.multipart) _ _
        (λ _. assumption (
          Keyed-erase id st.multipart w.multipart,
          PartsFit-erase id st.multipart st.parts w.parts,
          HasDistinctKeys-erase id st.multipart w.multipart_distinct,
        ))
        (λ _. w)

  pub parts_of-PartsFit :
      (id : Text)
      → Keyed (λ n (p : MultipartPart). (p.part_number ≡ n) × (p.upload_id ≡ id)) (parts_of id st)
        × HasDistinctKeys (parts_of id st)
  unfolding parts_of
  parts_of-PartsFit id = elim (Option-cases (lookup id st.parts)) [
    | inl missing ↦ rw (missing, parts_of) (Keyed-empty, tt)
    | inr (m, found) ↦
        rw (found, parts_of) (let (_, keyed, distinct) = w.parts.at id m found in (keyed, distinct))
  ]

  pub upsert_multipart_part-IsWellFormed :
      (p : MultipartPart) → IsWellFormed (upsert_multipart_part p st).1
  unfolding upsert_multipart_part
  upsert_multipart_part-IsWellFormed p =
      let (keyed, distinct) = parts_of-PartsFit p.upload_id in
      keeps_if IsWellFormed (has p.upload_id st.multipart) _ _
        (λ there. assumption (
          Keyed-put p.upload_id (put p.part_number p (parts_of p.upload_id st)) st.parts w.parts (
            there,
            Keyed-put p.part_number p _ keyed (refl, refl),
            HasDistinctKeys-put p.part_number p _ distinct,
          )))
        (λ _. w)

  pub upsert_credential_record-IsWellFormed :
      (r : CredentialRecord) → IsWellFormed (upsert_credential_record r st).1
  unfolding upsert_credential_record
  upsert_credential_record-IsWellFormed r =
      assumption (Keyed-put r.access_key_id r st.credentials w.credentials refl)
