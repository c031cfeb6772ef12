-- ===== src/Lifecycle/Scan/Expired.antt =====
-- Which objects of a bucket the scan proposes.
use s.Prelude.{
  ◌≡◌, ◌∙◌, refl, sym, true, false, List, [], ◌∷◌, ◌++◌, Bool-cases, inl, inr, if◌then◌else◌,
}
use mathlib.Core.List.{append-nil, append_assoc}
use s.Metadata.Model.{Time, ObjectVersion}
use s.Lifecycle.Rules.{Rule}
use s.Lifecycle.Scan.{Scan, is_expired, scan_object, scan_objects}

-- the expired ones among the objects of a listing, in its order
unfoldable pub expired : List Rule → Time → List ObjectVersion → List ObjectVersion
expired rules now [] = []
expired rules now (obj ∷ objs) =
    let rest = expired rules now objs in if is_expired rules now obj then obj ∷ rest else rest

module _ (rules : List Rule) (now : Time) (obj : ObjectVersion) (objs : List ObjectVersion) where
  expired-old :
      is_expired rules now obj ≡ true
      → expired rules now (obj ∷ objs) ≡ obj ∷ expired rules now objs
  unfolding expired
  expired-old old = rw old refl

  expired-young :
      is_expired rules now obj ≡ false → expired rules now (obj ∷ objs) ≡ expired rules now objs
  unfolding expired
  expired-young young = rw young refl

  scan_object-candidates :
      {W : Type 0} (s : Scan W)
      → (scan_object rules now obj s).candidates ++ expired rules now objs
        ≡ s.candidates ++ expired rules now (obj ∷ objs)
  unfolding scan_object
  scan_object-candidates s = elim (Bool-cases (is_expired rules now obj)) [
    | inl old ↦
        rw old
          (rw (expired-old old) (append_assoc s.candidates (obj ∷ []) (expired rules now objs)))
    | inr young ↦ rw young (rw (expired-young young) refl)
  ]

-- The scan of a listing adds the expired objects of it to the candidates, in order, and no others.
pub scan_objects-candidates :
    {W : Type 0} (rules : List Rule) (now : Time) (objs : List ObjectVersion) (s : Scan W)
    → (scan_objects rules now objs s).candidates ≡ s.candidates ++ expired rules now objs
unfolding scan_objects expired
scan_objects-candidates rules now [] s = sym (append-nil s.candidates)
scan_objects-candidates rules now (obj ∷ objs) s =
    scan_objects-candidates rules now objs (scan_object rules now obj s)
    ∙ scan_object-candidates rules now obj objs s
