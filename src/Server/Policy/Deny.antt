-- ===== src/Server/Policy/Deny.antt =====
-- Proofs on bucketPolicyAllowsAnonymous of internal/server/middleware.go.
use s.Prelude.{◌≡◌, ◌↔◌, Bool, true, false, not, ◌&&◌, ◌||◌, List, [], ◌∷◌, Text, text, arith, any}
use s.Server.Policy.{PolicyStatement, matches_anonymous, allows}

module _ (equal_fold : Text → Text → Bool) (action resource : Text) where
  -- a statement with the effect that is for everyone, the action and the resource
  abbrev pub speaks : Text → PolicyStatement → Bool
  speaks effect stmt = matches_anonymous stmt action resource && equal_fold stmt.effect effect

  allows_from :
      (so_far : Bool) (stmts : List PolicyStatement)
      → allows equal_fold action resource so_far stmts
        ≡ (not (any (speaks (text "Deny")) stmts) && (so_far || any (speaks (text "Allow")) stmts))
  unfolding allows
  allows_from so_far [] = ground arith
  allows_from so_far (stmt ∷ rest) = ground (arith, allows_from so_far rest, allows_from true rest)

  -- A policy allows a request to everyone exactly when one of its statements allows it and none
  -- denies it, in whatever order they stand.
  pub allows_iff :
      (stmts : List PolicyStatement)
      → (allows equal_fold action resource false stmts ≡ true)
        ↔ ((any (speaks (text "Allow")) stmts ≡ true) × (any (speaks (text "Deny")) stmts ≡ false))
  allows_iff stmts = ground (arith, allows_from false stmts)
