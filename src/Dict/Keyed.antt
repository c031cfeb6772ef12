-- ===== src/Dict/Keyed.antt =====
-- What holds of every entry of a map, by its key and value, and maps without a repeated key.
use s.Prelude.{◌≡◌, refl, none, some, [], ◌∷◌, arith, Eq}
use s.Dict.{Dict, lookup, put, erase}
use s.Dict.Laws.{lookup-put, lookup-erase}

module _ {ℓ κ ι} {K : Type ℓ} ⦃e : Eq K⦄ {V : Type κ} where
  -- Each value that a read can return fits its key.
  pub record Keyed (P : K → V → Type ι) (m : Dict K V) : Type (ℓ ⊔ κ ⊔ ι) where
    pub at : (k : K) (v : V) → lookup k m ≡ some v → P k v

module _ {ℓ κ ι} {K : Type ℓ} ⦃e : Eq K⦄ {V : Type κ} {P : K → V → Type ι} where
  pub Keyed-empty : Keyed P []
  unfolding lookup
  Keyed-empty = record { at = λ k v h. cc }

  pub Keyed-put : (k : K) (v : V) (m : Dict K V) → Keyed P m → P k v → Keyed P (put k v m)
  Keyed-put k v m h p = record {
    at = λ j w q. ground (arith, lookup-put k j v m, e.beq_iff k j, h.at j w);
  }

  pub Keyed-erase : (k : K) (m : Dict K V) → Keyed P m → Keyed P (erase k m)
  Keyed-erase k m h = record { at = λ j w q. ground (arith, lookup-erase k j m, h.at j w) }

module _ {ℓ κ} {K : Type ℓ} ⦃e : Eq K⦄ {V : Type κ} where
  abbrev pub HasDistinctKeys : Dict K V → Type κ
  HasDistinctKeys [] = Unit
  HasDistinctKeys ((k, v) ∷ m) = (lookup k m ≡ none) × HasDistinctKeys m

  pub HasDistinctKeys-put :
      (k : K) (v : V) (m : Dict K V) → HasDistinctKeys m → HasDistinctKeys (put k v m)
  unfolding put lookup
  HasDistinctKeys-put k v [] h = (refl, tt)
  HasDistinctKeys-put k v ((j, w) ∷ m) h =
      ground
        (arith, e.beq_iff j k, e.beq_iff k j, lookup-put k j v m, HasDistinctKeys-put k v m h.1)

  pub HasDistinctKeys-erase :
      (k : K) (m : Dict K V) → HasDistinctKeys m → HasDistinctKeys (erase k m)
  unfolding erase lookup
  HasDistinctKeys-erase k [] h = tt
  HasDistinctKeys-erase k ((j, w) ∷ m) h =
      ground (arith, lookup-erase k j m, HasDistinctKeys-erase k m h.1)
