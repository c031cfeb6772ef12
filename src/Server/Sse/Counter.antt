-- ===== src/Server/Sse/Counter.antt =====
-- Proofs on advanceCTRIV of internal/server/sse.go.
use s.Prelude.{
  ℕ, ◌+◌, ◌*◌, ◌/◌, ◌%◌, ◌≡◌, refl, ap, [], ◌∷◌, length, Text, nat_beq, arith, Bool-cases, inl, inr,
}
use s.Server.Sse.{add_carry, advance_ctr_iv}

-- the number that the bytes stand for, the first of them the highest, and the next above all of them
abbrev pub range_of : Text → ℕ
range_of [] = 1
range_of (b ∷ bs) = 256 * range_of bs

abbrev pub number : Text → ℕ
number [] = 0
number (b ∷ bs) = b * range_of bs + number bs

scaled : (a b c d p : ℕ) → a + 256 * d ≡ b + c → a * p + 256 * (d * p) ≡ b * p + c * p
scaled a b c d p e = grind (arith, ap (λ x. x * p) e)

add_carry-range : (bs : Text) (carry : ℕ) → range_of (add_carry bs carry).0 ≡ range_of bs
unfolding add_carry
add_carry-range [] carry = refl
add_carry-range (b ∷ bs) carry = ground (arith, add_carry-range bs carry)

step :
    (r n b c carry p d a : ℕ)
    → n + c * p ≡ r + carry
    → a + 256 * d ≡ b + c
    → (a * p + n) + d * (256 * p) ≡ (b * p + r) + carry
step r n b c carry p d a rest e = grind (arith, scaled a b c d p e, rest)

pub add_carry_lem :
    (bs : Text) (carry : ℕ)
    → number (add_carry bs carry).0 + (add_carry bs carry).1 * range_of bs ≡ number bs + carry
unfolding add_carry
add_carry_lem [] carry = omega arith
add_carry_lem (b ∷ bs) carry =
    let rest = add_carry bs carry in
    let c = rest.1 in
    let range = add_carry-range bs carry in
    elim (Bool-cases (nat_beq c 0)) [
      | inl none_left ↦
          let zero : c ≡ 0 = ground arith in
          rw (none_left, range)
            (step (number bs) (number rest.0) b c carry (range_of bs) 0 b (add_carry_lem bs carry)
              (omega (arith, zero)))
      | inr some_left ↦
          let sum = b + c % 256 in
          rw (some_left, range)
            (step (number bs) (number rest.0) b c carry (range_of bs) (c / 256 + sum / 256)
              (sum % 256) (add_carry_lem bs carry) (omega arith))
    ]

add_carry-length : (bs : Text) (carry : ℕ) → length (add_carry bs carry).0 ≡ length bs
unfolding add_carry
add_carry-length [] carry = refl
add_carry-length (b ∷ bs) carry = ground (arith, add_carry-length bs carry)

-- The counter that is advanced has as many bytes, and its number is the sum, but for whole turns.
pub advance_ctr_iv_lem :
    (iv : Text) (blocks : ℕ)
    → (length (advance_ctr_iv iv blocks) ≡ length iv)
      × (turns : ℕ) × (number (advance_ctr_iv iv blocks) + turns * range_of iv ≡ number iv + blocks)
unfolding advance_ctr_iv
advance_ctr_iv_lem iv blocks =
    (add_carry-length iv blocks, (add_carry iv blocks).1, add_carry_lem iv blocks)
