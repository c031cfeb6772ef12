-- ===== src/AuthFailures/Laws.antt =====
-- When an identity is blocked.
use s.Prelude.{
  ℕ, ◌+◌, ◌≤◌, ◌<◌, ◌^◌, ◌≡◌, ◌≢◌, ◌∙◌, refl, ap, sym, Bool, false, not, Option, none, some, List,
  [], ◌∷◌, Text, if◌then◌else◌, ltb, nat_beq, arith, length, Option-cases, inl, inr, ◌==◌, text_eq,
}
use mathlib.Core.Path.{subst}
use s.Dict.{lookup, erase}
use s.Dict.Laws.{lookup-put, lookup-erase}
use s.AuthFailures.{
  AuthFailureState, Protector, entry, is_blocked, failed_entry, record_failure, record_success,
}

-- the failures of an identity at the times of the list, in order
unfoldable pub record_failures : Text → List ℕ → Protector → Protector
record_failures identity [] p = p
record_failures identity (t ∷ ts) p = record_failures identity ts (record_failure identity t p)

-- every time of the list is in the window that opened at the start
pub data AllWithin (start window : ℕ) : List ℕ → Type 0 where
  none_left : AllWithin start window []
  one_more :
      {t : ℕ} {ts : List ℕ}
      → start ≤ t
      → t ≤ start + window
      → AllWithin start window ts
      → AllWithin start window (t ∷ ts)

lookup-record_failure :
    (i j : Text) (t : ℕ) (p : Protector)
    → lookup j (record_failure i t p).state
      ≡ (if i == j then some (failed_entry p t (entry (lookup i p.state))) else lookup j p.state)
unfolding record_failure
lookup-record_failure i j t p = lookup-put i j (failed_entry p t (entry (lookup i p.state))) p.state

-- what `is_blocked` answers for an entry
unfoldable answer : ℕ → Option AuthFailureState → Bool
answer now none = false
answer now (some st) = if ltb st.blocked_until now then false else not (nat_beq st.blocked_until 0)

is_blocked-answer :
    (i : Text) (now : ℕ) (p : Protector) → (is_blocked i now p).0 ≡ answer now (lookup i p.state)
unfolding is_blocked answer
is_blocked-answer i now p = elim (Option-cases (lookup i p.state)) [
  | inl fresh ↦ rw (fresh, is_blocked) refl
  | inr (st, known) ↦ rw (known, is_blocked) (ground arith)
]

-- A failure of one identity does not change whether another is blocked.
pub is_blocked-record_failure_ne :
    (i j : Text) (t now : ℕ) (p : Protector)
    → i ≢ j
    → (is_blocked j now (record_failure i t p)).0 ≡ (is_blocked j now p).0
is_blocked-record_failure_ne i j t now p ne =
    let same : lookup j (record_failure i t p).state ≡ lookup j p.state =
      ground (arith, lookup-record_failure i j t p, text_eq.beq_iff i j) in
    is_blocked-answer j now (record_failure i t p)
    ∙ (ap (answer now) same ∙ sym (is_blocked-answer j now p))

-- A success clears the identity: it is not blocked, whatever came before.
pub is_blocked-record_success :
    (i : Text) (now : ℕ) (p : Protector) → (is_blocked i now (record_success i p)).0 ≡ false
unfolding record_success answer
is_blocked-record_success i now p =
    let gone : lookup i (erase i p.state) ≡ none =
      ground (arith, lookup-erase i i p.state, text_eq.beq_iff i i) in
    is_blocked-answer i now (record_success i p) ∙ ap (answer now) gone

-- The window of the identity that opened at the start, with its failures so far.
record IsOpen (threshold window block_for : ℕ) (identity : Text) (start count : ℕ) (q : Protector)
    : Type 0 where
  same_threshold : q.threshold ≡ threshold
  same_window : q.window ≡ window
  same_block : q.block_for ≡ block_for
  starts : (entry (lookup identity q.state)).window_start ≡ start
  counts : (entry (lookup identity q.state)).failures ≡ count
  clear : count ≤ threshold → (entry (lookup identity q.state)).blocked_until ≡ 0

module _ (i : Text) where
  entry-own :
      (t : ℕ) (q : Protector)
      → entry (lookup i (record_failure i t q).state) ≡ failed_entry q t (entry (lookup i q.state))
  entry-own t q =
      let own : lookup i (record_failure i t q).state
          ≡ some (failed_entry q t (entry (lookup i q.state))) =
        ground (arith, lookup-record_failure i i t q, text_eq.beq_iff i i) in
      ap entry own

  first-IsOpen :
      (t : ℕ) (p : Protector)
      → lookup i p.state ≡ none
      → IsOpen p.threshold p.window p.block_for i t 1 (record_failure i t p)
  unfolding record_failure failed_entry
  first-IsOpen t p fresh =
      let own = entry-own t p ∙ ap (λ x. failed_entry p t (entry x)) fresh in
      record {
        same_threshold = refl;
        same_window = refl;
        same_block = refl;
        starts = ap (λ x. x.window_start) own;
        counts = ap (λ x. x.failures) own;
        clear = λ le. ap (λ x. x.blocked_until) own ∙ ground arith;
      }

  next-IsOpen :
      (threshold window block_for start count t : ℕ) (q : Protector)
      → 0 < start
      → window < 2 ^ 63
      → start ≤ t
      → t ≤ start + window
      → IsOpen threshold window block_for i start count q
      → IsOpen threshold window block_for i start (count + 1) (record_failure i t q)
  unfolding record_failure failed_entry
  next-IsOpen threshold window block_for start count t q pos fits after before open' =
      let st : AuthFailureState = entry (lookup i q.state) in
      let own = entry-own t q in
      record {
        same_threshold = open'.same_threshold;
        same_window = open'.same_window;
        same_block = open'.same_block;
        starts = ap (λ x. x.window_start) own ∙ ground (arith, open'.same_window, open'.starts);
        counts =
            ap (λ x. x.failures) own
            ∙ ground (arith, open'.same_window, open'.starts, open'.counts);
        clear = λ le.
            ap (λ x. x.blocked_until) own
            ∙ ground (
              arith, open'.same_window, open'.starts, open'.counts, open'.clear,
              open'.same_threshold,
            );
      }

  failures-IsOpen :
      (threshold window block_for start count : ℕ) (ts : List ℕ) (q : Protector)
      → 0 < start
      → window < 2 ^ 63
      → AllWithin start window ts
      → IsOpen threshold window block_for i start count q
      → IsOpen threshold window block_for i start (count + length ts) (record_failures i ts q)
  unfolding record_failures
  failures-IsOpen threshold window block_for start count [] q pos fits none_left open' =
      subst (λ n. IsOpen threshold window block_for i start n q) (ground arith) open'
  failures-IsOpen threshold window block_for start count (t ∷ ts) q pos fits
        (one_more after before rest) open' =
      subst
        (λ n.
          IsOpen threshold window block_for i start n (record_failures i ts (record_failure i t q)))
        (ground arith)
        (failures-IsOpen threshold window block_for start (count + 1) ts (record_failure i t q) pos
          fits rest
          (next-IsOpen threshold window block_for start count t q pos fits after before open'))

-- An identity without an entry fails at some time, not the zero time, then at the times of a list
-- and then once more, all in the window that the first failure opened, which fits in an int64. At
-- a time that is not later than the blocking time after the last failure, and not the zero time,
-- it is blocked exactly when there were more failures than the threshold.
pub is_blocked_iff_over_threshold :
    (i : Text) (p : Protector) (start t now : ℕ) (ts : List ℕ)
    → lookup i p.state ≡ none
    → 0 < start
    → p.window < 2 ^ 63
    → AllWithin start p.window ts
    → start ≤ t
    → t ≤ start + p.window
    → 0 < now
    → now ≤ t + p.block_for
    → (is_blocked i now (record_failure i t (record_failures i ts (record_failure i start p)))).0
      ≡ ltb p.threshold (length ts + 2)
unfolding failed_entry answer
is_blocked_iff_over_threshold i p start t now ts fresh pos fits within after before later soon =
    let q : Protector = record_failures i ts (record_failure i start p) in
    let open' =
      failures-IsOpen i p.threshold p.window p.block_for start 1 ts (record_failure i start p) pos
        fits within (first-IsOpen i start p fresh) in
    let own : lookup i (record_failure i t q).state
        ≡ some (failed_entry q t (entry (lookup i q.state))) =
      ground (arith, lookup-record_failure i i t q, text_eq.beq_iff i i) in
    is_blocked-answer i now (record_failure i t q)
    ∙ (ap (answer now) own
        ∙ ground (
          arith, open'.same_threshold, open'.same_window, open'.same_block, open'.starts,
          open'.counts, open'.clear,
        ))
