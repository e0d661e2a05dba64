-- ===== src/Router/Metric/Sequence.antt =====
-- The order of 16-bit sequence numbers in core/utils.go.
use nylon.Base.{ℕ, ◌+◌, ◌%◌, ◌^◌, ◌<◌, ◌≡◌, ◌⊎◌, true, false, arith}
use nylon.Router.Metric.{seqno_lt, seqno_gt}

-- the next sequence number of a `uint16`
abbrev pub seqno_next : ℕ → ℕ
seqno_next a = (a + 1) % 2 ^ 16

module _ (a b : ℕ) (ha : a < 2 ^ 16) (hb : b < 2 ^ 16) where
  -- Of two sequence numbers at most one is newer.
  pub seqno_lt_asymm : seqno_lt a b ≡ true → seqno_lt b a ≡ false
  unfolding seqno_lt
  seqno_lt_asymm h = ground arith

  -- Two sequence numbers are equal, or one is newer, or they are exactly half the circle apart.
  pub seqno_cases :
      (a ≡ b) ⊎ (seqno_lt a b ≡ true) ⊎ (seqno_lt b a ≡ true) ⊎ (b ≡ (a + 32768) % 2 ^ 16)
  unfolding seqno_lt
  seqno_cases = ground arith

  -- `SeqnoGt` and `SeqnoGe` are the negations of the other two tests, so at distance 2^15 each
  -- number is greater than the other, while neither is less.
  pub seqno_opposite :
      b ≡ (a + 32768) % 2 ^ 16
      → (seqno_lt a b ≡ false) × (seqno_gt a b ≡ true) × (seqno_gt b a ≡ true)
  unfolding seqno_gt seqno_lt
  seqno_opposite h = (ground arith, ground arith, ground arith)

-- Incrementing gives a newer number, also across the wrap-around.
pub seqno_next-newer : (a : ℕ) → a < 2 ^ 16 → seqno_lt a (seqno_next a) ≡ true
unfolding seqno_lt
seqno_next-newer a h = ground arith

-- Newness composes while the two steps together stay below half the circle.
pub seqno_lt_trans :
    (a d e : ℕ)
    → a < 2 ^ 16
    → 0 < d
    → 0 < e
    → d + e < 32768
    → (seqno_lt a ((a + d) % 2 ^ 16) ≡ true) × (seqno_lt a ((a + d + e) % 2 ^ 16) ≡ true)
unfolding seqno_lt
seqno_lt_trans a d e ha hd he h = (ground arith, ground arith)
