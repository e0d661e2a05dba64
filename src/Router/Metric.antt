-- ===== src/Router/Metric.antt =====
-- core/utils.go and state/constants.go: metrics that saturate, and sequence numbers modulo 2^16.
pub mod Bounds
pub mod Sequence
use nylon.Base.{ℕ, ◌+◌, ◌-◌, ◌%◌, ◌^◌, min, Bool, not, ◌&&◌, ◌||◌, ltb, ◌==◌, if◌then◌else◌}

-- the metric of a retraction, `^uint32(0)`
abbrev pub inf : ℕ
inf = 2 ^ 32 - 1

-- the largest metric of a route that is not retracted
abbrev pub infm : ℕ
infm = inf - 1

unfoldable pub add_metric : ℕ → ℕ → ℕ
add_metric a b = if a == inf || b == inf then inf else min infm (a + b)

-- `x := b - a` is a 16-bit difference
unfoldable pub seqno_lt : ℕ → ℕ → Bool
seqno_lt a b = let x = (b + 2 ^ 16 - a) % 2 ^ 16 in ltb 0 x && ltb x 32768

unfoldable pub seqno_le : ℕ → ℕ → Bool
unfolding seqno_lt
seqno_le a b = a == b || seqno_lt a b

unfoldable pub seqno_gt : ℕ → ℕ → Bool
unfolding seqno_le
seqno_gt a b = not (seqno_le a b)

unfoldable pub seqno_ge : ℕ → ℕ → Bool
unfolding seqno_lt
seqno_ge a b = not (seqno_lt a b)
