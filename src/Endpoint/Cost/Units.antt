-- ===== src/Endpoint/Cost/Units.antt =====
-- The units of state/endpoint.go: metrics count microseconds, delays are in nanoseconds.
use nylon.Base.{ℕ, ◌≡◌, ◌≤◌, ◌⊎◌, arith}
use nylon.Base.Int.{pos}
use nylon.Endpoint.Cost.{duration_to_metric, metric_to_duration, max_int64}
use nylon.Router.Metric.{inf, infm}

-- A metric survives the way to a duration and back, if it is at most `INFM` or is `INF`.
pub duration_to_metric_inverse :
    (m : ℕ) → (m ≤ infm) ⊎ (m ≡ inf) → duration_to_metric (pos (metric_to_duration m)) ≡ m
unfolding duration_to_metric metric_to_duration
duration_to_metric_inverse m h = ground arith

-- A longer delay never has a smaller metric, for delays that are not negative and below 2^63; and
-- the metric of such a delay is a `uint32`.
pub duration_to_metric_monotone :
    (a b : ℕ)
    → a ≤ b
    → b ≤ max_int64
    → (duration_to_metric (pos a) ≤ duration_to_metric (pos b)) × (duration_to_metric (pos b) ≤ inf)
unfolding duration_to_metric
duration_to_metric_monotone a b h hb = (ground arith, ground arith)
