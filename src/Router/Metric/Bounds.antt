-- ===== src/Router/Metric/Bounds.antt =====
-- `AddMetric` of core/utils.go: saturation, and the laws that route selection rests on.
use nylon.Base.{ℕ, ◌+◌, ◌≤◌, ◌≡◌, ◌≢◌, ◌⊎◌, ◌↔◌, arith, min}
use nylon.Router.Metric.{inf, infm, add_metric}

module _ (a b : ℕ) where
  -- The sum fits in a `uint32`, and it is infinite exactly when one of the metrics is.
  pub add_metric-inf :
      a ≤ inf
      → b ≤ inf
      → (add_metric a b ≤ inf) × ((add_metric a b ≡ inf) ↔ ((a ≡ inf) ⊎ (b ≡ inf)))
  unfolding add_metric
  add_metric-inf ha hb = (ground arith, (λ e. ground arith, λ e. ground arith))

  -- A finite sum is the sum, or the largest finite metric where that is less.
  pub add_metric_finite : a ≢ inf → b ≢ inf → add_metric a b ≡ min infm (a + b)
  unfolding add_metric
  add_metric_finite ha hb = ground arith

  pub add_metric_comm : add_metric a b ≡ add_metric b a
  unfolding add_metric
  add_metric_comm = ground arith

  pub le-add_metric : a ≤ inf → b ≤ inf → a ≤ add_metric a b
  unfolding add_metric
  le-add_metric ha hb = ground arith
