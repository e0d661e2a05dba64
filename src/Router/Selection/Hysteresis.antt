-- ===== src/Router/Selection/Hysteresis.antt =====
-- The choice between the best candidate and the route in use (RFC 8966, appendix A.3).
use nylon.Base.{◌<◌, ◌≤◌, ◌≡◌, ◌⊎◌, true, false, some, arith}
use nylon.Platform.{Platform}
use nylon.Router.Selection.{metric_of, same_route, Candidate, select_route}
use nylon.Router.State.{SelRoute}

module _ ⦃P : Platform⦄ where
  same_route_sym : (a b : SelRoute) → same_route a b ≡ false → same_route b a ≡ false
  unfolding same_route
  same_route_sym a b h = ground arith

  -- Of two different routes, the one whose metric is not higher stays in use against the other. It
  -- takes the place of the other exactly if both its metric and its smoothed metric are strictly
  -- lower; otherwise each of the two stays in use against the other. So two routes never replace each
  -- other in turn while their metrics stay as they are.
  pub select_route_stable :
      (a b : Candidate)
      → same_route a.route b.route ≡ false
      → metric_of a.route ≤ metric_of b.route
      → (select_route b (some a) ≡ a.route)
        × (((select_route a (some b) ≡ a.route)
              × (metric_of a.route < metric_of b.route)
              × (P.lt a.smoothed b.smoothed ≡ true))
            ⊎ ((select_route a (some b) ≡ b.route)
                × ((metric_of a.route ≡ metric_of b.route) ⊎ (P.lt a.smoothed b.smoothed ≡ false))))
  unfolding select_route
  select_route_stable a b differ le =
      let differ' = same_route_sym a.route b.route differ in (ground arith, ground arith)
