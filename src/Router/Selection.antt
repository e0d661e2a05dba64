-- ===== src/Router/Selection.antt =====
-- Route selection in `ComputeRoutes` of core/router_algo.go: the candidates among the neighbours'
-- routes, and the choice between the best candidate and the route in use.
pub mod Hysteresis
use nylon.Base.{
  ℕ, Bool, true, false, not, ◌&&◌, List, [], ◌∷◌, Option, none, some, ltb, ◌==◌, if◌then◌else◌,
  is_yes, is_some,
}
use nylon.Base.Int.{pos}
use nylon.Base.Maps.{Map, find, put}
use nylon.Platform.{Platform}
use nylon.Router.Feasibility.{check_feasibility}
use nylon.Router.Metric.{inf, add_metric}
use nylon.Router.State.{
  NeighRoute, SelRoute, Neighbour, RouterState, source_eq, neighbour_best, neighbour_cost,
}

module _ ⦃P : Platform⦄ where
  open P use {NodeId, Prefix, Float, node_eq, prefix_eq}

  -- `route.Metric = m`
  abbrev pub with_metric : SelRoute → ℕ → SelRoute
  with_metric r m = record r {
    pub_route = record {
      source = r.pub_route.source;
      fd = record { seqno = r.pub_route.fd.seqno; metric = m };
    };
  }

  abbrev pub metric_of : SelRoute → ℕ
  metric_of r = r.pub_route.fd.metric

  unfoldable pub same_route : SelRoute → SelRoute → Bool
  same_route a b =
      is_yes (node_eq a.nh b.nh) && is_yes (source_eq a.pub_route.source b.pub_route.source)

  unfoldable pub is_strictly_better : SelRoute → SelRoute → Bool
  is_strictly_better cur new = ltb (metric_of new) (metric_of cur)

  -- a previous value of 0 is uninitialised
  unfoldable pub smooth_metric : Float → ℕ → Float → Float
  smooth_metric prev sample alpha =
      let s = P.of_int (pos sample) in
      let mixed = P.add (P.mul alpha s) (P.mul (P.sub (P.literal 1 0) alpha) prev) in
      if P.eq prev (P.literal 0 0) then s else mixed

  pub record Candidate : Type 0 where
    pub route : SelRoute
    pub smoothed : Float

  -- `bestByPrefix` and `selByPrefix`
  pub record Tally : Type 0 where
    pub best : Map Prefix Candidate
    pub sel : Map Prefix Candidate

  -- `CAB`, the cost of the hop to the neighbour
  unfoldable pub hop_cost : RouterState → ℕ → Neighbour → ℕ
  hop_cost s now n =
      if is_some (neighbour_best now n)
      then add_metric (add_metric (neighbour_cost now n) s.tunables.hop_cost)
          s.tunables.transit_cost
      else inf

  -- a route of a neighbour as a candidate; `none` where the loop continues
  unfoldable pub candidate : RouterState → NodeId → ℕ → NeighRoute → Option Candidate
  candidate s neigh cab adv =
      let fd = adv.pub_route.fd in
      let total = add_metric cab fd.metric in
      if total == inf
      then none
      else if not (check_feasibility s adv.pub_route)
      then none
      else some (record {
        route = record {
          pub_route = record {
            source = adv.pub_route.source;
            fd = record { seqno = fd.seqno; metric = total };
          };
          nh = neigh;
          expire_at = adv.expire_at;
          retracted_by = [];
        };
        smoothed = smooth_metric adv.smoothed_metric total s.tunables.metric_smoothing_alpha;
      })

  -- `!ok || newRoute.Metric < cur.route.Metric`
  unfoldable pub is_lower : SelRoute → Option Candidate → Bool
  is_lower new none = true
  is_lower new (some cur) = ltb (metric_of new) (metric_of cur.route)

  -- `prev.Nh == neigh.Id && prev.Source == adv.Source`
  unfoldable pub is_selected : SelRoute → Option SelRoute → Bool
  is_selected new none = false
  is_selected new (some prev) = same_route prev new

  unfoldable pub offer : RouterState → Prefix → Candidate → Tally → Tally
  unfolding is_lower is_selected
  offer s prefix cand acc = record {
    best =
        if is_lower cand.route (find prefix_eq prefix acc.best)
        then put prefix_eq prefix cand acc.best
        else acc.best;
    sel =
        if is_selected cand.route (find prefix_eq prefix s.routes)
        then put prefix_eq prefix cand acc.sel
        else acc.sel;
  }

  -- the loop over one neighbour's routes: the candidates, and the routes with new smoothed metrics
  unfoldable pub scan_routes : RouterState → NodeId → ℕ → Map Prefix NeighRoute → Tally → Tally
  unfolding offer candidate
  scan_routes s neigh cab [] acc = acc
  scan_routes s neigh cab ((prefix, adv) ∷ rest) acc =
      scan_routes s neigh cab rest
        (elim (candidate s neigh cab adv) [ none ↦ acc | some cand ↦ offer s prefix cand acc ])

  unfoldable pub smooth_routes :
      RouterState → NodeId → ℕ → Map Prefix NeighRoute → Map Prefix NeighRoute
  unfolding candidate
  smooth_routes s neigh cab [] = []
  smooth_routes s neigh cab ((prefix, adv) ∷ rest) =
      (
        prefix,
        elim (candidate s neigh cab adv) [
          | none ↦ adv
          | some cand ↦ record adv { smoothed_metric = cand.smoothed }
        ],
      )
      ∷ smooth_routes s neigh cab rest

  unfoldable pub scan_neighbours : RouterState → ℕ → List Neighbour → Tally → Tally
  unfolding scan_routes hop_cost
  scan_neighbours s now [] acc = acc
  scan_neighbours s now (n ∷ ns) acc =
      scan_neighbours s now ns (scan_routes s n.id (hop_cost s now n) n.routes acc)

  unfoldable pub smooth_neighbours : RouterState → ℕ → List Neighbour → List Neighbour
  unfolding smooth_routes hop_cost
  smooth_neighbours s now [] = []
  smooth_neighbours s now (n ∷ ns) =
      record n { routes = smooth_routes s n.id (hop_cost s now n) n.routes }
      ∷ smooth_neighbours s now ns

  -- the route in use for a prefix, with its smoothed metric
  unfoldable pub current : Option SelRoute → Option Candidate → Option Candidate
  unfolding same_route
  current none sel = sel
  current (some inc) none = some (record { route = inc; smoothed = P.of_int (pos (metric_of inc)) })
  current (some inc) (some sel) = some (record {
    route = inc;
    smoothed = if same_route inc sel.route then sel.smoothed else P.of_int (pos (metric_of inc));
  })

  -- the `switch`: the hysteresis of RFC 8966, appendix A.3
  unfoldable pub select_route : Candidate → Option Candidate → SelRoute
  unfolding same_route
  select_route best none = best.route
  select_route best (some cur) =
      if same_route best.route cur.route
      then best.route
      else if ltb (metric_of best.route) (metric_of cur.route) && P.lt best.smoothed cur.smoothed
      then best.route
      else cur.route
