-- ===== src/Router/Compute.antt =====
-- `ComputeRoutes` of core/router_algo.go: the new table is built in three passes (held routes, own
-- routes, selection among the neighbours' routes) and then compared with the old one.
-- A result is the new state with the calls to the host, in the order in which they are made.
-- `now` stands for each reading of the clock in one run.
pub mod Origin
pub mod Offers
pub mod Retraction
pub mod Pointwise
use nylon.Base.{
  ℕ, ◌+◌, ◌-◌, ◌/◌, min, Bool, true, false, not, ◌&&◌, ◌||◌, List, [], ◌∷◌, ◌++◌, Option, none,
  some, ltb, ◌==◌, if◌then◌else◌, is_yes, is_some, length,
}
use nylon.Base.Maps.{Map, find, put}
use nylon.Endpoint.Cost.{Endpoint}
use nylon.Platform.{Platform}
use nylon.Router.Feasibility.{update_feasibility}
use nylon.Router.Metric.{inf, infm}
use nylon.Router.State.{
  SelRoute, Advertisement, Neighbour, RouterState, Call, get_seqno, neighbour_best,
}
use nylon.Router.Selection.{
  with_metric, metric_of, Candidate, Tally, scan_neighbours, smooth_neighbours, current,
  select_route,
}

module _ ⦃P : Platform⦄ where
  open P use {NodeId, Prefix, Float, node_eq, prefix_eq}

  -- `bestEndpoints` and `connectedNeighs`
  unfoldable pub best_endpoints :
      ℕ → List Neighbour → Map NodeId (Option Endpoint) → Map NodeId (Option Endpoint)
  best_endpoints now [] m = m
  best_endpoints now (n ∷ ns) m = best_endpoints now ns (put node_eq n.id (neighbour_best now n) m)

  unfoldable pub connected_neighs : ℕ → List Neighbour → ℕ
  connected_neighs now [] = 0
  connected_neighs now (n ∷ ns) =
      (if is_some (neighbour_best now n) then 1 else 0) + connected_neighs now ns

  -- `bestEndpoints[nh] != nil`
  unfoldable pub has_link : Map NodeId (Option Endpoint) → NodeId → Bool
  has_link m nh = elim (find node_eq nh m) [ none ↦ false | some best ↦ is_some best ]

  unfoldable pub is_held_route : RouterState → SelRoute → ℕ → Bool → ℕ → Bool
  is_held_route s route connected linked now =
      if is_yes (node_eq route.nh s.id) || not (metric_of route == inf) && linked
      then false
      else ltb (length route.retracted_by) connected && ltb now route.expire_at

  -- the pass over `s.Routes` that brings the held routes back
  unfoldable pub hold_routes :
      RouterState
      → ℕ
      → Map NodeId (Option Endpoint)
      → ℕ
      → Map Prefix SelRoute
      → Map Prefix SelRoute
      → Map Prefix SelRoute
  unfolding is_held_route has_link
  hold_routes s connected bests now [] table = table
  hold_routes s connected bests now ((prefix, route) ∷ rest) table =
      hold_routes s connected bests now rest (
        if is_held_route s route connected (has_link bests route.nh) now
        then put prefix_eq prefix (with_metric route inf) table
        else table)

  unfoldable pub adv_metric : Advertisement → ℕ → ℕ
  adv_metric adv now =
      if adv.is_passive_hold then infm / 2 else elim adv.metric_fn [ none ↦ 0 | some f ↦ f now ]

  unfoldable pub own_route : RouterState → ℕ → Prefix → Advertisement → SelRoute
  unfolding adv_metric get_seqno
  own_route s now prefix adv = record {
    pub_route = record {
      source = record { node_id = s.id; prefix = prefix };
      fd = record { seqno = get_seqno s prefix; metric = adv_metric adv now };
    };
    nh = adv.node_id;
    expire_at = min (now + s.tunables.route_expiry_time) adv.expiry;
    retracted_by = [];
  }

  -- the pass over `s.Advertised`
  unfoldable pub add_own :
      RouterState → ℕ → Map Prefix Advertisement → Map Prefix SelRoute → Map Prefix SelRoute
  unfolding own_route
  add_own s now [] table = table
  add_own s now ((prefix, adv) ∷ rest) table =
      add_own s now rest (put prefix_eq prefix (own_route s now prefix adv) table)

  -- the pass over `bestByPrefix`
  unfoldable pub select_routes :
      Map Prefix Candidate → Map Prefix Candidate → Map Prefix SelRoute → Map Prefix SelRoute
  unfolding select_route current
  select_routes sels [] table = table
  select_routes sels ((prefix, best) ∷ rest) table = select_routes sels rest (
      put prefix_eq prefix
        (select_route best (current (find prefix_eq prefix table) (find prefix_eq prefix sels)))
        table)

  unfoldable pub empty_tally : Tally
  empty_tally = record { best = []; sel = [] }

  -- `newTable` before the retractions
  unfoldable pub new_table : RouterState → ℕ → Map Prefix SelRoute
  unfolding hold_routes add_own select_routes scan_neighbours connected_neighs best_endpoints
      empty_tally
  new_table s now =
      let bests = best_endpoints now s.neighbours [] in
      let held = hold_routes s (connected_neighs now s.neighbours) bests now s.routes [] in
      let tally = scan_neighbours s now s.neighbours empty_tally in
      select_routes tally.sel tally.best (add_own s now s.advertised held)

  -- `abs(int(new.Metric) - int(old.Metric)) > threshold`
  unfoldable pub is_large_change : ℕ → ℕ → ℕ → Bool
  is_large_change new old threshold = ltb threshold (new - old + (old - new))

  -- the forwarding table must change
  unfoldable pub must_insert : Option SelRoute → SelRoute → Bool
  must_insert none new = true
  must_insert (some old) new =
      metric_of old == inf && not (metric_of new == inf) || not (is_yes (node_eq old.nh new.nh))

  -- an update must be sent at once
  unfoldable pub must_update : ℕ → Option SelRoute → SelRoute → Bool
  unfolding is_large_change
  must_update threshold none new = true
  must_update threshold (some old) new =
      (not (is_yes (node_eq old.pub_route.source.node_id new.pub_route.source.node_id))
        || not (old.pub_route.fd.seqno == new.pub_route.fd.seqno))
      || is_large_change (metric_of new) (metric_of old) threshold && not (metric_of new == inf)

  unfoldable pub announce_calls : ℕ → Prefix → Option SelRoute → SelRoute → List Call
  unfolding must_insert must_update
  announce_calls threshold prefix old new =
      (if must_insert old new then Call.table_insert_route prefix new ∷ [] else [])
      ++ (if must_update threshold old new
          then Call.broadcast_send_route_update new.pub_route ∷ []
          else [])

  -- the pass over `newTable` that inserts and announces
  unfoldable pub announce : RouterState → Map Prefix SelRoute → RouterState × List Call
  unfolding announce_calls
  announce s [] = (s, [])
  announce s ((prefix, new) ∷ rest) =
      let old = find prefix_eq prefix s.routes in
      let s' =
        (if must_update s.tunables.large_change_threshold old new
          then update_feasibility s new.pub_route
          else s) in
      let (s'', calls) = announce s' rest in
      (s'', announce_calls s.tunables.large_change_threshold prefix old new ++ calls)

  -- `retract`
  unfoldable pub retract : RouterState → Prefix → List Call
  retract s prefix = elim (find prefix_eq prefix s.routes) [
    | none ↦ []
    | some entry ↦ Call.broadcast_send_route_update (with_metric entry inf).pub_route ∷ []
  ]

  -- `!exists || route.Metric == INF`
  unfoldable pub is_gone : Option SelRoute → Bool
  is_gone none = true
  is_gone (some route) = metric_of route == inf

  -- a retracted route, held from now on
  abbrev pub blackholed : SelRoute → SelRoute
  blackholed old = record (with_metric old inf) { retracted_by = [] }

  -- the route is lost: it was finite and is gone
  unfoldable pub is_lost : SelRoute → Option SelRoute → Bool
  unfolding is_gone
  is_lost old new = is_gone new && not (metric_of old == inf)

  -- the pass over `s.Routes` that retracts
  unfoldable pub retract_lost :
      RouterState → Map Prefix SelRoute → Map Prefix SelRoute → Map Prefix SelRoute × List Call
  unfolding is_lost retract
  retract_lost s [] table = (table, [])
  retract_lost s ((prefix, old) ∷ rest) table =
      let lost = is_lost old (find prefix_eq prefix table) in
      let (table', calls) =
        retract_lost s rest (if lost then put prefix_eq prefix (blackholed old) table else table) in
      (
        table',
        (if lost
              then retract s prefix ++ Call.table_insert_route prefix (blackholed old) ∷ []
              else [])
            ++ calls,
      )

  -- the state with the new smoothed metrics
  abbrev pub smoothed : RouterState → ℕ → RouterState
  smoothed s now = record s { neighbours = smooth_neighbours s now s.neighbours }

  unfoldable pub compute_routes : RouterState → ℕ → RouterState × List Call
  unfolding new_table announce retract_lost
  compute_routes s now =
      let table = new_table s now in
      let (announced, calls) = announce (smoothed s now) table in
      let (table', retractions) = retract_lost announced s.routes table in
      (record announced { routes = table' }, calls ++ retractions)
