-- ===== src/Router/Maintenance.antt =====
-- The periodic tasks of core/router_algo.go: `FullTableUpdate`, `PushFullTable`, `RunGC` and
-- `SolveStarvation`.
pub mod Expiry
pub mod Sources
use nylon.Base.{
  ℕ, ◌+◌, Bool, false, not, ◌&&◌, ◌||◌, List, [], ◌∷◌, ◌++◌, Option, none, some, ltb, ◌==◌,
  if◌then◌else◌, is_yes, is_some, contains_func,
}
use nylon.Base.Maps.{Map, find, put, keep}
use nylon.Platform.{Platform}
use nylon.Router.Compute.{compute_routes}
use nylon.Router.Feasibility.{update_feasibility, check_feasibility}
use nylon.Router.Handlers.{Outcome, next_seqno}
use nylon.Router.Metric.{inf}
use nylon.Router.Selection.{metric_of}
use nylon.Router.State.{
  Source, PubRoute, NeighRoute, SelRoute, Advertisement, Neighbour, RouterState, Call, source_eq,
  neighbour_best,
}

module _ ⦃P : Platform⦄ where
  open P use {NodeId, Prefix, node_eq, prefix_eq}

  -- the loop over `s.Routes` of a full update; `send` is the call that is made for each
  unfoldable pub push_routes : (PubRoute → Call) → Map Prefix SelRoute → RouterState → Outcome
  push_routes send [] s = (s, [])
  push_routes send ((prefix, route) ∷ rest) s =
      let s' = (if metric_of route == inf then s else update_feasibility s route.pub_route) in
      let (s'', calls) = push_routes send rest s' in (s'', send route.pub_route ∷ calls)

  unfoldable pub full_table_update : RouterState → Outcome
  unfolding push_routes
  full_table_update s = push_routes Call.broadcast_send_route_update s.routes s

  unfoldable pub push_full_table : RouterState → NodeId → Outcome
  unfolding push_routes
  push_full_table s neigh = push_routes (Call.send_route_update neigh) s.routes s

  -- a neighbour's route at the scan: an expired one is marked first, and dropped when it expires
  -- once more
  unfoldable pub expire_route : RouterState → ℕ → NeighRoute → Option NeighRoute
  expire_route s now route =
      let fd = route.pub_route.fd in
      if not (ltb route.expire_at now)
      then some route
      else if fd.metric == inf
      then none
      else some (record route {
        pub_route = record {
          source = route.pub_route.source;
          fd = record { seqno = fd.seqno; metric = inf };
        };
        expire_at = now + s.tunables.route_expiry_time;
      })

  unfoldable pub expire_neighbours : RouterState → ℕ → List Neighbour → List Neighbour
  unfolding expire_route keep
  expire_neighbours s now [] = []
  expire_neighbours s now (n ∷ ns) =
      record n { routes = keep (λ _ route. expire_route s now route) n.routes }
      ∷ expire_neighbours s now ns

  -- an advertisement that has not expired stays
  unfoldable pub live_adv : ℕ → Advertisement → Option Advertisement
  live_adv now adv = if ltb adv.expiry now then none else some adv

  unfoldable pub expiry_calls : ℕ → Map Prefix Advertisement → List Call
  expiry_calls now [] = []
  expiry_calls now ((prefix, adv) ∷ rest) =
      (if ltb adv.expiry now && adv.expiry_fn then Call.expiry_fn prefix ∷ [] else [])
      ++ expiry_calls now rest

  -- the state after the two scans
  unfoldable pub expired : RouterState → ℕ → RouterState
  unfolding expire_neighbours live_adv keep
  expired s now = record s {
    neighbours = expire_neighbours s now s.neighbours;
    advertised = keep (λ _ adv. live_adv now adv) s.advertised;
  }

  -- a table entry for the prefix has this source
  unfoldable pub has_source : Source → Option PubRoute → Bool
  has_source src none = false
  has_source src (some route) = is_yes (source_eq route.source src)

  unfoldable pub_of_neigh : Option NeighRoute → Option PubRoute
  pub_of_neigh none = none
  pub_of_neigh (some r) = some r.pub_route

  unfoldable pub_of_sel : Option SelRoute → Option PubRoute
  pub_of_sel none = none
  pub_of_sel (some r) = some r.pub_route

  unfoldable adv_by : NodeId → Option Advertisement → Bool
  adv_by node none = false
  adv_by node (some adv) = is_yes (node_eq adv.node_id node)

  -- some table refers to the source
  unfoldable pub is_referenced : RouterState → Source → Bool
  unfolding has_source pub_of_neigh pub_of_sel adv_by contains_func
  is_referenced s src =
      contains_func (λ n. has_source src (pub_of_neigh (find prefix_eq src.prefix n.routes)))
        s.neighbours
      || has_source src (pub_of_sel (find prefix_eq src.prefix s.routes))
      || adv_by src.node_id (find prefix_eq src.prefix s.advertised)

  unfoldable pub sweep_sources : RouterState → RouterState
  unfolding is_referenced keep
  sweep_sources s = record s {
    sources = keep (λ src fd. if is_referenced s src then some fd else none) s.sources;
  }

  unfoldable pub run_gc : RouterState → ℕ → Outcome
  unfolding expired expiry_calls sweep_sources
  run_gc s now =
      let (s', calls) = compute_routes (expired s now) now in
      (sweep_sources s', expiry_calls now s.advertised ++ calls)

  -- `(present && curFeasible) || routeFeasible`
  unfoldable pub or_feasible : Option Bool → Bool → Bool
  or_feasible none b = b
  or_feasible (some a) b = a || b

  -- the loop over one neighbour's routes, and the loop over the neighbours
  unfoldable pub mark_routes :
      RouterState → Map Prefix NeighRoute → Map Source Bool → Map Source Bool
  unfolding or_feasible
  mark_routes s [] marks = marks
  mark_routes s ((prefix, route) ∷ rest) marks =
      let src = route.pub_route.source in
      let feasible =
        not (route.pub_route.fd.metric == inf) && check_feasibility s route.pub_route in
      mark_routes s rest (put source_eq src (or_feasible (find source_eq src marks) feasible) marks)

  unfoldable pub mark_sources : RouterState → ℕ → List Neighbour → Map Source Bool → Map Source Bool
  unfolding mark_routes
  mark_sources s now [] marks = marks
  mark_sources s now (n ∷ ns) marks =
      mark_sources s now ns
        (if is_some (neighbour_best now n) then mark_routes s n.routes marks else marks)

  unfoldable pub request_starved : RouterState → Map Source Bool → List Call
  unfolding next_seqno
  request_starved s [] = []
  request_starved s ((src, feasible) ∷ rest) =
      (if not feasible && not (is_yes (node_eq src.node_id s.id))
        then Call.broadcast_request_seqno src (next_seqno s src) s.tunables.seqno_request_hop_count
          ∷ []
        else [])
      ++ request_starved s rest

  -- the state does not change
  unfoldable pub solve_starvation : RouterState → ℕ → List Call
  unfolding mark_sources request_starved
  solve_starvation s now = request_starved s (mark_sources s now s.neighbours [])
