-- ===== src/Router/Handlers.antt =====
-- The handlers of core/router_algo.go for received messages: `HandleNeighbourUpdate`,
-- `HandleAckRetract` and `HandleSeqnoRequest`, with `NeighContainsFunc` of core/router_utils.go.
pub mod Expected
pub mod Updates
pub mod Forwarding
use nylon.Base.{
  ℕ, ◌+◌, ◌-◌, ◌%◌, ◌^◌, Bool, false, not, ◌&&◌, ◌||◌, List, [], ◌∷◌, ◌++◌, Option, none, some, leb,
  ◌==◌, if◌then◌else◌, is_yes, is_some, contains_func,
}
use nylon.Base.Int.{pos}
use nylon.Base.Maps.{Map, find, put}
use nylon.Platform.{Platform}
use nylon.Router.Compute.{compute_routes}
use nylon.Router.Feasibility.{update_feasibility, check_feasibility}
use nylon.Router.Metric.{inf, add_metric, seqno_gt, seqno_ge}
use nylon.Router.Selection.{metric_of, is_strictly_better}
use nylon.Router.State.{
  Source, PubRoute, NeighRoute, SelRoute, Neighbour, RouterState, Call, source_eq, set_seqno,
  get_neighbour, set_routes, neighbour_best, neighbour_cost,
}

module _ ⦃P : Platform⦄ where
  open P use {NodeId, Prefix, node_eq, prefix_eq}

  -- what a handler returns: the new state and the calls to the host
  abbrev pub Outcome : Type 0
  Outcome = RouterState × List Call

  -- `s.Sources[src].Seqno + 1`, where a missing entry reads as zero
  unfoldable pub next_seqno : RouterState → Source → ℕ
  next_seqno s src = elim (find source_eq src s.sources) [
    | none ↦ 1
    | some fd ↦ (fd.seqno + 1) % 2 ^ 16
  ]

  -- the metric that an unfeasible update would have if it were selected
  unfoldable pub dummy_route : RouterState → ℕ → Neighbour → PubRoute → SelRoute
  dummy_route s now n adv = record {
    pub_route = record {
      source = adv.source;
      fd = record {
        seqno = adv.fd.seqno;
        metric =
            if is_some (neighbour_best now n)
            then add_metric adv.fd.metric (
                add_metric (neighbour_cost now n)
                  (add_metric s.tunables.hop_cost s.tunables.transit_cost))
            else inf;
      };
    };
    nh = n.id;
    expire_at = 0;
    retracted_by = [];
  }

  -- `n.Routes[adv.Prefix] = route`
  unfoldable pub store_route : RouterState → Neighbour → Prefix → NeighRoute → RouterState
  unfolding set_routes
  store_route s n prefix route = record s {
    neighbours = set_routes n.id (put prefix_eq prefix route n.routes) s.neighbours;
  }

  -- the entry of a new route
  unfoldable pub acquired : RouterState → ℕ → PubRoute → NeighRoute
  acquired s now adv = record {
    pub_route = adv;
    expire_at = now + s.tunables.route_expiry_time;
    smoothed_metric = P.of_int (pos 0);
  }

  -- no entry for the prefix: the update is ignored if it is unfeasible or a retraction
  unfoldable pub acquire_route : RouterState → ℕ → Neighbour → PubRoute → RouterState
  unfolding store_route acquired
  acquire_route s now n adv =
      if not (check_feasibility s adv) || adv.fd.metric == inf
      then s
      else store_route s n adv.source.prefix (acquired s now adv)

  -- `isSelected`
  unfoldable pub is_selected_from : NodeId → PubRoute → Option SelRoute → Bool
  is_selected_from neigh adv none = false
  is_selected_from neigh adv (some sel) =
      is_yes (node_eq sel.nh neigh) && is_yes (source_eq sel.pub_route.source adv.source)

  -- `isMoreOptimal`
  unfoldable pub is_more_optimal : SelRoute → Option SelRoute → Bool
  unfolding is_strictly_better
  is_more_optimal dummy none = false
  is_more_optimal dummy (some sel) = is_strictly_better sel dummy

  -- the entry after an update that is not ignored
  unfoldable pub refreshed : RouterState → ℕ → PubRoute → NeighRoute → NeighRoute
  refreshed s now adv old = record old {
    pub_route = adv;
    expire_at = if adv.fd.metric == inf then old.expire_at else now + s.tunables.route_expiry_time;
  }

  -- there is an entry for the prefix
  unfoldable pub refresh_route : RouterState → ℕ → Neighbour → PubRoute → NeighRoute → Outcome
  unfolding next_seqno dummy_route store_route is_selected_from is_more_optimal refreshed
  refresh_route s now n adv old =
      let sel = find prefix_eq adv.source.prefix s.routes in
      let stored = store_route s n adv.source.prefix (refreshed s now adv old) in
      let request =
        Call.request_seqno n.id adv.source (next_seqno s adv.source)
          s.tunables.seqno_request_hop_count in
      if check_feasibility s adv
      then (stored, [])
      else if is_selected_from n.id adv sel
      then (s, request ∷ [])
      else if is_more_optimal (dummy_route s now n adv) sel
      then (stored, request ∷ [])
      else (stored, [])

  -- `none` is the nil dereference for a node that is no neighbour
  unfoldable pub handle_neighbour_update : RouterState → ℕ → NodeId → PubRoute → Option Outcome
  unfolding get_neighbour acquire_route refresh_route
  handle_neighbour_update s now neigh adv = elim (get_neighbour s neigh) [
    | none ↦ none
    | some n ↦
        let acks =
          (if adv.fd.metric == inf
            then Call.send_ack_retract neigh adv.source.prefix ∷ []
            else []) in
        elim (find prefix_eq adv.source.prefix n.routes) [
          | none ↦ some (acquire_route s now n adv, acks)
          | some old ↦ let (s', calls) = refresh_route s now n adv old in some (s', acks ++ calls)
        ]
  ]

  -- the route after an acknowledgement of its retraction
  abbrev pub acknowledged : SelRoute → NodeId → SelRoute
  acknowledged rt neigh = record rt { retracted_by = rt.retracted_by ++ neigh ∷ [] }

  unfoldable pub handle_ack_retract : RouterState → ℕ → NodeId → Prefix → Outcome
  unfolding contains_func
  handle_ack_retract s now neigh prefix = elim (find prefix_eq prefix s.routes) [
    | none ↦ (s, [])
    | some rt ↦
        if not (metric_of rt == inf)
          || contains_func (λ id. is_yes (node_eq id neigh)) rt.retracted_by
        then (s, [])
        else compute_routes
            (record s { routes = put prefix_eq prefix (acknowledged rt neigh) s.routes }) now
  ]

  -- `NeighContainsFunc`, with the neighbour at which the predicate held
  unfoldable pub routes_contain : (NeighRoute → Bool) → Map Prefix NeighRoute → Bool
  routes_contain f [] = false
  routes_contain f ((prefix, route) ∷ rest) = f route || routes_contain f rest

  unfoldable pub neigh_contains_func : (NodeId → NeighRoute → Bool) → List Neighbour → Option NodeId
  unfolding routes_contain
  neigh_contains_func f [] = none
  neigh_contains_func f (n ∷ ns) =
      if routes_contain (f n.id) n.routes then some n.id else neigh_contains_func f ns

  -- the second test for a neighbour to forward a request to; with the feasibility test it is the
  -- first
  unfoldable pub can_forward : RouterState → ℕ → NodeId → Source → NodeId → NeighRoute → Bool
  unfolding get_neighbour
  can_forward s now from src neigh route = elim (get_neighbour s neigh) [
    | none ↦ false
    | some n ↦
        is_some (neighbour_best now n)
        && is_yes (prefix_eq src.prefix route.pub_route.source.prefix)
        && not (is_yes (node_eq neigh from))
        && not (route.pub_route.fd.metric == inf)
  ]

  unfoldable pub forward_target : RouterState → ℕ → NodeId → Source → Option NodeId
  unfolding can_forward neigh_contains_func
  forward_target s now from src =
      let feasible = λ (neigh : NodeId) (route : NeighRoute).
        can_forward s now from src neigh route && check_feasibility s route.pub_route in
      elim (neigh_contains_func feasible s.neighbours) [
        | some neigh ↦ some neigh
        | none ↦ neigh_contains_func (can_forward s now from src) s.neighbours
      ]

  -- the request is passed on with a lower hop count, or dropped
  unfoldable pub forward_request :
      RouterState → ℕ → NodeId → Source → (seqno hop_cnt : ℕ) → List Call
  unfolding forward_target
  forward_request s now from src seqno hop_cnt =
      if leb 2 hop_cnt
      then elim (forward_target s now from src) [
        | none ↦ []
        | some neigh ↦ Call.request_seqno neigh src seqno (hop_cnt - 1) ∷ []
      ]
      else []

  -- the selected route answers the request
  unfoldable pub answers_request : SelRoute → Source → ℕ → Bool
  answers_request sel src seqno =
      not (metric_of sel == inf)
      && (not (is_yes (node_eq sel.pub_route.source.node_id src.node_id))
          || seqno_ge sel.pub_route.fd.seqno seqno)

  -- the request asks for more than the selected route has
  unfoldable pub exceeds_route : SelRoute → Source → ℕ → Bool
  exceeds_route sel src seqno =
      is_yes (node_eq sel.pub_route.source.node_id src.node_id)
      && seqno_gt seqno sel.pub_route.fd.seqno

  -- a request for one of the node's own prefixes: it takes the requested number
  unfoldable pub own_request : RouterState → ℕ → Prefix → (seqno : ℕ) → List Call → Outcome
  own_request s now prefix seqno reply =
      let (s', calls) = compute_routes (set_seqno s prefix seqno) now in (s', reply ++ calls)

  unfoldable pub handle_seqno_request :
      RouterState → ℕ → NodeId → Source → (seqno hop_cnt : ℕ) → Outcome
  unfolding answers_request exceeds_route forward_request own_request
  handle_seqno_request s now from src seqno hop_cnt = elim (find prefix_eq src.prefix s.routes) [
    | none ↦ (s, [])
    | some sel ↦
        let answered = answers_request sel src seqno in
        let s' = (if answered then update_feasibility s sel.pub_route else s) in
        let reply = (if answered then Call.send_route_update from sel.pub_route ∷ [] else []) in
        if not (exceeds_route sel src seqno)
        then (s', reply)
        else if is_yes (node_eq sel.pub_route.source.node_id s.id)
        then own_request s' now sel.pub_route.source.prefix seqno reply
        else (s', reply ++ forward_request s' now from src seqno hop_cnt)
  ]
