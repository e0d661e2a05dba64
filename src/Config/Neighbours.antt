-- ===== src/Config/Neighbours.antt =====
-- `reconcileRouterState` of core/nylon_apply.go: the neighbours when the configuration changes. The
-- map from keys to node ids and the set of peers with fake TCP, which it rebuilds, are left out.
pub mod Routes
use nylon.Base.{
  ℕ, Bool, true, false, ◌&&◌, List, [], ◌∷◌, ◌++◌, Option, none, some, map, is_yes, is_some,
  if◌then◌else◌, ite, sort,
}
use nylon.Base.Maps.{Map, find, put, delete}
use nylon.Config.Endpoints.{
  Host, LocalBind, BoundEndpoint, configured_endpoints, reconcile_configured_endpoints,
}
use nylon.Platform.{Platform}
use nylon.Router.State.{NeighRoute}
use nylon.Tunables.{RouterTunables}

module _ ⦃P : Platform⦄ ⦃H : Host⦄ where
  open P use {NodeId, Prefix, node_eq, node_le}

  -- `state.RouterCfg` as far as it is read here
  pub record RouterCfg : Type 0 where
    pub id : NodeId
    pub endpoints : List H.Value
    pub tcp_obfuscation : Bool

  -- `state.Neighbour` with the addresses and binds of its endpoints
  pub record BoundNeighbour : Type 0 where
    pub id : NodeId
    pub routes : Map Prefix NeighRoute
    pub eps : List BoundEndpoint

  -- `slices.IndexFunc` in `IsRouter` and `GetRouter`
  unfoldable pub find_router : NodeId → List RouterCfg → Option RouterCfg
  find_router node [] = none
  find_router node (r ∷ rs) = ite (node_eq r.id node) (some r) (find_router node rs)

  unfoldable pub is_router : NodeId → List RouterCfg → Bool
  unfolding find_router
  is_router node routers = is_some (find_router node routers)

  abbrev pub with_peer : NodeId → Option RouterCfg → Map NodeId RouterCfg → Map NodeId RouterCfg
  with_peer peer none desired = desired
  with_peer peer (some cfg) desired = put node_eq peer cfg desired

  -- the loop over `GetPeers`: the peers that are routers
  unfoldable pub desired_routers :
      List RouterCfg → List NodeId → Map NodeId RouterCfg → Map NodeId RouterCfg
  unfolding find_router
  desired_routers routers [] desired = desired
  desired_routers routers (peer ∷ peers) desired =
      desired_routers routers peers (with_peer peer (find_router peer routers) desired)

  unfoldable pub local_tcp_obfuscation : NodeId → List RouterCfg → Bool
  unfolding find_router
  local_tcp_obfuscation self routers = elim (find_router self routers) [
    | none ↦ false
    | some cfg ↦ cfg.tcp_obfuscation
  ]

  -- `binds` and `t` are `n.LocalCfg.Binds` and `n.RouterTunables`
  module _ (binds : List LocalBind) (t : RouterTunables) (obfuscation : Bool) where
    -- what the loop over the neighbours leaves: those that stay, the routers that are not neighbours
    -- yet, the neighbours whose pending messages are dropped, and the counter of links
    pub record Adjusted : Type 0 where
      pub neighs : List BoundNeighbour
      pub desired : Map NodeId RouterCfg
      pub dropped : List NodeId
      pub counter : ℕ

    abbrev pub opened : RouterCfg → ℕ → List BoundEndpoint × ℕ
    opened cfg counter =
        configured_endpoints binds cfg.endpoints (obfuscation && cfg.tcp_obfuscation) t counter

    abbrev pub adjusted_neighbour : BoundNeighbour → RouterCfg → ℕ → BoundNeighbour
    adjusted_neighbour neigh cfg counter = record neigh {
      eps =
          reconcile_configured_endpoints neigh.eps (opened cfg counter).0
            (obfuscation && cfg.tcp_obfuscation);
    }

    -- one neighbour, by its entry among the desired routers
    abbrev pub remaining : NodeId → Option RouterCfg → Map NodeId RouterCfg → Map NodeId RouterCfg
    remaining id none desired = desired
    remaining id (some _) desired = delete node_eq id desired

    abbrev pub counter_after : Option RouterCfg → ℕ → ℕ
    counter_after none counter = counter
    counter_after (some cfg) counter = (opened cfg counter).1

    abbrev pub adjusted : BoundNeighbour → Option RouterCfg → ℕ → Adjusted → Adjusted
    adjusted neigh none counter rest = record rest { dropped = neigh.id ∷ rest.dropped }
    adjusted neigh (some cfg) counter rest = record rest {
      neighs = adjusted_neighbour neigh cfg counter ∷ rest.neighs;
    }

    unfoldable pub adjust_neighbours : List BoundNeighbour → Map NodeId RouterCfg → ℕ → Adjusted
    unfolding configured_endpoints reconcile_configured_endpoints
    adjust_neighbours [] desired counter = record {
      neighs = [];
      desired = desired;
      dropped = [];
      counter = counter;
    }
    adjust_neighbours (neigh ∷ neighs) desired counter =
        let found = find node_eq neigh.id desired in
        adjusted neigh found counter (
          adjust_neighbours neighs (remaining neigh.id found desired) (counter_after found counter))

    -- the loop over the ids of the new neighbours
    abbrev pub opened_for : Option RouterCfg → ℕ → List BoundEndpoint × ℕ
    opened_for none counter = ([], counter)
    opened_for (some cfg) counter = opened cfg counter

    unfoldable pub create_neighbours :
        Map NodeId RouterCfg → List NodeId → ℕ → List BoundNeighbour × ℕ
    unfolding configured_endpoints
    create_neighbours desired [] counter = ([], counter)
    create_neighbours desired (id ∷ ids) counter =
        let new = opened_for (find node_eq id desired) counter in
        let (rest, counter') = create_neighbours desired ids new.1 in
        (record { id = id; routes = []; eps = new.0 } ∷ rest, counter')

    -- the new neighbours, the dropped ones and the counter
    unfoldable pub reconcile_neighbours :
        List BoundNeighbour → Map NodeId RouterCfg → ℕ → List BoundNeighbour × List NodeId × ℕ
    unfolding adjust_neighbours create_neighbours sort
    reconcile_neighbours neighs desired counter =
        let a = adjust_neighbours neighs desired counter in
        let ids = sort node_le (map (λ e. e.0) a.desired) in
        let (new, counter') = create_neighbours a.desired ids a.counter in
        (a.neighs ++ new, a.dropped, counter')

  unfoldable pub reconcile_router_state :
      NodeId
      → List LocalBind
      → RouterTunables
      → List RouterCfg
      → (peers : List NodeId) → List BoundNeighbour
      → ℕ
      → List BoundNeighbour × List NodeId × ℕ
  unfolding local_tcp_obfuscation desired_routers reconcile_neighbours
  reconcile_router_state self binds t routers peers neighs counter =
      reconcile_neighbours binds t (local_tcp_obfuscation self routers) neighs
        (desired_routers routers peers []) counter
