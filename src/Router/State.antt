-- ===== src/Router/State.antt =====
-- state/routing.go: the router's tables, and the calls that the routing code makes to its host
-- (the interface `Router` of core/router_algo.go) as values.
use nylon.Base.{ℕ, Bool, List, [], ◌∷◌, Option, none, some, ite, ap}
use nylon.Base.Maps.{Map, find, put}
use nylon.Endpoint.Cost.{Endpoint, best_endpoint, link_cost}
use nylon.Platform.{Platform}
use nylon.Tunables.{RouterTunables}

module _ ⦃P : Platform⦄ where
  open P use {NodeId, Prefix, node_eq, prefix_eq}

  -- a pair of a router id and a prefix
  pub record Source : Type 0 where
    pub node_id : NodeId
    pub prefix : Prefix

  pub record Fd : Type 0 where
    pub seqno : ℕ
    pub metric : ℕ

  pub record PubRoute : Type 0 where
    pub source : Source
    pub fd : Fd

  pub record NeighRoute : Type 0 where
    pub pub_route : PubRoute
    pub expire_at : ℕ
    pub smoothed_metric : P.Float

  pub record SelRoute : Type 0 where
    pub pub_route : PubRoute
    pub nh : NodeId
    pub expire_at : ℕ
    pub retracted_by : List NodeId

  -- `metric_fn` is the function at the clock's reading of the call; of `expiry_fn` only its
  -- presence is kept, since a call of it is one of the calls below
  pub record Advertisement : Type 0 where
    pub node_id : NodeId
    pub expiry : ℕ
    pub is_passive_hold : Bool
    pub metric_fn : Option (ℕ → ℕ)
    pub expiry_fn : Bool

  pub record Neighbour : Type 0 where
    pub id : NodeId
    pub routes : Map Prefix NeighRoute
    pub eps : List Endpoint

  pub record RouterState : Type 0 where
    pub tunables : RouterTunables
    pub id : NodeId
    pub self_seqno : Map Prefix ℕ
    pub routes : Map Prefix SelRoute
    pub sources : Map Source Fd
    pub neighbours : List Neighbour
    pub advertised : Map Prefix Advertisement

  -- the calls of `Router`, and of an advertisement's `ExpiryFn`; events for the log are left out
  pub data Call : Type 0 where
    send_route_update : NodeId → PubRoute → Call
    send_ack_retract : NodeId → Prefix → Call
    broadcast_send_route_update : PubRoute → Call
    request_seqno : NodeId → Source → (seqno hop_cnt : ℕ) → Call
    broadcast_request_seqno : Source → (seqno hop_cnt : ℕ) → Call
    table_insert_route : Prefix → SelRoute → Call
    table_delete_route : Prefix → Call
    expiry_fn : Prefix → Call

  -- `==` on the struct
  unfoldable pub source_eq : Discrete Source
  source_eq a b = elim (node_eq a.node_id b.node_id) [
    | no n ↦ no (λ e. n (ap (λ (s : Source). s.node_id) e))
    | yes p ↦ elim (prefix_eq a.prefix b.prefix) [
      | no n ↦ no (λ e. n (ap (λ (s : Source). s.prefix) e))
      | yes q ↦ yes (λ i. record { node_id = p i; prefix = q i })
    ]
  ]

  unfoldable pub get_seqno : RouterState → Prefix → ℕ
  get_seqno s prefix = elim (find prefix_eq prefix s.self_seqno) [ none ↦ 0 | some seq ↦ seq ]

  unfoldable pub set_seqno : RouterState → Prefix → ℕ → RouterState
  set_seqno s prefix seqno = record s { self_seqno = put prefix_eq prefix seqno s.self_seqno }

  unfoldable pub find_neighbour : NodeId → List Neighbour → Option Neighbour
  find_neighbour node [] = none
  find_neighbour node (n ∷ ns) = ite (node_eq n.id node) (some n) (find_neighbour node ns)

  unfoldable pub get_neighbour : RouterState → NodeId → Option Neighbour
  unfolding find_neighbour
  get_neighbour s node = find_neighbour node s.neighbours

  -- a write through the pointer that `GetNeighbour` returns
  unfoldable pub set_routes : NodeId → Map Prefix NeighRoute → List Neighbour → List Neighbour
  set_routes node routes [] = []
  set_routes node routes (n ∷ ns) =
      ite (node_eq n.id node) (record n { routes = routes } ∷ ns) (n ∷ set_routes node routes ns)

  -- `n.BestEndpoint()` and `n.LinkCost()` of a neighbour
  abbrev pub neighbour_best : ℕ → Neighbour → Option Endpoint
  neighbour_best now n = best_endpoint now n.eps

  abbrev pub neighbour_cost : ℕ → Neighbour → ℕ
  neighbour_cost now n = link_cost now n.eps
