-- ===== src/Tests/Network.antt =====
-- A small network to evaluate the definitions on: node 1 with the neighbours 2 and 3.
use nylon.Base.{ℕ, ◌-◌, ◌/◌, ◌^◌, ◌*◌, true, false, List, [], ◌∷◌, none, ℕ_discrete, leb}
use nylon.Base.Int.{ℤ, pos, pos_part, ◌+ℤ◌, ◌-ℤ◌, ltb_ℤ, eqb_ℤ}
use nylon.Endpoint.Cost.{Endpoint}
use nylon.Platform.{Platform}
use nylon.Router.State.{Source, Fd, PubRoute, NeighRoute, SelRoute, Neighbour, RouterState}
use nylon.Tunables.{RouterTunables}

-- ids and prefixes are numbers, and the smoothed metrics are integers
instance abbrev pub small : Platform
small = record {
  NodeId = ℕ;
  Prefix = ℕ;
  Float = ℤ;
  Peer = ℕ;
  node_eq = ℕ_discrete;
  node_le = leb;
  prefix_eq = ℕ_discrete;
  literal = λ m e. pos (m / 10 ^ e);
  of_int = λ z. z;
  trunc = λ z. z;
  lt = ltb_ℤ;
  eq = eqb_ℤ;
  add = ◌+ℤ◌;
  sub = ◌-ℤ◌;
  mul = λ a b. pos (pos_part a * pos_part b);
  div = λ a b. pos (pos_part a / pos_part b);
}

abbrev pub tunables : RouterTunables
tunables = record {
  hop_cost = 5;
  transit_cost = 0;
  tcp_cost = 0;
  udp_cost = 0;
  large_change_threshold = 1000;
  seqno_request_hop_count = 64;
  route_update_delay = 5;
  probe_delay = 1;
  probe_recovery_delay = 2;
  probe_discovery_delay = 10;
  starvation_delay = 1;
  seqno_dedup_ttl = 3;
  neighbour_io_flush_delay = 1;
  ipc_dispatch_timeout = 1;
  safe_mtu = 1200;
  window_samples = 60;
  outlier_percentage = pos 0;
  minimum_confidence_window = 2;
  gc_delay = 1;
  link_dead_threshold = 5;
  route_expiry_time = 25;
  loss_smoothing_alpha = pos 0;
  loss_retx_floor = 100;
  loss_cap = pos 1;
  metric_smoothing_alpha = pos 1;
  client_keepalive_interval = 3;
  client_dead_threshold = 6;
  central_update_delay = 10;
  health_check_delay = 15;
  health_check_max_failures = 3;
  endpoint_resolve_expiry = 60;
  endpoint_resolve_delay = 15;
  max_config_size = 2 ^ 20;
}

-- the prefix 100 of node 4
abbrev pub source : Source
source = record { node_id = 4; prefix = 100 }

abbrev pub route : (seqno metric : ℕ) → PubRoute
route seqno metric = record { source = source; fd = record { seqno = seqno; metric = metric } }

abbrev pub neigh_route : (seqno metric : ℕ) → NeighRoute
neigh_route seqno metric = record {
  pub_route = route seqno metric;
  expire_at = 30;
  smoothed_metric = pos 0;
}

-- a neighbour over one link of the given cost
abbrev pub neighbour : (id cost : ℕ) → List (ℕ × NeighRoute) → Neighbour
neighbour id cost routes = record {
  id = id;
  routes = routes;
  eps = Endpoint.other cost false true ∷ [];
}

abbrev pub selected : (nh seqno metric : ℕ) → SelRoute
selected nh seqno metric = record {
  pub_route = route seqno metric;
  nh = nh;
  expire_at = 30;
  retracted_by = [];
}

abbrev pub network : List Neighbour → List (ℕ × SelRoute) → List (Source × Fd) → RouterState
network neighbours routes sources = record {
  tunables = tunables;
  id = 1;
  self_seqno = (7, 3) ∷ [];
  routes = routes;
  sources = sources;
  neighbours = neighbours;
  advertised =
      (
        7,
        record {
          node_id = 1;
          expiry = 1000;
          is_passive_hold = false;
          metric_fn = none;
          expiry_fn = false;
        },
      )
      ∷ [];
}

-- both neighbours reach the prefix, and nothing is selected yet
abbrev pub start : RouterState
start =
    network
      (neighbour 2 10 ((100, neigh_route 1 50) ∷ [])
        ∷ neighbour 3 20 ((100, neigh_route 1 20) ∷ [])
        ∷ [])
      [] []

-- the prefix is selected over neighbour 2, which has retracted it
abbrev pub lost : RouterState
lost =
    network (neighbour 2 10 ((100, neigh_route 1 (2 ^ 32 - 1)) ∷ []) ∷ [])
      ((100, selected 2 1 65) ∷ []) ((source, record { seqno = 1; metric = 65 }) ∷ [])
