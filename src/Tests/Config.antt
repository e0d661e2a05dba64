-- ===== src/Tests/Config.antt =====
-- Small configurations.
use nylon.Base.{
  Bool, is_some, inr, All, map, ℕ, ◌≡◌, refl, ap, sym, ◌≢◌, true, false, List, [], ◌∷◌, Option,
  none, some, ltb, arith, ℕ_discrete,
}
use nylon.Base.Maps.{find, put, delete}
use nylon.Base.Results.{Result, err, ok}
use nylon.Config.Graph.{parse_graph}
use nylon.Config.Graph.Meaning.{Meaning, parse_graph_means}
use nylon.Config.Lines.{Line, Part, GraphError}
use nylon.Config.Names.{Edge}
use nylon.Config.Endpoints.{
  Host, ParsedHost, BoundEndpoint, configured_endpoints, reconcile_configured_endpoints,
}
use nylon.Config.Endpoints.Reconciled.{AreLocal, reconcile_configured_endpoints_idempotent}
use nylon.Config.Neighbours.{RouterCfg, BoundNeighbour, is_router, reconcile_router_state}
use nylon.Config.Neighbours.Routes.{routes_in, reconcile_router_state-routes}
use nylon.Config.Validation.{
  PrefixHealth, get_prefix, Node, CentralConfig, all_static, get_peers, numbered,
  central_config_validator,
}
use nylon.Config.Validation.Accepted.{Distinct, central_config_validator_accepts}
use nylon.Endpoint.Link.{new_endpoint}
use nylon.NodeIds.{NodeIdMap, build_node_id_map}
use nylon.Tests.Network.{small, tunables, neigh_route}

-- names are numbers, and 0 is the empty one
abbrev part : ℕ → List ℕ → Part
part name symbols = record { name = name; symbols = symbols }

abbrev pairing : List ℕ → Line
pairing symbols = record { head = part 99 symbols; others = [] }

abbrev group : ℕ → List ℕ → Line
group name symbols = record { head = part name (name ∷ []); others = part 98 symbols ∷ [] }

-- 10 = 1, 2; 11 = 10, 3; 11, 4
abbrev lines : List Line
lines = group 11 (10 ∷ 3 ∷ []) ∷ group 10 (1 ∷ 2 ∷ []) ∷ pairing (11 ∷ 4 ∷ []) ∷ []

abbrev nodes : List ℕ
nodes = 1 ∷ 2 ∷ 3 ∷ 4 ∷ []

graph : parse_graph 0 lines nodes ≡ some (ok ((1, 4) ∷ (2, 4) ∷ (3, 4) ∷ []))
unfolding parse_graph ℕ_discrete find put delete
graph = refl

-- 10 = 11; 11 = 10
cyclic :
    parse_graph 0 (group 10 (11 ∷ []) ∷ group 11 (10 ∷ []) ∷ []) nodes
    ≡ some (err (GraphError.cycle_detected (10 ∷ 11 ∷ [])))
unfolding parse_graph ℕ_discrete find put delete
cyclic = refl

parse_graph_means_example :
    (r : Result GraphError (List Edge)) × (parse_graph 0 lines nodes ≡ some r)
    × Meaning nodes lines 0 r
parse_graph_means_example = parse_graph_means nodes lines 0

none-some : (a : ℕ) → none ≢ some a
none-some a e = absurd (ground (arith, e))

of-some : (a b : ℕ) → some a ≡ some b → a ≡ b
of-some a b e = ground arith

abbrev option_eq : Discrete (Option ℕ)
option_eq none none = yes refl
option_eq none (some b) = no (none-some b)
option_eq (some a) none = no (λ e. none-some a (sym e))
option_eq (some a) (some b) = elim (ℕ_discrete a b) [
  | yes p ↦ yes (ap some p)
  | no n ↦ no (λ e. n (of-some a b e))
]

-- a text is its own address, of the first version below 100
instance abbrev host : Host
host = record {
  Value = ℕ;
  Interface = ℕ;
  Addr = ℕ;
  value_eq = ℕ_discrete;
  interface_eq = option_eq;
  addr_eq = option_eq;
  parse = ParsedHost.address;
  is_v4 = λ a. ltb a 100;
  family_reachable = λ a. ltb a 100;
}

abbrev opened : List BoundEndpoint
opened = (configured_endpoints [] (7 ∷ 8 ∷ []) false tunables 0).0

-- an endpoint that the peer opened, and one that is no longer configured
abbrev old : List BoundEndpoint
old =
    record {
      link = (new_endpoint true tunables 0).0;
      value = 9;
      bind = record { interface_ = none; source = none };
    }
    ∷ (configured_endpoints [] (6 ∷ 7 ∷ []) false tunables 1).0

opened-AreLocal : AreLocal opened
unfolding configured_endpoints
opened-AreLocal = (refl, (refl, tt))

reconcile_configured_endpoints_idempotent_example :
    let result = reconcile_configured_endpoints old opened false in
    reconcile_configured_endpoints result opened false ≡ result
reconcile_configured_endpoints_idempotent_example =
    reconcile_configured_endpoints_idempotent opened false old opened-AreLocal

abbrev router : ℕ → RouterCfg
router id = record { id = id; endpoints = 7 ∷ []; tcp_obfuscation = false }

abbrev old_neighbours : List BoundNeighbour
old_neighbours =
    record { id = 2; routes = (100, neigh_route 1 50) ∷ []; eps = old }
    ∷ record { id = 5; routes = []; eps = [] }
    ∷ []

-- node 2 stays and node 3 is new; node 5 is no router any more
reconcile_router_state-routes_example :
    routes_in 2
      (reconcile_router_state 1 [] tunables
        (router 1 ∷ router 2 ∷ router 3 ∷ [])
        (2 ∷ 3 ∷ 5 ∷ [])
        old_neighbours
        3).0
    ≡ some ((100, neigh_route 1 50) ∷ [])
unfolding is_router ℕ_discrete
reconcile_router_state-routes_example =
    reconcile_router_state-routes 1 [] tunables (router 1 ∷ router 2 ∷ router 3 ∷ [])
      (2 ∷ 3 ∷ 5 ∷ []) old_neighbours 3 2

-- any name and prefix is valid, and 0 is the empty name
abbrev any : ℕ → Bool
any n = true

abbrev member : ℕ → List PrefixHealth → Node
member id prefixes = record { id = id; numeric_id = 0; prefixes = prefixes }

abbrev accepted : CentralConfig
accepted = record {
  routers =
      member 1 (PrefixHealth.static 100 ∷ PrefixHealth.static 101 ∷ [])
      ∷ member 2 []
      ∷ member 3 []
      ∷ [];
  clients = member 4 (PrefixHealth.static 102 ∷ []) ∷ [];
  graph = lines;
  repos = true ∷ [];
  exclude_ips = 103 ∷ [];
}

central_config_validator_accepts_example :
    Distinct ℕ_discrete (1 ∷ 2 ∷ 3 ∷ 4 ∷ [])
    × (is_some (get_peers any any 0 accepted 1) ≡ true)
    × ((m : NodeIdMap) × (build_node_id_map (numbered any any 0 accepted) ≡ inr m))
    × All (λ r. Distinct ℕ_discrete (map get_prefix r.prefixes)) accepted.routers
    × All (λ n. all_static any any 0 n.prefixes ≡ true) accepted.clients
unfolding central_config_validator parse_graph build_node_id_map find put delete ℕ_discrete
central_config_validator_accepts_example =
    central_config_validator_accepts any any 0 accepted tt 1 refl
