-- ===== src/Tests/Tables.antt =====
-- The forwarding tables after a few steps of a small router.
use nylon.Base.{ℕ, ◌≡◌, refl, List, [], ◌∷◌, Option, none, some, ℕ_discrete}
use nylon.Base.Maps.{Map, find, put, delete, find-put, find-delete}
use nylon.Router.Compute.{compute_routes}
use nylon.Endpoint.Cost.{active, choose_links, effective_metric, best_endpoint, link_cost}
use nylon.Router.Feasibility.{check_feasibility}
use nylon.Router.Metric.{add_metric}
use nylon.Router.Run.{Step, init_router}
use nylon.Router.State.{RouterState}
use nylon.Tables.Agreement.{Reached, forward_entry, exit_entry, reached-agree}
use nylon.Tables.{RouteTableEntry, PrefixTable, Tables, table_calls, init_tables}
use nylon.Tests.Network.{small, tunables, selected, neighbour, neigh_route}

-- an address is looked up by its first byte
abbrev lookup_first : List ℕ → Map ℕ RouteTableEntry → Option RouteTableEntry
lookup_first [] t = none
lookup_first (p ∷ _) t = find ℕ_discrete p t

instance abbrev map_table : PrefixTable
map_table = record {
  Table = Map ℕ RouteTableEntry;
  empty = [];
  insert = put ℕ_discrete;
  delete = delete ℕ_discrete;
  get = find ℕ_discrete;
  lookup = lookup_first;
  get-empty = λ p. unfold find in refl;
  get-insert = λ p q e t. find-put ℕ_discrete p q e t;
  get-delete = λ p q t. find-delete ℕ_discrete p q t;
}

-- node 1 learns a route of neighbour 2 and selects it
abbrev before : RouterState
before = record (init_router tunables 1 []) {
  neighbours = neighbour 2 10 ((100, neigh_route 1 50) ∷ []) ∷ [];
}

abbrev after : RouterState
after = (compute_routes before 0).0

abbrev tables : Tables 1 some
tables = table_calls 1 some (table_calls 1 some (init_tables 1 some) []) (compute_routes before 0).1

after-Reached : Reached 1 some after tables
unfolding init_router
after-Reached =
    Reached.step
      (Reached.step (Reached.start tunables [])
        (Step.outside (init_router tunables 1 []) before.neighbours [] []))
      (Step.compute before 0)

reached-agree_example :
    (map_table.get 100 tables.forward ≡ forward_entry 1 some (selected 2 1 65))
    × (map_table.get 100 tables.exit ≡ exit_entry 1 some (selected 2 1 65))
unfolding compute_routes link_cost best_endpoint find put add_metric active choose_links
    effective_metric check_feasibility init_router ℕ_discrete
reached-agree_example = reached-agree 1 some after tables 100 (selected 2 1 65) after-Reached refl
