-- ===== src/Tests/Router.antt =====
-- The routing theorems at concrete inputs, and runs of the definitions.
use nylon.Base.{◌<◌, ◌≡◌, refl, ◌⊎◌, true, false, List, [], ◌∷◌, none, some, arith, ℕ_discrete}
use nylon.Base.Int.{pos}
use nylon.Base.Maps.{find, put}
use nylon.Endpoint.Cost.{active, choose_links, effective_metric, best_endpoint, link_cost}
use nylon.Router.Compute.{blackholed, compute_routes}
use nylon.Router.Compute.Offers.{offers}
use nylon.Router.Compute.Origin.{Origin, compute_routes-Origin}
use nylon.Router.Compute.Pointwise.{decided, compute_routes-pointwise}
use nylon.Router.Compute.Retraction.{settled, Silent, compute_routes-release-Silent}
use nylon.Router.Feasibility.{update_feasibility, check_feasibility}
use nylon.Router.Feasibility.Recorded.{check-update_self, check-update_shrinks}
use nylon.Router.Handlers.{handle_neighbour_update, forward_request}
use nylon.Router.Handlers.Forwarding.{Forwarded, forward_request-Forwarded}
use nylon.Router.Handlers.Expected.{Applied}
use nylon.Router.Handlers.Updates.{handle_neighbour_update-Applied}
use nylon.Router.Metric.{add_metric, seqno_lt, seqno_gt}
use nylon.Router.Metric.Sequence.{seqno_opposite}
use nylon.Router.Selection.{Candidate, metric_of, same_route, select_route}
use nylon.Router.Selection.Hysteresis.{select_route_stable}
use nylon.Router.State.{Neighbour, RouterState, Call, get_neighbour, source_eq}
use nylon.Tests.Network.{
  small, source, route, neigh_route, neighbour, selected, network, start, lost,
}

program : Unit {0}
unfolding compute_routes link_cost best_endpoint ℕ_discrete find put add_metric active choose_links
    effective_metric check_feasibility source_eq get_neighbour
program = tt

-- neighbour 3 is the cheaper one
run : find ℕ_discrete 100 (compute_routes start 0).0.routes ≡ some (selected 3 1 45)
unfolding program
run = refl

compute_routes-Origin_example : Origin start 0 100 (selected 3 1 45)
unfolding program
compute_routes-Origin_example = compute_routes-Origin start 0 100 (selected 3 1 45) refl

-- the entry was held until time 30
abbrev released : RouterState
released = network [] ((100, blackholed (selected 2 1 65)) ∷ []) []

compute_routes-release-Silent_example : Silent 100 (compute_routes released 31).1
unfolding program
compute_routes-release-Silent_example =
    compute_routes-release-Silent released 31 100 (refl, tt) refl

compute_routes-pointwise_example :
    find ℕ_discrete 100 (compute_routes start 0).0.routes
    ≡ settled none (decided start 0 100 (offers start 0 100 start.neighbours) none none)
unfolding program
compute_routes-pointwise_example =
    compute_routes-pointwise start 0 100 ((refl, tt), ((refl, tt), tt)) tt (refl, tt)

check-update_self_example :
    check_feasibility (update_feasibility lost (route 1 65)) (route 1 65) ≡ false
check-update_self_example = check-update_self lost (route 1 65)

check-update_shrinks_example : check_feasibility lost (route 2 90) ≡ true
unfolding program update_feasibility seqno_lt
check-update_shrinks_example =
    check-update_shrinks 65530 lost (route 1 60) (route 2 90) (omega arith)
      (λ src e. (ground arith, ground arith)) (omega arith, omega arith) (omega arith, omega arith)
      refl

abbrev best : Candidate
best = record { route = selected 3 1 45; smoothed = pos 45 }

abbrev cur : Candidate
cur = record { route = selected 2 1 65; smoothed = pos 40 }

select_route_stable_example :
    (select_route cur (some best) ≡ best.route)
    × (((select_route best (some cur) ≡ best.route)
          × (metric_of best.route < metric_of cur.route)
          × (false ≡ true))
        ⊎ ((select_route best (some cur) ≡ cur.route)
            × ((metric_of best.route ≡ metric_of cur.route) ⊎ (false ≡ false))))
unfolding program same_route
select_route_stable_example = select_route_stable best cur refl (omega arith)

-- the neighbour whose update arrives
abbrev sender : Neighbour
sender = neighbour 2 10 ((100, neigh_route 1 50) ∷ [])

handle_neighbour_update-Applied_example :
    (s' : RouterState) × (calls : List Call) × (handle_neighbour_update start 0 2 (route 2 40)
      ≡ some (s', calls))
    × Applied start 0 sender (route 2 40) s' calls
unfolding program
handle_neighbour_update-Applied_example =
    handle_neighbour_update-Applied start 0 2 (route 2 40) sender refl

forward_request-Forwarded_example :
    (forward_request start 0 2 source 9 5 ≡ [])
    ⊎ Forwarded start 2 source 9 5 (forward_request start 0 2 source 9 5)
forward_request-Forwarded_example = forward_request-Forwarded start 0 2 source 9 5

-- the request goes to neighbour 3
forwarded : forward_request start 0 2 source 9 5 ≡ Call.request_seqno 3 source 9 4 ∷ []
unfolding program forward_request
forwarded = refl

seqno_opposite_example :
    (seqno_lt 1 32769 ≡ false) × (seqno_gt 1 32769 ≡ true) × (seqno_gt 32769 1 ≡ true)
seqno_opposite_example = seqno_opposite 1 32769 (omega arith) (omega arith) (omega arith)
