-- ===== src/Tests/Maintenance.antt =====
-- The periodic tasks on the small network.
use nylon.Base.{◌≡◌, ◌⊎◌, none, some, arith}
use nylon.Base.Maps.{find}
use nylon.Router.Compute.{compute_routes}
use nylon.Router.Maintenance.{expired, expire_route, run_gc}
use nylon.Router.Maintenance.Expiry.{expire_route_lifecycle}
use nylon.Router.Maintenance.Sources.{Referenced, run_gc_sources}
use nylon.Router.Metric.{inf}
use nylon.Router.State.{NeighRoute, source_eq}
use nylon.Tests.Network.{small, source, neigh_route, start, lost}

run_gc_sources_example :
    let after = (run_gc lost 40).0 in
    let before = (compute_routes (expired lost 40) 40).0 in
    ((Referenced after source
        × (find source_eq source after.sources ≡ find source_eq source before.sources))
      ⊎ ((¬ (Referenced after source)) × (find source_eq source after.sources ≡ none)))
    × (after ≡ record before { sources = after.sources })
run_gc_sources_example = run_gc_sources lost 40 source

expire_route_lifecycle_example :
    (marked : NeighRoute) × (expire_route start 31 (neigh_route 1 50) ≡ some marked)
    × (marked.pub_route.source ≡ source)
    × (marked.pub_route.fd.seqno ≡ 1)
    × (marked.pub_route.fd.metric ≡ inf)
    × (expire_route start 40 marked ≡ some marked)
    × (expire_route start 57 marked ≡ none)
expire_route_lifecycle_example =
    expire_route_lifecycle start 31 40 57 (neigh_route 1 50) (omega arith) (λ e. omega arith)
      (omega arith) (omega arith)
