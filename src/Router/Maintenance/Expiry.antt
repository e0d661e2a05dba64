-- ===== src/Router/Maintenance/Expiry.antt =====
-- The life of a neighbour's route that is not refreshed, in `RunGC` of core/router_algo.go.
use nylon.Base.{ℕ, ◌+◌, ◌≤◌, ◌<◌, ◌≡◌, ◌≢◌, refl, true, false, none, some, ltb, ◌==◌, arith}
use nylon.Platform.{Platform}
use nylon.Router.Maintenance.{expire_route}
use nylon.Router.Metric.{inf}
use nylon.Router.State.{NeighRoute, RouterState}

module _ ⦃P : Platform⦄ where
  -- A finite route past its expiry is kept as a retracted route of the same source and sequence
  -- number; it stays as it is for the route expiry time, and a scan after that drops it.
  pub expire_route_lifecycle :
      (s : RouterState) (now soon later : ℕ) (route : NeighRoute)
      → route.expire_at < now
      → route.pub_route.fd.metric ≢ inf
      → soon ≤ now + s.tunables.route_expiry_time
      → now + s.tunables.route_expiry_time < later
      → (marked : NeighRoute) × (expire_route s now route ≡ some marked)
        × (marked.pub_route.source ≡ route.pub_route.source)
        × (marked.pub_route.fd.seqno ≡ route.pub_route.fd.seqno)
        × (marked.pub_route.fd.metric ≡ inf)
        × (expire_route s soon marked ≡ some marked)
        × (expire_route s later marked ≡ none)
  unfolding expire_route
  expire_route_lifecycle s now soon later route old finite kept over =
      let late : ltb route.expire_at now ≡ true = ground arith in
      let open_ : (route.pub_route.fd.metric == inf) ≡ false = ground arith in
      let still : ltb (now + s.tunables.route_expiry_time) soon ≡ false = ground arith in
      let gone : ltb (now + s.tunables.route_expiry_time) later ≡ true = ground arith in
      (
        record route {
          pub_route = record {
            source = route.pub_route.source;
            fd = record { seqno = route.pub_route.fd.seqno; metric = inf };
          };
          expire_at = now + s.tunables.route_expiry_time;
        },
        rw (late, open_) refl,
        refl,
        refl,
        refl,
        rw still refl,
        rw gone refl,
      )
