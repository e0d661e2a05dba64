-- ===== src/Tables/Fits.antt =====
-- The entry of a table after `ComputeRoutes` of core/router_algo.go, against the route of its prefix.
use nylon.Base.{
  ℕ, ◌≡◌, refl, Bool, true, false, [], ◌∷◌, Option, none, some, arith, if◌then◌else◌, ◌==◌,
}
use nylon.Base.Maps.{Map, find, put, put-UniqueKeys, UniqueKeys}
use nylon.Endpoint.Cost.{Endpoint}
use nylon.Platform.{Platform}
use nylon.Router.Compute.{
  announce, must_insert, is_lost, blackholed, retract_lost, compute_routes, new_table, hold_routes,
  add_own, select_routes, smoothed, is_held_route, has_link, is_gone, best_endpoints,
  connected_neighs, empty_tally,
}
use nylon.Router.Compute.Retraction.{settled, find-retract_lost}
use nylon.Router.Metric.{inf}
use nylon.Router.Selection.{metric_of, with_metric, Candidate, scan_neighbours}
use nylon.Router.State.{SelRoute, Advertisement, RouterState}
use nylon.Tables.Effect.{
  after_calls, after_calls-append, announced_entry, announce-entry, retracted_entry,
  retract_lost-entry,
}

module _ ⦃P : Platform⦄ where
  open P use {NodeId, Prefix, node_eq, prefix_eq}

  put_if-UniqueKeys :
      (b : Bool) (p : Prefix) (r : SelRoute) (table : Map Prefix SelRoute)
      → UniqueKeys prefix_eq table
      → UniqueKeys prefix_eq (if b then put prefix_eq p r table else table)
  put_if-UniqueKeys true p r table u = put-UniqueKeys prefix_eq p r table u
  put_if-UniqueKeys false p r table u = u

  hold_routes-UniqueKeys :
      (s : RouterState) (connected : ℕ) (bests : Map NodeId (Option Endpoint)) (now : ℕ)
      (olds table : Map Prefix SelRoute)
      → UniqueKeys prefix_eq table
      → UniqueKeys prefix_eq (hold_routes s connected bests now olds table)
  unfolding hold_routes
  hold_routes-UniqueKeys s connected bests now [] table u = u
  hold_routes-UniqueKeys s connected bests now ((p, r) ∷ rest) table u =
      hold_routes-UniqueKeys s connected bests now rest _ (
        put_if-UniqueKeys (is_held_route s r connected (has_link bests r.nh) now) p
          (with_metric r inf) table u)

  add_own-UniqueKeys :
      (s : RouterState) (now : ℕ) (advs : Map Prefix Advertisement) (table : Map Prefix SelRoute)
      → UniqueKeys prefix_eq table
      → UniqueKeys prefix_eq (add_own s now advs table)
  unfolding add_own
  add_own-UniqueKeys s now [] table u = u
  add_own-UniqueKeys s now ((p, adv) ∷ rest) table u =
      add_own-UniqueKeys s now rest _ (put-UniqueKeys prefix_eq p _ table u)

  select_routes-UniqueKeys :
      (sels bests : Map Prefix Candidate) (table : Map Prefix SelRoute)
      → UniqueKeys prefix_eq table
      → UniqueKeys prefix_eq (select_routes sels bests table)
  unfolding select_routes
  select_routes-UniqueKeys sels [] table u = u
  select_routes-UniqueKeys sels ((p, best) ∷ rest) table u =
      select_routes-UniqueKeys sels rest _ (put-UniqueKeys prefix_eq p _ table u)

  new_table-UniqueKeys : (s : RouterState) (now : ℕ) → UniqueKeys prefix_eq (new_table s now)
  unfolding new_table
  new_table-UniqueKeys s now =
      let bests = best_endpoints now s.neighbours [] in
      let connected = connected_neighs now s.neighbours in
      let tally = scan_neighbours s now s.neighbours empty_tally in
      select_routes-UniqueKeys tally.sel tally.best _ (
        add_own-UniqueKeys s now s.advertised _
          (hold_routes-UniqueKeys s connected bests now s.routes [] tt))

  retract_lost-UniqueKeys :
      (s : RouterState) (olds table : Map Prefix SelRoute)
      → UniqueKeys prefix_eq table
      → UniqueKeys prefix_eq (retract_lost s olds table).0
  unfolding retract_lost
  retract_lost-UniqueKeys s [] table u = u
  retract_lost-UniqueKeys s ((k, old) ∷ rest) table u =
      retract_lost-UniqueKeys s rest _
        (put_if-UniqueKeys (is_lost old (find prefix_eq k table)) k (blackholed old) table u)

  pub compute_routes-UniqueKeys :
      (s : RouterState) (now : ℕ) → UniqueKeys prefix_eq (compute_routes s now).0.routes
  unfolding compute_routes
  compute_routes-UniqueKeys s now =
      retract_lost-UniqueKeys (announce (smoothed s now) (new_table s now)).0 s.routes
        (new_table s now) (new_table-UniqueKeys s now)

  -- what a table holds for a prefix fits the route of the prefix
  abbrev pub Fits : {E : Type 0} → (SelRoute → Option E) → Option SelRoute → Option E → Type 0
  Fits value none e = Unit
  Fits value (some r) e = e ≡ value r

  -- the value reads only the next hop of a route and whether its metric is infinite
  abbrev pub ReadsHop : {E : Type 0} → (SelRoute → Option E) → Type 0
  ReadsHop value =
      (a b : SelRoute)
      → a.nh ≡ b.nh
      → (metric_of a == inf) ≡ (metric_of b == inf)
      → value a ≡ value b

  module _ {E : Type 0} (value : SelRoute → Option E) (same_value : ReadsHop value)
      (p : Prefix) where
    settled-Fits :
        (old new : Option SelRoute) (e : Option E)
        → Fits value old e
        → Fits value
            (settled old new)
            (retracted_entry value p old new (announced_entry value p old new e))
    unfolding is_lost must_insert is_gone
    settled-Fits none none e h = tt
    settled-Fits none (some r) e h = refl
    settled-Fits (some old) none e h = ground arith
    settled-Fits (some old) (some new) e h = ground (arith, same_value old new)

    pub compute_routes-Fits :
        (s : RouterState) (now : ℕ) (e : Option E)
        → UniqueKeys prefix_eq s.routes
        → Fits value (find prefix_eq p s.routes) e
        → Fits value
            (find prefix_eq p (compute_routes s now).0.routes)
            (after_calls value p (compute_routes s now).1 e)
    unfolding compute_routes
    compute_routes-Fits s now e u h =
        let table = new_table s now in
        let (s', calls) = announce (smoothed s now) table in
        rw
          (
            find-retract_lost s' p s.routes table u,
            after_calls-append value p calls (retract_lost s' s.routes table).1 e,
            announce-entry value p (smoothed s now) s.routes table e refl
                (new_table-UniqueKeys s now),
            retract_lost-entry value p s' s.routes table _ u,
          )
          (settled-Fits (find prefix_eq p s.routes) (find prefix_eq p table) e h)
