-- ===== src/Router/Compute/Pointwise.antt =====
-- `ComputeRoutes` of core/router_algo.go, one prefix at a time.
use nylon.Base.{
  ℕ, ◌≡◌, refl, ap, ◌∙◌, List, [], ◌∷◌, Option, none, some, arith, if◌then◌else◌, Option-cases, All,
  inl, inr,
}
use nylon.Base.Maps.{Map, find, put, find-put, UniqueKeys, put-UniqueKeys}
use nylon.Endpoint.Cost.{Endpoint}
use nylon.Platform.{Platform}
use nylon.Router.Compute.Offers.{offers, cheapest, in_use, scan_neighbours-Kept}
use nylon.Router.Compute.Retraction.{settled, find-retract_lost}
use nylon.Router.Compute.{
  best_endpoints, connected_neighs, has_link, is_held_route, hold_routes, own_route, add_own,
  select_routes, empty_tally, new_table, announce, smoothed, compute_routes,
}
use nylon.Router.Metric.{inf}
use nylon.Router.Selection.{
  with_metric, Candidate, Tally, candidate, offer, hop_cost, scan_routes, scan_neighbours, current,
  select_route,
}
use nylon.Router.State.{NeighRoute, SelRoute, Advertisement, Neighbour, RouterState}

module _ ⦃P : Platform⦄ where
  open P use {NodeId, Prefix, prefix_eq}

  -- the entry after the pass that holds routes
  abbrev pub held_entry :
      RouterState
      → ℕ
      → Map NodeId (Option Endpoint)
      → ℕ
      → Option SelRoute
      → Option SelRoute
      → Option SelRoute
  held_entry s connected bests now none entry = entry
  held_entry s connected bests now (some r) entry =
      if is_held_route s r connected (has_link bests r.nh) now
      then some (with_metric r inf)
      else entry

  -- the entry after the pass over the node's own prefixes
  abbrev pub own_entry :
      RouterState → ℕ → Prefix → Option Advertisement → Option SelRoute → Option SelRoute
  own_entry s now p none entry = entry
  own_entry s now p (some adv) entry = some (own_route s now p adv)

  -- the entry after the selection
  abbrev pub selected_entry :
      Option Candidate → Option Candidate → Option SelRoute → Option SelRoute
  selected_entry none sel entry = entry
  selected_entry (some best) sel entry = some (select_route best (current entry sel))

  module _ (s : RouterState) (now : ℕ) (p : Prefix) where
    held_step :
        (connected : ℕ) (bests : Map NodeId (Option Endpoint)) (k : Prefix) (r : SelRoute)
        (rest table : Map Prefix SelRoute)
        → find prefix_eq k rest ≡ none
        → held_entry s connected bests now (find prefix_eq p rest) (
            find prefix_eq p (
              if is_held_route s r connected (has_link bests r.nh) now
              then put prefix_eq k (with_metric r inf) table
              else table))
          ≡ held_entry s connected bests now
              (find prefix_eq p ((k, r) ∷ rest))
              (find prefix_eq p table)
    unfolding find
    held_step connected bests k r rest table u =
        ground (arith, find-put prefix_eq k p (with_metric r inf) table)

    find-hold_routes :
        (connected : ℕ) (bests : Map NodeId (Option Endpoint)) (routes table : Map Prefix SelRoute)
        → UniqueKeys prefix_eq routes
        → find prefix_eq p (hold_routes s connected bests now routes table)
          ≡ held_entry s connected bests now (find prefix_eq p routes) (find prefix_eq p table)
    unfolding hold_routes
    find-hold_routes connected bests [] table u = unfold find in refl
    find-hold_routes connected bests ((k, r) ∷ rest) table u =
        find-hold_routes connected bests rest _ u.1 ∙ held_step connected bests k r rest table u.0

    own_step :
        (k : Prefix) (adv : Advertisement) (rest : Map Prefix Advertisement)
        (table : Map Prefix SelRoute)
        → find prefix_eq k rest ≡ none
        → own_entry s now p
            (find prefix_eq p rest)
            (find prefix_eq p (put prefix_eq k (own_route s now k adv) table))
          ≡ own_entry s now p (find prefix_eq p ((k, adv) ∷ rest)) (find prefix_eq p table)
    unfolding find
    own_step k adv rest table u =
        ground (arith, find-put prefix_eq k p (own_route s now k adv) table)

    find-add_own :
        (advs : Map Prefix Advertisement) (table : Map Prefix SelRoute)
        → UniqueKeys prefix_eq advs
        → find prefix_eq p (add_own s now advs table)
          ≡ own_entry s now p (find prefix_eq p advs) (find prefix_eq p table)
    unfolding add_own
    find-add_own [] table u = unfold find in refl
    find-add_own ((k, adv) ∷ rest) table u = find-add_own rest _ u.1 ∙ own_step k adv rest table u.0

  module _ (p : Prefix) (sels : Map Prefix Candidate) where
    selected_step :
        (k : Prefix) (best : Candidate) (rest : Map Prefix Candidate) (table : Map Prefix SelRoute)
        → find prefix_eq k rest ≡ none
        → selected_entry (find prefix_eq p rest) (find prefix_eq p sels) (
            find prefix_eq p (
              put prefix_eq k
                (select_route best (current (find prefix_eq k table) (find prefix_eq k sels)))
                table))
          ≡ selected_entry
              (find prefix_eq p ((k, best) ∷ rest))
              (find prefix_eq p sels)
              (find prefix_eq p table)
    unfolding find
    selected_step k best rest table u = ground (
      arith,
      find-put prefix_eq k p
          (select_route best (current (find prefix_eq k table) (find prefix_eq k sels))) table,
    )

    find-select_routes :
        (bests : Map Prefix Candidate) (table : Map Prefix SelRoute)
        → UniqueKeys prefix_eq bests
        → find prefix_eq p (select_routes sels bests table)
          ≡ selected_entry (find prefix_eq p bests) (find prefix_eq p sels) (find prefix_eq p table)
    unfolding select_routes
    find-select_routes [] table u = unfold find in refl
    find-select_routes ((k, best) ∷ rest) table u =
        find-select_routes rest _ u.1 ∙ selected_step k best rest table u.0

  offer-UniqueKeys :
      (s : RouterState) (p : Prefix) (c : Candidate) (acc : Tally)
      → UniqueKeys prefix_eq acc.best
      → UniqueKeys prefix_eq (offer s p c acc).best
  unfolding offer
  offer-UniqueKeys s p c acc u = ground (arith, put-UniqueKeys prefix_eq p c acc.best u)

  scan_routes-UniqueKeys :
      (s : RouterState) (neigh : NodeId) (cab : ℕ) (routes : Map Prefix NeighRoute) (acc : Tally)
      → UniqueKeys prefix_eq acc.best
      → UniqueKeys prefix_eq (scan_routes s neigh cab routes acc).best
  unfolding scan_routes
  scan_routes-UniqueKeys s neigh cab [] acc u = u
  scan_routes-UniqueKeys s neigh cab ((p, adv) ∷ rest) acc u =
      elim (Option-cases (candidate s neigh cab adv)) [
        | inl e ↦ rw (e, scan_routes) (scan_routes-UniqueKeys s neigh cab rest acc u)
        | inr (c, e) ↦
            rw (e, scan_routes)
              (scan_routes-UniqueKeys s neigh cab rest (offer s p c acc)
                (offer-UniqueKeys s p c acc u))
      ]

  scan_neighbours-UniqueKeys :
      (s : RouterState) (now : ℕ) (ns : List Neighbour) (acc : Tally)
      → UniqueKeys prefix_eq acc.best
      → UniqueKeys prefix_eq (scan_neighbours s now ns acc).best
  unfolding scan_neighbours
  scan_neighbours-UniqueKeys s now [] acc u = u
  scan_neighbours-UniqueKeys s now (n ∷ ns) acc u =
      scan_neighbours-UniqueKeys s now ns _
        (scan_routes-UniqueKeys s n.id (hop_cost s now n) n.routes acc u)

  -- the candidates of a run
  abbrev pub tally : RouterState → ℕ → Tally
  tally s now = scan_neighbours s now s.neighbours empty_tally

  -- the entry that the run decides on for a prefix, before lost routes are blackholed; which
  -- neighbours are up is the same for every prefix
  abbrev pub decided :
      RouterState
      → ℕ
      → Prefix
      → List Candidate
      → Option SelRoute
      → Option Advertisement
      → Option SelRoute
  decided s now p cands old adv = selected_entry (cheapest none cands) (in_use old none cands) (
      own_entry s now p adv (
        held_entry s (connected_neighs now s.neighbours) (best_endpoints now s.neighbours []) now
          old none))

  pub find-new_table :
      (s : RouterState) (now : ℕ) (p : Prefix)
      → All (λ n. UniqueKeys prefix_eq n.routes) s.neighbours
      → UniqueKeys prefix_eq s.routes
      → UniqueKeys prefix_eq s.advertised
      → find prefix_eq p (new_table s now)
        ≡ decided s now p
            (offers s now p s.neighbours)
            (find prefix_eq p s.routes)
            (find prefix_eq p s.advertised)
  unfolding new_table empty_tally find
  find-new_table s now p un ur ua =
      let (best, sel) = scan_neighbours-Kept s p now s.neighbours empty_tally un in
      find-select_routes p (tally s now).sel (tally s now).best _
        (scan_neighbours-UniqueKeys s now s.neighbours empty_tally tt)
      ∙ rw (best, sel)
          (ap
            (selected_entry (cheapest none (offers s now p s.neighbours))
              (in_use (find prefix_eq p s.routes) none (offers s now p s.neighbours)))
            (find-add_own s now p s.advertised _ ua
              ∙ ap (own_entry s now p (find prefix_eq p s.advertised))
                  (find-hold_routes s now p _ _ s.routes [] ur)))

  -- Over maps with unique keys, the entry of every prefix after `ComputeRoutes` is decided from the
  -- old entry for that prefix, the node's advertisement of it and the candidates that the neighbours'
  -- routes for that prefix offer, given which neighbours are up. The first candidate of lowest metric
  -- is weighed against the route in use, which is the own route, else the held one, else the candidate
  -- over the old next hop and source; and a finite old entry that is lost becomes a blackhole.
  pub compute_routes-pointwise :
      (s : RouterState) (now : ℕ) (p : Prefix)
      → All (λ n. UniqueKeys prefix_eq n.routes) s.neighbours
      → UniqueKeys prefix_eq s.routes
      → UniqueKeys prefix_eq s.advertised
      → find prefix_eq p (compute_routes s now).0.routes
        ≡ settled (find prefix_eq p s.routes) (
            decided s now p
              (offers s now p s.neighbours)
              (find prefix_eq p s.routes)
              (find prefix_eq p s.advertised))
  unfolding compute_routes
  compute_routes-pointwise s now p un ur ua =
      find-retract_lost (announce (smoothed s now) (new_table s now)).0 p s.routes (new_table s now)
        ur
      ∙ ap (settled (find prefix_eq p s.routes)) (find-new_table s now p un ur ua)
