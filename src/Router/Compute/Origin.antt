-- ===== src/Router/Compute/Origin.antt =====
-- Where the routes that `ComputeRoutes` selects come from.
use mathlib.Core.List.{Memᴰ}
use nylon.Base.{
  ◌⊎◌, ℕ, ◌≡◌, ◌≢◌, inl, inr, refl, true, List, [], ◌∷◌, Option, none, some, arith, is_some,
  Bool-cases, Option-cases,
}
use nylon.Base.Maps.{Map, find, MapAll, MapAll-put, MapAll-put_if, MapAll-find}
use nylon.Platform.{Platform}
use nylon.Router.Compute.{
  hold_routes, own_route, add_own, select_routes, empty_tally, new_table, blackholed, retract_lost,
  announce, smoothed, compute_routes, is_held_route, has_link,
}
use nylon.Router.Feasibility.{check_feasibility}
use nylon.Router.Metric.{inf, add_metric}
use nylon.Router.Selection.{
  metric_of, with_metric, Candidate, Tally, hop_cost, candidate, offer, scan_routes,
  scan_neighbours, current, select_route,
}
use nylon.Router.State.{NeighRoute, SelRoute, Advertisement, Neighbour, RouterState, neighbour_best}

module _ ⦃P : Platform⦄ where
  open P use {NodeId, Prefix, prefix_eq}

  -- The route stands for a neighbour's advertisement: the neighbour can be reached, its route is
  -- feasible, and the metric is finite, the sum of the hop's and the advertised one.
  pub record LearnedFrom (s : RouterState) (now : ℕ) (n : Neighbour) (adv : NeighRoute)
      (r : SelRoute) : Type 0 where
    pub linked : is_some (neighbour_best now n) ≡ true
    pub feasible : check_feasibility s adv.pub_route ≡ true
    pub metric : metric_of r ≡ add_metric (hop_cost s now n) adv.pub_route.fd.metric
    pub finite : metric_of r ≢ inf
    pub source : r.pub_route.source ≡ adv.pub_route.source
    pub seqno : r.pub_route.fd.seqno ≡ adv.pub_route.fd.seqno
    pub next_hop : r.nh ≡ n.id

  -- a route of the new table: one with infinite metric, the node's own, or a neighbour's
  pub data Origin (s : RouterState) (now : ℕ) (p : Prefix) (r : SelRoute) : Type 0 where
    unreachable : metric_of r ≡ inf → Origin s now p r
    own :
        (adv : Advertisement)
        → Memᴰ (p, adv) s.advertised
        → r ≡ own_route s now p adv
        → Origin s now p r
    learned :
        (n : Neighbour) (adv : NeighRoute)
        → Memᴰ n s.neighbours
        → Memᴰ (p, adv) n.routes
        → LearnedFrom s now n adv r
        → Origin s now p r

  module _ (s : RouterState) (now : ℕ) where
    abbrev Table : Map Prefix SelRoute → Type 0
    Table = MapAll prefix_eq (Origin s now)

    abbrev Candidates : Map Prefix Candidate → Type 0
    Candidates = MapAll prefix_eq (λ p c. Origin s now p c.route)

    hold_routes-Table :
        (connected : ℕ) (bests : _) (routes table : Map Prefix SelRoute)
        → Table table
        → Table (hold_routes s connected bests now routes table)
    unfolding hold_routes
    hold_routes-Table connected bests [] table t = t
    hold_routes-Table connected bests ((p, r) ∷ rest) table t =
        elim (Bool-cases (is_held_route s r connected (has_link bests r.nh) now)) [
          | inl e ↦ rw e (
              hold_routes-Table connected bests rest _ (
                MapAll-put prefix_eq (Origin s now) p (with_metric r inf) table
                  (Origin.unreachable refl) t))
          | inr e ↦ rw e (hold_routes-Table connected bests rest table t)
        ]

    add_own-Table :
        (advs : Map Prefix Advertisement) (table : Map Prefix SelRoute)
        → ((p : Prefix) (adv : Advertisement) → Memᴰ (p, adv) advs → Memᴰ (p, adv) s.advertised)
        → Table table
        → Table (add_own s now advs table)
    unfolding add_own
    add_own-Table [] table sub t = t
    add_own-Table ((p, adv) ∷ rest) table sub t =
        add_own-Table rest _ (λ q a m. sub q a (Memᴰ.tail m))
          (MapAll-put prefix_eq (Origin s now) p _ table
            (Origin.own adv (sub p adv (Memᴰ.head refl)) refl) t)

    candidate-LearnedFrom :
        (n : Neighbour) (adv : NeighRoute) (c : Candidate)
        → candidate s n.id (hop_cost s now n) adv ≡ some c
        → LearnedFrom s now n adv c.route
    unfolding candidate hop_cost add_metric
    candidate-LearnedFrom n adv c h = record {
      linked = ground arith;
      feasible = ground arith;
      metric = ground arith;
      finite = ground arith;
      source = ground arith;
      seqno = ground arith;
      next_hop = ground arith;
    }

    learn :
        (n : Neighbour)
        → Memᴰ n s.neighbours
        → (p : Prefix) (adv : NeighRoute) → Memᴰ (p, adv) n.routes
        → (c : Candidate) → candidate s n.id (hop_cost s now n) adv ≡ some c
        → Origin s now p c.route
    learn n here p adv has c e = Origin.learned n adv here has (candidate-LearnedFrom n adv c e)

    scan_routes-Candidates :
        (n : Neighbour)
        → Memᴰ n s.neighbours
        → (routes : Map Prefix NeighRoute) (acc : Tally)
        → ((p : Prefix) (adv : NeighRoute) → Memᴰ (p, adv) routes → Memᴰ (p, adv) n.routes)
        → Candidates acc.best × Candidates acc.sel
        → let acc' = scan_routes s n.id (hop_cost s now n) routes acc in
          Candidates acc'.best × Candidates acc'.sel
    unfolding scan_routes offer
    scan_routes-Candidates n here [] acc sub t = t
    scan_routes-Candidates n here ((p, adv) ∷ rest) acc sub t =
        let sub' = λ (q : Prefix) (a : NeighRoute) (m : Memᴰ (q, a) rest). sub q a (Memᴰ.tail m) in
        elim (Option-cases (candidate s n.id (hop_cost s now n) adv)) [
          | inl e ↦ rw (e, scan_routes) (scan_routes-Candidates n here rest acc sub' t)
          | inr (c, e) ↦
              rw (e, scan_routes)
                (scan_routes-Candidates n here rest (offer s p c acc) sub' (
                  let o = learn n here p adv (sub p adv (Memᴰ.head refl)) c e in
                  (
                    MapAll-put_if prefix_eq (λ q d. Origin s now q d.route) _ p c acc.best o t.0,
                    MapAll-put_if prefix_eq (λ q d. Origin s now q d.route) _ p c acc.sel o t.1,
                  )))
        ]

    scan_neighbours-Candidates :
        (ns : List Neighbour) (acc : Tally)
        → ((n : Neighbour) → Memᴰ n ns → Memᴰ n s.neighbours)
        → Candidates acc.best × Candidates acc.sel
        → let acc' = scan_neighbours s now ns acc in Candidates acc'.best × Candidates acc'.sel
    unfolding scan_neighbours
    scan_neighbours-Candidates [] acc sub t = t
    scan_neighbours-Candidates (n ∷ ns) acc sub t =
        scan_neighbours-Candidates ns _ (λ m h. sub m (Memᴰ.tail h))
          (scan_routes-Candidates n (sub n (Memᴰ.head refl)) n.routes acc (λ p adv m. m) t)

    select_route-cases :
        (best cur : Candidate)
        → (select_route best (some cur) ≡ best.route) ⊎ (select_route best (some cur) ≡ cur.route)
    unfolding select_route
    select_route-cases best cur = ground arith

    pick :
        {p : Prefix} (best cur : Candidate)
        → Origin s now p best.route
        → Origin s now p cur.route
        → Origin s now p (select_route best (some cur))
    pick {p} best cur ob oc = elim (select_route-cases best cur) [
      | inl e ↦ rw e ob
      | inr e ↦ rw e oc
    ]

    select_route-Origin :
        (p : Prefix) (best : Candidate)
        → Origin s now p best.route
        → (inc : Option SelRoute) (sel : Option Candidate)
        → ((r : SelRoute) → inc ≡ some r → Origin s now p r)
        → ((c : Candidate) → sel ≡ some c → Origin s now p c.route)
        → Origin s now p (select_route best (current inc sel))
    unfolding select_route current
    select_route-Origin p best o none none hi hs = o
    select_route-Origin p best o none (some c) hi hs = pick best c o (hs c refl)
    select_route-Origin p best o (some r) none hi hs =
        pick best (record { route = r; smoothed = _ }) o (hi r refl)
    select_route-Origin p best o (some r) (some c) hi hs =
        pick best (record { route = r; smoothed = _ }) o (hi r refl)

    select_routes-Table :
        (sels bests : Map Prefix Candidate) (table : Map Prefix SelRoute)
        → Candidates sels
        → Candidates bests
        → Table table
        → Table (select_routes sels bests table)
    unfolding select_routes
    select_routes-Table sels [] table cs cb t = t
    select_routes-Table sels ((p, best) ∷ rest) table cs cb t =
        select_routes-Table sels rest _ cs cb.1 (
          MapAll-put prefix_eq (Origin s now) p _ table
            (select_route-Origin p best cb.0 (find prefix_eq p table) (find prefix_eq p sels)
              (λ r e. MapAll-find prefix_eq (Origin s now) p r table t e)
              (λ c e. MapAll-find prefix_eq (λ q d. Origin s now q d.route) p c sels cs e))
            t)

    new_table-Table : Table (new_table s now)
    unfolding new_table empty_tally
    new_table-Table =
        let (best, sel) = scan_neighbours-Candidates s.neighbours empty_tally (λ n m. m) (tt, tt) in
        select_routes-Table _ _ _ sel best
          (add_own-Table s.advertised _ (λ p adv m. m) (hold_routes-Table _ _ s.routes [] tt))

    retract_lost-Table :
        (s' : RouterState) (olds table : Map Prefix SelRoute)
        → Table table
        → Table (retract_lost s' olds table).0
    unfolding retract_lost
    retract_lost-Table s' [] table t = t
    retract_lost-Table s' ((p, old) ∷ rest) table t = retract_lost-Table s' rest _ (
        MapAll-put_if prefix_eq (Origin s now) _ p (blackholed old) table (Origin.unreachable refl)
          t)

    -- Every route that `ComputeRoutes` leaves in the table has infinite metric (a held or retracted
    -- route), or is the node's own for a current advertisement, or stands for an advertisement of a
    -- neighbour for the same prefix that can be reached, is feasible, and sums up to a finite
    -- metric: no retracted and no unfeasible route is selected.
    pub compute_routes-Origin :
        (p : Prefix) (r : SelRoute)
        → find prefix_eq p (compute_routes s now).0.routes ≡ some r
        → Origin s now p r
    unfolding compute_routes
    compute_routes-Origin p r h =
        MapAll-find prefix_eq (Origin s now) p r _
          (retract_lost-Table (announce (smoothed s now) (new_table s now)).0 s.routes
            (new_table s now) new_table-Table)
          h
