-- ===== src/Router/Handlers/Expected.antt =====
-- What `HandleNeighbourUpdate` of core/router_algo.go is to do with an update.
use nylon.Base.{
  ℕ, ◌+◌, ◌%◌, ◌^◌, ◌≡◌, Bool, false, not, ◌&&◌, ◌||◌, List, [], ◌∷◌, ◌++◌, Option, none, some, map,
  ltb, ◌==◌, if◌then◌else◌, is_yes, is_some,
}
use nylon.Base.Int.{pos}
use nylon.Base.Maps.{find}
use nylon.Platform.{Platform}
use nylon.Router.Feasibility.{check_feasibility}
use nylon.Router.Metric.{inf, add_metric}
use nylon.Router.Selection.{metric_of}
use nylon.Router.State.{
  Fd, PubRoute, NeighRoute, SelRoute, Neighbour, RouterState, Call, source_eq, get_neighbour,
  neighbour_best, neighbour_cost,
}

module _ ⦃P : Platform⦄ where
  open P use {NodeId, Prefix, prefix_eq, node_eq}

  -- the entry of a neighbour for a prefix
  abbrev pub entry_in : Option Neighbour → Prefix → Option NeighRoute
  entry_in none p = none
  entry_in (some n) p = find prefix_eq p n.routes

  abbrev pub entry : RouterState → NodeId → Prefix → Option NeighRoute
  entry s neigh p = entry_in (get_neighbour s neigh) p

  -- the selected route goes over the neighbour and has the source of the update
  abbrev pub is_in_use : NodeId → PubRoute → Option SelRoute → Bool
  is_in_use neigh adv none = false
  is_in_use neigh adv (some sel) =
      is_yes (node_eq sel.nh neigh) && is_yes (source_eq sel.pub_route.source adv.source)

  -- An update is accepted if the prefix is new, and it is feasible and no retraction; or if there is
  -- an entry, and it is feasible or not for the selected route.
  abbrev pub accepts : RouterState → NodeId → PubRoute → Option NeighRoute → Bool
  accepts s neigh adv none = check_feasibility s adv && not (adv.fd.metric == inf)
  accepts s neigh adv (some old) =
      check_feasibility s adv
      || not (is_in_use neigh adv (find prefix_eq adv.source.prefix s.routes))

  -- The entry of an accepted update. It lives for the expiry time from now on, unless it is a
  -- retraction, which leaves the time as it was.
  abbrev pub stored : RouterState → ℕ → PubRoute → Option NeighRoute → NeighRoute
  stored s now adv none = record {
    pub_route = adv;
    expire_at = now + s.tunables.route_expiry_time;
    smoothed_metric = P.of_int (pos 0);
  }
  stored s now adv (some old) = record {
    pub_route = adv;
    expire_at = if adv.fd.metric == inf then old.expire_at else now + s.tunables.route_expiry_time;
    smoothed_metric = old.smoothed_metric;
  }

  -- the metric of the update over the neighbour
  abbrev pub metric_over : RouterState → ℕ → Neighbour → PubRoute → ℕ
  metric_over s now n adv =
      if is_some (neighbour_best now n)
      then add_metric adv.fd.metric (
          add_metric (neighbour_cost now n)
            (add_metric s.tunables.hop_cost s.tunables.transit_cost))
      else inf

  -- the route in use is the one that is updated, or a worse one
  abbrev pub is_missed : RouterState → ℕ → Neighbour → PubRoute → Option SelRoute → Bool
  is_missed s now n adv none = false
  is_missed s now n adv (some sel) =
      is_in_use n.id adv (some sel) || ltb (metric_over s now n adv) (metric_of sel)

  -- a sequence number is requested for an unfeasible update of an entry
  abbrev pub wants_seqno : RouterState → ℕ → Neighbour → PubRoute → Option NeighRoute → Bool
  wants_seqno s now n adv none = false
  wants_seqno s now n adv (some old) =
      not (check_feasibility s adv)
      && is_missed s now n adv (find prefix_eq adv.source.prefix s.routes)

  -- the sequence number after the recorded one
  abbrev pub seqno_after : Option Fd → ℕ
  seqno_after none = 1
  seqno_after (some fd) = (fd.seqno + 1) % 2 ^ 16

  -- What an update does: the entry for its prefix is stored if the update is accepted, and every other
  -- entry of every node stays; of the state nothing but the routes of the neighbours changes; a
  -- retraction is acknowledged, and a sequence number is requested where one is wanted.
  pub record Applied (s : RouterState) (now : ℕ) (n : Neighbour) (adv : PubRoute) (s' : RouterState)
      (calls : List Call) : Type 0 where
    pub entries :
        (node : NodeId) (p : Prefix)
        → let old = entry s n.id adv.source.prefix in
          entry s' node p ≡ (
            if (is_yes (node_eq n.id node) && is_yes (prefix_eq adv.source.prefix p))
              && accepts s n.id adv old
            then some (stored s now adv old)
            else entry s node p)
    pub links :
        map (λ (m : Neighbour). record m { routes = [] }) s'.neighbours
        ≡ map (λ (m : Neighbour). record m { routes = [] }) s.neighbours
    pub rest : s' ≡ record s { neighbours = s'.neighbours }
    pub reply :
        calls
        ≡ (if adv.fd.metric == inf then Call.send_ack_retract n.id adv.source.prefix ∷ [] else [])
          ++ (if wants_seqno s now n adv (entry s n.id adv.source.prefix)
              then Call.request_seqno n.id adv.source
                  (seqno_after (find source_eq adv.source s.sources))
                  s.tunables.seqno_request_hop_count
                ∷ []
              else [])
