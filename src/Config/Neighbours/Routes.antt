-- ===== src/Config/Neighbours/Routes.antt =====
-- Who is a neighbour after `reconcileRouterState` of core/nylon_apply.go, and with which routes.
use nylon.Base.{
  ℕ, ◌≡◌, refl, sym, ap, ◌∙◌, Bool, true, false, ◌&&◌, ◌||◌, List, [], ◌∷◌, ◌++◌, Option, none,
  some, map, arith, is_yes, is_some, if◌then◌else◌, ite, sort,
}
use nylon.Base.Maps.{Map, find, find-put, find-delete}
use nylon.Config.Endpoints.{Host, LocalBind}
use nylon.Config.Names.{has}
use nylon.Config.Names.Members.{has-sort}
use nylon.Config.Neighbours.{
  RouterCfg, BoundNeighbour, find_router, is_router, with_peer, desired_routers, adjust_neighbours,
  create_neighbours, opened_for, remaining, counter_after, adjusted, reconcile_neighbours,
  local_tcp_obfuscation, reconcile_router_state,
}
use nylon.Platform.{Platform}
use nylon.Router.State.{NeighRoute}
use nylon.Tunables.{RouterTunables}

module _ ⦃P : Platform⦄ ⦃H : Host⦄ where
  open P use {NodeId, Prefix, node_eq, node_le}

  abbrev pub Routes : Type 0
  Routes = Option (Map Prefix NeighRoute)

  -- the routes of a neighbour, if it is one
  abbrev pub routes_in : NodeId → List BoundNeighbour → Routes
  routes_in n [] = none
  routes_in n (m ∷ ms) = ite (node_eq m.id n) (some m.routes) (routes_in n ms)

  abbrev no_routes : Map Prefix NeighRoute
  no_routes = []

  or_else : Routes → Routes → Routes
  or_else none o = o
  or_else (some r) o = some r

  routes_in-append :
      (n : NodeId) (a b : List BoundNeighbour)
      → routes_in n (a ++ b) ≡ or_else (routes_in n a) (routes_in n b)
  unfolding or_else
  routes_in-append n [] b = refl
  routes_in-append n (m ∷ ms) b = ground (arith, routes_in-append n ms b)

  has-ids :
      (n : NodeId) (m : Map NodeId RouterCfg)
      → has node_eq n (map (λ e. e.0) m) ≡ is_some (find node_eq n m)
  unfolding find
  has-ids n [] = refl
  has-ids n ((k, v) ∷ m) = ground (arith, has-ids n m)

  module _ (n : NodeId) (m : BoundNeighbour) (ms : List BoundNeighbour)
      (desired : Map NodeId RouterCfg) where
    kept_desired :
        (m.id ≡ n → find node_eq n desired ≡ none)
        → (if is_some (routes_in n ms) then none else find node_eq n desired)
          ≡ (if is_some (routes_in n (m ∷ ms)) then none else find node_eq n desired)
    kept_desired h = ground arith

    dropped_desired :
        (if is_some (routes_in n ms)
          then none
          else ite (node_eq m.id n) none (find node_eq n desired))
        ≡ (if is_some (routes_in n (m ∷ ms)) then none else find node_eq n desired)
    dropped_desired = ground arith

    skipped :
        (m.id ≡ n → find node_eq n desired ≡ none)
        → (if is_some (find node_eq n desired) then routes_in n ms else none)
          ≡ (if is_some (find node_eq n desired) then routes_in n (m ∷ ms) else none)
    skipped h = ground arith

    taken :
        (cfg : RouterCfg)
        → (m.id ≡ n → find node_eq n desired ≡ some cfg)
        → ite (node_eq m.id n) (some m.routes) (
            if is_some (ite (node_eq m.id n) none (find node_eq n desired))
            then routes_in n ms
            else none)
          ≡ (if is_some (find node_eq n desired) then routes_in n (m ∷ ms) else none)
    taken cfg h = ground arith

  module _ (binds : List LocalBind) (t : RouterTunables) (obfuscation : Bool) where
    step_desired :
        (n : NodeId) (m : BoundNeighbour) (ms : List BoundNeighbour)
        (desired : Map NodeId RouterCfg) (counter : ℕ) (found : Option RouterCfg)
        → find node_eq m.id desired ≡ found
        → let desired' = remaining binds t obfuscation m.id found desired in
          let rest =
            adjust_neighbours binds t obfuscation ms desired'
              (counter_after binds t obfuscation found counter) in
          find node_eq n rest.desired
            ≡ (if is_some (routes_in n ms) then none else find node_eq n desired')
          → find node_eq n (adjusted binds t obfuscation m found counter rest).desired
            ≡ (if is_some (routes_in n (m ∷ ms)) then none else find node_eq n desired)
    step_desired n m ms desired counter none e ih =
        ih ∙ kept_desired n m ms desired (λ q. ap (λ x. find node_eq x desired) (sym q) ∙ e)
    step_desired n m ms desired counter (some cfg) e ih =
        ih
        ∙ ap (λ (o : Option RouterCfg). if is_some (routes_in n ms) then none else o)
            (find-delete node_eq m.id n desired)
        ∙ dropped_desired n m ms desired

    step_routes :
        (n : NodeId) (m : BoundNeighbour) (ms : List BoundNeighbour)
        (desired : Map NodeId RouterCfg) (counter : ℕ) (found : Option RouterCfg)
        → find node_eq m.id desired ≡ found
        → let desired' = remaining binds t obfuscation m.id found desired in
          let rest =
            adjust_neighbours binds t obfuscation ms desired'
              (counter_after binds t obfuscation found counter) in
          routes_in n rest.neighs
            ≡ (if is_some (find node_eq n desired') then routes_in n ms else none)
          → routes_in n (adjusted binds t obfuscation m found counter rest).neighs
            ≡ (if is_some (find node_eq n desired) then routes_in n (m ∷ ms) else none)
    step_routes n m ms desired counter none e ih =
        ih ∙ skipped n m ms desired (λ q. ap (λ x. find node_eq x desired) (sym q) ∙ e)
    step_routes n m ms desired counter (some cfg) e ih =
        ap (ite (node_eq m.id n) (some m.routes)) (
          ih
          ∙ ap (λ (o : Option RouterCfg). if is_some o then routes_in n ms else none)
              (find-delete node_eq m.id n desired))
        ∙ taken n m ms desired cfg (λ q. ap (λ x. find node_eq x desired) (sym q) ∙ e)

    adjusted-desired :
        (n : NodeId) (neighs : List BoundNeighbour) (desired : Map NodeId RouterCfg) (counter : ℕ)
        → find node_eq n (adjust_neighbours binds t obfuscation neighs desired counter).desired
          ≡ (if is_some (routes_in n neighs) then none else find node_eq n desired)
    unfolding adjust_neighbours
    adjusted-desired n [] desired counter = refl
    adjusted-desired n (m ∷ ms) desired counter =
        let found = find node_eq m.id desired in
        step_desired n m ms desired counter found refl (
          adjusted-desired n ms (remaining binds t obfuscation m.id found desired)
            (counter_after binds t obfuscation found counter))

    adjusted-routes :
        (n : NodeId) (neighs : List BoundNeighbour) (desired : Map NodeId RouterCfg) (counter : ℕ)
        → routes_in n (adjust_neighbours binds t obfuscation neighs desired counter).neighs
          ≡ (if is_some (find node_eq n desired) then routes_in n neighs else none)
    unfolding adjust_neighbours
    adjusted-routes n [] desired counter = ground arith
    adjusted-routes n (m ∷ ms) desired counter =
        let found = find node_eq m.id desired in
        step_routes n m ms desired counter found refl (
          adjusted-routes n ms (remaining binds t obfuscation m.id found desired)
            (counter_after binds t obfuscation found counter))

    first_or :
        (n id : NodeId) (ids : List NodeId)
        → ite (node_eq id n) (some no_routes) (if has node_eq n ids then some no_routes else none)
          ≡ (if has node_eq n (id ∷ ids) then some no_routes else none)
    first_or n id ids = ground arith

    created-routes :
        (n : NodeId) (desired : Map NodeId RouterCfg) (ids : List NodeId) (counter : ℕ)
        → routes_in n (create_neighbours binds t obfuscation desired ids counter).0
          ≡ (if has node_eq n ids then some [] else none)
    unfolding create_neighbours
    created-routes n desired [] counter = refl
    created-routes n desired (id ∷ ids) counter =
        let new = opened_for binds t obfuscation (find node_eq id desired) counter in
        ap (ite (node_eq id n) (some no_routes)) (created-routes n desired ids new.1)
        ∙ first_or n id ids

    -- a desired router is a neighbour: with its old routes, or with none if it is new
    pub reconcile_neighbours-routes :
        (n : NodeId) (neighs : List BoundNeighbour) (desired : Map NodeId RouterCfg) (counter : ℕ)
        → routes_in n (reconcile_neighbours binds t obfuscation neighs desired counter).0 ≡ (
            if is_some (find node_eq n desired)
            then elim (routes_in n neighs) [ none ↦ some [] | some r ↦ some r ]
            else none)
    unfolding reconcile_neighbours or_else
    reconcile_neighbours-routes n neighs desired counter =
        let a = adjust_neighbours binds t obfuscation neighs desired counter in
        let ids = sort node_le (map (λ e. e.0) a.desired) in
        routes_in-append n a.neighs
          (create_neighbours binds t obfuscation a.desired ids a.counter).0
        ∙ ground (
          arith,
          adjusted-routes n neighs desired counter,
          created-routes n a.desired ids a.counter,
          has-sort node_eq node_le n (map (λ (e : NodeId × RouterCfg). e.0) a.desired),
          has-ids n a.desired,
          adjusted-desired n neighs desired counter,
        )

  find-with_peer :
      (n peer : NodeId) (found : Option RouterCfg) (desired : Map NodeId RouterCfg)
      → is_some (find node_eq n (with_peer peer found desired))
        ≡ ((is_yes (node_eq peer n) && is_some found) || is_some (find node_eq n desired))
  find-with_peer n peer none desired = ground arith
  find-with_peer n peer (some cfg) desired = ground (arith, find-put node_eq peer n cfg desired)

  peer_or :
      (n peer : NodeId) (own found : Option RouterCfg) (b c : Bool)
      → (peer ≡ n → is_some found ≡ is_some own)
      → ((b && is_some own) || ((is_yes (node_eq peer n) && is_some found) || c))
        ≡ (((is_yes (node_eq peer n) || b) && is_some own) || c)
  peer_or n peer own found b c h = ground arith

  or_false : (b : Bool) → (b || false) ≡ b
  or_false true = refl
  or_false false = refl

  find-desired_routers :
      (n : NodeId) (routers : List RouterCfg) (peers : List NodeId) (desired : Map NodeId RouterCfg)
      → is_some (find node_eq n (desired_routers routers peers desired))
        ≡ ((has node_eq n peers && is_router n routers) || is_some (find node_eq n desired))
  unfolding desired_routers is_router
  find-desired_routers n routers [] desired = ground arith
  find-desired_routers n routers (peer ∷ peers) desired =
      let found = find_router peer routers in
      find-desired_routers n routers peers (with_peer peer found desired)
      ∙ ap (λ b. (has node_eq n peers && is_some (find_router n routers)) || b)
          (find-with_peer n peer found desired)
      ∙ peer_or n peer (find_router n routers) found (has node_eq n peers)
          (is_some (find node_eq n desired)) (λ q. ap (λ x. is_some (find_router x routers)) q)

  wanted :
      (n : NodeId) (routers : List RouterCfg) (peers : List NodeId)
      → is_some (find node_eq n (desired_routers routers peers []))
        ≡ (has node_eq n peers && is_router n routers)
  unfolding find
  wanted n routers peers =
      find-desired_routers n routers peers []
      ∙ or_false (has node_eq n peers && is_router n routers)

  -- After a change of the configuration a node is a neighbour exactly if it is a peer and a router;
  -- one that was a neighbour keeps its routes, and a new one has none.
  pub reconcile_router_state-routes :
      (self : NodeId) (binds : List LocalBind) (t : RouterTunables) (routers : List RouterCfg)
      (peers : List NodeId) (neighs : List BoundNeighbour) (counter : ℕ) (n : NodeId)
      → routes_in n (reconcile_router_state self binds t routers peers neighs counter).0 ≡ (
          if has node_eq n peers && is_router n routers
          then elim (routes_in n neighs) [ none ↦ some [] | some r ↦ some r ]
          else none)
  unfolding reconcile_router_state
  reconcile_router_state-routes self binds t routers peers neighs counter n =
      reconcile_neighbours-routes binds t (local_tcp_obfuscation self routers) n neighs
        (desired_routers routers peers []) counter
      ∙ ap
          (λ b.
            if b
            then elim (routes_in n neighs) as (λ _. Routes) [ none ↦ some [] | some r ↦ some r ]
            else none)
          (wanted n routers peers)
