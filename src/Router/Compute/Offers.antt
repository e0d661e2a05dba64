-- ===== src/Router/Compute/Offers.antt =====
-- The candidates of `ComputeRoutes` in core/router_algo.go for one prefix: what the scan over all
-- neighbours and all their routes keeps for it.
use nylon.Base.{
  ℕ, ◌≡◌, refl, sym, ap, ◌∙◌, Bool, List, [], ◌∷◌, ◌++◌, Option, none, some, arith, ltb,
  if◌then◌else◌, if_pos, if_neg, All,
}
use nylon.Base.Maps.{Map, find, find-put, UniqueKeys}
use nylon.Platform.{Platform}
use nylon.Router.Selection.{
  metric_of, Candidate, Tally, candidate, offer, is_lower, is_selected, same_route, hop_cost,
  scan_routes, scan_neighbours,
}
use nylon.Router.State.{NeighRoute, SelRoute, Neighbour, RouterState}

module _ ⦃P : Platform⦄ where
  open P use {NodeId, Prefix, prefix_eq}

  abbrev pub list_of : Option Candidate → List Candidate
  list_of none = []
  list_of (some c) = c ∷ []

  -- the candidate that a neighbour offers by its route for the prefix
  abbrev pub offered : RouterState → NodeId → ℕ → Option NeighRoute → List Candidate
  offered s neigh cab none = []
  offered s neigh cab (some adv) = list_of (candidate s neigh cab adv)

  -- the candidates of all neighbours, in their order
  abbrev pub offers : RouterState → ℕ → Prefix → List Neighbour → List Candidate
  offers s now p [] = []
  offers s now p (n ∷ ns) =
      offered s n.id (hop_cost s now n) (find prefix_eq p n.routes) ++ offers s now p ns

  -- the first candidate of lowest metric
  abbrev pub lower : Option Candidate → Candidate → Candidate
  lower none c = c
  lower (some b) c = if ltb (metric_of c.route) (metric_of b.route) then c else b

  abbrev pub cheapest : Option Candidate → List Candidate → Option Candidate
  cheapest best [] = best
  cheapest best (c ∷ cs) = cheapest (some (lower best c)) cs

  -- the last candidate over the next hop and with the source of the old route
  abbrev pub is_old : Option SelRoute → Candidate → Bool
  is_old none c = Bool.false
  is_old (some old) c = same_route old c.route

  abbrev pub in_use : Option SelRoute → Option Candidate → List Candidate → Option Candidate
  in_use old sel [] = sel
  in_use old sel (c ∷ cs) = in_use old (if is_old old c then some c else sel) cs

  cheapest-append :
      (b : Option Candidate) (xs ys : List Candidate)
      → cheapest b (xs ++ ys) ≡ cheapest (cheapest b xs) ys
  cheapest-append b [] ys = refl
  cheapest-append b (x ∷ xs) ys = cheapest-append (some (lower b x)) xs ys

  in_use-append :
      (old : Option SelRoute) (b : Option Candidate) (xs ys : List Candidate)
      → in_use old b (xs ++ ys) ≡ in_use old (in_use old b xs) ys
  in_use-append old b [] ys = refl
  in_use-append old b (x ∷ xs) ys = in_use-append old (if is_old old x then some x else b) xs ys

  module _ (s : RouterState) (p : Prefix) where
    -- a tally with the right entries for the prefix
    Kept : Tally → Option Candidate → Option Candidate → Type 0
    Kept t best sel = (find prefix_eq p t.best ≡ best) × (find prefix_eq p t.sel ≡ sel)

    offer-same :
        (k : Prefix) (c : Candidate) (acc : Tally)
        → k ≡ p
        → Kept
            (offer s k c acc)
            (some (lower (find prefix_eq p acc.best) c))
            (if is_old (find prefix_eq p s.routes) c then some c else find prefix_eq p acc.sel)
    unfolding offer is_lower is_selected Kept
    offer-same k c acc e = (
      ground (arith, find-put prefix_eq k p c acc.best),
      ground (arith, find-put prefix_eq k p c acc.sel),
    )

    offer-other :
        (k : Prefix) (c : Candidate) (acc : Tally)
        → ¬ (k ≡ p)
        → Kept (offer s k c acc) (find prefix_eq p acc.best) (find prefix_eq p acc.sel)
    unfolding offer Kept
    offer-other k c acc ne = (
      ground (arith, find-put prefix_eq k p c acc.best),
      ground (arith, find-put prefix_eq k p c acc.sel),
    )

    -- the tally after one route
    abbrev next : Prefix → Option Candidate → Tally → Tally
    next k none acc = acc
    next k (some c) acc = offer s k c acc

    next-same :
        (k : Prefix) (o : Option Candidate) (acc : Tally)
        → k ≡ p
        → Kept
            (next k o acc)
            (cheapest (find prefix_eq p acc.best) (list_of o))
            (in_use (find prefix_eq p s.routes) (find prefix_eq p acc.sel) (list_of o))
    unfolding Kept
    next-same k none acc e = (refl, refl)
    next-same k (some c) acc e = offer-same k c acc e

    next-other :
        (k : Prefix) (o : Option Candidate) (acc : Tally)
        → ¬ (k ≡ p)
        → Kept (next k o acc) (find prefix_eq p acc.best) (find prefix_eq p acc.sel)
    unfolding Kept
    next-other k none acc ne = (refl, refl)
    next-other k (some c) acc ne = offer-other k c acc ne

    module _ (neigh : NodeId) (cab : ℕ) where
      next-elim :
          (k : Prefix) (o : Option Candidate) (acc : Tally)
          → elim o as (λ _. Tally) [ none ↦ acc | some c ↦ offer s k c acc ] ≡ next k o acc
      next-elim k none acc = refl
      next-elim k (some c) acc = refl

      scan_routes-next :
          (k : Prefix) (adv : NeighRoute) (rest : Map Prefix NeighRoute) (acc : Tally)
          → scan_routes s neigh cab ((k, adv) ∷ rest) acc
            ≡ scan_routes s neigh cab rest (next k (candidate s neigh cab adv) acc)
      unfolding scan_routes
      scan_routes-next k adv rest acc =
          ap (scan_routes s neigh cab rest) (next-elim k (candidate s neigh cab adv) acc)

      scan_routes-Kept :
          (routes : Map Prefix NeighRoute) (acc : Tally)
          → UniqueKeys prefix_eq routes
          → Kept
              (scan_routes s neigh cab routes acc)
              (cheapest (find prefix_eq p acc.best) (offered s neigh cab (find prefix_eq p routes)))
              (in_use
                (find prefix_eq p s.routes)
                (find prefix_eq p acc.sel)
                (offered s neigh cab (find prefix_eq p routes)))
      unfolding Kept find
      scan_routes-Kept [] acc u = unfold scan_routes in (refl, refl)
      scan_routes-Kept ((k, adv) ∷ rest) acc u =
          let (b, l) = scan_routes-Kept rest (next k (candidate s neigh cab adv) acc) u.1 in
          rw (scan_routes-next k adv rest acc) (elim (prefix_eq k p) [
            | yes e ↦
                let gone : find prefix_eq p rest ≡ none = rw (← e) u.0 in
                let (b', l') = next-same k (candidate s neigh cab adv) acc e in
                rw (if_pos (prefix_eq k p) e) (b ∙ rw gone b', l ∙ rw gone l')
            | no ne ↦
                let (b', l') = next-other k (candidate s neigh cab adv) acc ne in
                rw (if_neg (prefix_eq k p) ne) (
                  b ∙ ap (λ o. cheapest o (offered s neigh cab (find prefix_eq p rest))) b',
                  l
                      ∙ ap
                          (λ o.
                            in_use (find prefix_eq p s.routes) o
                              (offered s neigh cab (find prefix_eq p rest)))
                          l',
                )
          ])

    -- the scan over all neighbours keeps for the prefix what their routes for it offer
    pub scan_neighbours-Kept :
        (now : ℕ) (ns : List Neighbour) (acc : Tally)
        → All (λ n. UniqueKeys prefix_eq n.routes) ns
        → (find prefix_eq p (scan_neighbours s now ns acc).best
            ≡ cheapest (find prefix_eq p acc.best) (offers s now p ns))
          × (find prefix_eq p (scan_neighbours s now ns acc).sel
              ≡ in_use (find prefix_eq p s.routes) (find prefix_eq p acc.sel) (offers s now p ns))
    unfolding scan_neighbours Kept
    scan_neighbours-Kept now [] acc u = (refl, refl)
    scan_neighbours-Kept now (n ∷ ns) acc u =
        let here = offered s n.id (hop_cost s now n) (find prefix_eq p n.routes) in
        let old = find prefix_eq p s.routes in
        let (b, l) =
          scan_neighbours-Kept now ns (scan_routes s n.id (hop_cost s now n) n.routes acc) u.1 in
        let (b', l') = scan_routes-Kept n.id (hop_cost s now n) n.routes acc u.0 in
        (
          b
              ∙ ap (λ o. cheapest o (offers s now p ns)) b'
              ∙ sym (cheapest-append (find prefix_eq p acc.best) here (offers s now p ns)),
          l
              ∙ ap (λ o. in_use old o (offers s now p ns)) l'
              ∙ sym (in_use-append old (find prefix_eq p acc.sel) here (offers s now p ns)),
        )
