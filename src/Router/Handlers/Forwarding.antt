-- ===== src/Router/Handlers/Forwarding.antt =====
-- The forwarding of sequence-number requests in `HandleSeqnoRequest`.
use mathlib.Core.List.{Memᴰ}
use mathlib.Core.Option.{some-injective}
use nylon.Base.{
  ℕ, ◌+◌, ◌-◌, ◌≤◌, ◌≡◌, ◌≢◌, refl, ◌∙◌, ◌⊎◌, inl, inr, Bool, true, ◌&&◌, List, [], ◌∷◌, some,
  arith, leb, Bool-cases, Option-cases,
}
use nylon.Base.Maps.{Map}
use nylon.Platform.{Platform}
use nylon.Router.Feasibility.{check_feasibility}
use nylon.Router.Handlers.{
  routes_contain, neigh_contains_func, can_forward, forward_target, forward_request,
}
use nylon.Router.Metric.{inf}
use nylon.Router.State.{Source, NeighRoute, Neighbour, RouterState, Call}

module _ ⦃P : Platform⦄ where
  open P use {NodeId, Prefix}

  and_left : (a b : Bool) → (a && b) ≡ true → a ≡ true
  and_left a b h = ground arith

  routes_contain_sound :
      (f : NeighRoute → Bool) (routes : Map Prefix NeighRoute)
      → routes_contain f routes ≡ true
      → (p : Prefix) × (r : NeighRoute) × Memᴰ (p, r) routes × (f r ≡ true)
  unfolding routes_contain
  routes_contain_sound f [] h = absurd (ground arith)
  routes_contain_sound f ((p, r) ∷ rest) h = elim (Bool-cases (f r)) [
    | inl e ↦ (p, r, Memᴰ.head refl, e)
    | inr e ↦
        let (q, r', m, e') = routes_contain_sound f rest (ground arith) in (q, r', Memᴰ.tail m, e')
  ]

  -- a neighbour's route for which the test holds
  record Found (f : NodeId → NeighRoute → Bool) (ns : List Neighbour) (neigh : NodeId)
      : Type 0 where
    owner : Neighbour
    prefix : Prefix
    route : NeighRoute
    among : Memᴰ owner ns
    named : owner.id ≡ neigh
    held : Memᴰ (prefix, route) owner.routes
    passes : f owner.id route ≡ true

  neigh_contains_func_sound :
      (f : NodeId → NeighRoute → Bool) (ns : List Neighbour) (neigh : NodeId)
      → neigh_contains_func f ns ≡ some neigh
      → Found f ns neigh
  unfolding neigh_contains_func
  neigh_contains_func_sound f [] neigh h = absurd (ground arith)
  neigh_contains_func_sound f (n ∷ ns) neigh h =
      elim (Bool-cases (routes_contain (f n.id) n.routes)) [
        | inl e ↦
            let (p, r, m, ok) = routes_contain_sound (f n.id) n.routes e in
            record {
              owner = n;
              prefix = p;
              route = r;
              among = Memᴰ.head refl;
              named = ground arith;
              held = m;
              passes = ok;
            }
        | inr e ↦
            let found = neigh_contains_func_sound f ns neigh (ground arith) in
            record {
              owner = found.owner;
              prefix = found.prefix;
              route = found.route;
              among = Memᴰ.tail found.among;
              named = found.named;
              held = found.held;
              passes = found.passes;
            }
      ]

  -- the one neighbour that a request goes to
  pub record Forwarded (s : RouterState) (from : NodeId) (src : Source) (seqno hop_cnt : ℕ)
      (calls : List Call) : Type 0 where
    pub target : Neighbour
    pub prefix : Prefix
    pub route : NeighRoute
    pub among : Memᴰ target s.neighbours
    pub not_back : target.id ≢ from
    pub held : Memᴰ (prefix, route) target.routes
    pub same_prefix : src.prefix ≡ route.pub_route.source.prefix
    pub finite : route.pub_route.fd.metric ≢ inf
    pub call : calls ≡ Call.request_seqno target.id src seqno (hop_cnt - 1) ∷ []
    pub fewer_hops : (1 ≤ hop_cnt - 1) × (hop_cnt - 1 + 1 ≡ hop_cnt)

  module _ (s : RouterState) (now : ℕ) (from : NodeId) (src : Source) where
    can_forward-facts :
        (neigh : NodeId) (r : NeighRoute)
        → can_forward s now from src neigh r ≡ true
        → (neigh ≢ from) × (src.prefix ≡ r.pub_route.source.prefix) × (r.pub_route.fd.metric ≢ inf)
    unfolding can_forward
    can_forward-facts neigh r h = (λ e. ground arith, ground arith, λ e. ground arith)

    forward_target-Found :
        (neigh : NodeId)
        → forward_target s now from src ≡ some neigh
        → Found (can_forward s now from src) s.neighbours neigh
    unfolding forward_target
    forward_target-Found neigh h =
        let both = λ (m : NodeId) (r : NeighRoute).
          can_forward s now from src m r && check_feasibility s r.pub_route in
        elim (Option-cases (neigh_contains_func both s.neighbours)) [
          | inl e ↦
              neigh_contains_func_sound (can_forward s now from src) s.neighbours neigh
                (rw (e, forward_target) at h)
          | inr (m, e) ↦
              let found = neigh_contains_func_sound both s.neighbours m e in
              record {
                owner = found.owner;
                prefix = found.prefix;
                route = found.route;
                among = found.among;
                named = found.named ∙ some-injective _ _ (rw (e, forward_target) at h);
                held = found.held;
                passes = and_left _ _ found.passes;
              }
        ]

    -- A request that is passed on goes to exactly one neighbour, which is not the one it came from
    -- and has a finite route for the prefix, with one hop less and at least one left; otherwise no
    -- call is made.
    pub forward_request-Forwarded :
        (seqno hop_cnt : ℕ)
        → (forward_request s now from src seqno hop_cnt ≡ [])
          ⊎ Forwarded s from src seqno hop_cnt (forward_request s now from src seqno hop_cnt)
    unfolding forward_request
    forward_request-Forwarded seqno hop_cnt = elim (Bool-cases (leb 2 hop_cnt)) [
      | inl more ↦ elim (Option-cases (forward_target s now from src)) [
        | inl e ↦ inl (rw (more, e, forward_request))
        | inr (neigh, e) ↦
            let found = forward_target-Found neigh e in
            let (back, prefix, finite) =
              can_forward-facts found.owner.id found.route found.passes in
            inr (record {
              target = found.owner;
              prefix = found.prefix;
              route = found.route;
              among = found.among;
              not_back = back;
              held = found.held;
              same_prefix = prefix;
              finite = finite;
              call = rw (more, e, found.named, forward_request);
              fewer_hops = (ground arith, ground arith);
            })
      ]
      | inr few ↦ inl (rw (few, forward_request))
    ]
