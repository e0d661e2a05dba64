-- ===== src/Router/Messages/Guards.antt =====
-- The guards of the packet handlers in core/router.go.
use mathlib.Core.List.{Memᴰ}
use nylon.Base.{
  ℕ, ◌%◌, ◌^◌, ◌≡◌, refl, sym, ◌⊎◌, inl, inr, Bool, true, false, List, [], ◌∷◌, ◌++◌, none, some,
  arith, is_yes, map, if_pos, if_neg, contains_func, Bool-cases, Option-cases,
}
use nylon.Platform.{Platform}
use nylon.Router.Compute.{compute_routes}
use nylon.Router.Handlers.{Outcome, handle_neighbour_update}
use nylon.Router.Handlers.Expected.{Applied}
use nylon.Router.Handlers.Updates.{handle_neighbour_update-Applied}
use nylon.Router.Messages.{
  Central, NyUpdate, check_neigh, check_prefix, check_node, accepts, update_route,
  router_apply_route_update, router_handle_route_update, compute_after,
}
use nylon.Router.State.{PubRoute, RouterState, Neighbour, Call, find_neighbour, get_neighbour}

-- a search by equality finds the members of a list
module _ {A : Type 0} (dec : Discrete A) where
  contains-Mem : (x : A) (xs : List A) → contains_func (λ y. is_yes (dec y x)) xs ≡ true → Memᴰ x xs
  unfolding contains_func
  contains-Mem x [] h = absurd (ground arith)
  contains-Mem x (y ∷ ys) h = elim (dec y x) [
    | yes e ↦ Memᴰ.head (sym e)
    | no other ↦ Memᴰ.tail (contains-Mem x ys (ground arith))
  ]

  Mem-contains : (x : A) (xs : List A) → Memᴰ x xs → contains_func (λ y. is_yes (dec y x)) xs ≡ true
  unfolding contains_func
  Mem-contains x [] m = elim m [ ]
  Mem-contains x (y ∷ ys) (Memᴰ.head e) = ground arith
  Mem-contains x (y ∷ ys) (Memᴰ.tail m) = ground (arith, Mem-contains x ys m)

module _ ⦃P : Platform⦄ where
  open P use {NodeId, Prefix, node_eq, prefix_eq}

  -- the ids of the neighbours
  abbrev pub neighbour_ids : RouterState → List NodeId
  neighbour_ids s = map (λ (n : Neighbour). n.id) s.neighbours

  -- the sender is a neighbour, and the configuration has the prefix and the router
  pub record Known (c : Central) (s : RouterState) (node : NodeId) (router_id : NodeId)
      (prefix : Prefix) : Type 0 where
    pub sender : Memᴰ node (neighbour_ids s)
    pub announced : Memᴰ prefix c.prefixes
    pub origin : Memᴰ router_id c.nodes

  check_neigh-ids :
      (id : NodeId) (ns : List Neighbour)
      → contains_func (λ n. is_yes (node_eq n.id id)) ns
        ≡ contains_func (λ x. is_yes (node_eq x id)) (map (λ (n : Neighbour). n.id) ns)
  unfolding contains_func
  check_neigh-ids id [] = refl
  check_neigh-ids id (n ∷ ns) = rw (check_neigh-ids id ns) refl

  Known-accepts :
      (c : Central) (s : RouterState) (node router_id : NodeId) (prefix : Prefix)
      → Known c s node router_id prefix
      → accepts c s node router_id prefix ≡ true
  unfolding accepts check_neigh check_prefix check_node
  Known-accepts c s node router_id prefix k = ground (
    arith,
    check_neigh-ids node s.neighbours,
    Mem-contains node_eq node (neighbour_ids s) k.sender,
    Mem-contains prefix_eq prefix c.prefixes k.announced,
    Mem-contains node_eq router_id c.nodes k.origin,
  )

  accepts-Known :
      (c : Central) (s : RouterState) (node router_id : NodeId) (prefix : Prefix)
      → accepts c s node router_id prefix ≡ true
      → Known c s node router_id prefix
  unfolding accepts check_neigh check_prefix check_node
  accepts-Known c s node router_id prefix h = record {
    sender =
        contains-Mem node_eq node (neighbour_ids s)
          (ground (arith, check_neigh-ids node s.neighbours));
    announced = contains-Mem prefix_eq prefix c.prefixes (ground arith);
    origin = contains-Mem node_eq router_id c.nodes (ground arith);
  }

  contains-find_neighbour :
      (id : NodeId) (ns : List Neighbour)
      → Memᴰ id (map (λ (n : Neighbour). n.id) ns)
      → (n : Neighbour) × (find_neighbour id ns ≡ some n)
  unfolding find_neighbour
  contains-find_neighbour id [] h = elim h [ ]
  contains-find_neighbour id (n ∷ ns) h = elim (node_eq n.id id) [
    | yes e ↦ (n, if_pos (node_eq n.id id) e _ _)
    | no other ↦ elim h [
      | Memᴰ.head e ↦ absurd (other (sym e))
      | Memᴰ.tail later ↦
          let (m, e) = contains-find_neighbour id ns later in
          (m, rw (if_neg (node_eq n.id id) other) e)
    ]
  ]

  handle_applied :
      (c : Central) (s : RouterState) (now : ℕ) (node : NodeId) (update : NyUpdate)
      (result : Outcome × Bool)
      → router_apply_route_update c s now node update ≡ some result
      → router_handle_route_update c s now node update ≡ some (compute_after now result)
  unfolding router_handle_route_update
  handle_applied c s now node update result e = rw (e, router_handle_route_update) refl

  -- the route that an update carries
  abbrev pub announced_route : NyUpdate → Prefix → PubRoute
  announced_route update prefix = record {
    source = record { node_id = update.router_id; prefix = prefix };
    fd = record { seqno = update.seqno % 2 ^ 16; metric = update.metric };
  }

  apply_accepted :
      (c : Central) (s : RouterState) (now : ℕ) (node : NodeId) (update : NyUpdate)
      (prefix : Prefix) (outcome : Outcome)
      → update.prefix ≡ some prefix
      → accepts c s node update.router_id prefix ≡ true
      → handle_neighbour_update s now node (announced_route update prefix) ≡ some outcome
      → router_apply_route_update c s now node update ≡ some (outcome, true)
  unfolding router_apply_route_update update_route
  apply_accepted c s now node update prefix outcome e ok h =
      rw (e, ok, h, router_apply_route_update) refl

  -- An update with a well-formed prefix is applied if its sender is a neighbour and the configuration
  -- has its prefix and its router: the neighbour's routes change and calls are made as
  -- `HandleNeighbourUpdate` promises, and then the routes are computed. Any other update changes
  -- nothing and makes no call.
  pub router_handle_route_update_guarded :
      (c : Central) (s : RouterState) (now : ℕ) (node : NodeId) (update : NyUpdate)
      → ((router_handle_route_update c s now node update ≡ some (s, []))
          × ((update.prefix ≡ none)
              ⊎ ((prefix : Prefix) × (update.prefix ≡ some prefix)
                  × ¬ (Known c s node update.router_id prefix))))
        ⊎ ((prefix : Prefix) × (n : Neighbour) × (s' : RouterState) × (calls : List Call)
            × (update.prefix ≡ some prefix)
            × Known c s node update.router_id prefix
            × (get_neighbour s node ≡ some n)
            × Applied s now n (announced_route update prefix) s' calls
            × (router_handle_route_update c s now node update
                ≡ some ((compute_routes s' now).0, calls ++ (compute_routes s' now).1)))
  unfolding router_apply_route_update compute_after
  router_handle_route_update_guarded c s now node update = elim (Option-cases update.prefix) [
    | inl e ↦ inl (
      handle_applied c s now node update ((s, []), false) (rw (e, router_apply_route_update) refl),
      inl e,
    )
    | inr (prefix, e) ↦ elim (Bool-cases (accepts c s node update.router_id prefix)) [
      | inr refused ↦ inl (
        handle_applied c s now node update ((s, []), false)
            (rw (e, refused, router_apply_route_update) refl),
        inr (
          prefix,
          e,
          λ k. absurd (ground (arith, Known-accepts c s node update.router_id prefix k)),
        ),
      )
      | inl ok ↦
          let known = accepts-Known c s node update.router_id prefix ok in
          let (n, found) = contains-find_neighbour node s.neighbours known.sender in
          let here : get_neighbour s node ≡ some n = unfold get_neighbour in found in
          let (s', calls, handled, applied) =
            handle_neighbour_update-Applied s now node (announced_route update prefix) n here in
          inr (
            prefix,
            n,
            s',
            calls,
            e,
            known,
            here,
            applied,
            handle_applied c s now node update ((s', calls), true)
                (apply_accepted c s now node update prefix (s', calls) e ok handled),
          )
    ]
  ]
