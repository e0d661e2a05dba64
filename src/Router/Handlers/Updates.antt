-- ===== src/Router/Handlers/Updates.antt =====
-- `HandleNeighbourUpdate`: which updates enter the route table, and what else changes.
use mathlib.Core.List.{append-nil}
use nylon.Base.{
  ℕ, ◌≡◌, refl, sym, ap, subst, ◌∙◌, inl, inr, ◌&&◌, List, [], ◌∷◌, ◌++◌, Option, none, some, map,
  arith, ◌==◌, if◌then◌else◌, if_neg, if_pos, is_yes, Bool-cases,
}
use nylon.Base.Maps.{Map, find, put, find-put}
use nylon.Platform.{Platform}
use nylon.Router.Handlers.Expected.{entry, accepts, stored, wants_seqno, seqno_after, Applied}
use nylon.Router.Handlers.{
  store_route, acquired, acquire_route, is_selected_from, is_more_optimal, dummy_route, refreshed,
  refresh_route, next_seqno, handle_neighbour_update,
}
use nylon.Router.Metric.{inf}
use nylon.Router.Selection.{is_strictly_better}
use nylon.Router.State.{
  PubRoute, NeighRoute, Neighbour, RouterState, Call, source_eq, find_neighbour, get_neighbour,
  set_routes,
}

module _ ⦃P : Platform⦄ where
  open P use {NodeId, Prefix, prefix_eq, node_eq}

  find_neighbour-id :
      (node : NodeId) (n : Neighbour) (ns : List Neighbour)
      → find_neighbour node ns ≡ some n
      → n.id ≡ node
  unfolding find_neighbour
  find_neighbour-id node n [] h = absurd (ground arith)
  find_neighbour-id node n (m ∷ ns) h = elim (node_eq m.id node) [
    | yes e ↦ ground arith
    | no ne ↦ find_neighbour-id node n ns (rw (if_neg (node_eq m.id node) ne) at h)
  ]

  find_neighbour-set_routes :
      (neigh node : NodeId) (routes : Map Prefix NeighRoute) (n : Neighbour) (ns : List Neighbour)
      → find_neighbour neigh ns ≡ some n
      → find_neighbour node (set_routes neigh routes ns) ≡ (
          if is_yes (node_eq neigh node)
          then some (record n { routes = routes })
          else find_neighbour node ns)
  unfolding find_neighbour set_routes
  find_neighbour-set_routes neigh node routes n [] h = absurd (ground arith)
  find_neighbour-set_routes neigh node routes n (m ∷ ns) h = elim (node_eq m.id neigh) [
    | yes e ↦ ground arith
    | no ne ↦
        let rest =
          find_neighbour-set_routes neigh node routes n ns
            (rw (if_neg (node_eq m.id neigh) ne) at h) in
        ground arith
  ]

  set_routes-links :
      (neigh : NodeId) (routes : Map Prefix NeighRoute) (ns : List Neighbour)
      → map (λ (m : Neighbour). record m { routes = [] }) (set_routes neigh routes ns)
        ≡ map (λ (m : Neighbour). record m { routes = [] }) ns
  unfolding set_routes
  set_routes-links neigh routes [] = refl
  set_routes-links neigh routes (m ∷ ns) = elim (node_eq m.id neigh) [
    | yes e ↦ rw (if_pos (node_eq m.id neigh) e) refl
    | no ne ↦
        rw (if_neg (node_eq m.id neigh) ne)
          (ap (λ l. record m { routes = [] } ∷ l) (set_routes-links neigh routes ns))
  ]

  entry-store_route :
      (s : RouterState) (n : Neighbour) (q : Prefix) (r : NeighRoute) (node : NodeId) (p : Prefix)
      → get_neighbour s n.id ≡ some n
      → entry (store_route s n q r) node p
        ≡ (if is_yes (node_eq n.id node) && is_yes (prefix_eq q p) then some r else entry s node p)
  unfolding store_route get_neighbour
  entry-store_route s n q r node p h =
      let routes = put prefix_eq q r n.routes in
      ground (
        arith,
        find_neighbour-set_routes n.id node routes n s.neighbours h,
        find-put prefix_eq q p r n.routes,
      )

  module _ (s : RouterState) (now : ℕ) (n : Neighbour) (adv : PubRoute) where
    -- the state after an update
    abbrev after : Option NeighRoute → RouterState
    after old =
        if accepts s n.id adv old
        then store_route s n adv.source.prefix (stored s now adv old)
        else s

    abbrev requested : Option NeighRoute → List Call
    requested old =
        if wants_seqno s now n adv old
        then Call.request_seqno n.id adv.source (seqno_after (find source_eq adv.source s.sources))
            s.tunables.seqno_request_hop_count
          ∷ []
        else []

    acks : List Call
    acks = if adv.fd.metric == inf then Call.send_ack_retract n.id adv.source.prefix ∷ [] else []

    acquire-after : acquire_route s now n adv ≡ after none
    unfolding acquire_route acquired
    acquire-after = ground arith

    next_seqno-after : next_seqno s adv.source ≡ seqno_after (find source_eq adv.source s.sources)
    unfolding next_seqno
    next_seqno-after = ground arith

    refresh-after :
        (old : NeighRoute)
        → refresh_route s now n adv old ≡ (after (some old), requested (some old))
    unfolding refresh_route refreshed is_selected_from is_more_optimal is_strictly_better
        dummy_route
    refresh-after old = ground (arith, next_seqno-after)

    after-entries :
        (old : Option NeighRoute) (node : NodeId) (p : Prefix)
        → get_neighbour s n.id ≡ some n
        → entry (after old) node p ≡ (
            if (is_yes (node_eq n.id node) && is_yes (prefix_eq adv.source.prefix p))
              && accepts s n.id adv old
            then some (stored s now adv old)
            else entry s node p)
    after-entries old node p h = elim (Bool-cases (accepts s n.id adv old)) [
      | inl e ↦
          rw e (
            ground (arith, entry-store_route s n adv.source.prefix (stored s now adv old) node p h))
      | inr e ↦ rw e (ground arith)
    ]

    after-links :
        (old : Option NeighRoute)
        → (map (λ (m : Neighbour). record m { routes = [] }) (after old).neighbours
            ≡ map (λ (m : Neighbour). record m { routes = [] }) s.neighbours)
          × (after old ≡ record s { neighbours = (after old).neighbours })
    unfolding store_route
    after-links old = elim (Bool-cases (accepts s n.id adv old)) [
      | inl e ↦ rw e (set_routes-links n.id _ s.neighbours, refl)
      | inr e ↦ rw e (refl, refl)
    ]

    after-Applied :
        get_neighbour s n.id ≡ some n
        → (old : Option NeighRoute) → find prefix_eq adv.source.prefix n.routes ≡ old
        → Applied s now n adv (after old) (acks ++ requested old)
    unfolding acks
    after-Applied h old e =
        let here : entry s n.id adv.source.prefix ≡ old = rw h e in
        record {
          entries = λ node p. rw here (after-entries old node p h);
          links = (after-links old).0;
          rest = (after-links old).1;
          reply = rw here refl;
        }

    update-Applied :
        get_neighbour s n.id ≡ some n
        → (old : Option NeighRoute) → find prefix_eq adv.source.prefix n.routes ≡ old
        → handle_neighbour_update s now n.id adv ≡ some (after old, acks ++ requested old)
    unfolding handle_neighbour_update acks
    update-Applied h none e =
        rw (h, e, handle_neighbour_update)
          (ap (λ (r : RouterState). some (r, acks)) acquire-after
            ∙ ap (λ l. some (after none, l)) (sym (append-nil acks)))
    update-Applied h (some old) e = rw (h, e, refresh-after old, handle_neighbour_update) refl

  -- For a known neighbour the handler returns. The update becomes the neighbour's route for its prefix
  -- if it is accepted, with the expiry time from now on unless it is a retraction; every other route of
  -- every neighbour stays, and so does the rest of the state. The calls are an acknowledgement if the
  -- update is a retraction, and a request for the next sequence number if it is unfeasible, there was
  -- an entry, and the route in use is the one that is updated or has a higher metric.
  pub handle_neighbour_update-Applied :
      (s : RouterState) (now : ℕ) (neigh : NodeId) (adv : PubRoute) (n : Neighbour)
      → get_neighbour s neigh ≡ some n
      → (s' : RouterState) × (calls : List Call) × (handle_neighbour_update s now neigh adv
          ≡ some (s', calls))
        × Applied s now n adv s' calls
  handle_neighbour_update-Applied s now neigh adv n h =
      let same = find_neighbour-id neigh n s.neighbours (unfold get_neighbour in h) in
      let h' = subst (λ x. get_neighbour s x ≡ some n) (sym same) h in
      let old = find prefix_eq adv.source.prefix n.routes in
      (
        after s now n adv old,
        acks s now n adv ++ requested s now n adv old,
        subst
            (λ x.
              handle_neighbour_update s now x adv
              ≡ some (after s now n adv old, acks s now n adv ++ requested s now n adv old))
            same (update-Applied s now n adv h' old refl),
        after-Applied s now n adv h' old refl,
      )
