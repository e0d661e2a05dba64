-- ===== src/Tables/Steps.antt =====
-- What every handler and task of core/router_algo.go and core/router.go does to the routing table and
-- to the entry of a prefix in a table.
use nylon.Base.{
  ℕ, ◌≡◌, refl, subst, ◌∙◌, Bool, true, false, List, [], ◌∷◌, ◌++◌, Option, some, arith, All-append,
  if◌then◌else◌, ◌==◌, Option-cases, inl, inr,
}
use nylon.Base.Maps.{find, put, find-put_self, find-put_ne, put-UniqueKeys, UniqueKeys}
use nylon.Platform.{Platform}
use nylon.Router.Compute.{compute_routes}
use nylon.Router.Compute.Retraction.{Silent}
use nylon.Router.Handlers.{
  Outcome, acquire_route, refresh_route, store_route, handle_neighbour_update, acknowledged,
  handle_ack_retract, own_request, forward_request, handle_seqno_request, answers_request,
}
use nylon.Router.Feasibility.{update_feasibility}
use nylon.Router.Metric.{inf}
use nylon.Router.State.{
  SelRoute, RouterState, Call, PubRoute, Source, Neighbour, NeighRoute, set_seqno, get_neighbour,
}
use nylon.Tables.Effect.{after_calls, after_calls-append, after_calls-Silent}
use nylon.Tables.Fits.{Fits, ReadsHop, compute_routes-UniqueKeys, compute_routes-Fits}

module _ ⦃P : Platform⦄ where
  open P use {NodeId, Prefix, node_eq, prefix_eq}

  module _ {E : Type 0} (value : SelRoute → Option E) where
    -- the outcome keeps the keys unique, and an entry that fitted its route fits it again
    pub record Follows (s : RouterState) (o : Outcome) : Type 0 where
      pub unique : UniqueKeys prefix_eq s.routes → UniqueKeys prefix_eq o.0.routes
      pub fits :
          (p : Prefix) (e : Option E)
          → UniqueKeys prefix_eq s.routes
          → Fits value (find prefix_eq p s.routes) e
          → Fits value (find prefix_eq p o.0.routes) (after_calls value p o.1 e)

    -- a step that leaves the routes and the tables alone
    pub quiet-Follows :
        (s s' : RouterState) (calls : List Call)
        → s'.routes ≡ s.routes
        → ((p : Prefix) → Silent p calls)
        → Follows s (s', calls)
    quiet-Follows s s' calls same silent = record {
      unique = λ u. rw same u;
      fits = λ p e u h. rw (same, after_calls-Silent value p calls e (silent p)) h;
    }

    -- one step after another
    pub trans-Follows :
        (s s' s'' : RouterState) (calls calls' : List Call)
        → Follows s (s', calls)
        → Follows s' (s'', calls')
        → Follows s (s'', calls ++ calls')
    trans-Follows s s' s'' calls calls' h h' = record {
      unique = λ u. h'.unique (h.unique u);
      fits = λ p e u f.
          rw (after_calls-append value p calls calls' e)
            (h'.fits p (after_calls value p calls e) (h.unique u) (h.fits p e u f));
    }

    pub if-Follows :
        (s : RouterState) (b : Bool) (o o' : Outcome)
        → Follows s o
        → Follows s o'
        → Follows s (if b then o else o')
    if-Follows s true o o' h h' = h
    if-Follows s false o o' h h' = h'

    acquire_route-routes :
        (s : RouterState) (now : ℕ) (n : Neighbour) (adv : PubRoute)
        → (acquire_route s now n adv).routes ≡ s.routes
    unfolding acquire_route store_route
    acquire_route-routes s now n adv = ground arith

    refresh_route-routes :
        (s : RouterState) (now : ℕ) (n : Neighbour) (adv : PubRoute) (old : NeighRoute)
        → (refresh_route s now n adv old).0.routes ≡ s.routes
    unfolding refresh_route store_route
    refresh_route-routes s now n adv old = ground arith

    refresh_route-Silent :
        (s : RouterState) (now : ℕ) (n : Neighbour) (adv : PubRoute) (old : NeighRoute) (p : Prefix)
        → Silent p (refresh_route s now n adv old).1
    unfolding refresh_route
    refresh_route-Silent s now n adv old p = ground arith

    -- an update changes no route and no table
    pub handle_neighbour_update-Follows :
        (s : RouterState) (now : ℕ) (neigh : NodeId) (adv : PubRoute) (o : Outcome)
        → handle_neighbour_update s now neigh adv ≡ some o
        → Follows s o
    unfolding handle_neighbour_update
    handle_neighbour_update-Follows s now neigh adv o h =
        let acks =
          (if adv.fd.metric == inf
            then Call.send_ack_retract neigh adv.source.prefix ∷ []
            else []) in
        let silent : (p : Prefix) → Silent p acks = λ p. ground arith in
        elim (Option-cases (get_neighbour s neigh)) [
          | inl e ↦ absurd (ground arith)
          | inr (n, e) ↦ elim (Option-cases (find prefix_eq adv.source.prefix n.routes)) [
            | inl f ↦
                let same : (acquire_route s now n adv, acks) ≡ o = ground arith in
                subst (Follows s) same (
                  quiet-Follows s (acquire_route s now n adv) acks
                    (acquire_route-routes s now n adv) silent)
            | inr (old, f) ↦
                let (s', calls) = refresh_route s now n adv old in
                let same : (s', acks ++ calls) ≡ o = ground arith in
                subst (Follows s) same (
                  quiet-Follows s s' (acks ++ calls) (refresh_route-routes s now n adv old) (λ p.
                    All-append _ acks calls (silent p) (refresh_route-Silent s now n adv old p)))
          ]
        ]

    forward_request-Silent :
        (s : RouterState) (now : ℕ) (from : NodeId) (src : Source) (seqno hop_cnt : ℕ) (p : Prefix)
        → Silent p (forward_request s now from src seqno hop_cnt)
    unfolding forward_request
    forward_request-Silent s now from src seqno hop_cnt p = ground arith

    module _ (same_value : ReadsHop value) where
      pub compute_routes-Follows : (s : RouterState) (now : ℕ) → Follows s (compute_routes s now)
      compute_routes-Follows s now = record {
        unique = λ u. compute_routes-UniqueKeys s now;
        fits = λ p e u h. compute_routes-Fits value same_value p s now e u h;
      }

      -- calls that no table sees, then a computation from a state with the same routes
      pub then_compute-Follows :
          (s s' : RouterState) (now : ℕ) (calls : List Call)
          → s'.routes ≡ s.routes
          → ((p : Prefix) → Silent p calls)
          → Follows s ((compute_routes s' now).0, calls ++ (compute_routes s' now).1)
      then_compute-Follows s s' now calls same silent = record {
        unique = λ u. compute_routes-UniqueKeys s' now;
        fits = λ p e u h.
            rw
              (
                after_calls-append value p calls (compute_routes s' now).1 e,
                after_calls-Silent value p calls e (silent p),
              )
              (compute_routes-Fits value same_value p s' now e (rw same u) (rw same h));
      }

      acknowledged-Fits :
          (s : RouterState) (neigh : NodeId) (k p : Prefix) (rt : SelRoute) (e : Option E)
          → find prefix_eq k s.routes ≡ some rt
          → Fits value (find prefix_eq p s.routes) e
          → Fits value (find prefix_eq p (put prefix_eq k (acknowledged rt neigh) s.routes)) e
      acknowledged-Fits s neigh k p rt e here h = elim (prefix_eq k p) [
        | yes q ↦
            let h' : e ≡ value rt = subst (λ o. Fits value o e) here (rw (← q) at h) in
            rw (← q, find-put_self prefix_eq k (acknowledged rt neigh) s.routes)
              (h' ∙ same_value rt (acknowledged rt neigh) refl refl)
        | no n ↦ rw (find-put_ne prefix_eq k p (acknowledged rt neigh) s.routes n) h
      ]

      acknowledged-Follows :
          (s : RouterState) (now : ℕ) (neigh : NodeId) (k : Prefix) (rt : SelRoute)
          → find prefix_eq k s.routes ≡ some rt
          → Follows s (
              compute_routes
                (record s { routes = put prefix_eq k (acknowledged rt neigh) s.routes })
                now)
      acknowledged-Follows s now neigh k rt here =
          let routes = put prefix_eq k (acknowledged rt neigh) s.routes in
          record {
            unique = λ u. compute_routes-UniqueKeys (record s { routes = routes }) now;
            fits = λ p e u h.
                compute_routes-Fits value same_value p (record s { routes = routes }) now e
                  (put-UniqueKeys prefix_eq k (acknowledged rt neigh) s.routes u)
                  (acknowledged-Fits s neigh k p rt e here h);
          }

      pub handle_ack_retract-Follows :
          (s : RouterState) (now : ℕ) (neigh : NodeId) (k : Prefix)
          → Follows s (handle_ack_retract s now neigh k)
      unfolding handle_ack_retract
      handle_ack_retract-Follows s now neigh k = elim (Option-cases (find prefix_eq k s.routes)) [
        | inl e ↦ rw (e, handle_ack_retract) (quiet-Follows s s [] refl (λ p. tt))
        | inr (rt, e) ↦
            rw (e, handle_ack_retract)
              (if-Follows s _ _ _ (quiet-Follows s s [] refl (λ p. tt))
                (acknowledged-Follows s now neigh k rt e))
      ]

      pub handle_seqno_request-Follows :
          (s : RouterState) (now : ℕ) (from : NodeId) (src : Source) (seqno hop_cnt : ℕ)
          → Follows s (handle_seqno_request s now from src seqno hop_cnt)
      unfolding handle_seqno_request own_request
      handle_seqno_request-Follows s now from src seqno hop_cnt =
          elim (Option-cases (find prefix_eq src.prefix s.routes)) [
            | inl e ↦ rw (e, handle_seqno_request) (quiet-Follows s s [] refl (λ p. tt))
            | inr (sel, e) ↦
                let answered = answers_request sel src seqno in
                let s' = (if answered then update_feasibility s sel.pub_route else s) in
                let reply =
                  (if answered then Call.send_route_update from sel.pub_route ∷ [] else []) in
                let same : s'.routes ≡ s.routes = unfold update_feasibility in ground arith in
                let silent : (p : Prefix) → Silent p reply = λ p. ground arith in
                rw (e, handle_seqno_request)
                  (if-Follows s _ _ _ (quiet-Follows s s' reply same silent) (
                    if-Follows s _ _ _
                      (then_compute-Follows s (set_seqno s' sel.pub_route.source.prefix seqno) now
                        reply (unfold set_seqno in same) silent)
                      (quiet-Follows s s' _ same (λ p.
                        All-append _ _ _ (silent p)
                          (forward_request-Silent s' now from src seqno hop_cnt p)))))
          ]
