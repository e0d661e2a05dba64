-- ===== src/Tables/Tasks.antt =====
-- What the periodic tasks do to the routing table and to the entry of a prefix in a table.
use nylon.Base.{
  ℕ, ◌≡◌, refl, ◌∙◌, Bool, false, not, ◌&&◌, [], ◌∷◌, arith, All-append, ltb, if◌then◌else◌, ◌==◌,
  is_yes, Option,
}
use nylon.Base.Maps.{Map}
use nylon.Platform.{Platform}
use nylon.Router.Compute.Retraction.{Silent, is_table_call}
use nylon.Router.Feasibility.{update_feasibility}
use nylon.Router.Handlers.{next_seqno}
use nylon.Router.Maintenance.{
  push_routes, mark_sources, request_starved, solve_starvation, expired, expiry_calls,
  sweep_sources, run_gc,
}
use nylon.Router.Metric.{inf}
use nylon.Router.Selection.{metric_of}
use nylon.Router.State.{SelRoute, RouterState, Call, PubRoute, Source, Advertisement}
use nylon.Tables.Fits.{ReadsHop}
use nylon.Tables.Steps.{Follows, quiet-Follows, then_compute-Follows}

module _ ⦃P : Platform⦄ where
  open P use {Prefix, node_eq}

  module _ {E : Type 0} (value : SelRoute → Option E) where
    push_routes-quiet :
        (send : PubRoute → Call) (routes : Map Prefix SelRoute) (s : RouterState)
        → ((r : PubRoute) (p : Prefix) → is_table_call p (send r) ≡ false)
        → let (s', calls) = push_routes send routes s in
          (s'.routes ≡ s.routes) × ((p : Prefix) → Silent p calls)
    unfolding push_routes
    push_routes-quiet send [] s h = (refl, λ p. tt)
    push_routes-quiet send ((k, r) ∷ rest) s h =
        let s' = (if metric_of r == inf then s else update_feasibility s r.pub_route) in
        let same : s'.routes ≡ s.routes = unfold update_feasibility in ground arith in
        let (kept, silent) = push_routes-quiet send rest s' h in
        (kept ∙ same, λ p. (h r.pub_route p, silent p))

    pub push_routes-Follows :
        (send : PubRoute → Call) (s : RouterState)
        → ((r : PubRoute) (p : Prefix) → is_table_call p (send r) ≡ false)
        → Follows value s (push_routes send s.routes s)
    push_routes-Follows send s h =
        let (kept, silent) = push_routes-quiet send s.routes s h in
        quiet-Follows value s (push_routes send s.routes s).0 (push_routes send s.routes s).1 kept
          silent

    request_starved-Silent :
        (s : RouterState) (marks : Map Source Bool) (p : Prefix)
        → Silent p (request_starved s marks)
    unfolding request_starved
    request_starved-Silent s [] p = tt
    request_starved-Silent s ((src, feasible) ∷ rest) p =
        All-append _
          (if not feasible && not (is_yes (node_eq src.node_id s.id))
            then Call.broadcast_request_seqno src (next_seqno s src)
                s.tunables.seqno_request_hop_count
              ∷ []
            else [])
          _ (ground arith) (request_starved-Silent s rest p)

    pub solve_starvation-Follows :
        (s : RouterState) (now : ℕ) → Follows value s (s, solve_starvation s now)
    unfolding solve_starvation
    solve_starvation-Follows s now =
        quiet-Follows value s s _ refl
          (request_starved-Silent s (mark_sources s now s.neighbours []))

    expiry_calls-Silent :
        (now : ℕ) (advs : Map Prefix Advertisement) (p : Prefix) → Silent p (expiry_calls now advs)
    unfolding expiry_calls
    expiry_calls-Silent now [] p = tt
    expiry_calls-Silent now ((k, adv) ∷ rest) p =
        All-append _ (if ltb adv.expiry now && adv.expiry_fn then Call.expiry_fn k ∷ [] else []) _
          (ground arith) (expiry_calls-Silent now rest p)

    pub run_gc-Follows :
        ReadsHop value → (s : RouterState) (now : ℕ) → Follows value s (run_gc s now)
    unfolding run_gc sweep_sources expired
    run_gc-Follows same_value s now =
        let h =
          then_compute-Follows value same_value s (expired s now) now
            (expiry_calls now s.advertised) refl (expiry_calls-Silent now s.advertised) in
        record { unique = h.unique; fits = h.fits }
