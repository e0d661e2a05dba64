-- ===== src/Tables/Agreement.antt =====
-- The forwarding tables of core/router.go follow the routing table of core/router_algo.go, from
-- `InitRouter` on.
use nylon.Base.{
  ℕ, ◌≡◌, refl, ap, subst, ◌∙◌, List, [], ◌∷◌, Option, none, some, if◌then◌else◌, ◌==◌, is_yes,
  Bool-cases, inl, inr,
}
use nylon.Base.Maps.{find, UniqueKeys}
use nylon.Platform.{Platform}
use nylon.Router.Handlers.{Outcome}
use nylon.Router.Maintenance.{full_table_update, push_full_table}
use nylon.Router.Metric.{inf}
use nylon.Router.Run.{Step, init_router}
use nylon.Router.Selection.{metric_of}
use nylon.Router.State.{SelRoute, RouterState, Call}
use nylon.Tables.Effect.{after_call, after_calls}
use nylon.Tables.Fits.{Fits, ReadsHop}
use nylon.Tables.Received.{
  apply_update-Follows, handle_update-Follows, handle_ack_retract-Follows,
  handle_seqno_request-Follows,
}
use nylon.Tables.Steps.{Follows, quiet-Follows, compute_routes-Follows}
use nylon.Tables.Tasks.{push_routes-Follows, solve_starvation-Follows, run_gc-Follows}
use nylon.Tables.{
  RouteTableEntry, PrefixTable, Tables, table_insert_route, table_delete_route, table_call,
  table_calls, init_tables,
}
use nylon.Tunables.{RouterTunables}

module _ ⦃P : Platform⦄ where
  open P use {NodeId, Prefix, node_eq, prefix_eq}

  module _ {E : Type 0} (value : SelRoute → Option E) (same_value : ReadsHop value) where
    step-Follows : {s : RouterState} {o : Outcome} → Step s o → Follows value s o
    unfolding full_table_update push_full_table
    step-Follows (Step.apply_update c s now node update o applied h) =
        apply_update-Follows value same_value c s now node update o applied h
    step-Follows (Step.update c s now node update o h) =
        handle_update-Follows value same_value c s now node update o h
    step-Follows (Step.ack_retract c s now neigh prefix) =
        handle_ack_retract-Follows value same_value c s now neigh prefix
    step-Follows (Step.seqno_request c s now neigh pkt) =
        handle_seqno_request-Follows value same_value c s now neigh pkt
    step-Follows (Step.compute s now) = compute_routes-Follows value same_value s now
    step-Follows (Step.gc s now) = run_gc-Follows value same_value s now
    step-Follows (Step.full_update s) = push_routes-Follows value _ s (λ r p. refl)
    step-Follows (Step.push_table s neigh) = push_routes-Follows value _ s (λ r p. refl)
    step-Follows (Step.starvation s now) = solve_starvation-Follows value s now
    step-Follows (Step.outside s neighbours advertised self_seqno) =
        quiet-Follows value s _ [] refl (λ p. tt)

  module _ ⦃T : PrefixTable⦄ (self : NodeId) (peer_of : NodeId → Option P.Peer) where
    -- the entries that a route stands for
    abbrev pub forward_entry : SelRoute → Option RouteTableEntry
    forward_entry r = some (record {
      nh = r.nh;
      peer = if metric_of r == inf then none else peer_of r.nh;
      blackhole = metric_of r == inf;
    })

    abbrev pub exit_entry : SelRoute → Option RouteTableEntry
    exit_entry r =
        if metric_of r == inf
        then none
        else if is_yes (node_eq r.nh self)
        then forward_entry r
        else none

    forward_call :
        (t : Tables self peer_of) (c : Call) (p : Prefix)
        → T.get p (table_call self peer_of t c).forward
          ≡ after_call forward_entry p c (T.get p t.forward)
    unfolding table_call table_insert_route table_delete_route after_call
    forward_call t (Call.table_insert_route q r) p = elim (Bool-cases (metric_of r == inf)) [
      | inl e ↦ rw (e, table_insert_route) (T.get-insert q p _ t.forward)
      | inr e ↦ rw (e, table_insert_route) (T.get-insert q p _ t.forward)
    ]
    forward_call t (Call.table_delete_route q) p = T.get-delete q p t.forward
    forward_call t (Call.send_route_update _ _) p = refl
    forward_call t (Call.send_ack_retract _ _) p = refl
    forward_call t (Call.broadcast_send_route_update _) p = refl
    forward_call t (Call.request_seqno _ _ _ _) p = refl
    forward_call t (Call.broadcast_request_seqno _ _ _) p = refl
    forward_call t (Call.expiry_fn _) p = refl

    exit_call :
        (t : Tables self peer_of) (c : Call) (p : Prefix)
        → T.get p (table_call self peer_of t c).exit ≡ after_call exit_entry p c (T.get p t.exit)
    unfolding table_call table_insert_route table_delete_route after_call
    exit_call t (Call.table_insert_route q r) p = elim (Bool-cases (metric_of r == inf)) [
      | inl e ↦ rw (e, table_insert_route) (T.get-delete q p t.exit)
      | inr e ↦ elim (Bool-cases (is_yes (node_eq r.nh self))) [
        | inl f ↦ rw (e, f, table_insert_route) (T.get-insert q p _ t.exit)
        | inr f ↦ rw (e, f, table_insert_route) (T.get-delete q p t.exit)
      ]
    ]
    exit_call t (Call.table_delete_route q) p = T.get-delete q p t.exit
    exit_call t (Call.send_route_update _ _) p = refl
    exit_call t (Call.send_ack_retract _ _) p = refl
    exit_call t (Call.broadcast_send_route_update _) p = refl
    exit_call t (Call.request_seqno _ _ _ _) p = refl
    exit_call t (Call.broadcast_request_seqno _ _ _) p = refl
    exit_call t (Call.expiry_fn _) p = refl

    get-table_calls :
        (t : Tables self peer_of) (cs : List Call) (p : Prefix)
        → let t' = table_calls self peer_of t cs in
          (T.get p t'.forward ≡ after_calls forward_entry p cs (T.get p t.forward))
          × (T.get p t'.exit ≡ after_calls exit_entry p cs (T.get p t.exit))
    unfolding table_calls after_calls
    get-table_calls t [] p = (refl, refl)
    get-table_calls t (c ∷ cs) p =
        let (f, e) = get-table_calls (table_call self peer_of t c) cs p in
        (
          f ∙ ap (after_calls forward_entry p cs) (forward_call t c p),
          e ∙ ap (after_calls exit_entry p cs) (exit_call t c p),
        )

    -- the state and the tables that some steps lead to from the start
    pub data Reached : RouterState → Tables self peer_of → Type 0 where
      start :
          (tunables : RouterTunables) (prefixes : List (Prefix × (ℕ → ℕ)))
          → Reached (init_router tunables self prefixes) (init_tables self peer_of)
      step :
          {s : RouterState} {t : Tables self peer_of} {o : Outcome}
          → Reached s t
          → Step s o
          → Reached o.0 (table_calls self peer_of t o.1)

    abbrev pub Agrees : RouterState → Tables self peer_of → Type 0
    Agrees s t =
        (p : Prefix)
        → Fits forward_entry (find prefix_eq p s.routes) (T.get p t.forward)
          × Fits exit_entry (find prefix_eq p s.routes) (T.get p t.exit)

    forward_entry-ReadsHop : ReadsHop forward_entry
    forward_entry-ReadsHop a b h m = rw (h, m) refl

    exit_entry-ReadsHop : ReadsHop exit_entry
    exit_entry-ReadsHop a b h m = rw (h, m) refl

    reached :
        {s : RouterState} {t : Tables self peer_of}
        → Reached s t
        → UniqueKeys prefix_eq s.routes × Agrees s t
    unfolding init_router find
    reached (Reached.start tunables prefixes) = (tt, λ p. (tt, tt))
    reached (Reached.step {s} {t} {o} r move) =
        let (u, agrees) = reached r in
        let forwards = step-Follows forward_entry forward_entry-ReadsHop move in
        let exits = step-Follows exit_entry exit_entry-ReadsHop move in
        (
          forwards.unique u,
          λ p. (
            rw (get-table_calls t o.1 p).0 (forwards.fits p (T.get p t.forward) u (agrees p).0),
            rw (get-table_calls t o.1 p).1 (exits.fits p (T.get p t.exit) u (agrees p).1),
          ),
        )

    -- From `InitRouter` on, after any sequence of received messages, computations, periodic tasks and
    -- changes of the neighbours, the advertisements and the own sequence numbers from outside, the
    -- tables agree with the routing table, if the peer of a node stays the same: for a prefix with a
    -- route, the forwarding table holds the route's next hop and its peer, or a blackhole if the
    -- metric is infinite, and the exit table holds the same entry if the metric is finite and the
    -- next hop is the node itself, and none otherwise.
    pub reached-agree :
        (s : RouterState) (t : Tables self peer_of) (p : Prefix) (r : SelRoute)
        → Reached s t
        → find prefix_eq p s.routes ≡ some r
        → (T.get p t.forward ≡ forward_entry r) × (T.get p t.exit ≡ exit_entry r)
    reached-agree s t p r h here =
        let (forwards, exits) = (reached h).1 p in
        (
          subst (λ o. Fits forward_entry o (T.get p t.forward)) here forwards,
          subst (λ o. Fits exit_entry o (T.get p t.exit)) here exits,
        )
