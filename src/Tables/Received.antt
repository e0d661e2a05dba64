-- ===== src/Tables/Received.antt =====
-- What the packet handlers of core/router.go do to the routing table and to the entry of a prefix in a
-- table.
use nylon.Base.{
  ℕ, ◌≡◌, refl, subst, Bool, true, false, not, [], Option, none, some, arith, if◌then◌else◌, inl,
  inr, Option-cases,
}
use nylon.Platform.{Platform}
use nylon.Router.Handlers.{Outcome}
use nylon.Router.Messages.{
  router_apply_route_update, router_handle_route_update, router_handle_ack_retract,
  router_handle_seqno_request, accepts, update_route, compute_after, Central, NyUpdate,
  NySeqnoRequest,
}
use nylon.Router.State.{SelRoute, RouterState}
use nylon.Tables.Fits.{ReadsHop}
use nylon.Tables.Steps as Steps
use nylon.Tables.Steps.{
  Follows, quiet-Follows, if-Follows, trans-Follows, compute_routes-Follows,
  handle_neighbour_update-Follows,
}

module _ ⦃P : Platform⦄ where
  open P use {NodeId, Prefix}

  module _ {E : Type 0} (value : SelRoute → Option E) (same_value : ReadsHop value) where
    -- an outcome, if there is one, follows the state
    abbrev AllFollows : RouterState → Option (Outcome × Bool) → Type 0
    AllFollows s none = Unit
    AllFollows s (some (o, applied)) = Follows value s o

    applied-AllFollows :
        (s : RouterState) (result : Option Outcome)
        → ((o : Outcome) → result ≡ some o → Follows value s o)
        → AllFollows s (elim result [ none ↦ none | some outcome ↦ some (outcome, true) ])
    applied-AllFollows s none h = tt
    applied-AllFollows s (some o) h = h o refl

    if-AllFollows :
        (s : RouterState) (b : Bool) (x y : Option (Outcome × Bool))
        → AllFollows s x
        → AllFollows s y
        → AllFollows s (if b then x else y)
    if-AllFollows s true x y h h' = h
    if-AllFollows s false x y h h' = h'

    apply_update-AllFollows :
        (c : Central) (s : RouterState) (now : ℕ) (node : NodeId) (update : NyUpdate)
        → AllFollows s (router_apply_route_update c s now node update)
    unfolding router_apply_route_update
    apply_update-AllFollows c s now node update = elim (Option-cases update.prefix) [
      | inl e ↦ rw (e, router_apply_route_update) (quiet-Follows value s s [] refl (λ p. tt))
      | inr (prefix, e) ↦
          rw (e, router_apply_route_update)
            (if-AllFollows s (not (accepts c s node update.router_id prefix))
              (some ((s, []), false)) _ (quiet-Follows value s s [] refl (λ p. tt))
              (applied-AllFollows s _
                (handle_neighbour_update-Follows value s now node (update_route update prefix))))
    ]

    pub apply_update-Follows :
        (c : Central) (s : RouterState) (now : ℕ) (node : NodeId) (update : NyUpdate) (o : Outcome)
        (applied : Bool)
        → router_apply_route_update c s now node update ≡ some (o, applied)
        → Follows value s o
    apply_update-Follows c s now node update o applied h =
        subst (AllFollows s) h (apply_update-AllFollows c s now node update)

    compute_after-Follows :
        (s : RouterState) (now : ℕ) (o : Outcome) (applied : Bool)
        → Follows value s o
        → Follows value s (compute_after now (o, applied))
    unfolding compute_after
    compute_after-Follows s now o applied h =
        if-Follows value s applied _ _
          (trans-Follows value s o.0 _ o.1 _ h (compute_routes-Follows value same_value o.0 now)) h

    handle_update-AllFollows :
        (s : RouterState) (now : ℕ) (result : Option (Outcome × Bool)) (o : Outcome)
        → AllFollows s result
        → elim result [ none ↦ none | some r ↦ some (compute_after now r) ] ≡ some o
        → Follows value s o
    handle_update-AllFollows s now none o h e = absurd (ground arith)
    handle_update-AllFollows s now (some (o', applied)) o h e =
        subst (Follows value s) (ground arith) (compute_after-Follows s now o' applied h)

    pub handle_update-Follows :
        (c : Central) (s : RouterState) (now : ℕ) (node : NodeId) (update : NyUpdate) (o : Outcome)
        → router_handle_route_update c s now node update ≡ some o
        → Follows value s o
    unfolding router_handle_route_update
    handle_update-Follows c s now node update o h =
        handle_update-AllFollows s now (router_apply_route_update c s now node update) o
          (apply_update-AllFollows c s now node update) h

    pub handle_ack_retract-Follows :
        (c : Central) (s : RouterState) (now : ℕ) (neigh : NodeId) (prefix : Option Prefix)
        → Follows value s (router_handle_ack_retract c s now neigh prefix)
    unfolding router_handle_ack_retract
    handle_ack_retract-Follows c s now neigh none = quiet-Follows value s s [] refl (λ p. tt)
    handle_ack_retract-Follows c s now neigh (some prefix) =
        if-Follows value s _ _ _ (quiet-Follows value s s [] refl (λ p. tt))
          (Steps.handle_ack_retract-Follows value same_value s now neigh prefix)

    pub handle_seqno_request-Follows :
        (c : Central) (s : RouterState) (now : ℕ) (neigh : NodeId) (pkt : NySeqnoRequest)
        → Follows value s (router_handle_seqno_request c s now neigh pkt)
    unfolding router_handle_seqno_request
    handle_seqno_request-Follows c s now neigh pkt = elim (Option-cases pkt.prefix) [
      | inl e ↦ rw (e, router_handle_seqno_request) (quiet-Follows value s s [] refl (λ p. tt))
      | inr (prefix, e) ↦
          rw (e, router_handle_seqno_request)
            (if-Follows value s _ _ _ (quiet-Follows value s s [] refl (λ p. tt))
              (Steps.handle_seqno_request-Follows value same_value s now neigh _ _ _))
    ]
