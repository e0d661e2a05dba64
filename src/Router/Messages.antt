-- ===== src/Router/Messages.antt =====
-- The packet handlers of core/router.go: `routerHandleRouteUpdate`, `routerHandleAckRetract` and
-- `routerHandleSeqnoRequest`. A prefix that fails to unmarshal is `none`.
pub mod Guards
use nylon.Base.{
  ℕ, ◌%◌, ◌^◌, Bool, not, ◌&&◌, List, [], ◌++◌, Option, none, some, is_yes, contains_func,
  if◌then◌else◌,
}
use nylon.Platform.{Platform}
use nylon.Router.Compute.{compute_routes}
use nylon.Router.Handlers.{
  Outcome, handle_neighbour_update, handle_ack_retract, handle_seqno_request,
}
use nylon.Router.State.{PubRoute, Source, Fd, RouterState}

module _ ⦃P : Platform⦄ where
  open P use {NodeId, Prefix, node_eq, prefix_eq}

  -- what the central configuration answers: `GetPrefixes`, and the ids that `TryGetNode` finds
  pub record Central : Type 0 where
    pub prefixes : List Prefix
    pub nodes : List NodeId

  -- `protocol.Ny_Update` and `protocol.Ny_SeqnoRequest`
  pub record NyUpdate : Type 0 where
    pub router_id : NodeId
    pub prefix : Option Prefix
    pub seqno : ℕ
    pub metric : ℕ

  pub record NySeqnoRequest : Type 0 where
    pub router_id : NodeId
    pub prefix : Option Prefix
    pub seqno : ℕ
    pub hop_count : ℕ

  unfoldable pub check_neigh : RouterState → NodeId → Bool
  check_neigh s id = contains_func (λ n. is_yes (node_eq n.id id)) s.neighbours

  unfoldable pub check_prefix : Central → Prefix → Bool
  check_prefix c prefix = contains_func (λ p. is_yes (prefix_eq p prefix)) c.prefixes

  unfoldable pub check_node : Central → NodeId → Bool
  check_node c id = contains_func (λ n. is_yes (node_eq n id)) c.nodes

  -- the route that an update carries; the conversion to `uint16` wraps
  unfoldable pub update_route : NyUpdate → Prefix → PubRoute
  update_route update prefix = record {
    source = record { node_id = update.router_id; prefix = prefix };
    fd = record { seqno = update.seqno % 2 ^ 16; metric = update.metric };
  }

  -- the guards of an update
  unfoldable pub accepts : Central → RouterState → NodeId → NodeId → Prefix → Bool
  unfolding check_neigh check_prefix check_node
  accepts c s node router_id prefix =
      check_neigh s node && check_prefix c prefix && check_node c router_id

  -- The outcome, and whether the update was applied. The outer `none` is the nil dereference that
  -- `HandleNeighbourUpdate` makes for an unknown neighbour.
  unfoldable pub router_apply_route_update :
      Central → RouterState → ℕ → NodeId → NyUpdate → Option (Outcome × Bool)
  unfolding accepts update_route
  router_apply_route_update c s now node update = elim update.prefix [
    | none ↦ some ((s, []), Bool.false)
    | some prefix ↦
        if not (accepts c s node update.router_id prefix)
        then some ((s, []), Bool.false)
        else elim (handle_neighbour_update s now node (update_route update prefix)) [
          | none ↦ none
          | some outcome ↦ some (outcome, Bool.true)
        ]
  ]

  -- the routes are computed once an update was applied
  unfoldable pub compute_after : ℕ → Outcome × Bool → Outcome
  compute_after now ((s, calls), applied) =
      let (s', calls') = compute_routes s now in
      if applied then (s', calls ++ calls') else (s, calls)

  unfoldable pub router_handle_route_update :
      Central → RouterState → ℕ → NodeId → NyUpdate → Option Outcome
  unfolding router_apply_route_update compute_after
  router_handle_route_update c s now node update =
      elim (router_apply_route_update c s now node update) [
        | none ↦ none
        | some result ↦ some (compute_after now result)
      ]

  unfoldable pub router_handle_ack_retract :
      Central → RouterState → ℕ → NodeId → Option Prefix → Outcome
  unfolding check_prefix check_neigh
  router_handle_ack_retract c s now neigh none = (s, [])
  router_handle_ack_retract c s now neigh (some prefix) =
      if not (check_prefix c prefix && check_neigh s neigh)
      then (s, [])
      else handle_ack_retract s now neigh prefix

  unfoldable pub router_handle_seqno_request :
      Central → RouterState → ℕ → NodeId → NySeqnoRequest → Outcome
  unfolding accepts
  router_handle_seqno_request c s now neigh pkt = elim pkt.prefix [
    | none ↦ (s, [])
    | some prefix ↦
        if not (accepts c s neigh pkt.router_id prefix)
        then (s, [])
        else handle_seqno_request s now neigh (record { node_id = pkt.router_id; prefix = prefix })
            (pkt.seqno % 2 ^ 16) (pkt.hop_count % 2 ^ 8)
  ]
