-- ===== src/Router/Run.antt =====
-- The router as a whole: `InitRouter` of core/router.go, and what may happen to its state afterwards,
-- one handler, task or change from outside at a time (they run on one goroutine).
use nylon.Base.{ℕ, ◌+◌, ◌-◌, ◌*◌, ◌^◌, ◌≡◌, Bool, false, List, [], ◌∷◌, Option, some}
use nylon.Base.Maps.{Map, put}
use nylon.Platform.{Platform}
use nylon.Router.Compute.{compute_routes}
use nylon.Router.Handlers.{Outcome}
use nylon.Router.Maintenance.{full_table_update, push_full_table, run_gc, solve_starvation}
use nylon.Router.Messages.{
  Central, NyUpdate, NySeqnoRequest, router_apply_route_update, router_handle_route_update,
  router_handle_ack_retract, router_handle_seqno_request,
}
use nylon.Router.State.{Advertisement, Neighbour, RouterState}
use nylon.Tunables.{RouterTunables}

module _ ⦃P : Platform⦄ where
  open P use {NodeId, Prefix, prefix_eq}

  -- `maxTime`, in nanoseconds
  abbrev pub max_time : ℕ
  max_time = (2 ^ 63 - 62135596801) * 10 ^ 9 + 999999999

  -- the advertisements of the node's own prefixes, each with its `GetMetric`
  unfoldable pub own_prefixes :
      NodeId → List (Prefix × (ℕ → ℕ)) → Map Prefix Advertisement → Map Prefix Advertisement
  own_prefixes id [] m = m
  own_prefixes id ((prefix, get_metric) ∷ rest) m = own_prefixes id rest (
      put prefix_eq prefix
        (record {
          node_id = id;
          expiry = max_time;
          is_passive_hold = false;
          metric_fn = some get_metric;
          expiry_fn = false;
        })
        m)

  unfoldable pub init_router : RouterTunables → NodeId → List (Prefix × (ℕ → ℕ)) → RouterState
  unfolding own_prefixes
  init_router tunables id prefixes = record {
    tunables = tunables;
    id = id;
    self_seqno = [];
    routes = [];
    sources = [];
    neighbours = [];
    advertised = own_prefixes id prefixes [];
  }

  -- one thing that happens to the state, with its outcome
  pub data Step : RouterState → Outcome → Type 0 where
    apply_update :
        (c : Central) (s : RouterState) (now : ℕ) (node : NodeId) (update : NyUpdate) (o : Outcome)
        (applied : Bool)
        → router_apply_route_update c s now node update ≡ some (o, applied)
        → Step s o
    update :
        (c : Central) (s : RouterState) (now : ℕ) (node : NodeId) (update : NyUpdate) (o : Outcome)
        → router_handle_route_update c s now node update ≡ some o
        → Step s o
    ack_retract :
        (c : Central) (s : RouterState) (now : ℕ) (neigh : NodeId) (prefix : Option Prefix)
        → Step s (router_handle_ack_retract c s now neigh prefix)
    seqno_request :
        (c : Central) (s : RouterState) (now : ℕ) (neigh : NodeId) (pkt : NySeqnoRequest)
        → Step s (router_handle_seqno_request c s now neigh pkt)
    compute : (s : RouterState) (now : ℕ) → Step s (compute_routes s now)
    gc : (s : RouterState) (now : ℕ) → Step s (run_gc s now)
    full_update : (s : RouterState) → Step s (full_table_update s)
    push_table : (s : RouterState) (neigh : NodeId) → Step s (push_full_table s neigh)
    starvation : (s : RouterState) (now : ℕ) → Step s (s, solve_starvation s now)
    -- what the configuration, the probes and the passive clients write
    outside :
        (s : RouterState) (neighbours : List Neighbour) (advertised : Map Prefix Advertisement)
        (self_seqno : Map Prefix ℕ)
        → Step s (
          record s { neighbours = neighbours; advertised = advertised; self_seqno = self_seqno },
          [],
        )
