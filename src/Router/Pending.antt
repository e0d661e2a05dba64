-- ===== src/Router/Pending.antt =====
-- core/router.go: what waits for the next flush to each neighbour. `ttlcache` is a parameter.
pub mod Requests
use nylon.Base.{
  ℕ, max, Bool, not, List, [], ◌∷◌, Option, none, some, ltb, is_some, ite, if◌then◌else◌,
  Option-cases,
}
use nylon.Base.Maps.{Map, find, put, keep}
use nylon.Platform.{Platform}
use nylon.Router.Metric.{seqno_ge}
use nylon.Router.State.{Source, PubRoute, Neighbour, RouterState, get_neighbour, source_eq}

module _ ⦃P : Platform⦄ where
  open P use {NodeId, Prefix, node_eq, prefix_eq}

  -- `ttlcache.Cache[state.Source, uint16]` with the expiry of `SeqnoDedupTTL`: `Get`, `Set` and
  -- `DeleteExpired` at a reading of the clock
  pub record DedupCache : Type 1 where
    pub Cache : Type 0
    pub empty : Cache
    pub get : ℕ → Source → Cache → Option ℕ
    pub set : ℕ → Source → ℕ → Cache → Cache
    pub delete_expired : ℕ → Cache → Cache

  module _ ⦃C : DedupCache⦄ where
    -- `updates` holds the routes that the protobuf updates carry
    pub record IoPending : Type 0 where
      pub seqno_req : Map Source (ℕ × ℕ)
      pub seqno_dedup : C.Cache
      pub acks : Map Prefix Unit
      pub updates : Map Prefix PubRoute

    unfoldable pub fresh_io : IoPending
    fresh_io = record { seqno_req = []; seqno_dedup = C.empty; acks = []; updates = [] }

    -- the entry of the neighbour; a missing one is made
    unfoldable pub get_neigh_io : Map NodeId IoPending → NodeId → IoPending
    unfolding fresh_io
    get_neigh_io io neigh = elim (find node_eq neigh io) [ none ↦ fresh_io | some nio ↦ nio ]

    unfoldable pub send_route_update :
        Map NodeId IoPending → NodeId → PubRoute → Map NodeId IoPending
    unfolding get_neigh_io
    send_route_update io neigh adv =
        let nio = get_neigh_io io neigh in
        put node_eq neigh (record nio { updates = put prefix_eq adv.source.prefix adv nio.updates })
          io

    unfoldable pub send_ack_retract : Map NodeId IoPending → NodeId → Prefix → Map NodeId IoPending
    unfolding get_neigh_io
    send_ack_retract io neigh prefix =
        let nio = get_neigh_io io neigh in
        put node_eq neigh (record nio { acks = put prefix_eq prefix tt nio.acks }) io

    unfoldable pub broadcast_send_route_update :
        List Neighbour → PubRoute → Map NodeId IoPending → Map NodeId IoPending
    unfolding send_route_update
    broadcast_send_route_update [] adv io = io
    broadcast_send_route_update (n ∷ ns) adv io =
        broadcast_send_route_update ns adv (send_route_update io n.id adv)

    -- the request that waits after a new one
    unfoldable pub merge_request : Option (ℕ × ℕ) → ℕ → ℕ → ℕ × ℕ
    merge_request none seqno hop_cnt = (seqno, hop_cnt)
    merge_request (some (v1, v2)) seqno hop_cnt =
        if ltb seqno v1
        then (seqno, hop_cnt)
        else if ltb v2 hop_cnt
        then (v1, hop_cnt)
        else (v1, v2)

    -- such a request was sent before
    unfoldable pub is_duplicate : Option ℕ → ℕ → Bool
    is_duplicate none seqno = Bool.false
    is_duplicate (some old) seqno = seqno_ge old seqno

    unfoldable pub max_seq : Option ℕ → ℕ → ℕ
    max_seq none seqno = seqno
    max_seq (some old) seqno = max seqno old

    -- the body of `RequestSeqno` on the neighbour's entry
    unfoldable pub request_on : ℕ → IoPending → Source → (seqno hop_cnt : ℕ) → IoPending
    unfolding merge_request is_duplicate max_seq
    request_on now nio src seqno hop_cnt =
        let old = C.get now src nio.seqno_dedup in
        if is_duplicate old seqno then nio else record nio {
          seqno_dedup = C.set now src (max_seq old seqno) nio.seqno_dedup;
          seqno_req =
              put source_eq src (merge_request (find source_eq src nio.seqno_req) seqno hop_cnt)
                nio.seqno_req;
        }

    unfoldable pub request_seqno :
        ℕ → Map NodeId IoPending → NodeId → Source → (seqno hop_cnt : ℕ) → Map NodeId IoPending
    unfolding get_neigh_io request_on
    request_seqno now io neigh src seqno hop_cnt =
        put node_eq neigh (request_on now (get_neigh_io io neigh) src seqno hop_cnt) io

    unfoldable pub broadcast_request_seqno :
        ℕ
        → List Neighbour
        → Source
        → (seqno hop_cnt : ℕ) → Map NodeId IoPending
        → Map NodeId IoPending
    unfolding request_seqno
    broadcast_request_seqno now [] src seqno hop_cnt io = io
    broadcast_request_seqno now (n ∷ ns) src seqno hop_cnt io =
        broadcast_request_seqno now ns src seqno hop_cnt
          (request_seqno now io n.id src seqno hop_cnt)

    -- `GcRouter` after `RunGC`: entries of neighbours that are gone, and expired cache entries
    unfoldable pub gc_io : RouterState → ℕ → Map NodeId IoPending → Map NodeId IoPending
    unfolding keep
    gc_io s now io =
        keep
          (λ id nio.
            if is_some (get_neighbour s id)
            then some (record nio { seqno_dedup = C.delete_expired now nio.seqno_dedup })
            else none)
          io
