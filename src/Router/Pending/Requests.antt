-- ===== src/Router/Pending/Requests.antt =====
-- `RequestSeqno` and the broadcast of updates in core/router.go.
use nylon.Base.{
  ℕ, ◌<◌, ◌≡◌, refl, sym, subst, ◌∙◌, ap, true, false, List, [], ◌∷◌, Option, none, some, arith,
  max, All, ite, if_pos, if_neg,
}
use nylon.Base.Maps.{Map, find, put, find-put, find-put_self}
use nylon.Platform.{Platform}
use nylon.Router.Metric.{seqno_lt, seqno_ge}
use nylon.Router.Pending.{
  DedupCache, IoPending, fresh_io, get_neigh_io, send_route_update, broadcast_send_route_update,
  merge_request, is_duplicate, max_seq, request_on,
}
use nylon.Router.State.{Source, PubRoute, Neighbour, source_eq}

module _ ⦃P : Platform⦄ ⦃C : DedupCache⦄ where
  open P use {NodeId, Prefix, node_eq, prefix_eq}

  seqno_ge_refl : (a : ℕ) → seqno_ge a a ≡ true
  unfolding seqno_ge seqno_lt
  seqno_ge_refl a = ground arith

  request_on_duplicate :
      (now : ℕ) (nio : IoPending) (src : Source) (seqno hop_cnt : ℕ)
      → is_duplicate (C.get now src nio.seqno_dedup) seqno ≡ true
      → request_on now nio src seqno hop_cnt ≡ nio
  unfolding request_on
  request_on_duplicate now nio src seqno hop_cnt e = rw (e, request_on) refl

  request_on_new :
      (now : ℕ) (nio : IoPending) (src : Source) (seqno hop_cnt : ℕ)
      → is_duplicate (C.get now src nio.seqno_dedup) seqno ≡ false
      → request_on now nio src seqno hop_cnt ≡ record nio {
        seqno_dedup = C.set now src (max_seq (C.get now src nio.seqno_dedup) seqno) nio.seqno_dedup;
        seqno_req =
            put source_eq src
              (merge_request (find source_eq src nio.seqno_req) seqno hop_cnt)
              nio.seqno_req;
      }
  unfolding request_on
  request_on_new now nio src seqno hop_cnt e = rw (e, request_on) refl

  merge_older :
      (old seqno hops hop_cnt : ℕ)
      → old < seqno
      → merge_request (some (old, hops)) seqno hop_cnt ≡ (old, max hops hop_cnt)
  unfolding merge_request
  merge_older old seqno hops hop_cnt h = ground arith

  -- While a request for an older sequence number waits and is recorded as sent, a request for a newer
  -- one (also as a plain number) only raises its hop count: the older number stays, and the newer one
  -- is recorded as sent, so that asking for it again changes nothing. (A cache entry is read back at
  -- the time at which it is set.)
  pub request_on_stale :
      ((now : ℕ) (src : Source) (v : ℕ) (c : C.Cache) → C.get now src (C.set now src v c) ≡ some v)
      → (now : ℕ) (nio : IoPending) (src : Source) (old seqno hops hop_cnt : ℕ)
      → find source_eq src nio.seqno_req ≡ some (old, hops)
      → C.get now src nio.seqno_dedup ≡ some old
      → seqno_lt old seqno ≡ true
      → old < seqno
      → let nio' = request_on now nio src seqno hop_cnt in
        (find source_eq src nio'.seqno_req ≡ some (old, max hops hop_cnt))
        × (request_on now nio' src seqno hop_cnt ≡ nio')
  unfolding is_duplicate max_seq
  request_on_stale law now nio src old seqno hops hop_cnt waiting sent newer above =
      let nio' = request_on now nio src seqno hop_cnt in
      let new =
        request_on_new now nio src seqno hop_cnt (rw sent (unfold seqno_ge in rw newer refl)) in
      let highest : max_seq (C.get now src nio.seqno_dedup) seqno ≡ seqno = rw sent (omega arith) in
      (
        ap (λ (n : IoPending). find source_eq src n.seqno_req) new
            ∙ find-put_self source_eq src _ nio.seqno_req
            ∙ ap some (
                ap (λ w. merge_request w seqno hop_cnt) waiting
                ∙ merge_older old seqno hops hop_cnt above),
        request_on_duplicate now nio' src seqno hop_cnt (
            ap (λ (n : IoPending). is_duplicate (C.get now src n.seqno_dedup) seqno) new
            ∙ ap (λ o. is_duplicate o seqno) (law now src _ nio.seqno_dedup)
            ∙ ap (λ v. seqno_ge v seqno) highest
            ∙ seqno_ge_refl seqno),
      )

  -- the neighbour is sent the route at the next flush
  abbrev pub Queued : Map NodeId IoPending → PubRoute → Neighbour → Type 0
  Queued io adv n = find prefix_eq adv.source.prefix (get_neigh_io io n.id).updates ≡ some adv

  get_neigh_io_found :
      (io : Map NodeId IoPending) (a : NodeId) (o : Option IoPending)
      → find node_eq a io ≡ o
      → get_neigh_io io a ≡ elim o [ none ↦ fresh_io | some nio ↦ nio ]
  unfolding get_neigh_io
  get_neigh_io_found io a o e = ap (λ x. elim x [ none ↦ fresh_io | some nio ↦ nio ]) e

  get_neigh_io-put :
      (io : Map NodeId IoPending) (a b : NodeId) (nio : IoPending)
      → get_neigh_io (put node_eq a nio io) b ≡ ite (node_eq a b) nio (get_neigh_io io b)
  get_neigh_io-put io a b nio = elim (node_eq a b) [
    | yes e ↦
        get_neigh_io_found (put node_eq a nio io) b (some nio)
          (find-put node_eq a b nio io ∙ if_pos (node_eq a b) e _ _)
        ∙ sym (if_pos (node_eq a b) e _ _)
    | no n ↦
        get_neigh_io_found (put node_eq a nio io) b (find node_eq b io)
          (find-put node_eq a b nio io ∙ if_neg (node_eq a b) n _ _)
        ∙ sym (get_neigh_io_found io b (find node_eq b io) refl)
        ∙ sym (if_neg (node_eq a b) n _ _)
  ]

  send_route_update-Queued :
      (io : Map NodeId IoPending) (adv : PubRoute) (n : Neighbour)
      → Queued (send_route_update io n.id adv) adv n
  unfolding send_route_update
  send_route_update-Queued io adv n =
      let nio = get_neigh_io io n.id in
      ap (λ (x : IoPending). find prefix_eq adv.source.prefix x.updates)
        (get_neigh_io-put io n.id n.id _ ∙ if_pos (node_eq n.id n.id) refl _ _)
      ∙ find-put_self prefix_eq adv.source.prefix adv nio.updates

  send_route_update-keeps :
      (io : Map NodeId IoPending) (adv : PubRoute) (m n : Neighbour)
      → Queued io adv n
      → Queued (send_route_update io m.id adv) adv n
  unfolding send_route_update
  send_route_update-keeps io adv m n q = elim (node_eq m.id n.id) [
    | yes same ↦
        subst
          (λ id.
            find prefix_eq adv.source.prefix
              (get_neigh_io (send_route_update io m.id adv) id).updates
            ≡ some adv)
          same (send_route_update-Queued io adv m)
    | no other ↦
        ap (λ (x : IoPending). find prefix_eq adv.source.prefix x.updates)
          (get_neigh_io-put io m.id n.id _ ∙ if_neg (node_eq m.id n.id) other _ _)
        ∙ q
  ]

  broadcast-keeps :
      (ns : List Neighbour) (adv : PubRoute) (io : Map NodeId IoPending) (n : Neighbour)
      → Queued io adv n
      → Queued (broadcast_send_route_update ns adv io) adv n
  unfolding broadcast_send_route_update
  broadcast-keeps [] adv io n q = q
  broadcast-keeps (m ∷ ms) adv io n q =
      broadcast-keeps ms adv (send_route_update io m.id adv) n
        (send_route_update-keeps io adv m n q)

  -- A broadcast leaves the route waiting for every neighbour, in place of what waited for the prefix.
  pub broadcast_send_route_update-Queued :
      (ns : List Neighbour) (adv : PubRoute) (io : Map NodeId IoPending)
      → All (Queued (broadcast_send_route_update ns adv io) adv) ns
  unfolding broadcast_send_route_update
  broadcast_send_route_update-Queued [] adv io = tt
  broadcast_send_route_update-Queued (n ∷ ns) adv io = (
    broadcast-keeps ns adv (send_route_update io n.id adv) n (send_route_update-Queued io adv n),
    broadcast_send_route_update-Queued ns adv (send_route_update io n.id adv),
  )
