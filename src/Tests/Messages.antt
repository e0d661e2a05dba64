-- ===== src/Tests/Messages.antt =====
-- Packets from neighbours, and requests that wait for a flush.
use nylon.Base.{
  ℕ, Bool, ◌≡◌, refl, ◌⊎◌, true, List, [], ◌∷◌, ◌++◌, none, some, arith, All, ℕ_discrete,
}
use nylon.Base.Maps.{Map, find, put, find-put_self}
use nylon.Router.Compute.{compute_routes}
use nylon.Router.Handlers.Expected.{Applied}
use nylon.Router.Flush.{Ny, Flushed, flush_loop, seqno_request, route_update, ack_retract}
use nylon.Router.Flush.Bundles.{messages, flush_loop_sends}
use nylon.Router.Flush.Filling.{IsShort, concat}
use nylon.Router.Messages.{Central, NyUpdate, router_handle_route_update}
use nylon.Router.Messages.Guards.{Known, announced_route, router_handle_route_update_guarded}
use nylon.Router.Metric.{seqno_lt}
use nylon.Router.Pending.{DedupCache, IoPending, request_on, broadcast_send_route_update}
use nylon.Router.Pending.Requests.{Queued, request_on_stale, broadcast_send_route_update-Queued}
use nylon.Router.State.{Source, Neighbour, RouterState, Call, source_eq, get_neighbour}
use nylon.Tests.Network.{small, source, route, start}

-- a cache whose entries stay
instance abbrev lasting : DedupCache
lasting = record {
  Cache = Map Source ℕ;
  empty = [];
  get = λ now src c. find source_eq src c;
  set = λ now src v c. put source_eq src v c;
  delete_expired = λ now c. c;
}

abbrev central : Central
central = record { prefixes = 100 ∷ []; nodes = 1 ∷ 2 ∷ 3 ∷ 4 ∷ [] }

abbrev update : NyUpdate
update = record { router_id = 4; prefix = some 100; seqno = 2; metric = 40 }

router_handle_route_update_guarded_example :
    ((router_handle_route_update central start 0 2 update ≡ some (start, []))
      × ((update.prefix ≡ none)
          ⊎ ((prefix : ℕ) × (update.prefix ≡ some prefix) × ¬ (Known central start 2 4 prefix))))
    ⊎ ((prefix : ℕ) × (n : Neighbour) × (s' : RouterState) × (calls : List Call) × (update.prefix
          ≡ some prefix)
        × Known central start 2 4 prefix
        × (get_neighbour start 2 ≡ some n)
        × Applied start 0 n (announced_route update prefix) s' calls
        × (router_handle_route_update central start 0 2 update
            ≡ some ((compute_routes s' 0).0, calls ++ (compute_routes s' 0).1)))
router_handle_route_update_guarded_example =
    router_handle_route_update_guarded central start 0 2 update

-- a request for the sequence number 5 waits
abbrev waiting : IoPending
waiting = record {
  seqno_req = (source, (5, 60)) ∷ [];
  seqno_dedup = (source, 5) ∷ [];
  acks = [];
  updates = [];
}

request_on_stale_example :
    let nio' = request_on 0 waiting source 6 64 in
    (find source_eq source nio'.seqno_req ≡ some (5, 64)) × (request_on 0 nio' source 6 64 ≡ nio')
unfolding find source_eq seqno_lt ℕ_discrete
request_on_stale_example =
    request_on_stale (λ now src v c. find-put_self source_eq src v c) 0 waiting source 5 6 60 64
      refl refl refl (omega arith)

broadcast_send_route_update-Queued_example :
    All
      (Queued (broadcast_send_route_update start.neighbours (route 1 40) []) (route 1 40))
      start.neighbours
broadcast_send_route_update-Queued_example =
    broadcast_send_route_update-Queued start.neighbours (route 1 40) []

-- two requests, an update and an acknowledgement, each of 10 bytes
abbrev full : IoPending
full = record {
  seqno_req = (source, (5, 60)) ∷ (record { node_id = 4; prefix = 101 }, (2, 64)) ∷ [];
  seqno_dedup = [];
  acks = (100, tt) ∷ [];
  updates = (100, route 1 50) ∷ [];
}

abbrev ten : Ny → ℕ
ten m = 10

abbrev takes_all : List Ny → Bool
takes_all b = true

flush_loop_sends_example :
    (r : Flushed ten 25 takes_all) × (flush_loop ten 25 takes_all 5 full ≡ some r)
    × (concat r.sent ++ messages r.waiting ≡ messages full)
    × All (IsShort ten 25) r.sent
    × (r.ok ≡ true → (messages r.waiting ≡ []) × All (λ b. takes_all b ≡ true) r.sent)
flush_loop_sends_example = flush_loop_sends ten 25 takes_all (λ m. omega arith) full

-- two bundles
flush_twice :
    flush_loop ten 25 takes_all 5 full
    ≡ some (record {
      sent =
          (seqno_request (source, (5, 60))
            ∷ seqno_request (record { node_id = 4; prefix = 101 }, (2, 64))
            ∷ [])
          ∷ (route_update (100, route 1 50) ∷ ack_retract (100, tt) ∷ [])
          ∷ [];
      waiting = record full { seqno_req = []; updates = []; acks = [] };
      ok = true;
    })
unfolding flush_loop
flush_twice = refl
