-- ===== src/Router/Flush.antt =====
-- `flushIO` of core/router.go: the waiting messages of each neighbour, coalesced into bundles.
-- A list stands for the order in which `range` visits a map, in every pass of one flush.
pub mod Filling
pub mod Bundles
use nylon.Base.{
  ℕ, zero, suc, ◌+◌, Bool, true, false, not, ◌&&◌, ◌||◌, List, [], ◌∷◌, ◌++◌, Option, none, some,
  length, leb, ◌==◌, if◌then◌else◌,
}
use nylon.Base.Maps.{Map, put}
use nylon.Endpoint.Cost.{Endpoint, active}
use nylon.Platform.{Platform}
use nylon.Router.Pending.{DedupCache, IoPending, get_neigh_io}
use nylon.Router.State.{Source, PubRoute, Neighbour, neighbour_best}

-- a loop over one of the maps: what it leaves, the bundle and its length, and whether it went to
-- `send`
pub record Filled {ℓ} (A B : Type ℓ) : Type ℓ where
  pub left : List A
  pub bundle : List B
  pub t_length : ℕ
  pub full : Bool

module _ {ℓ} {A B : Type ℓ} (size : B → ℕ) (safe_mtu : ℕ) (make : A → B) where
  unfoldable pub fill : List A → List B → ℕ → Filled A B
  fill [] bundle t = record { left = []; bundle = bundle; t_length = t; full = false }
  fill (x ∷ xs) bundle t =
      let req = make x in
      let rest = fill xs (bundle ++ req ∷ []) (t + size req) in
      if not (t == 0) && leb safe_mtu (t + size req)
      then record { left = x ∷ xs; bundle = bundle; t_length = t; full = true }
      else rest

module _ ⦃P : Platform⦄ where
  open P use {NodeId, Prefix, node_eq}

  -- `protocol.Ny`, of the types that wait
  pub data Ny : Type 0 where
    seqno_request_op : Source → (seqno hop_count : ℕ) → Ny
    route_op : PubRoute → Ny
    ack_retract_op : Prefix → Ny

  abbrev pub seqno_request : Source × (ℕ × ℕ) → Ny
  seqno_request (src, (seqno, hop_cnt)) = Ny.seqno_request_op src seqno hop_cnt

  abbrev pub route_update : Prefix × PubRoute → Ny
  route_update (prefix, update) = Ny.route_op update

  abbrev pub ack_retract : Prefix × Unit {0} → Ny
  ack_retract (prefix, _) = Ny.ack_retract_op prefix

  -- `size` is `proto.Size`, and `send` says whether `SendNylonBundle` takes the bundle
  module _ ⦃C : DedupCache⦄ (size : Ny → ℕ) (safe_mtu : ℕ) (send : List Ny → Bool) where
    -- one bundle, its length, and what still waits
    unfoldable pub next_bundle : IoPending → List Ny × ℕ × IoPending
    unfolding fill
    next_bundle nio =
        let reqs = fill size safe_mtu seqno_request nio.seqno_req [] 0 in
        let ups = fill size safe_mtu route_update nio.updates reqs.bundle reqs.t_length in
        let acks = fill size safe_mtu ack_retract nio.acks ups.bundle ups.t_length in
        if reqs.full
        then (reqs.bundle, reqs.t_length, record nio { seqno_req = reqs.left })
        else if ups.full
        then (ups.bundle, ups.t_length, record nio { seqno_req = reqs.left; updates = ups.left })
        else (
          acks.bundle,
          acks.t_length,
          record nio { seqno_req = reqs.left; updates = ups.left; acks = acks.left },
        )

    -- the bundles that were handed over, what still waits, and whether each send succeeded
    pub record Flushed : Type 0 where
      pub sent : List (List Ny)
      pub waiting : IoPending
      pub ok : Bool

    -- the loop for one neighbour; `none` where the fuel runs out
    unfoldable pub flush_loop : ℕ → IoPending → Option Flushed
    unfolding next_bundle
    flush_loop zero nio = none
    flush_loop (suc fuel) nio =
        let (bundle, t, nio') = next_bundle nio in
        let rest = flush_loop fuel nio' in
        if t == 0
        then some (record { sent = []; waiting = nio'; ok = true })
        else if not (send bundle)
        then some (record { sent = bundle ∷ []; waiting = nio'; ok = false })
        else elim rest [
          | none ↦ none
          | some r ↦ some (record { sent = bundle ∷ r.sent; waiting = r.waiting; ok = r.ok })
        ]

    -- the messages that wait
    abbrev pub message_count : IoPending → ℕ
    message_count nio = length nio.seqno_req + length nio.updates + length nio.acks

    abbrev pub has_active : ℕ → Option Endpoint → Bool
    has_active now none = false
    has_active now (some best) = active now best

    -- `flushIO`: the bundles for each neighbour, the entries afterwards, and whether no send failed;
    -- the first failure ends it
    unfoldable pub flush_io :
        ℕ
        → List Neighbour
        → Map NodeId IoPending
        → Option (Map NodeId (List (List Ny)) × Map NodeId IoPending × Bool)
    unfolding flush_loop get_neigh_io
    flush_io now [] io = some ([], io, true)
    flush_io now (n ∷ ns) io =
        let nio = get_neigh_io io n.id in
        elim (if has_active now (neighbour_best now n)
          then flush_loop (suc (message_count nio)) nio
          else some (record { sent = []; waiting = nio; ok = true })) [
            | none ↦ none
            | some r ↦
                let io' = put node_eq n.id r.waiting io in
                let rest = flush_io now ns io' in
                if not r.ok then some ((n.id, r.sent) ∷ [], io', false) else elim rest [
                  | none ↦ none
                  | some (bundles, io'', ok) ↦ some ((n.id, r.sent) ∷ bundles, io'', ok)
                ]
          ]
