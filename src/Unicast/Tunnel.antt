-- ===== src/Unicast/Tunnel.antt =====
-- A packet of core/nylon_unicast.go on its way: wrapped at the origin, passed on by transit nodes, and
-- unwrapped at the exit.
use nylon.Base.{
  ℕ, suc, ◌+◌, ◌-◌, ◌*◌, ◌/◌, ◌%◌, ◌^◌, ◌<◌, ◌≡◌, ◌≢◌, refl, ap, ◌∙◌, true, false, not, List, [],
  ◌∷◌, ◌++◌, Option, none, some, inr, arith, ltb, ◌==◌, if◌then◌else◌, length, drop, take, All,
  ℕ_discrete,
}
use nylon.Base.Maps.{find}
use nylon.Platform.{Platform}
use nylon.Unicast.{
  Lse, encode_mpls_lse, decode_mpls_lse, put_uint32, decrement_at, packet_addr, RouteTableEntry,
  ExitFilterSnapshot, Action, DropReason, transit, dispatch, decap, terminal, handle_mpls_packet,
  Wrapped, wrap_exit_packet, mpls_lse_len, ny_unicast_header_size,
}
use nylon.Unicast.Label.{decode-encode}

-- the entry that leads to `exit` with the hop limit `ttl`
abbrev pub to_exit : ℕ → ℕ → Lse
to_exit exit ttl = record { label = exit; tc = 0; bos = true; ttl = ttl }

-- the payload of a packet for `exit`
abbrev pub frame : ℕ → ℕ → List ℕ → List ℕ
frame exit ttl inner = 1 ∷ encode_mpls_lse (to_exit exit ttl) ++ inner

decrement-frame :
    (exit ttl : ℕ) (inner : List ℕ)
    → suc ttl < 2 ^ 8
    → decrement_at mpls_lse_len (frame exit (suc ttl) inner) ≡ frame exit ttl inner
unfolding decrement_at encode_mpls_lse put_uint32
decrement-frame exit ttl inner h =
    let v = exit % 2 ^ 20 * 2 ^ 12 + 0 % 2 ^ 3 * 2 ^ 9 + 2 ^ 8 + suc ttl in
    let w = exit % 2 ^ 20 * 2 ^ 12 + 0 % 2 ^ 3 * 2 ^ 9 + 2 ^ 8 + ttl in
    let a : v / 2 ^ 24 % 256 ≡ w / 2 ^ 24 % 256 = omega arith in
    let b : v / 2 ^ 16 % 256 ≡ w / 2 ^ 16 % 256 = omega arith in
    let c : v / 2 ^ 8 % 256 ≡ w / 2 ^ 8 % 256 = omega arith in
    let d : (v % 256 + 255) % 256 ≡ w % 256 = omega arith in λ i. 1 ∷ a i ∷ b i ∷ c i ∷ d i ∷ inner

-- what the handler reads from the frame
decode-frame :
    (exit ttl : ℕ) (inner : List ℕ)
    → exit < 2 ^ 20
    → ttl < 2 ^ 8
    → decode_mpls_lse (take mpls_lse_len (drop 1 (frame exit ttl inner))) ≡ to_exit exit ttl
unfolding encode_mpls_lse put_uint32
decode-frame exit ttl inner he ht = decode-encode (to_exit exit ttl) he (omega arith) ht

long_enough :
    (exit ttl : ℕ) (inner : List ℕ)
    → ltb (length (frame exit ttl inner)) ny_unicast_header_size ≡ false
unfolding encode_mpls_lse put_uint32
long_enough exit ttl inner = ground arith

module _ ⦃P : Platform⦄ where
  -- the node is not the exit, and has a peer on the way to it
  pub record OnTheWay (exit : ℕ) (snap : ExitFilterSnapshot) : Type 0 where
    pub entry : RouteTableEntry
    pub peer : P.Peer
    pub elsewhere : exit ≢ snap.local_id_numeric
    pub route : find ℕ_discrete exit snap.node_forward ≡ some entry
    pub next_hop : entry.peer ≡ some peer

  -- the handlers of the nodes that a packet comes to, until one does not forward it
  unfoldable pub relay : List ExitFilterSnapshot → List ℕ → Option Action
  relay [] payload = none
  relay (snap ∷ snaps) payload = elim (handle_mpls_packet snap payload) [
    | Action.tc_forward peer payload' ↦ relay snaps payload'
    | Action.tc_drop why ↦ some (Action.tc_drop why)
    | Action.tc_bounce_mpls rest ↦ some (Action.tc_bounce_mpls rest)
    | Action.tc_bounce_ip inner ↦ some (Action.tc_bounce_ip inner)
  ]

  handle_decoded :
      (snap : ExitFilterSnapshot) (payload : List ℕ) (l : Lse)
      → decode_mpls_lse (take mpls_lse_len (drop 1 payload)) ≡ l
      → ltb (length payload) ny_unicast_header_size ≡ false
      → handle_mpls_packet snap payload ≡ (
          if l.ttl == 0
          then Action.tc_drop DropReason.ttl_exceeded
          else if not (l.label == snap.local_id_numeric)
          then transit snap payload l.label
          else terminal snap (drop ny_unicast_header_size payload) l.bos)
  unfolding handle_mpls_packet dispatch
  handle_decoded snap payload l e f = ap (dispatch snap payload) e ∙ rw f refl

  transit_lem :
      (snap : ExitFilterSnapshot) (payload : List ℕ) (exit : ℕ) (way : OnTheWay exit snap)
      → transit snap payload exit ≡ Action.tc_forward way.peer (decrement_at mpls_lse_len payload)
  unfolding transit
  transit_lem snap payload exit way = rw (way.route, way.next_hop, transit) refl

  relay_forward :
      (snap : ExitFilterSnapshot) (snaps : List ExitFilterSnapshot) (payload payload' : List ℕ)
      (peer : P.Peer)
      → handle_mpls_packet snap payload ≡ Action.tc_forward peer payload'
      → relay (snap ∷ snaps) payload ≡ relay snaps payload'
  unfolding relay
  relay_forward snap snaps payload payload' peer e = rw (e, relay) refl

  relay_drop :
      (snap : ExitFilterSnapshot) (payload : List ℕ) (why : DropReason)
      → handle_mpls_packet snap payload ≡ Action.tc_drop why
      → relay (snap ∷ []) payload ≡ some (Action.tc_drop why)
  unfolding relay
  relay_drop snap payload why e = rw (e, relay) refl

  relay_bounce :
      (snap : ExitFilterSnapshot) (payload inner : List ℕ)
      → handle_mpls_packet snap payload ≡ Action.tc_bounce_ip inner
      → relay (snap ∷ []) payload ≡ some (Action.tc_bounce_ip inner)
  unfolding relay
  relay_bounce snap payload inner e = rw (e, relay) refl

  decap_full :
      (inner : List ℕ) → decap inner ≡ Action.tc_bounce_ip inner → (length inner == 0) ≡ false
  unfolding decap packet_addr
  decap_full [] h = absurd (ground arith)
  decap_full (b ∷ bs) h = ground arith

  module _ (exit : ℕ) (inner : List ℕ) (he : exit < 2 ^ 20) where
    handle-frame :
        (snap : ExitFilterSnapshot) (ttl : ℕ)
        → ttl < 2 ^ 8
        → handle_mpls_packet snap (frame exit ttl inner) ≡ (
            if ttl == 0
            then Action.tc_drop DropReason.ttl_exceeded
            else if not (exit == snap.local_id_numeric)
            then transit snap (frame exit ttl inner) exit
            else terminal snap (drop ny_unicast_header_size (frame exit ttl inner)) true)
    handle-frame snap ttl h =
        handle_decoded snap (frame exit ttl inner) (to_exit exit ttl)
          (decode-frame exit ttl inner he h) (long_enough exit ttl inner)

    handle-transit :
        (snap : ExitFilterSnapshot) (ttl : ℕ)
        → suc ttl < 2 ^ 8
        → (way : OnTheWay exit snap)
        → handle_mpls_packet snap (frame exit (suc ttl) inner)
          ≡ Action.tc_forward way.peer (frame exit ttl inner)
    handle-transit snap ttl h way =
        let live : (suc ttl == 0) ≡ false = ground arith in
        let other : (exit == snap.local_id_numeric) ≡ false =
          (let n = way.elsewhere in ground arith) in
        rw (handle-frame snap (suc ttl) h, live, other)
          (transit_lem snap (frame exit (suc ttl) inner) exit way
            ∙ ap (Action.tc_forward way.peer) (decrement-frame exit ttl inner h))

    handle-terminal :
        (snap : ExitFilterSnapshot) (ttl : ℕ)
        → suc ttl < 2 ^ 8
        → exit ≡ snap.local_id_numeric
        → snap.advertise_exit_node ≡ true
        → (length inner == 0) ≡ false
        → handle_mpls_packet snap (frame exit (suc ttl) inner) ≡ decap inner
    handle-terminal snap ttl h same open_ full =
        let live : (suc ttl == 0) ≡ false = ground arith in
        let here : (exit == snap.local_id_numeric) ≡ true = ground arith in
        rw (handle-frame snap (suc ttl) h, live, here)
          (unfold terminal encode_mpls_lse put_uint32 in rw (open_, full) refl)

    relay-transit :
        (transits rest : List ExitFilterSnapshot) (total ttl : ℕ)
        → total ≡ length transits + ttl
        → total < 2 ^ 8
        → All (OnTheWay exit) transits
        → relay (transits ++ rest) (frame exit total inner) ≡ relay rest (frame exit ttl inner)
    unfolding relay
    relay-transit [] rest total ttl e h ways =
        let same : total ≡ ttl = omega arith in ap (λ t. relay rest (frame exit t inner)) same
    relay-transit (snap ∷ snaps) rest total ttl e h ways =
        let left = length snaps + ttl in
        let same : total ≡ suc left = omega arith in
        ap (λ t. relay (snap ∷ snaps ++ rest) (frame exit t inner)) same
        ∙ relay_forward snap (snaps ++ rest) (frame exit (suc left) inner) (frame exit left inner)
            ways.0.peer (handle-transit snap left (omega arith) ways.0)
        ∙ relay-transit snaps rest left ttl refl (omega arith) ways.1

    -- A packet for the exit, whose label fits in 20 bits, with the hop limit `ttl` below 256 is
    -- forwarded by that many transit nodes that have a peer on the way, and dropped by the next node,
    -- whatever node that is.
    pub relay_expires :
        (transits : List ExitFilterSnapshot) (next : ExitFilterSnapshot) (ttl : ℕ)
        → length transits ≡ ttl
        → ttl < 2 ^ 8
        → All (OnTheWay exit) transits
        → relay (transits ++ next ∷ []) (frame exit ttl inner)
          ≡ some (Action.tc_drop DropReason.ttl_exceeded)
    relay_expires transits next ttl e h ways =
        relay-transit transits (next ∷ []) ttl 0 (omega arith) h ways
        ∙ relay_drop next (frame exit 0 inner) DropReason.ttl_exceeded
            (handle-frame next 0 (omega arith))

  -- An IP packet that the origin wraps for the exit reaches the exit's local stack unchanged, over any
  -- sequence of at most 63 transit nodes that each have a peer on the way to the exit; the exit must
  -- offer the service, its id must fit in a label, and the packet must be one that it can unwrap.
  pub wrap-relay :
      (buffer exit : ℕ) (inner : List ℕ) (w : Wrapped) (transits : List ExitFilterSnapshot)
      (last : ExitFilterSnapshot)
      → wrap_exit_packet buffer inner exit ≡ inr w
      → exit < 2 ^ 20
      → All (OnTheWay exit) transits
      → length transits < 64
      → exit ≡ last.local_id_numeric
      → last.advertise_exit_node ≡ true
      → decap inner ≡ Action.tc_bounce_ip inner
      → relay (transits ++ last ∷ []) w.payload ≡ some (Action.tc_bounce_ip inner)
  wrap-relay buffer exit inner w transits last e he ways few same open_ valid =
      let start : w.payload ≡ frame exit 64 inner = unfold wrap_exit_packet in ground arith in
      let full : (length inner == 0) ≡ false = decap_full inner valid in
      let left = 63 - length transits in
      ap (relay (transits ++ last ∷ [])) start
      ∙ relay-transit exit inner he transits (last ∷ []) 64 (suc left) (omega arith) (omega arith)
          ways
      ∙ relay_bounce last (frame exit (suc left) inner) inner
          (handle-terminal exit inner he last left (omega arith) same open_ full ∙ valid)
