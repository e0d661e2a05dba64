-- ===== src/Unicast.antt =====
-- core/nylon_unicast.go: packets from node to node under an MPLS label. A packet is the payload of the
-- poly frame, as bytes; the frame itself and `ParsePacket` belong to polyamide.
pub mod Label
pub mod Tunnel
use nylon.Base.{
  ℕ, zero, suc, ◌+◌, ◌-◌, ◌*◌, ◌/◌, ◌%◌, ◌^◌, Bool, true, false, not, List, [], ◌∷◌, ◌++◌, Option,
  none, some, ltb, ◌==◌, if◌then◌else◌, length, get_or, drop, take, ◌⊎◌, inl, inr, ℕ_discrete,
}
use nylon.Base.Maps.{Map, find}
use nylon.NodeIds.{invalid_node_id_numeric}
use nylon.Platform.{Platform}
use nylon.Tables.{RouteTableEntry}

-- `device.MplsLseLen`, `device.PolyHeaderSize` and `device.MessageTransportHeaderSize`
abbrev pub mpls_lse_len : ℕ
mpls_lse_len = 4

abbrev pub poly_header_size : ℕ
poly_header_size = 3

abbrev pub message_transport_header_size : ℕ
message_transport_header_size = 16

abbrev pub ny_unicast_header_size : ℕ
ny_unicast_header_size = 1 + mpls_lse_len

abbrev pub ny_unicast_default_ttl : ℕ
ny_unicast_default_ttl = 64

abbrev pub ny_unicast_subtype_mpls : ℕ
ny_unicast_subtype_mpls = 1

-- `binary.BigEndian.PutUint32` and `Uint32`
unfoldable pub put_uint32 : ℕ → List ℕ
put_uint32 v = v / 2 ^ 24 % 256 ∷ v / 2 ^ 16 % 256 ∷ v / 2 ^ 8 % 256 ∷ v % 256 ∷ []

unfoldable pub get_uint32 : List ℕ → ℕ
get_uint32 b = get_or b 0 0 * 2 ^ 24 + get_or b 1 0 * 2 ^ 16 + get_or b 2 0 * 2 ^ 8 + get_or b 3 0

pub record Lse : Type 0 where
  pub label : ℕ
  pub tc : ℕ
  pub bos : Bool
  pub ttl : ℕ

-- the four fields do not overlap, so that `|` adds them
unfoldable pub encode_mpls_lse : Lse → List ℕ
unfolding put_uint32
encode_mpls_lse l =
    put_uint32
      (l.label % 2 ^ 20 * 2 ^ 12 + l.tc % 2 ^ 3 * 2 ^ 9 + (if l.bos then 2 ^ 8 else 0) + l.ttl)

unfoldable pub decode_mpls_lse : List ℕ → Lse
unfolding get_uint32
decode_mpls_lse b = record {
  label = get_uint32 b / 2 ^ 12;
  tc = get_uint32 b / 2 ^ 9 % 2 ^ 3;
  bos = get_uint32 b / 2 ^ 8 % 2 == 1;
  ttl = get_uint32 b % 2 ^ 8;
}

pub data AddrError : Type 0 where
  empty_inner_packet short_ipv4_packet short_ipv6_packet not_ip : AddrError

-- `packet[offset : offset+n]` as an address, or the error for a short packet
unfoldable pub slice_addr : List ℕ → (offset n : ℕ) → AddrError → AddrError ⊎ List ℕ
slice_addr packet offset n e =
    if ltb (length packet) (offset + n) then inl e else inr (take n (drop offset packet))

-- the offsets of `device.IPv4offsetSrc` and the like
unfoldable pub packet_addr : List ℕ → Bool → AddrError ⊎ List ℕ
unfolding slice_addr
packet_addr [] src = inl AddrError.empty_inner_packet
packet_addr (b ∷ bs) src =
    if b / 2 ^ 4 == 4
    then slice_addr (b ∷ bs) (if src then 12 else 16) 4 AddrError.short_ipv4_packet
    else if b / 2 ^ 4 == 6
    then slice_addr (b ∷ bs) (if src then 8 else 24) 16 AddrError.short_ipv6_packet
    else inl AddrError.not_ip

pub data DropReason : Type 0 where
  short_header ttl_exceeded no_exit no_payload truncated : DropReason
  no_route : ℕ → DropReason
  bad_inner : AddrError → DropReason

-- `packet.Payload()` with the byte at an index one lower, as `lse[i]--` on a byte
unfoldable pub decrement_at : ℕ → List ℕ → List ℕ
decrement_at i [] = []
decrement_at zero (b ∷ bs) = (b + 255) % 256 ∷ bs
decrement_at (suc i) (b ∷ bs) = b ∷ decrement_at i bs

module _ ⦃P : Platform⦄ where
  open P use {NodeId}

  -- the fields of the snapshot that the handler reads, except the names for traces
  pub record ExitFilterSnapshot : Type 0 where
    pub local_id_numeric : ℕ
    pub advertise_exit_node : Bool
    pub node_forward : Map ℕ RouteTableEntry

  -- The result: a drop, the payload for a peer, the inner MPLS packet for the TUN, or the inner IP
  -- packet for the local stack.
  pub data Action : Type 0 where
    tc_drop : DropReason → Action
    tc_forward : P.Peer → List ℕ → Action
    tc_bounce_mpls tc_bounce_ip : List ℕ → Action

  -- label is not us
  unfoldable pub transit : ExitFilterSnapshot → List ℕ → ℕ → Action
  unfolding decrement_at
  transit snap payload label = elim (find ℕ_discrete label snap.node_forward) [
    | none ↦ Action.tc_drop (DropReason.no_route label)
    | some entry ↦ elim entry.peer [
      | none ↦ Action.tc_drop (DropReason.no_route label)
      | some peer ↦ Action.tc_forward peer (decrement_at mpls_lse_len payload)
    ]
  ]

  -- label is us, and it is the bottom of the stack
  unfoldable pub decap : List ℕ → Action
  unfolding packet_addr
  decap inner = elim (packet_addr inner true) [
    | inl e ↦ Action.tc_drop (DropReason.bad_inner e)
    | inr src ↦ elim (packet_addr inner false) [
      | inl e ↦ Action.tc_drop (DropReason.bad_inner e)
      | inr dst ↦ Action.tc_bounce_ip inner
    ]
  ]

  -- label is us
  unfoldable pub terminal : ExitFilterSnapshot → List ℕ → Bool → Action
  unfolding decap
  terminal snap rest bos =
      if not snap.advertise_exit_node
      then Action.tc_drop DropReason.no_exit
      else if length rest == 0
      then Action.tc_drop DropReason.no_payload
      else if bos
      then decap rest
      else if ltb (length rest) mpls_lse_len
      then Action.tc_drop DropReason.truncated
      else Action.tc_bounce_mpls rest

  -- the handler, given the label-stack entry that it decodes
  unfoldable pub dispatch : ExitFilterSnapshot → List ℕ → Lse → Action
  unfolding transit terminal
  dispatch snap payload lse =
      if ltb (length payload) ny_unicast_header_size
      then Action.tc_drop DropReason.short_header
      else if lse.ttl == 0
      then Action.tc_drop DropReason.ttl_exceeded
      else if not (lse.label == snap.local_id_numeric)
      then transit snap payload lse.label
      else terminal snap (drop ny_unicast_header_size payload) lse.bos

  unfoldable pub handle_mpls_packet : ExitFilterSnapshot → List ℕ → Action
  unfolding decode_mpls_lse dispatch
  handle_mpls_packet snap payload =
      dispatch snap payload (decode_mpls_lse (take mpls_lse_len (drop 1 payload)))

pub data WrapError : Type 0 where
  invalid_node_id too_large : WrapError

-- what is set on the frame: its payload, and its length as a `uint16`
pub record Wrapped : Type 0 where
  pub payload : List ℕ
  pub total : ℕ

-- `buffer` is the size of `packet.Buffer`
unfoldable pub wrap_exit_packet : (buffer : ℕ) → List ℕ → (exit : ℕ) → WrapError ⊎ Wrapped
unfolding encode_mpls_lse
wrap_exit_packet buffer inner exit =
    let total = poly_header_size + ny_unicast_header_size + length inner in
    if exit == invalid_node_id_numeric
    then inl WrapError.invalid_node_id
    else if ltb (buffer - message_transport_header_size) total
    then inl WrapError.too_large
    else inr (record {
      payload =
          ny_unicast_subtype_mpls
            ∷ encode_mpls_lse
                (record { label = exit; tc = 0; bos = true; ttl = ny_unicast_default_ttl })
          ++ inner;
      total = total % 2 ^ 16;
    })
