-- ===== src/Tests/Unicast.antt =====
-- A packet for an exit node on a short path.
use nylon.Base.{ℕ, ◌≡◌, refl, true, false, List, [], ◌∷◌, some, arith, ℕ_discrete}
use nylon.Base.Maps.{find}
use nylon.Tables.{RouteTableEntry}
use nylon.Tests.Network.{small}
use nylon.Unicast.{
  Lse, ExitFilterSnapshot, Action, DropReason, Wrapped, encode_mpls_lse, decode_mpls_lse,
  packet_addr, decap, wrap_exit_packet,
}
use nylon.Unicast.Label.{decode-encode, encode-decode}
use nylon.Unicast.Tunnel.{OnTheWay, frame, relay, relay_expires, wrap-relay}

-- an IPv4 packet from 10.0.0.1 to 10.0.0.2
abbrev packet : List ℕ
packet = 69 ∷ 0 ∷ 0 ∷ 20 ∷ 0 ∷ 0 ∷ 0 ∷ 0 ∷ 64 ∷ 6 ∷ 0 ∷ 0 ∷ 10 ∷ 0 ∷ 0 ∷ 1 ∷ 10 ∷ 0 ∷ 0 ∷ 2 ∷ []

abbrev entry : RouteTableEntry
entry = record { nh = 2; peer = some 9; blackhole = false }

abbrev middle : ExitFilterSnapshot
middle = record {
  local_id_numeric = 17;
  advertise_exit_node = false;
  node_forward = (20, entry) ∷ [];
}

abbrev exit : ExitFilterSnapshot
exit = record { local_id_numeric = 20; advertise_exit_node = true; node_forward = [] }

middle-OnTheWay : OnTheWay 20 middle
unfolding find ℕ_discrete
middle-OnTheWay = record {
  entry = entry;
  peer = 9;
  elsewhere = λ e. omega arith;
  route = refl;
  next_hop = refl;
}

abbrev wrapped : Wrapped
wrapped = record { payload = frame 20 64 packet; total = 28 }

wrap-relay_example :
    relay (middle ∷ middle ∷ exit ∷ []) wrapped.payload ≡ some (Action.tc_bounce_ip packet)
unfolding wrap_exit_packet decap packet_addr
wrap-relay_example =
    wrap-relay 2000 20 packet wrapped (middle ∷ middle ∷ []) exit refl (omega arith)
      (middle-OnTheWay, (middle-OnTheWay, tt)) (omega arith) refl refl refl

relay_expires_example :
    relay (middle ∷ middle ∷ exit ∷ []) (frame 20 2 packet)
    ≡ some (Action.tc_drop DropReason.ttl_exceeded)
relay_expires_example =
    relay_expires 20 packet (omega arith) (middle ∷ middle ∷ []) exit 2 refl (omega arith)
      (middle-OnTheWay, (middle-OnTheWay, tt))

abbrev lse : Lse
lse = record { label = 20; tc = 5; bos = true; ttl = 64 }

decode-encode_example : decode_mpls_lse (encode_mpls_lse lse) ≡ lse
decode-encode_example = decode-encode lse (omega arith) (omega arith) (omega arith)

encode-decode_example :
    encode_mpls_lse (decode_mpls_lse (0 ∷ 1 ∷ 75 ∷ 64 ∷ [])) ≡ 0 ∷ 1 ∷ 75 ∷ 64 ∷ []
encode-decode_example =
    encode-decode 0 1 75 64 (omega arith) (omega arith) (omega arith) (omega arith)
