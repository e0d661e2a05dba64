-- ===== src/Tables.antt =====
-- The forwarding tables of core/router.go: `TableInsertRoute` and `TableDeleteRoute`.
pub mod Effect
pub mod Fits
pub mod Steps
pub mod Received
pub mod Tasks
pub mod Agreement
use nylon.Base.{
  ℕ, ◌≡◌, Bool, true, false, List, [], ◌∷◌, Option, none, some, ite, ◌==◌, if◌then◌else◌, is_yes,
}
use nylon.Platform.{Platform}
use nylon.Router.Metric.{inf}
use nylon.Router.Selection.{metric_of}
use nylon.Router.State.{SelRoute, Call}

module _ ⦃P : Platform⦄ where
  open P use {NodeId, Prefix, node_eq, prefix_eq}

  pub record RouteTableEntry : Type 0 where
    pub nh : NodeId
    pub peer : Option P.Peer
    pub blackhole : Bool

  -- `bart.Table[RouteTableEntry]`: insertion, deletion and the entry of exactly one prefix, and the
  -- longest match of an address (its bytes)
  pub record PrefixTable : Type 1 where
    pub Table : Type 0
    pub empty : Table
    pub insert : Prefix → RouteTableEntry → Table → Table
    pub delete : Prefix → Table → Table
    pub get : Prefix → Table → Option RouteTableEntry
    pub lookup : List ℕ → Table → Option RouteTableEntry
    pub get-empty : (p : Prefix) → get p empty ≡ none
    pub get-insert :
        (p q : Prefix) (e : RouteTableEntry) (t : Table)
        → get q (insert p e t) ≡ ite (prefix_eq p q) (some e) (get q t)
    pub get-delete :
        (p q : Prefix) (t : Table) → get q (delete p t) ≡ ite (prefix_eq p q) none (get q t)

  -- `self` is `n.LocalCfg.Id`, and `peer_of` looks up the wireguard peer of a node by its
  -- key; that the node is in the configuration, where `GetNode` panics otherwise, is taken as given
  module _ ⦃T : PrefixTable⦄ (self : NodeId) (peer_of : NodeId → Option P.Peer) where
    -- `ForwardTable` and `ExitTable`
    pub record Tables : Type 0 where
      pub forward : T.Table
      pub exit : T.Table

    unfoldable pub table_insert_route : Tables → Prefix → SelRoute → Tables
    table_insert_route t prefix route =
        let entry : RouteTableEntry = record {
          nh = route.nh;
          peer = peer_of route.nh;
          blackhole = false;
        } in
        if metric_of route == inf
        then record {
          forward =
              T.insert prefix (record { nh = route.nh; peer = none; blackhole = true }) t.forward;
          exit = T.delete prefix t.exit;
        }
        else record {
          forward = T.insert prefix entry t.forward;
          exit =
              if is_yes (node_eq route.nh self)
              then T.insert prefix entry t.exit
              else T.delete prefix t.exit;
        }

    unfoldable pub table_delete_route : Tables → Prefix → Tables
    table_delete_route t prefix = record {
      forward = T.delete prefix t.forward;
      exit = T.delete prefix t.exit;
    }

    -- what a call of `Router` does to the tables
    unfoldable pub table_call : Tables → Call → Tables
    unfolding table_insert_route table_delete_route
    table_call t (Call.table_insert_route prefix route) = table_insert_route t prefix route
    table_call t (Call.table_delete_route prefix) = table_delete_route t prefix
    table_call t (Call.send_route_update _ _) = t
    table_call t (Call.send_ack_retract _ _) = t
    table_call t (Call.broadcast_send_route_update _) = t
    table_call t (Call.request_seqno _ _ _ _) = t
    table_call t (Call.broadcast_request_seqno _ _ _) = t
    table_call t (Call.expiry_fn _) = t

    unfoldable pub table_calls : Tables → List Call → Tables
    unfolding table_call
    table_calls t [] = t
    table_calls t (c ∷ cs) = table_calls (table_call t c) cs

    -- `InitRouter`
    unfoldable pub init_tables : Tables
    init_tables = record { forward = T.empty; exit = T.empty }
