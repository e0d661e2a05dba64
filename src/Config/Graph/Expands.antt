-- ===== src/Config/Graph/Expands.antt =====
-- What `ParseGraph` of state/config.go means by the expansion of a name.
use nylon.Base.{◌≡◌, true, false, List, some}
use nylon.Base.Maps.{Map, find}
use nylon.Config.Names.{has}
use nylon.Platform.{Platform}

module _ ⦃P : Platform⦄ where
  open P use {NodeId, node_eq}

  -- a node stands for itself, and a group for what the names of its list stand for
  pub data Expands (nodes : List NodeId) (groups : Map NodeId (List NodeId))
      : NodeId → NodeId → Type 0 where
    node : {x n : NodeId} → x ≡ n → has node_eq n nodes ≡ true → Expands nodes groups x n
    member :
        {x n : NodeId} (m : NodeId) (lst : List NodeId)
        → has node_eq x nodes ≡ false
        → find node_eq x groups ≡ some lst
        → has node_eq m lst ≡ true
        → Expands nodes groups m n
        → Expands nodes groups x n
