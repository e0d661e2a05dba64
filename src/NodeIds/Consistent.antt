-- ===== src/NodeIds/Consistent.antt =====
-- `NodeIdMap` of state/node_id_numeric.go: its two maps, and one more assignment.
use nylon.Base.{ℕ, ◌≤◌, ◌≡◌, ◌↔◌, none, some, arith, ℕ_discrete}
use nylon.Base.Maps.{find, find-put, MapAll, MapAll-put}
use nylon.NodeIds.{NodeIdMap, assign, first_node_id_numeric, max_node_id_numeric}
use nylon.Platform.{Platform}

module _ ⦃P : Platform⦄ where
  open P use {NodeId, node_eq}

  -- the two maps are inverse to each other, and the numbers are labels that are not reserved
  pub record Consistent (m : NodeIdMap) : Type 0 where
    pub inverse :
        (id : NodeId) (n : ℕ)
        → (find ℕ_discrete n m.by_numeric ≡ some id) ↔ (find node_eq id m.by_string ≡ some n)
    pub labels :
        MapAll ℕ_discrete
          (λ n _. (first_node_id_numeric ≤ n) × (n ≤ max_node_id_numeric))
          m.by_numeric

  -- what is assigned stays
  abbrev pub Extends : NodeIdMap → NodeIdMap → Type 0
  Extends m m' =
      (id : NodeId) (n : ℕ)
      → find node_eq id m.by_string ≡ some n
      → find node_eq id m'.by_string ≡ some n

  pub assign-Consistent :
      (m : NodeIdMap) (id : NodeId) (n : ℕ)
      → find node_eq id m.by_string ≡ none
      → find ℕ_discrete n m.by_numeric ≡ none
      → first_node_id_numeric ≤ n
      → n ≤ max_node_id_numeric
      → Consistent m
      → Consistent (assign m id n)
  unfolding assign
  assign-Consistent m id n hs hn lo hi c = record {
    inverse = λ id' n'.
        let (forth, back) = c.inverse id' n' in
        rw (find-put ℕ_discrete n n' id m.by_numeric, find-put node_eq id id' n m.by_string)
          (λ h. ground (arith, forth), λ h. ground (arith, back));
    labels = MapAll-put ℕ_discrete _ n id m.by_numeric (lo, hi) c.labels;
  }

  pub assign-Extends :
      (m : NodeIdMap) (id : NodeId) (n : ℕ)
      → find node_eq id m.by_string ≡ none
      → Extends m (assign m id n)
  unfolding assign
  assign-Extends m id n hs id' n' h = ground (arith, find-put node_eq id id' n m.by_string)
