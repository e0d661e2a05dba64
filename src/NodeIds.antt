-- ===== src/NodeIds.antt =====
-- state/node_id_numeric.go: the numeric ids of the nodes, which serve as MPLS labels.
pub mod Listing
pub mod Slots
pub mod Consistent
pub mod Pins
pub mod Packing
pub mod Explicit
pub mod Built
use nylon.Base.{
  ℕ, zero, suc, ◌+◌, ◌-◌, ◌^◌, Bool, true, List, [], ◌∷◌, ◌++◌, Option, none, some, ◌⊎◌, inl, inr,
  ltb, ◌==◌, if◌then◌else◌, is_some, length, sort, ℕ_discrete,
}
use nylon.Base.Maps.{Map, find, put}
use nylon.Platform.{Platform}

abbrev pub invalid_node_id_numeric : ℕ
invalid_node_id_numeric = 0

abbrev pub first_node_id_numeric : ℕ
first_node_id_numeric = 16

abbrev pub max_node_id_numeric : ℕ
max_node_id_numeric = 2 ^ 20 - 1

abbrev pub capacity : ℕ
capacity = max_node_id_numeric - first_node_id_numeric + 1

module _ ⦃P : Platform⦄ where
  open P use {NodeId, node_eq, node_le}

  -- the fields of a node's entry that are read here
  pub record NodeCfg : Type 0 where
    pub id : NodeId
    pub numeric_id : ℕ

  pub record CentralCfg : Type 0 where
    pub routers : List NodeCfg
    pub clients : List NodeCfg

  pub record NodeIdMap : Type 0 where
    pub by_numeric : Map ℕ NodeId
    pub by_string : Map NodeId ℕ

  -- the local variables that `collect` fills
  pub record Collected : Type 0 where
    pub ids : List NodeId
    pub explicit : Map NodeId ℕ
    pub seen : Map NodeId Unit

  pub data BuildError : Type 0 where
    too_many : ℕ → BuildError
    below_minimum above_maximum : NodeId → ℕ → BuildError
    both_pin : NodeId → NodeId → ℕ → BuildError
    ran_out : NodeId → BuildError

  unfoldable pub collect : Collected → NodeCfg → Collected
  collect c n = if is_some (find node_eq n.id c.seen) then c else record {
    seen = put node_eq n.id tt c.seen;
    ids = c.ids ++ n.id ∷ [];
    explicit =
        if n.numeric_id == invalid_node_id_numeric
        then c.explicit
        else put node_eq n.id n.numeric_id c.explicit;
  }

  unfoldable pub collect_all : Collected → List NodeCfg → Collected
  unfolding collect
  collect_all c [] = c
  collect_all c (n ∷ ns) = collect_all (collect c n) ns

  unfoldable pub assign : NodeIdMap → NodeId → ℕ → NodeIdMap
  assign m id numeric = record {
    by_numeric = put ℕ_discrete numeric id m.by_numeric;
    by_string = put node_eq id numeric m.by_string;
  }

  -- the first pass: the pinned ids
  unfoldable pub pin : Map NodeId ℕ → List NodeId → NodeIdMap → BuildError ⊎ NodeIdMap
  unfolding assign
  pin explicit [] m = inr m
  pin explicit (id ∷ ids) m = elim (find node_eq id explicit) [
    | none ↦ pin explicit ids m
    | some numeric ↦
        if ltb numeric first_node_id_numeric
        then inl (BuildError.below_minimum id numeric)
        else if ltb max_node_id_numeric numeric
        then inl (BuildError.above_maximum id numeric)
        else elim (find ℕ_discrete numeric m.by_numeric) [
          | some other ↦ inl (BuildError.both_pin other id numeric)
          | none ↦ pin explicit ids (assign m id numeric)
        ]
  ]

  -- The inner loop of the second pass, from `next`; `left` counts the numbers from `next` to the
  -- maximum, so that none is left where `next > MaxNodeIdNumeric`.
  unfoldable pub next_free : ℕ → ℕ → NodeIdMap → Option ℕ
  next_free zero next m = none
  next_free (suc left) next m = elim (find ℕ_discrete next m.by_numeric) [
    | some _ ↦ next_free left (next + 1) m
    | none ↦ some next
  ]

  -- the second pass: the other nodes
  unfoldable pub pack : Map NodeId ℕ → List NodeId → ℕ → NodeIdMap → BuildError ⊎ NodeIdMap
  unfolding assign next_free
  pack explicit [] next m = inr m
  pack explicit (id ∷ ids) next m = elim (find node_eq id explicit) [
    | some _ ↦ pack explicit ids next m
    | none ↦ elim (next_free (max_node_id_numeric + 1 - next) next m) [
      | none ↦ inl (BuildError.ran_out id)
      | some free ↦ pack explicit ids (free + 1) (assign m id free)
    ]
  ]

  unfoldable pub collected : CentralCfg → Collected
  unfolding collect_all
  collected c = collect_all (record { ids = []; explicit = []; seen = [] }) (c.routers ++ c.clients)

  unfoldable pub build_node_id_map : CentralCfg → BuildError ⊎ NodeIdMap
  unfolding collected pin pack
  build_node_id_map c =
      let all = collected c in
      let ids = sort node_le all.ids in
      if ltb capacity (length ids)
      then inl (BuildError.too_many (length ids))
      else elim (pin all.explicit ids (record { by_numeric = []; by_string = [] })) [
        | inl e ↦ inl e
        | inr m ↦ pack all.explicit ids first_node_id_numeric m
      ]

  -- a nil map is `none`; so is the answer that comes with `false`
  unfoldable pub to_numeric : Option NodeIdMap → NodeId → Option ℕ
  to_numeric none id = none
  to_numeric (some m) id = find node_eq id m.by_string

  unfoldable pub to_string : Option NodeIdMap → ℕ → Option NodeId
  to_string none b = none
  to_string (some m) b =
      if b == invalid_node_id_numeric then none else find ℕ_discrete b m.by_numeric

  unfoldable pub len : Option NodeIdMap → ℕ
  len none = 0
  len (some m) = length m.by_string
