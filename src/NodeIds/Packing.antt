-- ===== src/NodeIds/Packing.antt =====
-- The second pass of `BuildNodeIdMap` in state/node_id_numeric.go: the nodes without a pin.
use nylon.Base.{
  ℕ, ◌+◌, ◌-◌, ◌≤◌, ◌≡◌, ◌≢◌, refl, ◌⊎◌, inl, inr, true, List, [], ◌∷◌, none, arith, is_some,
  if_pos, length, All, ℕ_discrete, Option-cases,
}
use nylon.Base.Maps.{Map, find, find-put, find-put_self, find-put_ne}
use nylon.NodeIds.{NodeIdMap, assign, pack, first_node_id_numeric, max_node_id_numeric, capacity}
use nylon.NodeIds.Consistent.{Consistent, Extends, assign-Consistent, assign-Extends}
use nylon.NodeIds.Listing.{Distinct}
use nylon.NodeIds.Pins.{unpinned}
use nylon.NodeIds.Slots.{length-put, pigeonhole, Taken, next_free-cases}
use nylon.Platform.{Platform}

module _ ⦃P : Platform⦄ where
  open P use {NodeId, node_eq}

  -- the id has a pin, or no number yet
  abbrev pub Waiting : Map NodeId ℕ → NodeIdMap → NodeId → Type 0
  Waiting explicit m id =
      (is_some (find node_eq id explicit) ≡ true) ⊎ (find node_eq id m.by_string ≡ none)

  -- before a step of the pass
  pub record Packing (explicit : Map NodeId ℕ) (rest : List NodeId) (next : ℕ) (m : NodeIdMap)
      : Type 0 where
    pub consistent : Consistent m
    pub waiting : All (Waiting explicit m) rest
    pub distinct : Distinct rest
    pub taken : Taken m first_node_id_numeric next
    pub range : (first_node_id_numeric ≤ next) × (next ≤ max_node_id_numeric + 1)
    pub room : length m.by_numeric + unpinned explicit rest ≤ capacity

  -- the id has a pin, or a number now
  abbrev pub Settled : Map NodeId ℕ → NodeIdMap → NodeId → Type 0
  Settled explicit m id =
      (is_some (find node_eq id explicit) ≡ true) ⊎ (is_some (find node_eq id m.by_string) ≡ true)

  -- after the pass
  pub record Packed (explicit : Map NodeId ℕ) (rest : List NodeId) (m m' : NodeIdMap) : Type 0 where
    pub consistent : Consistent m'
    pub extends : Extends m m'
    pub settled : All (Settled explicit m') rest

  assign-Waiting :
      (explicit : Map NodeId ℕ) (m : NodeIdMap) (id : NodeId) (n : ℕ) (rest : List NodeId)
      → All (λ y. id ≢ y) rest
      → All (Waiting explicit m) rest
      → All (Waiting explicit (assign m id n)) rest
  unfolding assign
  assign-Waiting explicit m id n [] d all = tt
  assign-Waiting explicit m id n (x ∷ xs) d all = (
    elim all.0 [
      | inl pin ↦ inl pin
      | inr e ↦ inr (rw (find-put_ne node_eq id x n m.by_string d.0) e)
    ],
    assign-Waiting explicit m id n xs d.1 all.1,
  )

  Packing-assign :
      (explicit : Map NodeId ℕ) (id : NodeId) (rest : List NodeId) (next free : ℕ) (m : NodeIdMap)
      → Packing explicit (id ∷ rest) next m
      → find node_eq id explicit ≡ none
      → find node_eq id m.by_string ≡ none
      → find ℕ_discrete free m.by_numeric ≡ none
      → next ≤ free
      → free ≤ max_node_id_numeric
      → Taken m first_node_id_numeric free
      → Packing explicit rest (free + 1) (assign m id free)
  unfolding unpinned
  Packing-assign explicit id rest next free m before e new open_ lo hi taken = record {
    consistent =
        assign-Consistent m id free new open_ (omega (arith, before.range)) hi before.consistent;
    waiting = assign-Waiting explicit m id free rest before.distinct.0 before.waiting.1;
    distinct = before.distinct.1;
    taken = λ i hl hu.
        unfold assign in
        elim (ℕ_discrete free i) [
          | yes same ↦
              rw (find-put ℕ_discrete free i id m.by_numeric, if_pos (ℕ_discrete free i) same) refl
          | no other ↦
              rw (find-put_ne ℕ_discrete free i id m.by_numeric other) (taken i hl (omega arith))
        ];
    range = (omega (arith, before.range), omega arith);
    room =
        let room : length m.by_numeric + (1 + unpinned explicit rest) ≤ capacity =
          rw e at before.room in
        unfold assign in omega (arith, room, length-put ℕ_discrete free id m.by_numeric);
  }

  -- there is room for every node, so the pass never fails
  pub pack-Packed :
      (explicit : Map NodeId ℕ) (rest : List NodeId) (next : ℕ) (m : NodeIdMap)
      → Packing explicit rest next m
      → (m' : NodeIdMap) × (pack explicit rest next m ≡ inr m') × Packed explicit rest m m'
  unfolding pack
  pack-Packed explicit [] next m before =
      (m, refl, record { consistent = before.consistent; extends = λ id n h. h; settled = tt })
  pack-Packed explicit (id ∷ rest) next m before = elim (Option-cases (find node_eq id explicit)) [
    | inr (n, e) ↦
        let same : unpinned explicit (id ∷ rest) ≡ unpinned explicit rest =
          unfold unpinned in rw e (omega arith) in
        let (m', e', after) = pack-Packed explicit rest next m (record {
          consistent = before.consistent;
          waiting = before.waiting.1;
          distinct = before.distinct.1;
          taken = before.taken;
          range = before.range;
          room = omega (arith, before.room, same);
        }) in
        (
          m',
          rw (e, pack) e',
          record {
            consistent = after.consistent;
            extends = after.extends;
            settled = (inl (rw e refl), after.settled);
          },
        )
    | inl e ↦
        let new : find node_eq id m.by_string ≡ none = ground (arith, before.waiting.0) in
        let left = max_node_id_numeric + 1 - next in
        elim (next_free-cases left next first_node_id_numeric m (omega (arith, before.range))
          before.taken) [
            | inl (_, full) ↦
                let many =
                  pigeonhole capacity first_node_id_numeric m.by_numeric
                    (λ i hl hu. full i hl (omega arith)) in
                let room : length m.by_numeric + (1 + unpinned explicit rest) ≤ capacity =
                  unfold unpinned in (rw e at before.room) in
                absurd (omega (arith, many, room))
            | inr (free, e', lo, hi, open_, taken) ↦
                let (m', e'', after) =
                  pack-Packed explicit rest (free + 1) (assign m id free)
                    (Packing-assign explicit id rest next free m before e new open_ lo hi taken) in
                let here =
                  after.extends id free
                    (unfold assign in find-put_self node_eq id free m.by_string) in
                (
                  m',
                  rw (e, e', pack) e'',
                  record {
                    consistent = after.consistent;
                    extends = λ id' n h. after.extends id' n (assign-Extends m id free new id' n h);
                    settled = (inr (rw here refl), after.settled);
                  },
                )
          ]
  ]
