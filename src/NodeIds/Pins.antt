-- ===== src/NodeIds/Pins.antt =====
-- The first pass of `BuildNodeIdMap` in state/node_id_numeric.go: the pinned ids.
use mathlib.Core.List.{Memᴰ}
use nylon.Base.{
  ℕ, ◌+◌, ◌≤◌, ◌<◌, ◌≡◌, ◌≢◌, refl, sym, ◌∙◌, ◌⊎◌, inl, inr, List, [], ◌∷◌, none, some, arith, ltb,
  if◌then◌else◌, is_some, length, All, ℕ_discrete, Bool-cases, Option-cases,
}
use nylon.Base.Maps.{Map, find, find-put, find-put_self, find-put_ne}
use nylon.NodeIds.{NodeIdMap, BuildError, assign, pin, first_node_id_numeric, max_node_id_numeric}
use nylon.NodeIds.Listing.{Distinct}
use nylon.NodeIds.Slots.{length-put}
use nylon.NodeIds.Consistent.{Consistent, Extends, assign-Consistent, assign-Extends}
use nylon.Platform.{Platform}

module _ ⦃P : Platform⦄ where
  open P use {NodeId, node_eq}

  -- why a pin is refused
  pub data PinRefused (explicit : Map NodeId ℕ) (ids : List NodeId) : BuildError → Type 0 where
    too_low :
        {id : NodeId} {n : ℕ}
        → Memᴰ id ids
        → find node_eq id explicit ≡ some n
        → n < first_node_id_numeric
        → PinRefused explicit ids (BuildError.below_minimum id n)
    too_high :
        {id : NodeId} {n : ℕ}
        → Memᴰ id ids
        → find node_eq id explicit ≡ some n
        → max_node_id_numeric < n
        → PinRefused explicit ids (BuildError.above_maximum id n)
    twice :
        {other id : NodeId} {n : ℕ}
        → Memᴰ id ids
        → other ≢ id
        → find node_eq other explicit ≡ some n
        → find node_eq id explicit ≡ some n
        → PinRefused explicit ids (BuildError.both_pin other id n)

  -- before a step of the first pass: `ids` are all ids, `rest` those that are left
  pub record Pinning (explicit : Map NodeId ℕ) (ids rest : List NodeId) (m : NodeIdMap)
      : Type 0 where
    pub consistent : Consistent m
    pub pinned :
        (id : NodeId) (n : ℕ)
        → find node_eq id m.by_string ≡ some n
        → find node_eq id explicit ≡ some n
    pub unassigned : All (λ id. (find node_eq id m.by_string ≡ none) × Memᴰ id ids) rest
    pub distinct : Distinct rest

  -- the ids without a pin
  unfoldable pub unpinned : Map NodeId ℕ → List NodeId → ℕ
  unpinned explicit [] = 0
  unpinned explicit (id ∷ ids) =
      (if is_some (find node_eq id explicit) then 0 else 1) + unpinned explicit ids

  -- the map keeps the pin of the id
  abbrev pub Honoured : Map NodeId ℕ → NodeIdMap → NodeId → Type 0
  Honoured explicit m id =
      (find node_eq id explicit ≡ none) ⊎ (find node_eq id m.by_string ≡ find node_eq id explicit)

  -- after the first pass
  pub record Pinned (explicit : Map NodeId ℕ) (rest : List NodeId) (m m' : NodeIdMap) : Type 0 where
    pub consistent : Consistent m'
    pub only_pins :
        (id : NodeId) → find node_eq id explicit ≡ none → find node_eq id m'.by_string ≡ none
    pub extends : Extends m m'
    pub honoured : All (Honoured explicit m') rest
    pub size : length m'.by_numeric + unpinned explicit rest ≤ length m.by_numeric + length rest

  assign-unassigned :
      (m : NodeIdMap) (id : NodeId) (n : ℕ) (ids rest : List NodeId)
      → All (λ y. id ≢ y) rest
      → All (λ x. (find node_eq x m.by_string ≡ none) × Memᴰ x ids) rest
      → All (λ x. (find node_eq x (assign m id n).by_string ≡ none) × Memᴰ x ids) rest
  unfolding assign
  assign-unassigned m id n ids [] d all = tt
  assign-unassigned m id n ids (x ∷ xs) d all = (
    (rw (find-put_ne node_eq id x n m.by_string d.0) all.0.0, all.0.1),
    assign-unassigned m id n ids xs d.1 all.1,
  )

  Pinning-assign :
      (explicit : Map NodeId ℕ) (ids rest : List NodeId) (id : NodeId) (n : ℕ) (m : NodeIdMap)
      → Pinning explicit ids (id ∷ rest) m
      → find node_eq id explicit ≡ some n
      → find ℕ_discrete n m.by_numeric ≡ none
      → first_node_id_numeric ≤ n
      → n ≤ max_node_id_numeric
      → Pinning explicit ids rest (assign m id n)
  Pinning-assign explicit ids rest id n m before e open_ lo hi = record {
    consistent = assign-Consistent m id n before.unassigned.0.0 open_ lo hi before.consistent;
    pinned = λ id' n' h.
        unfold assign in
        elim (node_eq id id') [
          | yes same ↦ ground (arith, find-put node_eq id id' n m.by_string)
          | no other ↦
              before.pinned id' n' (rw (find-put_ne node_eq id id' n m.by_string other) at h)
        ];
    unassigned = assign-unassigned m id n ids rest before.distinct.0 before.unassigned.1;
    distinct = before.distinct.1;
  }

  Pinned-skip :
      (explicit : Map NodeId ℕ) (id : NodeId) (rest : List NodeId) (m m' : NodeIdMap)
      → find node_eq id explicit ≡ none
      → Pinned explicit rest m m'
      → Pinned explicit (id ∷ rest) m m'
  unfolding unpinned
  Pinned-skip explicit id rest m m' free after = record {
    consistent = after.consistent;
    only_pins = after.only_pins;
    extends = after.extends;
    honoured = (inl free, after.honoured);
    size = rw free (omega (arith, after.size));
  }

  Pinned-assign :
      (explicit : Map NodeId ℕ) (id : NodeId) (n : ℕ) (rest : List NodeId) (m m' : NodeIdMap)
      → find node_eq id explicit ≡ some n
      → find node_eq id m.by_string ≡ none
      → Pinned explicit rest (assign m id n) m'
      → Pinned explicit (id ∷ rest) m m'
  unfolding unpinned
  Pinned-assign explicit id n rest m m' e none_here after = record {
    consistent = after.consistent;
    only_pins = after.only_pins;
    extends = λ id' n' h. after.extends id' n' (assign-Extends m id n none_here id' n' h);
    honoured = (
      inr (after.extends id n (unfold assign in find-put_self node_eq id n m.by_string) ∙ sym e),
      after.honoured,
    );
    size =
        rw e (unfold assign in omega (arith, after.size, length-put ℕ_discrete n id m.by_numeric));
  }

  pub pin-cases :
      (explicit : Map NodeId ℕ) (ids rest : List NodeId) (m : NodeIdMap)
      → Pinning explicit ids rest m
      → ((e : BuildError) × (pin explicit rest m ≡ inl e) × PinRefused explicit ids e)
        ⊎ ((m' : NodeIdMap) × (pin explicit rest m ≡ inr m') × Pinned explicit rest m m')
  unfolding pin unpinned
  pin-cases explicit ids [] m before = inr (
    m,
    refl,
    record {
      consistent = before.consistent;
      only_pins = λ id h. elim (Option-cases (find node_eq id m.by_string)) [
        | inl e ↦ e
        | inr (n, e) ↦ absurd (ground (arith, before.pinned id n e))
      ];
      extends = λ id n h. h;
      honoured = tt;
      size = omega arith;
    },
  )
  pin-cases explicit ids (id ∷ rest) m before =
      let ((none_here, member), later) = before.unassigned in
      elim (Option-cases (find node_eq id explicit)) [
        | inl free ↦
            elim (pin-cases explicit ids rest m (record {
              consistent = before.consistent;
              pinned = before.pinned;
              unassigned = later;
              distinct = before.distinct.1;
            })) [
              | inl (err, e, why) ↦ inl (err, rw (free, pin) e, why)
              | inr (m', e, after) ↦
                  inr (m', rw (free, pin) e, Pinned-skip explicit id rest m m' free after)
            ]
        | inr (n, e) ↦ elim (Bool-cases (ltb n first_node_id_numeric)) [
          | inl low ↦ inl (
            BuildError.below_minimum id n,
            rw (e, low, pin) refl,
            PinRefused.too_low member e (ground arith),
          )
          | inr lo ↦ elim (Bool-cases (ltb max_node_id_numeric n)) [
            | inl high ↦ inl (
              BuildError.above_maximum id n,
              rw (e, lo, high, pin) refl,
              PinRefused.too_high member e (ground arith),
            )
            | inr hi ↦ elim (Option-cases (find ℕ_discrete n m.by_numeric)) [
              | inr (other, taken) ↦
                  let owner = (before.consistent.inverse other n).0 taken in
                  inl (
                    BuildError.both_pin other id n,
                    rw (e, lo, hi, taken, pin) refl,
                    PinRefused.twice member (λ same. absurd (ground arith))
                        (before.pinned other n owner) e,
                  )
              | inl open_ ↦
                  elim (pin-cases explicit ids rest (assign m id n) (
                    Pinning-assign explicit ids rest id n m before e open_ (ground arith)
                      (ground arith))) [
                        | inl (err, e', why) ↦ inl (err, rw (e, lo, hi, open_, pin) e', why)
                        | inr (m', e', after) ↦ inr (
                          m',
                          rw (e, lo, hi, open_, pin) e',
                          Pinned-assign explicit id n rest m m' e none_here after,
                        )
                      ]
            ]
          ]
        ]
      ]
