-- ===== src/NodeIds/Built.antt =====
-- `BuildNodeIdMap` of state/node_id_numeric.go as a whole.
use mathlib.Core.List.{Memᴰ}
use nylon.Base.{
  ℕ, ◌<◌, ◌≡◌, ◌≢◌, map, refl, sym, subst, ◌∙◌, ◌⊎◌, inl, inr, ◌↔◌, true, List, [], ◌∷◌, ◌++◌, none,
  some, arith, is_some, ltb, ◌==◌, length, sort, All, ℕ_discrete, Option-cases, Bool-cases,
}
use nylon.Base.Maps.{Map, find, MapAll-find}
use nylon.NodeIds.{
  NodeIdMap, NodeCfg, CentralCfg, Collected, BuildError, collected, build_node_id_map, to_numeric,
  to_string, invalid_node_id_numeric, first_node_id_numeric, max_node_id_numeric, capacity,
}
use nylon.NodeIds.Consistent.{Consistent, Extends}
use nylon.NodeIds.Listing.{Distinct, All-sort, Distinct-sort, Mem-sort, Once, collect_all-Once}
use nylon.NodeIds.Explicit.{pin_of, collected-explicit, collected-members}
use nylon.NodeIds.Packing.{Waiting, Settled, pack-Packed}
use nylon.NodeIds.Pins.{PinRefused, Honoured, pin-cases}
use nylon.Platform.{Platform}

module _ ⦃P : Platform⦄ where
  open P use {NodeId, node_eq, node_le}

  -- all entries of a configuration
  abbrev pub nodes_of : CentralCfg → List NodeCfg
  nodes_of c = c.routers ++ c.clients

  -- the answers of the finished map `m`: every pin of the configuration is kept
  pub record Built (c : CentralCfg) (m : NodeIdMap) : Type 0 where
    pub inverse :
        (id : NodeId) (n : ℕ) → (to_string (some m) n ≡ some id) ↔ (to_numeric (some m) id ≡ some n)
    pub complete : All (λ node. is_some (to_numeric (some m) node.id) ≡ true) (nodes_of c)
    pub pinned :
        All
          (λ node.
            (pin_of node.id (nodes_of c) ≡ none)
            ⊎ (to_numeric (some m) node.id ≡ pin_of node.id (nodes_of c)))
          (nodes_of c)

  All-unassigned :
      (ids rest : List NodeId) (sub : (id : NodeId) → Memᴰ id rest → Memᴰ id ids)
      → All (λ id. (find {V = ℕ} node_eq id [] ≡ none) × Memᴰ id ids) rest
  unfolding find
  All-unassigned ids [] sub = tt
  All-unassigned ids (x ∷ xs) sub =
      ((refl, sub x (Memᴰ.head refl)), All-unassigned ids xs (λ id m. sub id (Memᴰ.tail m)))

  All-Waiting :
      (explicit : Map NodeId ℕ) (m : NodeIdMap) (rest : List NodeId)
      → ((id : NodeId) → find node_eq id explicit ≡ none → find node_eq id m.by_string ≡ none)
      → All (Waiting explicit m) rest
  All-Waiting explicit m [] h = tt
  All-Waiting explicit m (x ∷ xs) h = (
    elim (Option-cases (find node_eq x explicit)) [
      | inl e ↦ inr (h x e)
      | inr (n, e) ↦ inl (rw e refl)
    ],
    All-Waiting explicit m xs h,
  )

  All-Honoured :
      (explicit : Map NodeId ℕ) (m m' : NodeIdMap) (rest : List NodeId)
      → Extends m m'
      → All (Honoured explicit m) rest
      → All (Honoured explicit m') rest
  All-Honoured explicit m m' [] ext all = tt
  All-Honoured explicit m m' (x ∷ xs) ext all = (
    elim (Option-cases (find node_eq x explicit)) [
      | inl e ↦ inl e
      | inr (n, e) ↦ inr (ext x n (ground (arith, all.0, e)) ∙ sym e)
    ],
    All-Honoured explicit m m' xs ext all.1,
  )

  All-Mem {κ} : {A : Type 0} (Q : A → Type κ) (xs : List A) (x : A) → All Q xs → Memᴰ x xs → Q x
  All-Mem Q [] x all m = elim m [ ]
  All-Mem Q (y ∷ ys) x all (Memᴰ.head e) = subst Q (sym e) all.0
  All-Mem Q (y ∷ ys) x all (Memᴰ.tail m) = All-Mem Q ys x all.1 m

  -- Why a configuration is refused: more different nodes than labels, or a pin that is reserved, too
  -- large, or that of another node.
  pub data Refused (c : CentralCfg) : BuildError → Type 0 where
    too_many :
        (ids : List NodeId)
        → Distinct ids
        → All (λ id. Memᴰ id (map (λ (n : NodeCfg). n.id) (nodes_of c))) ids
        → capacity < length ids
        → Refused c (BuildError.too_many (length ids))
    too_low :
        (id : NodeId) (n : ℕ)
        → pin_of id (nodes_of c) ≡ some n
        → n < first_node_id_numeric
        → Refused c (BuildError.below_minimum id n)
    too_high :
        (id : NodeId) (n : ℕ)
        → pin_of id (nodes_of c) ≡ some n
        → max_node_id_numeric < n
        → Refused c (BuildError.above_maximum id n)
    twice :
        (other id : NodeId) (n : ℕ)
        → other ≢ id
        → pin_of other (nodes_of c) ≡ some n
        → pin_of id (nodes_of c) ≡ some n
        → Refused c (BuildError.both_pin other id n)

  PinRefused-Refused :
      (c : CentralCfg) (ids : List NodeId) (e : BuildError)
      → PinRefused (collected c).explicit ids e
      → Refused c e
  PinRefused-Refused c ids e (PinRefused.too_low {id} {n} m p lo) =
      Refused.too_low id n (sym (collected-explicit c id) ∙ p) lo
  PinRefused-Refused c ids e (PinRefused.too_high {id} {n} m p hi) =
      Refused.too_high id n (sym (collected-explicit c id) ∙ p) hi
  PinRefused-Refused c ids e (PinRefused.twice {other} {id} {n} m differ p q) =
      Refused.twice other id n differ (sym (collected-explicit c other) ∙ p)
        (sym (collected-explicit c id) ∙ q)

  Built-inverse :
      (m : NodeIdMap) (id : NodeId) (n : ℕ)
      → Consistent m
      → (to_string (some m) n ≡ some id) ↔ (to_numeric (some m) id ≡ some n)
  unfolding to_string to_numeric
  Built-inverse m id n consistent =
      let (forth, back) = consistent.inverse id n in
      elim (Bool-cases (n == invalid_node_id_numeric)) [
        | inl reserved ↦
            rw (reserved, to_string)
              (
                λ h. absurd (ground arith),
                λ h.
                    let (lo, _) =
                      MapAll-find ℕ_discrete _ n id m.by_numeric consistent.labels (back h) in
                    absurd (ground (arith, lo)),
              )
        | inr valid ↦ rw (valid, to_string) (forth, back)
      ]

  All-complete :
      (c : Collected) (m : NodeIdMap) (nodes : List NodeCfg)
      → Once c
      → All (Honoured c.explicit m) (sort node_le c.ids)
      → All (Settled c.explicit m) (sort node_le c.ids)
      → All (λ node. is_some (find node_eq node.id c.seen) ≡ true) nodes
      → All (λ node. is_some (to_numeric (some m) node.id) ≡ true) nodes
  unfolding to_numeric
  All-complete c m [] once honoured settled seen = tt
  All-complete c m (node ∷ nodes) once honoured settled seen =
      let ids = sort node_le c.ids in
      let member = Mem-sort node_le node.id c.ids (once.listed node.id seen.0) in
      let pin = All-Mem (Honoured c.explicit m) ids node.id honoured member in
      let done = All-Mem (Settled c.explicit m) ids node.id settled member in
      (ground (arith, pin, done), All-complete c m nodes once honoured settled seen.1)

  All-pinned :
      (c : CentralCfg) (m : NodeIdMap) (nodes : List NodeCfg)
      → Once (collected c)
      → All (Honoured (collected c).explicit m) (sort node_le (collected c).ids)
      → All (λ node. is_some (find node_eq node.id (collected c).seen) ≡ true) nodes
      → All
          (λ node.
            (pin_of node.id (nodes_of c) ≡ none)
            ⊎ (to_numeric (some m) node.id ≡ pin_of node.id (nodes_of c)))
          nodes
  unfolding to_numeric
  All-pinned c m [] once honoured seen = tt
  All-pinned c m (node ∷ nodes) once honoured seen =
      let all = collected c in
      let ids = sort node_le all.ids in
      let member = Mem-sort node_le node.id all.ids (once.listed node.id seen.0) in
      (
        rw (← collected-explicit c node.id)
            (All-Mem (Honoured all.explicit m) ids node.id honoured member),
        All-pinned c m nodes once honoured seen.1,
      )

  -- `BuildNodeIdMap` fails only if the configuration has more different nodes than there are labels, or
  -- a pin of the configuration (the number in the first entry of a node, if it is not 0) is reserved,
  -- too large, or that of two nodes; it never runs out of ids. Otherwise `ToString` and `ToNumeric` of
  -- the map are inverse to each other, every router and client has a number, and every pin of the
  -- configuration is kept.
  pub build_node_id_map-Built :
      (c : CentralCfg)
      → ((e : BuildError) × (build_node_id_map c ≡ inl e) × Refused c e)
        ⊎ ((m : NodeIdMap) × (build_node_id_map c ≡ inr m) × Built c m)
  unfolding build_node_id_map
  build_node_id_map-Built c =
      let all = collected c in
      let ids = sort node_le all.ids in
      let (once, seen) : Once all
          × All (λ n. is_some (find node_eq n.id all.seen) ≡ true) (c.routers ++ c.clients) =
        unfold collected in
        collect_all-Once (c.routers ++ c.clients) (record { ids = []; explicit = []; seen = [] })
          (unfold find in
            record { marked = tt; listed = λ id h. absurd (ground arith); distinct = tt }) in
      let distinct = Distinct-sort node_le all.ids once.distinct in
      let empty : NodeIdMap = record { by_numeric = []; by_string = [] } in
      elim (Bool-cases (ltb capacity (length ids))) [
        | inl many ↦ inl (
          BuildError.too_many (length ids),
          rw (many, build_node_id_map) refl,
          Refused.too_many ids distinct (All-sort node_le _ all.ids (collected-members c))
              (ground arith),
        )
        | inr fits ↦
            elim (pin-cases all.explicit ids ids empty (record {
              consistent =
                  unfold find in
                  record {
                    inverse = λ id n. (λ h. absurd (ground arith), λ h. absurd (ground arith));
                    labels = tt;
                  };
              pinned = unfold find in λ id n h. absurd (ground arith);
              unassigned = All-unassigned ids ids (λ id m. m);
              distinct = distinct;
            })) [
              | inl (e, failed, why) ↦
                  inl (e, rw (fits, failed, build_node_id_map) refl, PinRefused-Refused c ids e why)
              | inr (m, pinned, after) ↦
                  let (m', packed, done) =
                    pack-Packed all.explicit ids first_node_id_numeric m (record {
                      consistent = after.consistent;
                      waiting = All-Waiting all.explicit m ids after.only_pins;
                      distinct = distinct;
                      taken = λ i hl hu. absurd (omega arith);
                      range = (omega arith, omega arith);
                      room = ground (arith, after.size);
                    }) in
                  let honoured = All-Honoured all.explicit m m' ids done.extends after.honoured in
                  inr (
                    m',
                    rw (fits, pinned, packed, build_node_id_map) refl,
                    record {
                      inverse = λ id n. Built-inverse m' id n done.consistent;
                      complete =
                          All-complete all m' (c.routers ++ c.clients) once honoured done.settled
                            seen;
                      pinned = All-pinned c m' (nodes_of c) once honoured seen;
                    },
                  )
            ]
      ]
