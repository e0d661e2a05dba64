-- ===== src/Config/Graph/Expansion.antt =====
-- The expansion of groups in `ParseGraph` of state/config.go computes what the names stand for.
use nylon.Base.{
  ◌≡◌, ◌⊎◌, refl, sym, ap, subst, ◌∙◌, true, false, not, ◌&&◌, ◌||◌, List, [], Option, none, some,
  ite, arith, is_yes, is_some, Bool-cases, inl, inr, if_pos,
}
use nylon.Base.Maps.{Map, find, delete, find-delete, UniqueKeys}
use nylon.Config.Graph.{release}
use nylon.Config.Graph.Expands.{Expands}
use nylon.Config.Graph.Release.{
  delete-UniqueKeys, released, release-topo, release-UniqueKeys, release-expansion,
}
use nylon.Config.Lines.{entry}
use nylon.Config.Names.{has}
use nylon.Config.Names.Members.{has-remove, waits}
use nylon.Platform.{Platform}

module _ ⦃P : Platform⦄ where
  open P use {NodeId, node_eq, node_le}

  waits-released :
      (g m : NodeId) (o : Option (List NodeId))
      → waits m (released g o) ≡ (not (is_yes (node_eq g m)) && waits m o)
  waits-released g m none = ground arith
  waits-released g m (some deps) = ground (arith, has-remove node_eq m g deps)

  waits-ite :
      (g m k : NodeId) (o : Option (List NodeId))
      → waits m (ite (node_eq g k) none o) ≡ (not (is_yes (node_eq g k)) && waits m o)
  waits-ite g m k o = ground arith

  module _ (nodes : List NodeId) (groups : Map NodeId (List NodeId)) where
    -- the name is a group whose list has the other
    abbrev pub Lists : NodeId → NodeId → Type 0
    Lists k m =
        (lst : List NodeId) × (has node_eq k nodes ≡ false)
        × (find node_eq k groups ≡ some lst)
        × (has node_eq m lst ≡ true)

    abbrev pub Includes : Map NodeId (List NodeId) → NodeId → NodeId → Type 0
    Includes expansion k m =
        (n : NodeId)
        → has node_eq n (entry expansion m) ≡ true
        → has node_eq n (entry expansion k) ≡ true

    -- what holds of the groups that wait and the expansion so far
    pub record Expanding (topo expansion : Map NodeId (List NodeId)) : Type 0 where
      pub unique : UniqueKeys node_eq topo
      pub sound :
          (x n : NodeId) → has node_eq n (entry expansion x) ≡ true → Expands nodes groups x n
      pub waiting : (k m : NodeId) → waits m (find node_eq k topo) ≡ true → Lists k m
      pub closed :
          (k m : NodeId)
          → waits m (find node_eq k topo) ≡ true
          → is_some (find node_eq m topo) ≡ true
      pub nodes_in :
          (k m : NodeId)
          → Lists k m
          → has node_eq m nodes ≡ true
          → has node_eq m (entry expansion k) ≡ true
      pub groups_in :
          (k m : NodeId)
          → Lists k m
          → has node_eq m nodes ≡ false
          → (waits m (find node_eq k topo) ≡ true)
            ⊎ ((find node_eq m topo ≡ none) × Includes expansion k m)

    module _ (g : NodeId) (topo expansion : Map NodeId (List NodeId))
        (free : find node_eq g topo ≡ some []) (inv : Expanding topo expansion) where
      abbrev pub topo' : Map NodeId (List NodeId)
      topo' = (release g (delete node_eq g topo) expansion).0

      abbrev pub expansion' : Map NodeId (List NodeId)
      expansion' = (release g (delete node_eq g topo) expansion).1

      find-topo' :
          (k : NodeId)
          → find node_eq k topo' ≡ released g (ite (node_eq g k) none (find node_eq k topo))
      find-topo' k =
          release-topo g k (delete node_eq g topo) expansion
          ∙ ap (released g) (find-delete node_eq g k topo)

      waits-topo' :
          (k m : NodeId)
          → waits m (find node_eq k topo') ≡ (
              not (is_yes (node_eq g m))
              && (not (is_yes (node_eq g k)) && waits m (find node_eq k topo)))
      waits-topo' k m =
          ap (waits m) (find-topo' k)
          ∙ waits-released g m (ite (node_eq g k) none (find node_eq k topo))
          ∙ ap (λ b. not (is_yes (node_eq g m)) && b) (waits-ite g m k (find node_eq k topo))

      has-expansion' :
          (k n : NodeId)
          → has node_eq n (entry expansion' k) ≡ (
              has node_eq n (entry expansion k)
              || ((not (is_yes (node_eq g k)) && waits g (find node_eq k topo))
                  && has node_eq n (entry expansion g)))
      has-expansion' k n =
          release-expansion g k n (delete node_eq g topo) expansion
            (delete-UniqueKeys node_eq g topo inv.unique)
            (find-delete node_eq g g topo ∙ if_pos (node_eq g g) refl _ _)
          ∙ ap
              (λ o.
                has node_eq n (entry expansion k)
                || (waits g o && has node_eq n (entry expansion g)))
              (find-delete node_eq g k topo)
          ∙ ap (λ b. has node_eq n (entry expansion k) || (b && has node_eq n (entry expansion g)))
              (waits-ite g g k (find node_eq k topo))

      find-g : find node_eq g topo' ≡ none
      find-g = find-topo' g ∙ ap (released g) (if_pos (node_eq g g) refl _ _)

      find-none : (k : NodeId) → find node_eq k topo ≡ none → find node_eq k topo' ≡ none
      find-none k h = ground (arith, find-topo' k)

      -- who waits is not free
      not_free :
          (k m : NodeId) → waits m (find node_eq k topo) ≡ true → is_yes (node_eq g k) ≡ false
      not_free k m h = elim (node_eq g k) as (λ d. is_yes d ≡ false) [
        | yes e ↦ absurd (ground (arith, ap (λ x. waits m (find node_eq x topo)) e))
        | no n ↦ refl
      ]

      sound' : (x n : NodeId) → has node_eq n (entry expansion' x) ≡ true → Expands nodes groups x n
      sound' x n h = elim (Bool-cases (has node_eq n (entry expansion x))) [
        | inl e ↦ inv.sound x n e
        | inr e ↦
            let w : waits g (find node_eq x topo) ≡ true = ground (arith, has-expansion' x n) in
            let i : has node_eq n (entry expansion g) ≡ true = ground (arith, has-expansion' x n) in
            let (lst, a, b, c) = inv.waiting x g w in Expands.member g lst a b c (inv.sound g n i)
      ]

      closed' :
          (k m : NodeId)
          → waits m (find node_eq k topo) ≡ true
          → is_yes (node_eq g m) ≡ false
          → is_some (find node_eq m topo') ≡ true
      closed' k m w n = ground (arith, inv.closed k m w, find-topo' m)

      groups_in' :
          (k m : NodeId)
          → Lists k m
          → has node_eq m nodes ≡ false
          → (waits m (find node_eq k topo') ≡ true)
            ⊎ ((find node_eq m topo' ≡ none) × Includes expansion' k m)
      groups_in' k m l f = elim (inv.groups_in k m l f) [
        | inl w ↦ elim (node_eq g m) [
          | yes e ↦
              let other = not_free k m w in
              let w' : waits g (find node_eq k topo) ≡ true =
                subst (λ x. waits x (find node_eq k topo) ≡ true) (sym e) w in
              inr (
                subst (λ x. find node_eq x topo' ≡ none) e find-g,
                subst (Includes expansion' k) e
                    (λ n i. ground (arith, has-expansion' g n, has-expansion' k n)),
              )
          | no ne ↦ let other = not_free k m w in inl (ground (arith, waits-topo' k m))
        ]
        | inr (gone, sub) ↦
            inr (
              find-none m gone,
              λ n i. ground (arith, sub n, has-expansion' m n, has-expansion' k n),
            )
      ]

      pub step : Expanding topo' expansion'
      step = record {
        unique =
            release-UniqueKeys g (delete node_eq g topo) expansion
              (delete-UniqueKeys node_eq g topo inv.unique);
        sound = sound';
        waiting = λ k m w. inv.waiting k m (ground (arith, waits-topo' k m));
        closed = λ k m w.
            closed' k m (ground (arith, waits-topo' k m)) (ground (arith, waits-topo' k m));
        nodes_in = λ k m l i. ground (arith, inv.nodes_in k m l i, has-expansion' k m);
        groups_in = groups_in';
      }
