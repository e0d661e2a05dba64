-- ===== src/Config/Graph/Release.antt =====
-- One round of the expansion of groups in `ParseGraph` of state/config.go.
use nylon.Base.{
  suc, ◌≤◌, ◌<◌, ◌≡◌, ◌≢◌, refl, ap, ◌∙◌, Bool, true, false, ◌&&◌, ◌||◌, List, [], ◌∷◌, ◌++◌,
  Option, none, some, length, if◌then◌else◌, arith, is_yes,
}
use nylon.Base.Maps.{Map, find, put, delete, find-put, find-delete, find-cons-none, UniqueKeys}
use nylon.Config.Graph.{release}
use nylon.Config.Lines.{entry}
use nylon.Config.Names.{has, remove, sort_names}
use nylon.Config.Names.Members.{has-append, has-sort_names, waits}
use nylon.Platform.{Platform}

module _ {ℓ} {K V : Type ℓ} (dec : Discrete K) where
  pub delete-UniqueKeys : (k : K) (m : Map K V) → UniqueKeys dec m → UniqueKeys dec (delete dec k m)
  unfolding delete
  delete-UniqueKeys k [] u = tt
  delete-UniqueKeys k ((j, w) ∷ m) u =
      ground (arith, delete-UniqueKeys k m u.1, find-delete dec k j m)

  length-delete_le : (k : K) (m : Map K V) → length (delete dec k m) ≤ length m
  unfolding delete
  length-delete_le k [] = omega arith
  length-delete_le k ((j, w) ∷ m) = ground (arith, length-delete_le k m)

  pub length-delete :
      (k : K) (v : V) (m : Map K V) → find dec k m ≡ some v → length (delete dec k m) < length m
  unfolding delete find
  length-delete k v [] h = absurd (ground arith)
  length-delete k v ((j, w) ∷ m) h = ground (arith, length-delete k v m, length-delete_le k m)

module _ ⦃P : Platform⦄ where
  open P use {NodeId, node_eq, node_le}

  -- the groups that a group still waits for, after one of them is done
  abbrev pub released : NodeId → Option (List NodeId) → Option (List NodeId)
  released g none = none
  released g (some deps) = some (if has node_eq g deps then remove node_eq g deps else deps)

  entry-put :
      (j k : NodeId) (l : List NodeId) (m : Map NodeId (List NodeId))
      → entry (put node_eq j l m) k ≡ (if is_yes (node_eq j k) then l else entry m k)
  entry-put j k l m = ground (arith, find-put node_eq j k l m)

  module _ (g : NodeId) where
    -- the expansion after a dependent has taken over the one of the group
    abbrev grow : Bool → NodeId → Map NodeId (List NodeId) → Map NodeId (List NodeId)
    grow b j expansion =
        if b
        then put node_eq j (sort_names (entry expansion j ++ entry expansion g)) expansion
        else expansion

    pub release-topo :
        (k : NodeId) (topo expansion : Map NodeId (List NodeId))
        → find node_eq k (release g topo expansion).0 ≡ released g (find node_eq k topo)
    unfolding release find
    release-topo k [] expansion = refl
    release-topo k ((j, deps) ∷ topo) expansion =
        ground (arith, release-topo k topo (grow (has node_eq g deps) j expansion))

    pub release-UniqueKeys :
        (topo expansion : Map NodeId (List NodeId))
        → UniqueKeys node_eq topo
        → UniqueKeys node_eq (release g topo expansion).0
    unfolding release
    release-UniqueKeys [] expansion u = tt
    release-UniqueKeys ((j, deps) ∷ topo) expansion u =
        (release-topo j topo _ ∙ ap (released g) u.0, release-UniqueKeys topo _ u.1)

    pub length-release :
        (topo expansion : Map NodeId (List NodeId))
        → length (release g topo expansion).0 ≡ length topo
    unfolding release
    length-release [] expansion = refl
    length-release ((j, deps) ∷ topo) expansion = ap suc (length-release topo _)

    grow-entry :
        (b : Bool) (k j n : NodeId) (expansion : Map NodeId (List NodeId))
        → has node_eq n (entry (grow b j expansion) k) ≡ (
            has node_eq n (entry expansion k)
            || ((b && is_yes (node_eq j k)) && has node_eq n (entry expansion g)))
    grow-entry false k j n expansion = ground arith
    grow-entry true k j n expansion =
        let both = entry expansion j ++ entry expansion g in
        ap (has node_eq n) (entry-put j k (sort_names both) expansion)
        ∙ elim (node_eq j k)
            as (λ d. has node_eq n (if is_yes d then sort_names both else entry expansion k) ≡ (
              has node_eq n (entry expansion k)
              || (is_yes d && has node_eq n (entry expansion g)))) [
                | yes e ↦
                    has-sort_names n both
                    ∙ has-append node_eq n (entry expansion j) (entry expansion g)
                    ∙ ap
                        (λ x.
                          has node_eq n (entry expansion x) || has node_eq n (entry expansion g))
                        e
                | no ne ↦ ground arith
              ]

    -- only a dependent's entry changes
    grow_self :
        (b : Bool) (j : NodeId) (expansion : Map NodeId (List NodeId))
        → j ≢ g
        → entry (grow b j expansion) g ≡ entry expansion g
    grow_self false j expansion n = refl
    grow_self true j expansion n =
        ground
          (arith, entry-put j g (sort_names (entry expansion j ++ entry expansion g)) expansion)

    pub release-expansion :
        (k n : NodeId) (topo expansion : Map NodeId (List NodeId))
        → UniqueKeys node_eq topo
        → find node_eq g topo ≡ none
        → has node_eq n (entry (release g topo expansion).1 k) ≡ (
            has node_eq n (entry expansion k)
            || (waits g (find node_eq k topo) && has node_eq n (entry expansion g)))
    unfolding release find
    release-expansion k n [] expansion u h = ground arith
    release-expansion k n ((j, deps) ∷ topo) expansion u h =
        let b = has node_eq g deps in
        let (n', h') = find-cons-none node_eq j g deps topo h in
        ground (
          arith,
          u.0,
          release-expansion k n topo (grow b j expansion) u.1 h',
          grow-entry b k j n expansion,
          ap (has node_eq n) (grow_self b j expansion n'),
        )
