-- ===== src/Config/Graph/Loop.antt =====
-- The loop of `ParseGraph` of state/config.go over the groups: it ends, with the expansion of every
-- name or with a cycle.
use nylon.Base.{
  ℕ, zero, suc, ◌≤◌, ◌≡◌, ◌≢◌, refl, sym, ap, ◌∙◌, true, false, List, [], ◌∷◌, none, some, length,
  map, sort, arith, is_yes, is_some, Bool-cases, Option-cases, inl, inr, if_pos, if_neg,
}
use nylon.Base.Maps.{Map, find, delete, UniqueKeys}
use nylon.Base.Results.{Result, err, ok}
use nylon.Config.Graph.{free_group, expand_groups, expand}
use nylon.Config.Graph.Expands.{Expands}
use nylon.Config.Graph.Expansion.{Lists, Expanding, step, topo', expansion'}
use nylon.Config.Graph.Release.{length-delete, length-release}
use nylon.Config.Lines.{GraphError, entry}
use nylon.Config.Names.{has}
use nylon.Config.Names.Members.{has-sort, waits}
use nylon.Platform.{Platform}

module _ ⦃P : Platform⦄ where
  open P use {NodeId, node_eq, node_le}

  find-free_group :
      (g : NodeId) (topo : Map NodeId (List NodeId))
      → UniqueKeys node_eq topo
      → free_group topo ≡ some g
      → find node_eq g topo ≡ some []
  unfolding free_group find
  find-free_group g [] u h = absurd (ground arith)
  find-free_group g ((k, []) ∷ topo) u h = ground arith
  find-free_group g ((k, d ∷ deps) ∷ topo) u h =
      let ih : find node_eq g topo ≡ some [] = find-free_group g topo u.1 h in
      elim (node_eq k g) [
        | yes e ↦ absurd (ground (arith, u.0, ap (λ x. find node_eq x topo) e, ih))
        | no n ↦ rw (if_neg (node_eq k g) n) ih
      ]

  abbrev names : Map NodeId (List NodeId) → List NodeId
  names topo = map (λ e. e.0) topo

  has-names :
      (k : NodeId) (topo : Map NodeId (List NodeId))
      → has node_eq k (names topo) ≡ is_some (find node_eq k topo)
  unfolding find
  has-names k [] = refl
  has-names k ((j, deps) ∷ topo) = ground (arith, has-names k topo)

  -- without a free group every group waits
  all_wait :
      (k : NodeId) (topo : Map NodeId (List NodeId))
      → free_group topo ≡ none
      → has node_eq k (names topo) ≡ true
      → (m : NodeId) × (waits m (find node_eq k topo) ≡ true)
  unfolding free_group find
  all_wait k [] f h = absurd (ground arith)
  all_wait k ((j, []) ∷ topo) f h = absurd (ground arith)
  all_wait k ((j, d ∷ deps) ∷ topo) f h = elim (node_eq j k) [
    | yes e ↦ (d, rw (if_pos (node_eq j k) e) (ground arith))
    | no n ↦
        let h' : has node_eq k (names topo) ≡ true = ground arith in
        let (m, w) = all_wait k topo f h' in (m, rw (if_neg (node_eq j k) n) w)
  ]

  module _ (nodes : List NodeId) (groups : Map NodeId (List NodeId)) where
    -- a cycle among the names: each lists another of them; unless a group has no name
    pub data IsCycle (no_group : NodeId) (l : List NodeId) : Type 0 where
      nameless : has node_eq no_group l ≡ true → IsCycle no_group l
      cycle :
          l ≢ []
          → ((k : NodeId)
              → has node_eq k l ≡ true
              → (m : NodeId) × Lists nodes groups k m × (has node_eq m l ≡ true))
          → IsCycle no_group l

    -- a result of the loop
    abbrev pub Expanded : NodeId → Result GraphError (Map NodeId (List NodeId)) → Type 0
    Expanded no_group (ok expansion) = Expanding nodes groups [] expansion
    Expanded no_group (err e) =
        (l : List NodeId) × (e ≡ GraphError.cycle_detected l) × IsCycle no_group l

    has-sorted_names :
        (k : NodeId) (topo : Map NodeId (List NodeId))
        → has node_eq k (sort node_le (names topo)) ≡ is_some (find node_eq k topo)
    has-sorted_names k topo = has-sort node_eq node_le k (names topo) ∙ has-names k topo

    stuck-IsCycle :
        (no_group k : NodeId) (deps : List NodeId) (topo expansion : Map NodeId (List NodeId))
        → Expanding nodes groups ((k, deps) ∷ topo) expansion
        → free_group ((k, deps) ∷ topo) ≡ none
        → IsCycle no_group (sort node_le (names ((k, deps) ∷ topo)))
    stuck-IsCycle no_group k deps topo expansion inv f =
        let all = (k, deps) ∷ topo in
        let l = sort node_le (names all) in
        IsCycle.cycle
          (λ e. ground (arith, has-sort node_eq node_le k (names all), ap (has node_eq k) e))
          (λ j h.
            let (m, w) = all_wait j all f (sym (has-sort node_eq node_le j (names all)) ∙ h) in
            (m, inv.waiting j m w, has-sorted_names m all ∙ inv.closed j m w))

    pub expand_groups_lem :
        (no_group : NodeId) (fuel : ℕ) (topo expansion : Map NodeId (List NodeId))
        → length topo ≤ fuel
        → Expanding nodes groups topo expansion
        → (r : Result GraphError (Map NodeId (List NodeId))) × (expand_groups no_group fuel topo
              expansion
            ≡ some r)
          × Expanded no_group r
    unfolding expand_groups
    expand_groups_lem no_group fuel [] expansion enough inv = (ok expansion, refl, inv)
    expand_groups_lem no_group zero ((k, deps) ∷ topo) expansion enough inv = elim enough [ ]
    expand_groups_lem no_group (suc fuel) ((k, deps) ∷ topo) expansion enough inv =
        let all = (k, deps) ∷ topo in
        let l = sort node_le (names all) in
        elim (Option-cases (free_group all)) [
          | inl f ↦ (
            err (GraphError.cycle_detected l),
            rw (f, expand_groups) refl,
            (l, refl, stuck-IsCycle no_group k deps topo expansion inv f),
          )
          | inr (g, f) ↦
              let here = find-free_group g all inv.unique f in
              elim (node_eq g no_group) [
                | yes e ↦ (
                  err (GraphError.cycle_detected l),
                  (let y : is_yes (node_eq g no_group) ≡ true = ground arith in
                      rw (f, y, expand_groups) refl),
                  (
                    l,
                    refl,
                    IsCycle.nameless (
                        has-sorted_names no_group all
                        ∙ ap (λ x. is_some (find node_eq x all)) (sym e)
                        ∙ ap is_some here),
                  ),
                )
                | no n ↦
                    let (r, e, good) =
                      expand_groups_lem no_group fuel (topo' nodes groups g all expansion here inv)
                        (expansion' nodes groups g all expansion here inv)
                        (omega (
                          arith,
                          enough,
                          length-delete node_eq g [] all here,
                          length-release g (delete node_eq g all) expansion,
                        ))
                        (step nodes groups g all expansion here inv) in
                    (
                      r,
                      (let y : is_yes (node_eq g no_group) ≡ false = ground arith in
                          rw (f, y, expand_groups) e),
                      good,
                    )
              ]
        ]

    -- at the end the expansion of a name is what it stands for
    pub expand-Expands :
        (expansion : Map NodeId (List NodeId)) (x n : NodeId)
        → Expanding nodes groups [] expansion
        → has node_eq n (expand nodes expansion x) ≡ true
        → Expands nodes groups x n
    expand-Expands expansion x n inv h = elim (Bool-cases (has node_eq x nodes)) [
      | inl e ↦ Expands.node (ground arith) (ground arith)
      | inr e ↦ inv.sound x n (ground arith)
    ]

    pub Expands-expand :
        (expansion : Map NodeId (List NodeId)) {x n : NodeId}
        → Expanding nodes groups [] expansion
        → Expands nodes groups x n
        → has node_eq n (expand nodes expansion x) ≡ true
    unfolding find
    Expands-expand expansion inv (Expands.node same known) = ground arith
    Expands-expand expansion {x} {n} inv (Expands.member m lst a b c rest) =
        let ih = Expands-expand expansion inv rest in
        elim (Bool-cases (has node_eq m nodes)) [
          | inl e ↦
              let same : m ≡ n = ground arith in
              let here = inv.nodes_in x m (lst, a, b, c) e in
              ground (arith, ap (λ y. has node_eq y (entry expansion x)) same)
          | inr e ↦ elim (inv.groups_in x m (lst, a, b, c) e) [
            | inl w ↦ absurd (ground arith)
            | inr (gone, sub) ↦ let here = sub n (ground arith) in ground arith
          ]
        ]
