-- ===== src/Config/Graph.antt =====
-- `ParseGraph` of state/config.go: the expansion of the groups, and the loop of `GetPeers`.
pub mod Expands
pub mod Release
pub mod Expansion
pub mod Loop
pub mod Edges
pub mod Meaning
use nylon.Base.{
  ℕ, zero, suc, Bool, true, false, not, ◌&&◌, ◌||◌, List, [], ◌∷◌, ◌++◌, Option, none, some, map,
  length, ltb, is_yes, if◌then◌else◌, ite, contains_func, sort, ap,
}
use nylon.Base.Maps.{Map, find, put, delete}
use nylon.Base.Results.{Result, err, ok, ◌>>=◌}
use nylon.Platform.{Platform}
use nylon.Config.Names.{
  has, compact, remove, Edge, node_lt, make_sorted_pair, edge_le, edge_eq, sort_names, sort_edges,
}
use nylon.Config.Lines.{Line, GraphError, Parsed, entry, collect_symbols, parse_lines}

module _ ⦃P : Platform⦄ where
  open P use {NodeId, node_eq, node_le}

  -- pass 2
  unfoldable pub free_group : Map NodeId (List NodeId) → Option NodeId
  free_group [] = none
  free_group ((k, deps) ∷ topo) =
      let rest = free_group topo in elim deps [ [] ↦ some k | _ ∷ _ ↦ rest ]

  -- the loop over the groups that wait for others
  unfoldable pub release :
      NodeId
      → Map NodeId (List NodeId)
      → Map NodeId (List NodeId)
      → Map NodeId (List NodeId) × Map NodeId (List NodeId)
  unfolding remove sort_names
  release group [] expansion = ([], expansion)
  release group ((k, deps) ∷ topo) expansion =
      let (topo', expansion') = release group topo (
        if has node_eq group deps
        then put node_eq k (sort_names (entry expansion k ++ entry expansion group)) expansion
        else expansion) in
      ((k, if has node_eq group deps then remove node_eq group deps else deps) ∷ topo', expansion')

  -- `none` where the fuel runs out; `no_group` is the empty string
  unfoldable pub expand_groups :
      NodeId
      → ℕ
      → Map NodeId (List NodeId)
      → Map NodeId (List NodeId)
      → Option (Result GraphError (Map NodeId (List NodeId)))
  unfolding free_group release sort
  expand_groups no_group fuel [] expansion = some (ok expansion)
  expand_groups no_group zero ((k, deps) ∷ topo) expansion = none
  expand_groups no_group (suc fuel) ((k, deps) ∷ topo) expansion =
      let all = (k, deps) ∷ topo in
      let cycle : Option (Result GraphError (Map NodeId (List NodeId))) =
        some (err (GraphError.cycle_detected (sort node_le (map (λ e. e.0) all)))) in
      elim (free_group all) [
        | none ↦ cycle
        | some group ↦
            let (topo', expansion') = release group (delete node_eq group all) expansion in
            let rest = expand_groups no_group fuel topo' expansion' in
            if is_yes (node_eq group no_group) then cycle else rest
      ]

  -- pass 3
  abbrev pub expand : List NodeId → Map NodeId (List NodeId) → NodeId → List NodeId
  expand nodes expansion v = if has node_eq v nodes then v ∷ [] else entry expansion v

  unfoldable pub links_from : NodeId → List NodeId → List Edge
  unfolding make_sorted_pair
  links_from x [] = []
  links_from x (y ∷ ys) =
      let rest = links_from x ys in
      if is_yes (node_eq x y) then rest else make_sorted_pair x y ∷ rest

  unfoldable pub links : List NodeId → List NodeId → List Edge
  unfolding links_from
  links [] ys = []
  links (x ∷ xs) ys = links_from x ys ++ links xs ys

  unfoldable pub rewrite_pairings :
      List NodeId → Map NodeId (List NodeId) → List Edge → List Edge → List Edge
  unfolding links sort_edges
  rewrite_pairings nodes expansion [] pairings = pairings
  rewrite_pairings nodes expansion ((v, w) ∷ rest) pairings =
      rewrite_pairings nodes expansion rest
        (sort_edges (pairings ++ links (expand nodes expansion v) (expand nodes expansion w)))

  unfoldable pub parse_graph :
      NodeId → List Line → List NodeId → Option (Result GraphError (List Edge))
  unfolding collect_symbols parse_lines expand_groups rewrite_pairings sort_names
  parse_graph no_group graph nodes = elim (collect_symbols nodes graph nodes) [
    | err e ↦ some (err e)
    | ok symbols ↦
        let empty : Parsed = record { pairings = []; groups = []; topo = []; expansion = [] } in
        elim (parse_lines nodes (sort_names symbols) graph empty) [
          | err e ↦ some (err e)
          | ok st ↦ elim (expand_groups no_group (length st.topo) st.topo st.expansion) [
            | none ↦ none
            | some (err e) ↦ some (err e)
            | some (ok expansion) ↦ some (ok (rewrite_pairings nodes expansion st.pairings []))
          ]
        ]
  ]

  -- the loop of `GetPeers`: the other end of each edge of a node
  unfoldable pub peers_in : NodeId → NodeId → List Edge → List NodeId
  peers_in no_node cur [] = []
  peers_in no_node cur ((v1, v2) ∷ edges) =
      let neigh =
        (if is_yes (node_eq v2 cur) then v1 else if is_yes (node_eq v1 cur) then v2 else no_node) in
      let rest = peers_in no_node cur edges in
      if is_yes (node_eq neigh cur) || is_yes (node_eq neigh no_node) then rest else neigh ∷ rest
