-- ===== src/Config/Lines.antt =====
-- The first passes of `ParseGraph` of state/config.go, over the lines. The split of a line by `=` and `,`
-- and the trimming of its parts have happened; a group's name is a string like a node's.
pub mod Symbols
pub mod Group
pub mod Parsing
use nylon.Base.{
  ℕ, zero, suc, Bool, true, false, not, ◌&&◌, ◌||◌, List, [], ◌∷◌, ◌++◌, Option, none, some, map,
  length, ltb, is_yes, if◌then◌else◌, ite, contains_func, sort, ap,
}
use nylon.Base.Maps.{Map, find, put, delete}
use nylon.Base.Results.{Result, err, ok, ◌>>=◌}
use nylon.Platform.{Platform}
use nylon.Config.Names.{
  has, compact, remove, Edge, node_lt, make_sorted_pair, edge_le, edge_eq, sort_names, sort_edges,
}

module _ ⦃P : Platform⦄ where
  open P use {NodeId, node_eq, node_le}

  -- what stands between two `=`: the whole, and its symbols
  pub record Part : Type 0 where
    pub name : NodeId
    pub symbols : List NodeId

  -- a line, in lower case, split by `=`
  pub record Line : Type 0 where
    pub head : Part
    pub others : List Part

  pub data GraphError : Type 0 where
    definition_parts : GraphError
    group_is_node : NodeId → GraphError
    unknown_symbol : NodeId → GraphError
    empty_list : GraphError
    duplicate_group : NodeId → GraphError
    invalid_pairing : GraphError
    cycle_detected : List NodeId → GraphError

  -- the first symbol that is not valid
  unfoldable pub first_unknown : List NodeId → List NodeId → Option NodeId
  first_unknown valid [] = none
  first_unknown valid (x ∷ xs) =
      let rest = first_unknown valid xs in if has node_eq x valid then rest else some x

  unfoldable pub parse_symbol_list : List NodeId → List NodeId → Result GraphError (List NodeId)
  unfolding first_unknown sort
  parse_symbol_list valid [] = err GraphError.empty_list
  parse_symbol_list valid (x ∷ xs) = elim (first_unknown valid (x ∷ xs)) [
    | some y ↦ err (GraphError.unknown_symbol y)
    | none ↦ ok (sort node_le (x ∷ xs))
  ]

  -- pass 0
  unfoldable pub new_symbols : List NodeId → Line → Result GraphError (List NodeId)
  new_symbols nodes line = elim line.others [
    | [] ↦ ok []
    | _ ∷ more ↦ elim more [
      | [] ↦
          if has node_eq line.head.name nodes
          then err (GraphError.group_is_node line.head.name)
          else ok (line.head.name ∷ [])
      | _ ∷ _ ↦ err GraphError.definition_parts
    ]
  ]

  unfoldable pub collect_symbols :
      List NodeId → List Line → List NodeId → Result GraphError (List NodeId)
  unfolding new_symbols
  collect_symbols nodes [] symbols = ok symbols
  collect_symbols nodes (line ∷ lines) symbols = do
    more ← new_symbols nodes line
    collect_symbols nodes lines (symbols ++ more)

  -- the state of pass 1
  pub record Parsed : Type 0 where
    pub pairings : List Edge
    pub groups : Map NodeId (List NodeId)
    pub topo : Map NodeId (List NodeId)
    pub expansion : Map NodeId (List NodeId)

  abbrev pub entry : Map NodeId (List NodeId) → NodeId → List NodeId
  entry m k = elim (find node_eq k m) [ none ↦ [] | some l ↦ l ]

  -- the groups and the nodes of a list
  unfoldable pub dependencies : List NodeId → List NodeId → List NodeId
  dependencies nodes [] = []
  dependencies nodes (l ∷ ls) =
      let rest = dependencies nodes ls in if has node_eq l nodes then rest else l ∷ rest

  unfoldable pub terminals_in : List NodeId → List NodeId → List NodeId
  terminals_in nodes [] = []
  terminals_in nodes (l ∷ ls) =
      let rest = terminals_in nodes ls in if has node_eq l nodes then l ∷ rest else rest

  -- a group definition; with no node in its list, `expansion` gets no entry
  unfoldable pub define_group :
      List NodeId → List NodeId → NodeId → Part → Parsed → Result GraphError Parsed
  unfolding parse_symbol_list dependencies terminals_in sort_names
  define_group nodes symbols grp part st = elim (find node_eq grp st.groups) [
    | some _ ↦ err (GraphError.duplicate_group grp)
    | none ↦ do
      lst ← parse_symbol_list symbols part.symbols
      ok (record st {
        groups = put node_eq grp lst st.groups;
        topo = put node_eq grp (sort_names (dependencies nodes lst)) st.topo;
        expansion = elim (terminals_in nodes lst) [
          | [] ↦ st.expansion
          | n ∷ ns ↦ put node_eq grp (entry st.expansion grp ++ n ∷ ns) st.expansion
        ];
      })
  ]

  -- the pairs of each name with those before it
  unfoldable pub interconnect : List NodeId → List NodeId → List Edge
  unfolding make_sorted_pair
  interconnect before [] = []
  interconnect before (name ∷ names) =
      map (λ node. make_sorted_pair node name) before ++ interconnect (before ++ name ∷ []) names

  unfoldable pub paired : Parsed → List NodeId → Result GraphError Parsed
  unfolding interconnect sort_edges
  paired st names =
      if ltb (length names) 2
      then err GraphError.invalid_pairing
      else ok (record st { pairings = sort_edges (st.pairings ++ interconnect [] names) })

  unfoldable pub add_pairing : List NodeId → Part → Parsed → Result GraphError Parsed
  unfolding parse_symbol_list paired
  add_pairing symbols part st = do names ← parse_symbol_list symbols part.symbols; paired st names

  unfoldable pub parse_line : List NodeId → List NodeId → Line → Parsed → Result GraphError Parsed
  unfolding define_group add_pairing
  parse_line nodes symbols line st = elim line.others [
    | [] ↦ add_pairing symbols line.head st
    | part ∷ _ ↦ define_group nodes symbols line.head.name part st
  ]

  -- pass 1
  unfoldable pub parse_lines :
      List NodeId → List NodeId → List Line → Parsed → Result GraphError Parsed
  unfolding parse_line
  parse_lines nodes symbols [] st = ok st
  parse_lines nodes symbols (line ∷ lines) st = do
    st' ← parse_line nodes symbols line st
    parse_lines nodes symbols lines st'
