-- ===== src/Config/Graph/Meaning.antt =====
-- What `ParseGraph` of state/config.go returns, in terms of the lines.
use nylon.Base.{
  ◌≡◌, ◌≢◌, ◌⊎◌, refl, sym, ap, ◌∙◌, true, false, List, [], Option, none, some, length, arith,
  is_some, Option-cases, inl, inr,
}
use nylon.Base.Maps.{Map, find}
use nylon.Base.Results.{Result, err, ok}
use nylon.Config.Graph.{expand_groups, rewrite_pairings, parse_graph}
use nylon.Config.Graph.Edges.{Between, Given, has-rewrite_pairings, rewrite_pairings-has}
use nylon.Config.Graph.Expands.{Expands}
use nylon.Config.Graph.Expansion.{Lists, Expanding}
use nylon.Config.Graph.Loop.{IsCycle, Expanded, expand_groups_lem, expand-Expands, Expands-expand}
use nylon.Config.Lines.{Line, GraphError, Parsed, collect_symbols, parse_lines}
use nylon.Config.Lines.Group.{Parsing}
use nylon.Config.Lines.Parsing.{pairs_of, After, parse_lines-After}
use nylon.Config.Lines.Symbols.{groups_of, collect_symbols-ok}
use nylon.Config.Names.{has, Edge, edge_eq, make_sorted_pair, sort_names}
use nylon.Config.Names.Members.{has-sort_names, waits}
use nylon.Platform.{Platform}

Result-cases {ℓ} :
    {E A : Type ℓ} (r : Result E A) → ((e : E) × (r ≡ err e)) ⊎ ((a : A) × (r ≡ ok a))
Result-cases (err e) = inl (e, refl)
Result-cases (ok a) = inr (a, refl)

module _ ⦃P : Platform⦄ where
  open P use {NodeId, node_eq}

  abbrev no_lines : Parsed
  no_lines = record { pairings = []; groups = []; topo = []; expansion = [] }

  waits-entry :
      (n : NodeId) (o : Option (List NodeId))
      → waits n o ≡ has node_eq n (elim o [ none ↦ [] | some l ↦ l ])
  waits-entry n none = refl
  waits-entry n (some l) = refl

  no_lines-Parsing : (nodes symbols : List NodeId) → Parsing nodes symbols no_lines
  unfolding find
  no_lines-Parsing nodes symbols = record {
    unique = tt;
    each = λ k. record {
      terminals = λ n. ground arith;
      waiting = λ m. ground arith;
      keys = refl;
      valid = λ m h. absurd (ground arith);
    };
  }

  module _ (nodes : List NodeId) (lines : List Line) where
    -- an edge that the lines mean: a pairing line has two names, in this order once sorted, and they
    -- stand for two different nodes
    pub data Link (e : Edge) : Type 0 where
      link :
          (v w a b : NodeId)
          → has edge_eq (v, w) (pairs_of lines) ≡ true
          → Expands nodes (groups_of lines) v a
          → Expands nodes (groups_of lines) w b
          → a ≢ b
          → make_sorted_pair a b ≡ e
          → Link e

    waits-Lists :
        (k m : NodeId)
        → waits m (find node_eq k (groups_of lines)) ≡ true
        → (is_some (find node_eq k (groups_of lines)) ≡ true → has node_eq k nodes ≡ false)
        → Lists nodes (groups_of lines) k m
    waits-Lists k m h g = elim (Option-cases (find node_eq k (groups_of lines))) [
      | inl e ↦ absurd (ground arith)
      | inr (lst, e) ↦ (lst, ground arith, e, ground arith)
    ]

    Lists-waits :
        (k m : NodeId)
        → Lists nodes (groups_of lines) k m
        → waits m (find node_eq k (groups_of lines)) ≡ true
    Lists-waits k m (lst, a, b, c) = ground arith

    parsed-Expanding :
        (found : List NodeId) (st : Parsed)
        → collect_symbols nodes lines nodes ≡ ok found
        → After nodes (sort_names found) no_lines st (groups_of lines) (pairs_of lines)
        → Expanding nodes (groups_of lines) st.topo st.expansion
    parsed-Expanding found st c a =
        let facts = collect_symbols-ok nodes lines nodes found c in
        let group : (k : NodeId) → find node_eq k st.groups ≡ find node_eq k (groups_of lines) =
          λ k. unfold find in a.groups_lem k in
        let each = a.parsing.each in
        record {
          unique = a.parsing.unique;
          sound = λ x n h.
              let t = (each x).terminals n in
              let w : waits n (find node_eq x (groups_of lines)) ≡ true =
                ground
                  (arith, waits-entry n (find node_eq x st.expansion), ap (waits n) (group x)) in
              let known : has node_eq n nodes ≡ true =
                ground (arith, waits-entry n (find node_eq x st.expansion)) in
              let (lst, f, g, i) = waits-Lists x n w (facts x).1 in
              Expands.member n lst f g i (Expands.node refl known);
          waiting = λ k m w.
              waits-Lists k m (ground (arith, (each k).waiting m, ap (waits m) (group k)))
                (facts k).1;
          closed = λ k m w. ground (
            arith,
            (each k).waiting m,
            (each k).valid m,
            has-sort_names m found,
            (facts m).0,
            ap is_some (group m),
            (each m).keys,
          );
          nodes_in = λ k m l i.
              ground (arith, (each k).terminals m, Lists-waits k m l, ap (waits m) (group k));
          groups_in = λ k m l f.
              inl (ground (arith, (each k).waiting m, Lists-waits k m l, ap (waits m) (group k)));
        }

    -- what a result of `ParseGraph` says
    abbrev pub Meaning : NodeId → Result GraphError (List Edge) → Type 0
    Meaning no_group (ok edges) =
        (e : Edge) → (has edge_eq e edges ≡ true → Link e) × (Link e → has edge_eq e edges ≡ true)
    Meaning no_group (err e) =
        (collect_symbols nodes lines nodes ≡ err e)
        ⊎ (((found : List NodeId) × (collect_symbols nodes lines nodes ≡ ok found)
              × (parse_lines nodes (sort_names found) lines no_lines ≡ err e))
            ⊎ ((l : List NodeId) × (e ≡ GraphError.cycle_detected l)
                × IsCycle nodes (groups_of lines) no_group l))

    edges-Meaning :
        (no_group : NodeId) (pairs : List Edge) (expansion : Map NodeId (List NodeId))
        → ((e : Edge) → has edge_eq e pairs ≡ has edge_eq e (pairs_of lines))
        → Expanding nodes (groups_of lines) [] expansion
        → Meaning no_group (ok (rewrite_pairings nodes expansion pairs []))
    edges-Meaning no_group pairs expansion same inv e = (
      λ h. elim (has-rewrite_pairings nodes expansion pairs [] e h) [
        | inl i ↦ absurd (ground arith)
        | inr (Given.given v w i (Between.between a b j k n s)) ↦
            Link.link v w a b (sym (same (v, w)) ∙ i)
              (expand-Expands nodes (groups_of lines) expansion v a inv j)
              (expand-Expands nodes (groups_of lines) expansion w b inv k) n s
      ],
      λ l. from_link l,
    )
      where
        from_link : Link e → has edge_eq e (rewrite_pairings nodes expansion pairs []) ≡ true
        from_link (Link.link v w a b i x y n s) = rewrite_pairings-has nodes expansion pairs [] e (
            inr (
              Given.given v w (same (v, w) ∙ i) (
                Between.between a b (Expands-expand nodes (groups_of lines) expansion inv x)
                  (Expands-expand nodes (groups_of lines) expansion inv y) n s)))

    result-Meaning :
        (no_group : NodeId) (found : List NodeId) (st : Parsed)
        (r : Result GraphError (Map NodeId (List NodeId)))
        → collect_symbols nodes lines nodes ≡ ok found
        → parse_lines nodes (sort_names found) lines no_lines ≡ ok st
        → expand_groups no_group (length st.topo) st.topo st.expansion ≡ some r
        → ((e : Edge) → has edge_eq e st.pairings ≡ has edge_eq e (pairs_of lines))
        → Expanded nodes (groups_of lines) no_group r
        → (q : Result GraphError (List Edge)) × (parse_graph no_group lines nodes ≡ some q)
          × Meaning no_group q
    unfolding parse_graph
    result-Meaning no_group found st (err e) c p x same good =
        (err e, rw (c, p, x, parse_graph) refl, inr (inr good))
    result-Meaning no_group found st (ok expansion) c p x same good = (
      ok (rewrite_pairings nodes expansion st.pairings []),
      rw (c, p, x, parse_graph) refl,
      edges-Meaning no_group st.pairings expansion same good,
    )

    -- `ParseGraph` ends. Without an error it returns exactly the edges between two different nodes that
    -- the two names of a pair stand for, where each pairing line pairs each of its sorted names with
    -- the later ones, a node stands for itself and a group for what its names stand for. An error is
    -- one of a line, or a cycle: its groups each list another of them, or one has an empty name.
    pub parse_graph_means :
        (no_group : NodeId)
        → (r : Result GraphError (List Edge)) × (parse_graph no_group lines nodes ≡ some r)
          × Meaning no_group r
    unfolding parse_graph
    parse_graph_means no_group = elim (Result-cases (collect_symbols nodes lines nodes)) [
      | inl (e, c) ↦ (err e, rw (c, parse_graph) refl, inl c)
      | inr (found, c) ↦ elim (Result-cases (parse_lines nodes (sort_names found) lines no_lines)) [
        | inl (e, p) ↦ (err e, rw (c, p, parse_graph) refl, inr (inl (found, c, p)))
        | inr (st, p) ↦
            let a =
              parse_lines-After nodes (sort_names found) lines no_lines st p
                (no_lines-Parsing nodes (sort_names found)) in
            let (r, x, good) =
              expand_groups_lem nodes (groups_of lines) no_group (length st.topo) st.topo
                st.expansion (omega arith) (parsed-Expanding found st c a) in
            result-Meaning no_group found st r c p x (λ e. a.pairs_lem e) good
      ]
    ]
