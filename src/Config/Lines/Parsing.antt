-- ===== src/Config/Lines/Parsing.antt =====
-- Pass 1 of `ParseGraph` of state/config.go: what the groups, their dependencies and the expansion hold
-- after some lines.
use nylon.Base.{
  ◌≡◌, refl, sym, ap, subst, ◌∙◌, ◌||◌, List, [], ◌∷◌, ◌++◌, Option, none, some, sort, ltb, length,
  arith, ite, Option-cases, Bool-cases, inl, inr,
}
use nylon.Base.Maps.{Map, find, find-put}
use nylon.Base.Results.{ok}
use nylon.Config.Lines.Group.{Parsing, with_group, with_group-Parsing}
use nylon.Config.Lines.{
  Line, Part, Parsed, parse_symbol_list, define_group, interconnect, paired, add_pairing,
  parse_line, parse_lines,
}
use nylon.Config.Lines.Symbols.{
  bind-ok, defined, groups_of, or_else, find-append, parse_symbol_list-ok,
}
use nylon.Config.Names.{has, Edge, edge_eq, sort_edges}
use nylon.Config.Names.Members.{has-append, has-sort_edges}
use nylon.Platform.{Platform}

module _ ⦃P : Platform⦄ where
  open P use {NodeId, node_eq, node_le}

  or_else-none : (o : Option (List NodeId)) → o ≡ or_else o none
  or_else-none none = refl
  or_else-none (some l) = refl

  or_else_assoc : (a b c : Option (List NodeId)) → or_else (or_else a b) c ≡ or_else a (or_else b c)
  or_else_assoc none b c = refl
  or_else_assoc (some l) b c = refl

  merge :
      (grp k : NodeId) (lst l : List NodeId) (groups : Map NodeId (List NodeId))
      → lst ≡ l
      → find node_eq grp groups ≡ none
      → ite (node_eq grp k) (some lst) (find node_eq k groups)
        ≡ or_else (find node_eq k groups) (find node_eq k ((grp, l) ∷ []))
  unfolding find
  merge grp k lst l groups same fresh = elim (node_eq grp k) [
    | yes q ↦ ground (arith, ap (λ x. find node_eq x groups) q)
    | no n ↦ ground arith
  ]

  -- the pairs that the pairing lines give
  abbrev pub paired_by : Line → List Edge
  paired_by line = elim line.others [
    | [] ↦ interconnect [] (sort node_le line.head.symbols)
    | _ ∷ _ ↦ []
  ]

  unfoldable pub pairs_of : List Line → List Edge
  pairs_of [] = []
  pairs_of (line ∷ lines) = paired_by line ++ pairs_of lines

  module _ (nodes symbols : List NodeId) where
    -- one or more lines: the invariant, the groups and the pairs
    pub record After (st st' : Parsed) (groups : Map NodeId (List NodeId)) (pairs : List Edge)
        : Type 0 where
      pub parsing : Parsing nodes symbols st'
      pub groups_lem :
          (k : NodeId)
          → find node_eq k st'.groups ≡ or_else (find node_eq k st.groups) (find node_eq k groups)
      pub pairs_lem :
          (e : Edge)
          → has edge_eq e st'.pairings ≡ (has edge_eq e st.pairings || has edge_eq e pairs)

    define_group-After :
        (grp : NodeId) (part : Part) (st st' : Parsed)
        → define_group nodes symbols grp part st ≡ ok st'
        → Parsing nodes symbols st
        → After st st' ((grp, sort node_le part.symbols) ∷ []) []
    unfolding define_group
    define_group-After grp part st st' h inv = elim (Option-cases (find node_eq grp st.groups)) [
      | inr (l, e) ↦ absurd (ground arith)
      | inl e ↦
          let (lst, p, q) =
            bind-ok (parse_symbol_list symbols part.symbols)
              (λ l. ok (with_group nodes symbols grp l st)) st' (rw (e, define_group) at h) in
          let (sorted, known) = parse_symbol_list-ok symbols part.symbols lst p in
          let same : with_group nodes symbols grp lst st ≡ st' = ground arith in
          subst (λ x. After st x ((grp, sort node_le part.symbols) ∷ []) []) same
            (record {
              parsing = with_group-Parsing nodes symbols grp lst st e known inv;
              groups_lem =
                  λ k. find-put node_eq grp k lst st.groups ∙ merge grp k lst _ st.groups sorted e;
              pairs_lem = λ x. ground arith;
            })
    ]

    add_pairing-After :
        (part : Part) (st st' : Parsed)
        → add_pairing symbols part st ≡ ok st'
        → Parsing nodes symbols st
        → After st st' [] (interconnect [] (sort node_le part.symbols))
    unfolding add_pairing paired
    add_pairing-After part st st' h inv =
        let (names, p, q) = bind-ok (parse_symbol_list symbols part.symbols) (paired st) st' h in
        let (sorted, known) = parse_symbol_list-ok symbols part.symbols names p in
        elim (Bool-cases (ltb (length names) 2)) [
          | inl e ↦ absurd (ground arith)
          | inr e ↦
              let same : record st { pairings = sort_edges (st.pairings ++ interconnect [] names) }
                  ≡ st' =
                ground arith in
              subst (λ x. After st x [] (interconnect [] (sort node_le part.symbols))) same
                (record {
                  parsing = record { unique = inv.unique; each = inv.each };
                  groups_lem = λ k. unfold find in or_else-none (find node_eq k st.groups);
                  pairs_lem = λ x.
                      has-sort_edges x (st.pairings ++ interconnect [] names)
                      ∙ has-append edge_eq x st.pairings (interconnect [] names)
                      ∙ ap (λ l. has edge_eq x st.pairings || has edge_eq x (interconnect [] l))
                          sorted;
                })
        ]

    parse_line-After :
        (head : Part) (others : List Part) (st st' : Parsed)
        → let line : Line = record { head = head; others = others } in
          parse_line nodes symbols line st ≡ ok st'
          → Parsing nodes symbols st
          → After st st' (defined line) (paired_by line)
    unfolding parse_line
    parse_line-After head [] st st' h inv = add_pairing-After head st st' h inv
    parse_line-After head (part ∷ _) st st' h inv = define_group-After head.name part st st' h inv

    pub parse_lines-After :
        (lines : List Line) (st st' : Parsed)
        → parse_lines nodes symbols lines st ≡ ok st'
        → Parsing nodes symbols st
        → After st st' (groups_of lines) (pairs_of lines)
    unfolding parse_lines groups_of pairs_of
    parse_lines-After [] st st' h inv =
        let same : st ≡ st' = ground arith in
        subst (λ x. After st x [] []) same
          (record {
            parsing = inv;
            groups_lem = λ k. unfold find in or_else-none (find node_eq k st.groups);
            pairs_lem = λ e. ground arith;
          })
    parse_lines-After (line ∷ lines) st st'' h inv =
        let (st', p, q) =
          bind-ok (parse_line nodes symbols line st) (parse_lines nodes symbols lines) st'' h in
        let a = parse_line-After line.head line.others st st' p inv in
        let b = parse_lines-After lines st' st'' q a.parsing in
        record {
          parsing = b.parsing;
          groups_lem = λ k.
              b.groups_lem k
              ∙ ap (λ o. or_else o (find node_eq k (groups_of lines))) (a.groups_lem k)
              ∙ or_else_assoc (find node_eq k st.groups) (find node_eq k (defined line))
                  (find node_eq k (groups_of lines))
              ∙ ap (or_else (find node_eq k st.groups))
                  (sym (find-append k (defined line) (groups_of lines)));
          pairs_lem = λ e. ground (
            arith,
            a.pairs_lem e,
            b.pairs_lem e,
            has-append edge_eq e (paired_by line) (pairs_of lines),
          );
        }
