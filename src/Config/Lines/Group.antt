-- ===== src/Config/Lines/Group.antt =====
-- One more group in pass 1 of `ParseGraph` of state/config.go.
use nylon.Base.{
  ◌≡◌, refl, sym, ap, subst, ◌≢◌, ◌∙◌, true, not, ◌&&◌, ◌||◌, List, [], ◌∷◌, ◌++◌, Option, none,
  some, arith, is_some,
}
use nylon.Base.Maps.{Map, find, put, find-put_self, find-put_ne, put-UniqueKeys, UniqueKeys}
use nylon.Config.Lines.{Parsed, entry, dependencies, terminals_in}
use nylon.Config.Lines.Symbols.{has-dependencies, has-terminals_in}
use nylon.Config.Names.{has, sort_names}
use nylon.Config.Names.Members.{has-append, has-sort_names, waits}
use nylon.Platform.{Platform}

module _ ⦃P : Platform⦄ where
  open P use {NodeId, node_eq, node_le}

  module _ (nodes symbols : List NodeId) where
    -- one group: its list, what it waits for and its expansion so far
    pub record GroupParsed (group topo expansion : Option (List NodeId)) : Type 0 where
      pub terminals : (n : NodeId) → waits n expansion ≡ (has node_eq n nodes && waits n group)
      pub waiting : (m : NodeId) → waits m topo ≡ (not (has node_eq m nodes) && waits m group)
      pub keys : is_some topo ≡ is_some group
      pub valid : (m : NodeId) → waits m group ≡ true → has node_eq m symbols ≡ true

    pub record Parsing (st : Parsed) : Type 0 where
      pub unique : UniqueKeys node_eq st.topo
      pub each :
          (k : NodeId)
          → GroupParsed
              (find node_eq k st.groups)
              (find node_eq k st.topo)
              (find node_eq k st.expansion)

    -- the state with one more group
    abbrev pub put_terminals :
        NodeId → List NodeId → Map NodeId (List NodeId) → Map NodeId (List NodeId)
    put_terminals grp l expansion = elim l [
      | [] ↦ expansion
      | n ∷ ns ↦ put node_eq grp (entry expansion grp ++ n ∷ ns) expansion
    ]

    abbrev pub with_group : NodeId → List NodeId → Parsed → Parsed
    with_group grp lst st = record st {
      groups = put node_eq grp lst st.groups;
      topo = put node_eq grp (sort_names (dependencies nodes lst)) st.topo;
      expansion = put_terminals grp (terminals_in nodes lst) st.expansion;
    }

    waits-entry :
        (n : NodeId) (o : Option (List NodeId))
        → waits n o ≡ has node_eq n (elim o [ none ↦ [] | some l ↦ l ])
    waits-entry n none = refl
    waits-entry n (some l) = refl

    terminals_self :
        (grp n : NodeId) (l : List NodeId) (expansion : Map NodeId (List NodeId))
        → waits n (find node_eq grp (put_terminals grp l expansion))
          ≡ (waits n (find node_eq grp expansion) || has node_eq n l)
    terminals_self grp n [] expansion = ground arith
    terminals_self grp n (x ∷ xs) expansion =
        ap (waits n) (find-put_self node_eq grp (entry expansion grp ++ x ∷ xs) expansion)
        ∙ has-append node_eq n (entry expansion grp) (x ∷ xs)
        ∙ ap (λ b. b || has node_eq n (x ∷ xs)) (sym (waits-entry n (find node_eq grp expansion)))

    terminals_other :
        (grp k : NodeId) (l : List NodeId) (expansion : Map NodeId (List NodeId))
        → grp ≢ k
        → find node_eq k (put_terminals grp l expansion) ≡ find node_eq k expansion
    terminals_other grp k [] expansion n = refl
    terminals_other grp k (x ∷ xs) expansion n = find-put_ne node_eq grp k _ expansion n

    pub with_group-Parsing :
        (grp : NodeId) (lst : List NodeId) (st : Parsed)
        → find node_eq grp st.groups ≡ none
        → ((m : NodeId) → has node_eq m lst ≡ true → has node_eq m symbols ≡ true)
        → Parsing st
        → Parsing (with_group grp lst st)
    with_group-Parsing grp lst st fresh known inv =
        let deps = sort_names (dependencies nodes lst) in
        let l = terminals_in nodes lst in
        let own : GroupParsed (some lst) (some deps)
            (find node_eq grp (put_terminals grp l st.expansion)) =
          record {
            terminals = λ n. ground (
              arith,
              terminals_self grp n l st.expansion,
              has-terminals_in nodes lst n,
              (inv.each grp).terminals n,
              ap (waits n) fresh,
            );
            waiting = λ m. has-sort_names m (dependencies nodes lst) ∙ has-dependencies nodes lst m;
            keys = refl;
            valid = known;
          } in
        record {
          unique = put-UniqueKeys node_eq grp deps st.topo inv.unique;
          each = λ k. elim (node_eq grp k) [
            | yes q ↦
                subst
                  (λ x.
                    GroupParsed (find node_eq x (put node_eq grp lst st.groups))
                      (find node_eq x (put node_eq grp deps st.topo))
                      (find node_eq x (put_terminals grp l st.expansion)))
                  q
                  (rw
                    (
                      find-put_self node_eq grp lst st.groups,
                      find-put_self node_eq grp deps st.topo,
                    )
                    own)
            | no n ↦
                rw
                  (
                    find-put_ne node_eq grp k lst st.groups n,
                    find-put_ne node_eq grp k deps st.topo n,
                    terminals_other grp k l st.expansion n,
                  )
                  (inv.each k)
          ];
        }
