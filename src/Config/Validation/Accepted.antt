-- ===== src/Config/Validation/Accepted.antt =====
-- What a configuration that `CentralConfigValidator` of state/validation.go accepts is like.
use mathlib.Core.List.{append_assoc, append-nil}
use nylon.Base.{
  ◌≡◌, refl, sym, ap, subst, ◌∙◌, Bool, true, false, not, List, [], ◌∷◌, ◌++◌, Option, none, some,
  ◌⊎◌, inl, inr, map, arith, is_yes, is_some, All,
}
use nylon.Base.Results.{Result, err, ok}
use nylon.Config.Graph.{parse_graph}
use nylon.Config.Lines.{Line, GraphError}
use nylon.Config.Lines.Symbols.{bind-ok}
use nylon.Config.Names.{has, Edge}
use nylon.Config.Names.Members.{has-append}
use nylon.Config.Validation.{
  PrefixHealth, get_prefix, Node, CentralConfig, ValidationError, check, check_ids, ids_of,
  check_graph, get_peers, check_prefixes, peers_checked, check_routers, check_static, all_static,
  check_id_map, check_repos, check_excludes, check_health, all_prefixes, numbered,
  central_config_validator,
}
use nylon.NodeIds.{NodeIdMap, BuildError, build_node_id_map}
use nylon.Platform.{Platform}

module _ {A : Type 0} (dec : Discrete A) where
  -- no element occurs twice
  abbrev pub Distinct : List A → Type 0
  Distinct [] = Unit
  Distinct (x ∷ xs) = (has dec x xs ≡ false) × Distinct xs

  snoc-Distinct :
      (x : A) (xs : List A) → Distinct xs → has dec x xs ≡ false → Distinct (xs ++ x ∷ [])
  snoc-Distinct x [] d h = (refl, tt)
  snoc-Distinct x (y ∷ ys) d h = (
    ground (arith, has-append dec y ys (x ∷ []), d.0, has_sym x y),
    snoc-Distinct x ys d.1 (ground arith),
  )
    where
      has_sym : (x y : A) → is_yes (dec x y) ≡ true → is_yes (dec y x) ≡ true
      has_sym x y e = ground arith

module _ ⦃P : Platform⦄ where
  open P use {NodeId, Prefix, node_eq, prefix_eq}

  check-ok : (b : Bool) (e : ValidationError) (u : Unit {0}) → check b e ≡ ok u → b ≡ true
  check-ok true e u h = refl
  check-ok false e u h = absurd (ground arith)

  module _ (name_ok : NodeId → Bool) (prefix_valid : Prefix → Bool) (no_name : NodeId) where
    check_ids-ok :
        (ns : List Node) (nodes found : List NodeId)
        → check_ids name_ok prefix_valid no_name ns nodes ≡ ok found
        → Distinct node_eq nodes
        → (found ≡ nodes ++ ids_of name_ok prefix_valid no_name ns) × Distinct node_eq found
    unfolding check_ids
    check_ids-ok [] nodes found h d =
        let same : nodes ≡ found = ground arith in
        (sym same ∙ sym (append-nil nodes), subst (Distinct node_eq) same d)
    check_ids-ok (n ∷ ns) nodes found h d =
        let (u, a, rest) =
          bind-ok (check (name_ok n.id) (ValidationError.invalid_name n.id)) _ found h in
        let (v, b, rest') =
          bind-ok (check (not (has node_eq n.id nodes)) (ValidationError.duplicate_id n.id)) _ found
            rest in
        let fresh = check-ok _ _ v b in
        let (same, d') =
          check_ids-ok ns (nodes ++ n.id ∷ []) found rest'
            (snoc-Distinct node_eq n.id nodes d (ground arith)) in
        (same ∙ append_assoc nodes (n.id ∷ []) (ids_of name_ok prefix_valid no_name ns), d')

    check_prefixes-ok :
        (router : NodeId) (ps : List PrefixHealth) (seen found : List Prefix)
        → check_prefixes name_ok prefix_valid no_name router ps seen ≡ ok found
        → Distinct prefix_eq seen
        → (found ≡ seen ++ map get_prefix ps) × Distinct prefix_eq found
    unfolding check_prefixes
    check_prefixes-ok router [] seen found h d =
        let same : seen ≡ found = ground arith in
        (sym same ∙ sym (append-nil seen), subst (Distinct prefix_eq) same d)
    check_prefixes-ok router (p ∷ ps) seen found h d =
        let (v, b, rest) =
          bind-ok
            (check (not (has prefix_eq (get_prefix p) seen))
              (ValidationError.duplicate_prefix router (get_prefix p)))
            _ found h in
        let fresh = check-ok _ _ v b in
        let (same, d') =
          check_prefixes-ok router ps (seen ++ get_prefix p ∷ []) found rest
            (snoc-Distinct prefix_eq (get_prefix p) seen d (ground arith)) in
        (same ∙ append_assoc seen (get_prefix p ∷ []) (map get_prefix ps), d')

    check_routers-ok :
        (c : CentralConfig) (rs : List Node) (u : Unit {0})
        → check_routers name_ok prefix_valid no_name c rs ≡ ok u
        → All (λ r. Distinct prefix_eq (map get_prefix r.prefixes)) rs
    unfolding check_routers
    check_routers-ok c [] u h = tt
    check_routers-ok c (r ∷ rs) u h =
        let (seen, a, rest) =
          bind-ok (check_prefixes name_ok prefix_valid no_name r.id r.prefixes []) _ u h in
        let (v, b, rest') =
          bind-ok
            (peers_checked name_ok prefix_valid no_name c.clients r.id
              (get_peers name_ok prefix_valid no_name c r.id) seen)
            _ u rest in
        let (same, d) = check_prefixes-ok r.id r.prefixes [] seen a tt in
        (subst (Distinct prefix_eq) same d, check_routers-ok c rs u rest')

    check_static-ok :
        (ns : List Node) (u : Unit {0})
        → check_static name_ok prefix_valid no_name ns ≡ ok u
        → All (λ n. all_static name_ok prefix_valid no_name n.prefixes ≡ true) ns
    unfolding check_static
    check_static-ok [] u h = tt
    check_static-ok (n ∷ ns) u h =
        let (v, b, rest) =
          bind-ok
            (check (all_static name_ok prefix_valid no_name n.prefixes)
              (ValidationError.not_static n.id))
            _ u h in
        (check-ok _ _ v b, check_static-ok ns u rest)

    abbrev is_accepted : Option (Result GraphError (List Edge)) → Bool
    is_accepted none = false
    is_accepted (some (err _)) = false
    is_accepted (some (ok _)) = true

    graph-ok :
        (graph : List Line) (nodes : List NodeId) (u : Unit {0})
        → check_graph name_ok prefix_valid no_name graph nodes ≡ ok u
        → (edges : List Edge) × (parse_graph no_name graph nodes ≡ some (ok edges))
    unfolding check_graph
    graph-ok graph nodes u h = parsed-ok (parse_graph no_name graph nodes) refl (ground arith)
      where
        parsed-ok :
            (o : Option (Result GraphError (List Edge)))
            → parse_graph no_name graph nodes ≡ o
            → is_accepted o ≡ true
            → (edges : List Edge) × (parse_graph no_name graph nodes ≡ some (ok edges))
        parsed-ok none e a = absurd (ground arith)
        parsed-ok (some (err x)) e a = absurd (ground arith)
        parsed-ok (some (ok edges)) e a = (edges, e)

    peers-ok :
        (c : CentralConfig) (cur : NodeId) (edges : List Edge)
        → parse_graph no_name c.graph (
            ids_of name_ok prefix_valid no_name c.routers
            ++ ids_of name_ok prefix_valid no_name c.clients)
          ≡ some (ok edges)
        → is_some (get_peers name_ok prefix_valid no_name c cur) ≡ true
    unfolding get_peers
    peers-ok c cur edges e = rw (e, get_peers) refl

    built-ok :
        (r : BuildError ⊎ NodeIdMap) (u : Unit {0})
        → elim r as (λ _. Result ValidationError (Unit {0})) [
          | inl e ↦ err (ValidationError.id_map e)
          | inr _ ↦ ok tt
        ]
          ≡ ok u
        → (m : NodeIdMap) × (r ≡ inr m)
    built-ok (inl e) u h = absurd (ground arith)
    built-ok (inr m) u h = (m, refl)

    id_map-ok :
        (c : CentralConfig) (u : Unit {0})
        → check_id_map name_ok prefix_valid no_name c ≡ ok u
        → (m : NodeIdMap) × (build_node_id_map (numbered name_ok prefix_valid no_name c) ≡ inr m)
    unfolding check_id_map
    id_map-ok c u h = built-ok (build_node_id_map (numbered name_ok prefix_valid no_name c)) u h

    -- A central configuration that the validator accepts names no node twice, routers and clients
    -- together; `GetPeers` does not panic on it for the node `cur`; `BuildNodeIdMap` gives an id map; no router
    -- has a prefix twice; and the clients' prefixes are static.
    pub central_config_validator_accepts :
        (c : CentralConfig) (u : Unit {0}) (cur : NodeId)
        → central_config_validator name_ok prefix_valid no_name c ≡ ok u
        → Distinct node_eq (
            ids_of name_ok prefix_valid no_name c.routers
            ++ ids_of name_ok prefix_valid no_name c.clients)
          × (is_some (get_peers name_ok prefix_valid no_name c cur) ≡ true)
          × ((m : NodeIdMap) × (build_node_id_map (numbered name_ok prefix_valid no_name c)
                ≡ inr m))
          × All (λ r. Distinct prefix_eq (map get_prefix r.prefixes)) c.routers
          × All (λ n. all_static name_ok prefix_valid no_name n.prefixes ≡ true) c.clients
    unfolding central_config_validator
    central_config_validator_accepts c u cur h =
        let (routers, a, h1) =
          bind-ok (check_ids name_ok prefix_valid no_name c.routers []) _ u h in
        let (nodes, b, h2) =
          bind-ok (check_ids name_ok prefix_valid no_name c.clients routers) _ u h1 in
        let (v, g, h3) = bind-ok (check_graph name_ok prefix_valid no_name c.graph nodes) _ u h2 in
        let (w, i, h4) = bind-ok (check_id_map name_ok prefix_valid no_name c) _ u h3 in
        let (x, r, h5) = bind-ok (check_routers name_ok prefix_valid no_name c c.routers) _ u h4 in
        let (y, k, h6) = bind-ok (check_repos name_ok prefix_valid no_name c.repos) _ u h5 in
        let (z, l, h7) =
          bind-ok (check_excludes name_ok prefix_valid no_name c.exclude_ips) _ u h6 in
        let (q, m, h8) =
          bind-ok
            (check_health name_ok prefix_valid no_name (
              all_prefixes name_ok prefix_valid no_name c.clients
              ++ all_prefixes name_ok prefix_valid no_name c.routers))
            _ u h7 in
        let (same_routers, d) = check_ids-ok c.routers [] routers a tt in
        let (same_nodes, d') = check_ids-ok c.clients routers nodes b d in
        let same =
          same_nodes ∙ ap (λ l. l ++ ids_of name_ok prefix_valid no_name c.clients) same_routers in
        let (edges, e) = graph-ok c.graph nodes v g in
        (
          subst (Distinct node_eq) same d',
          peers-ok c cur edges
              (subst (λ l. parse_graph no_name c.graph l ≡ some (ok edges)) same e),
          id_map-ok c w i,
          check_routers-ok c c.routers x r,
          check_static-ok c.clients u h8,
        )
