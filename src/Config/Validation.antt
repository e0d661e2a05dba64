-- ===== src/Config/Validation.antt =====
-- `CentralConfigValidator` of state/validation.go and `GetPeers` of state/config.go.
pub mod Accepted
use nylon.Base.{
  ℕ, Bool, true, false, not, ◌&&◌, List, [], ◌∷◌, ◌++◌, Option, none, some, ◌⊎◌, inl, inr, map, ite,
  if◌then◌else◌,
}
use nylon.Base.Int.{ℤ, pos, ltb_ℤ}
use nylon.Base.Results.{Result, err, ok, ◌>>=◌}
use nylon.Config.Graph.{parse_graph, peers_in}
use nylon.Config.Lines.{Line, GraphError}
use nylon.Config.Names.{has}
use nylon.NodeIds.{CentralCfg, BuildError, build_node_id_map}
use nylon.Platform.{Platform}

module _ ⦃P : Platform⦄ where
  open P use {NodeId, Prefix, node_eq, prefix_eq}

  -- `PrefixHealthWrapper`, with the prefix and what is tested of the rest; a delay that is not set is
  -- `none`
  pub data PrefixHealth : Type 0 where
    static : Prefix → PrefixHealth
    ping : Prefix → (addr_valid : Bool) → (delay max_failures : Option ℤ) → PrefixHealth
    http : Prefix → (url_ok : Bool) → (delay : Option ℤ) → PrefixHealth
    unknown : Prefix → PrefixHealth

  abbrev pub get_prefix : PrefixHealth → Prefix
  get_prefix (static p) = p
  get_prefix (ping p _ _ _) = p
  get_prefix (http p _ _) = p
  get_prefix (unknown p) = p

  -- a router or a client, as far as it is validated
  pub record Node : Type 0 where
    pub id : NodeId
    pub numeric_id : ℕ
    pub prefixes : List PrefixHealth

  -- `repos` says for each repository whether `url.Parse` takes it
  pub record CentralConfig : Type 0 where
    pub routers : List Node
    pub clients : List Node
    pub graph : List Line
    pub repos : List Bool
    pub exclude_ips : List Prefix

  -- `panicked` is the panic of `GetPeers`
  pub data ValidationError : Type 0 where
    invalid_name duplicate_id : NodeId → ValidationError
    invalid_graph : GraphError → ValidationError
    graph_unfinished : ValidationError
    id_map : BuildError → ValidationError
    duplicate_prefix : NodeId → Prefix → ValidationError
    panicked : ValidationError
    invalid_repo : ValidationError
    invalid_prefix invalid_health : Prefix → ValidationError
    not_static : NodeId → ValidationError

  abbrev pub check : Bool → ValidationError → Result ValidationError (Unit {0})
  check true e = ok tt
  check false e = err e

  -- `name_ok` is `NameValidator`, `prefix_valid` is `netip.Prefix.IsValid`, and `no_name` the empty
  -- string
  module _ (name_ok : NodeId → Bool) (prefix_valid : Prefix → Bool) (no_name : NodeId) where
    -- the loop over the routers and the one over the clients
    unfoldable pub check_ids : List Node → List NodeId → Result ValidationError (List NodeId)
    check_ids [] nodes = ok nodes
    check_ids (n ∷ ns) nodes = do
      _ ← check (name_ok n.id) (ValidationError.invalid_name n.id)
      _ ← check (not (has node_eq n.id nodes)) (ValidationError.duplicate_id n.id)
      check_ids ns (nodes ++ n.id ∷ [])

    abbrev pub ids_of : List Node → List NodeId
    ids_of ns = map (λ n. n.id) ns

    unfoldable pub check_graph : List Line → List NodeId → Result ValidationError (Unit {0})
    unfolding parse_graph
    check_graph graph nodes = elim (parse_graph no_name graph nodes) [
      | none ↦ err ValidationError.graph_unfinished
      | some r ↦ elim r [ err e ↦ err (ValidationError.invalid_graph e) | ok _ ↦ ok tt ]
    ]

    -- `none` is the panic
    unfoldable pub get_peers : CentralConfig → NodeId → Option (List NodeId)
    unfolding parse_graph peers_in
    get_peers c cur = elim (parse_graph no_name c.graph (ids_of c.routers ++ ids_of c.clients)) [
      | none ↦ none
      | some r ↦ elim r [ err _ ↦ none | ok edges ↦ some (peers_in no_name cur edges) ]
    ]

    -- the part of the configuration that `BuildNodeIdMap` reads
    abbrev pub numbered : CentralConfig → CentralCfg
    numbered c = record {
      routers = map (λ (n : Node). record { id = n.id; numeric_id = n.numeric_id }) c.routers;
      clients = map (λ (n : Node). record { id = n.id; numeric_id = n.numeric_id }) c.clients;
    }

    unfoldable pub check_id_map : CentralConfig → Result ValidationError (Unit {0})
    unfolding build_node_id_map
    check_id_map c = elim (build_node_id_map (numbered c)) [
      | inl e ↦ err (ValidationError.id_map e)
      | inr _ ↦ ok tt
    ]

    -- `routerPrefixes`, filled with a node's prefixes
    unfoldable pub check_prefixes :
        NodeId → List PrefixHealth → List Prefix → Result ValidationError (List Prefix)
    check_prefixes router [] seen = ok seen
    check_prefixes router (p ∷ ps) seen = do
      _ ←
          check (not (has prefix_eq (get_prefix p) seen))
            (ValidationError.duplicate_prefix router (get_prefix p))
      check_prefixes router ps (seen ++ get_prefix p ∷ [])

    unfoldable pub find_client : NodeId → List Node → Option Node
    find_client id [] = none
    find_client id (n ∷ ns) = ite (node_eq n.id id) (some n) (find_client id ns)

    abbrev pub client_prefixes : Option Node → List PrefixHealth
    client_prefixes none = []
    client_prefixes (some client) = client.prefixes

    unfoldable pub check_peers :
        List Node → NodeId → List NodeId → List Prefix → Result ValidationError (Unit {0})
    unfolding find_client check_prefixes
    check_peers clients router [] seen = ok tt
    check_peers clients router (peer ∷ peers) seen = do
      seen' ← check_prefixes router (client_prefixes (find_client peer clients)) seen
      check_peers clients router peers seen'

    abbrev pub peers_checked :
        List Node → NodeId → Option (List NodeId) → List Prefix → Result ValidationError (Unit {0})
    peers_checked clients router none seen = err ValidationError.panicked
    peers_checked clients router (some peers) seen = check_peers clients router peers seen

    unfoldable pub check_routers : CentralConfig → List Node → Result ValidationError (Unit {0})
    unfolding check_prefixes get_peers check_peers
    check_routers c [] = ok tt
    check_routers c (r ∷ rs) = do
      seen ← check_prefixes r.id r.prefixes []
      _ ← peers_checked c.clients r.id (get_peers c r.id) seen
      check_routers c rs

    unfoldable pub check_repos : List Bool → Result ValidationError (Unit {0})
    check_repos [] = ok tt
    check_repos (parsed ∷ rest) = do _ ← check parsed ValidationError.invalid_repo; check_repos rest

    unfoldable pub check_excludes : List Prefix → Result ValidationError (Unit {0})
    check_excludes [] = ok tt
    check_excludes (p ∷ ps) = do
      _ ← check (prefix_valid p) (ValidationError.invalid_prefix p)
      check_excludes ps

    -- a number that is not set, or is greater than 0
    abbrev pub is_positive : Option ℤ → Bool
    is_positive none = true
    is_positive (some d) = ltb_ℤ (pos 0) d

    abbrev pub health_ok : PrefixHealth → Bool
    health_ok (static _) = true
    health_ok (ping _ valid delay failures) = valid && is_positive delay && is_positive failures
    health_ok (http _ parsed delay) = parsed && is_positive delay
    health_ok (unknown _) = false

    unfoldable pub check_health : List PrefixHealth → Result ValidationError (Unit {0})
    check_health [] = ok tt
    check_health (p ∷ ps) = do
      _ ← check (prefix_valid (get_prefix p)) (ValidationError.invalid_prefix (get_prefix p))
      _ ← check (health_ok p) (ValidationError.invalid_health (get_prefix p))
      check_health ps

    abbrev pub all_prefixes : List Node → List PrefixHealth
    all_prefixes [] = []
    all_prefixes (n ∷ ns) = n.prefixes ++ all_prefixes ns

    abbrev pub is_static : PrefixHealth → Bool
    is_static (static _) = true
    is_static (ping _ _ _ _) = false
    is_static (http _ _ _) = false
    is_static (unknown _) = false

    abbrev pub all_static : List PrefixHealth → Bool
    all_static [] = true
    all_static (p ∷ ps) = is_static p && all_static ps

    unfoldable pub check_static : List Node → Result ValidationError (Unit {0})
    check_static [] = ok tt
    check_static (n ∷ ns) = do
      _ ← check (all_static n.prefixes) (ValidationError.not_static n.id)
      check_static ns

    unfoldable pub central_config_validator : CentralConfig → Result ValidationError (Unit {0})
    unfolding check_ids check_graph check_id_map check_routers check_repos check_excludes
        check_health check_static
    central_config_validator c = do
      routers ← check_ids c.routers []
      nodes ← check_ids c.clients routers
      _ ← check_graph c.graph nodes
      _ ← check_id_map c
      _ ← check_routers c c.routers
      _ ← check_repos c.repos
      _ ← check_excludes c.exclude_ips
      _ ← check_health (all_prefixes c.clients ++ all_prefixes c.routers)
      check_static c.clients
