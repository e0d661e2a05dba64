-- ===== src/Tests/NodeIds.antt =====
-- The numeric ids of a small network.
use nylon.Base.{◌≡◌, refl, ◌⊎◌, inl, inr, [], ◌∷◌, sort, ℕ_discrete}
use nylon.Base.Maps.{find, put}
use nylon.NodeIds.{CentralCfg, NodeIdMap, BuildError, build_node_id_map}
use nylon.NodeIds.Built.{Built, Refused, build_node_id_map-Built}
use nylon.Tests.Network.{small}

-- the node 5 pins the label 16
abbrev config : CentralCfg
config = record {
  routers = record { id = 7; numeric_id = 0 } ∷ record { id = 5; numeric_id = 16 } ∷ [];
  clients = record { id = 3; numeric_id = 0 } ∷ [];
}

build_node_id_map-Built_example :
    ((e : BuildError) × (build_node_id_map config ≡ inl e) × Refused config e)
    ⊎ ((m : NodeIdMap) × (build_node_id_map config ≡ inr m) × Built config m)
build_node_id_map-Built_example = build_node_id_map-Built config

-- the labels that the nodes get
labels :
    build_node_id_map config
    ≡ inr (record {
      by_numeric = (16, 5) ∷ (17, 3) ∷ (18, 7) ∷ [];
      by_string = (5, 16) ∷ (3, 17) ∷ (7, 18) ∷ [];
    })
unfolding build_node_id_map sort find put ℕ_discrete
labels = refl
