-- ===== src/NodeIds/Explicit.antt =====
-- `collect` of state/node_id_numeric.go: the pins that a configuration makes.
use mathlib.Core.List.{Memᴰ}
use nylon.Base.{
  ℕ, ◌≡◌, refl, subst, ◌||◌, is_yes, List, [], ◌∷◌, ◌++◌, Option, none, some, arith, ite, is_some,
  map, ◌==◌, if◌then◌else◌, All, All-append, inl, inr, Option-cases,
}
use nylon.Base.Maps.{find, find-put}
use nylon.NodeIds.{NodeCfg, CentralCfg, Collected, collect, collect_all, collected}
use nylon.Platform.{Platform}

module _ ⦃P : Platform⦄ where
  open P use {NodeId, node_eq}

  -- the number that the first entry of a node pins; 0 pins none
  abbrev pub pin_of : NodeId → List NodeCfg → Option ℕ
  pin_of id [] = none
  pin_of id (n ∷ ns) =
      ite (node_eq n.id id) (if n.numeric_id == 0 then none else some n.numeric_id) (pin_of id ns)

  -- a node that is seen first adds its pin, and any other entry nothing
  collect-explicit :
      (id : NodeId) (n : NodeCfg) (c : Collected)
      → (find node_eq id c.seen ≡ none → find node_eq id c.explicit ≡ none)
      → find node_eq id (collect c n).explicit ≡ (
          if is_some (find node_eq id c.seen)
          then find node_eq id c.explicit
          else pin_of id (n ∷ []))
  unfolding collect
  collect-explicit id n c h = elim (Option-cases (find node_eq id c.seen)) [
    | inl e ↦ let free = h e in ground (arith, find-put node_eq n.id id n.numeric_id c.explicit)
    | inr (u, e) ↦ ground (arith, find-put node_eq n.id id n.numeric_id c.explicit)
  ]

  collect-seen :
      (id : NodeId) (n : NodeCfg) (c : Collected)
      → is_some (find node_eq id (collect c n).seen)
        ≡ (is_some (find node_eq id c.seen) || is_yes (node_eq n.id id))
  unfolding collect
  collect-seen id n c = ground (arith, find-put node_eq n.id id tt c.seen)

  collect_all-explicit :
      (id : NodeId) (ns : List NodeCfg) (c : Collected)
      → (find node_eq id c.seen ≡ none → find node_eq id c.explicit ≡ none)
      → find node_eq id (collect_all c ns).explicit
        ≡ (if is_some (find node_eq id c.seen) then find node_eq id c.explicit else pin_of id ns)
  unfolding collect_all
  collect_all-explicit id [] c h = elim (Option-cases (find node_eq id c.seen)) [
    | inl e ↦ rw e (h e)
    | inr (u, e) ↦ rw e refl
  ]
  collect_all-explicit id (n ∷ ns) c h =
      let step = collect-explicit id n c h in
      let seen = collect-seen id n c in
      let rest = collect_all-explicit id ns (collect c n) (λ e. ground arith) in ground arith

  -- every id that is collected stands in the configuration
  collect-All {κ} :
      (Q : NodeId → Type κ) (n : NodeCfg) (c : Collected)
      → All Q c.ids
      → Q n.id
      → All Q (collect c n).ids
  unfolding collect
  collect-All Q n c all here = elim (Option-cases (find node_eq n.id c.seen)) [
    | inr (u, e) ↦
        let same : c.ids ≡ (collect c n).ids = rw (e, collect) refl in subst (All Q) same all
    | inl e ↦
        let same : c.ids ++ n.id ∷ [] ≡ (collect c n).ids = rw (e, collect) refl in
        subst (All Q) same (All-append Q c.ids (n.id ∷ []) all (here, tt))
  ]

  collect_all-All {κ} :
      (Q : NodeId → Type κ) (ns : List NodeCfg) (c : Collected)
      → All Q c.ids
      → All (λ n. Q n.id) ns
      → All Q (collect_all c ns).ids
  unfolding collect_all
  collect_all-All Q [] c all rest = all
  collect_all-All Q (n ∷ ns) c all rest =
      collect_all-All Q ns (collect c n) (collect-All Q n c all rest.0) rest.1

  All-members :
      (all rest : List NodeCfg)
      (sub : (id : NodeId)
        → Memᴰ id (map (λ (n : NodeCfg). n.id) rest)
        → Memᴰ id (map (λ (n : NodeCfg). n.id) all))
      → All (λ n. Memᴰ n.id (map (λ (n : NodeCfg). n.id) all)) rest
  All-members all [] sub = tt
  All-members all (n ∷ ns) sub =
      (sub n.id (Memᴰ.head refl), All-members all ns (λ id m. sub id (Memᴰ.tail m)))

  pub collected-explicit :
      (c : CentralCfg) (id : NodeId)
      → find node_eq id (collected c).explicit ≡ pin_of id (c.routers ++ c.clients)
  unfolding collected find
  collected-explicit c id =
      collect_all-explicit id (c.routers ++ c.clients)
        (record { ids = []; explicit = []; seen = [] }) (λ h. refl)

  pub collected-members :
      (c : CentralCfg)
      → All (λ id. Memᴰ id (map (λ (n : NodeCfg). n.id) (c.routers ++ c.clients))) (collected c).ids
  unfolding collected
  collected-members c =
      let nodes = c.routers ++ c.clients in
      collect_all-All _ nodes (record { ids = []; explicit = []; seen = [] }) tt
        (All-members nodes nodes (λ id m. m))
