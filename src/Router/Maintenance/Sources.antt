-- ===== src/Router/Maintenance/Sources.antt =====
-- The collection of the source table at the end of `RunGC` in core/router_algo.go.
use mathlib.Core.List.{Memᴰ}
use nylon.Base.{
  ℕ, ◌≡◌, refl, subst, ◌∙◌, ◌⊎◌, inl, inr, Bool, true, List, [], ◌∷◌, none, some, arith,
  contains_func, if◌then◌else◌, Bool-cases, Option-cases,
}
use nylon.Base.Maps.{Map, find, keep}
use nylon.Platform.{Platform}
use nylon.Router.Compute.{compute_routes}
use nylon.Router.Maintenance.{
  expired, has_source, pub_of_neigh, pub_of_sel, adv_by, is_referenced, sweep_sources, run_gc,
}
use nylon.Router.State.{
  Source, NeighRoute, SelRoute, Advertisement, Neighbour, RouterState, source_eq,
}

-- dropping the keys that fail a test
find-keep {ℓ} :
    {K V : Type ℓ} (dec : Discrete K) (test : K → Bool) (k : K) (m : Map K V)
    → find dec k (keep (λ j v. if test j then some v else none) m)
      ≡ (if test k then find dec k m else none)
unfolding find keep
find-keep dec test k [] = ground arith
find-keep dec test k ((j, v) ∷ m) = ground (arith, find-keep dec test k m)

module _ ⦃P : Platform⦄ where
  open P use {Prefix, prefix_eq, node_eq}

  -- some table refers to the source: a neighbour's route, the selected route, or an advertisement
  pub data Referenced (s : RouterState) (src : Source) : Type 0 where
    by_route :
        (n : Neighbour) (r : NeighRoute)
        → Memᴰ n s.neighbours
        → find prefix_eq src.prefix n.routes ≡ some r
        → r.pub_route.source ≡ src
        → Referenced s src
    by_selection :
        (r : SelRoute)
        → find prefix_eq src.prefix s.routes ≡ some r
        → r.pub_route.source ≡ src
        → Referenced s src
    by_advertisement :
        (adv : Advertisement)
        → find prefix_eq src.prefix s.advertised ≡ some adv
        → adv.node_id ≡ src.node_id
        → Referenced s src

  has-route :
      (src : Source) (ns : List Neighbour)
      → contains_func
          (λ (n : Neighbour). has_source src (pub_of_neigh (find prefix_eq src.prefix n.routes)))
          ns
        ≡ true
      → (n : Neighbour) × (r : NeighRoute) × Memᴰ n ns
        × (find prefix_eq src.prefix n.routes ≡ some r)
        × (r.pub_route.source ≡ src)
  unfolding contains_func has_source pub_of_neigh
  has-route src [] h = absurd (ground arith)
  has-route src (n ∷ ns) h = elim (Option-cases (find prefix_eq src.prefix n.routes)) [
    | inl e ↦
        let (m, r, here, found, same) = has-route src ns (ground arith) in
        (m, r, Memᴰ.tail here, found, same)
    | inr (r, e) ↦ elim (source_eq r.pub_route.source src) [
      | yes same ↦ (n, r, Memᴰ.head refl, e, same)
      | no other ↦
          let (m, r', here, found, same) = has-route src ns (ground arith) in
          (m, r', Memᴰ.tail here, found, same)
    ]
  ]

  route-has :
      (src : Source) (n : Neighbour) (r : NeighRoute) (ns : List Neighbour)
      → Memᴰ n ns
      → find prefix_eq src.prefix n.routes ≡ some r
      → r.pub_route.source ≡ src
      → contains_func
          (λ (n : Neighbour). has_source src (pub_of_neigh (find prefix_eq src.prefix n.routes)))
          ns
        ≡ true
  unfolding contains_func has_source pub_of_neigh
  route-has src n r [] m e same = elim m [ ]
  route-has src n r (x ∷ ns) (Memᴰ.head e') e same =
      let here : find prefix_eq src.prefix x.routes ≡ some r =
        subst (λ (y : Neighbour). find prefix_eq src.prefix y.routes ≡ some r) e' e in
      ground arith
  route-has src n r (x ∷ ns) (Memᴰ.tail m) e same = ground (arith, route-has src n r ns m e same)

  selection-Referenced :
      (s : RouterState) (src : Source)
      → has_source src (pub_of_sel (find prefix_eq src.prefix s.routes)) ≡ true
      → Referenced s src
  unfolding has_source pub_of_sel
  selection-Referenced s src h = elim (Option-cases (find prefix_eq src.prefix s.routes)) [
    | inl e ↦ absurd (ground arith)
    | inr (r, e) ↦ elim (source_eq r.pub_route.source src) [
      | yes same ↦ by_selection r e same
      | no other ↦ absurd (ground arith)
    ]
  ]

  advertisement-Referenced :
      (s : RouterState) (src : Source)
      → adv_by src.node_id (find prefix_eq src.prefix s.advertised) ≡ true
      → Referenced s src
  unfolding adv_by
  advertisement-Referenced s src h = elim (Option-cases (find prefix_eq src.prefix s.advertised)) [
    | inl e ↦ absurd (ground arith)
    | inr (adv, e) ↦ elim (node_eq adv.node_id src.node_id) [
      | yes same ↦ by_advertisement adv e same
      | no other ↦ absurd (ground arith)
    ]
  ]

  is_referenced-Referenced :
      (s : RouterState) (src : Source) → is_referenced s src ≡ true → Referenced s src
  unfolding is_referenced
  is_referenced-Referenced s src h =
      elim (Bool-cases (
        contains_func
          (λ (n : Neighbour). has_source src (pub_of_neigh (find prefix_eq src.prefix n.routes)))
          s.neighbours)) [
            | inl e ↦
                let (n, r, here, found, same) = has-route src s.neighbours e in
                by_route n r here found same
            | inr e ↦
                elim (Bool-cases
                  (has_source src (pub_of_sel (find prefix_eq src.prefix s.routes)))) [
                    | inl e' ↦ selection-Referenced s src e'
                    | inr e' ↦ advertisement-Referenced s src (ground arith)
                  ]
          ]

  Referenced-is_referenced :
      (s : RouterState) (src : Source) → Referenced s src → is_referenced s src ≡ true
  unfolding is_referenced has_source pub_of_sel adv_by
  Referenced-is_referenced s src (by_route n r m e same) =
      ground (arith, route-has src n r s.neighbours m e same)
  Referenced-is_referenced s src (by_selection r e same) = ground arith
  Referenced-is_referenced s src (by_advertisement adv e same) = ground arith

  -- After `RunGC` a source that some table still refers to has the entry that it had after
  -- `ComputeRoutes`, if any, and every other source has none; the rest of the state is as
  -- `ComputeRoutes` left it. The expired routes and advertisements are dropped first.
  pub run_gc_sources :
      (s : RouterState) (now : ℕ) (src : Source)
      → let after = (run_gc s now).0 in
        let before = (compute_routes (expired s now) now).0 in
        ((Referenced after src
            × (find source_eq src after.sources ≡ find source_eq src before.sources))
          ⊎ ((¬ (Referenced after src)) × (find source_eq src after.sources ≡ none)))
        × (after ≡ record before { sources = after.sources })
  unfolding run_gc sweep_sources is_referenced
  run_gc_sources s now src =
      let before = (compute_routes (expired s now) now).0 in
      let after = (run_gc s now).0 in
      let kept = find-keep source_eq (is_referenced before) src before.sources in
      (
        elim (Bool-cases (is_referenced before src)) [
          | inl e ↦ inl (is_referenced-Referenced after src e, kept ∙ rw e refl)
          | inr e ↦ inr (
            λ r. absurd (ground (arith, e, Referenced-is_referenced after src r)),
            kept ∙ rw e refl,
          )
        ],
        refl,
      )
