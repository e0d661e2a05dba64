-- ===== src/Config/Names.antt =====
-- Lists of names and of pairs of names, as state/config.go and state/pair.go sort them.
pub mod Members
use nylon.Base.{
  ℕ, zero, suc, Bool, true, false, not, ◌&&◌, ◌||◌, List, [], ◌∷◌, ◌++◌, Option, none, some, map,
  length, ltb, is_yes, if◌then◌else◌, ite, contains_func, sort, ap,
}
use nylon.Base.Maps.{Map, find, put, delete}
use nylon.Base.Results.{Result, err, ok, ◌>>=◌}
use nylon.Platform.{Platform}

-- `slices.Contains`
abbrev pub has {ℓ} : {A : Type ℓ} → Discrete A → A → List A → Bool
has dec x [] = false
has dec x (y ∷ ys) = is_yes (dec y x) || has dec x ys

-- `slices.Compact`: a run of equal elements becomes one
unfoldable pub compact_after {ℓ} : {A : Type ℓ} → Discrete A → A → List A → List A
compact_after dec x [] = []
compact_after dec x (y ∷ ys) =
    let rest = compact_after dec y ys in if is_yes (dec x y) then rest else y ∷ rest

unfoldable pub compact {ℓ} : {A : Type ℓ} → Discrete A → List A → List A
unfolding compact_after
compact dec [] = []
compact dec (x ∷ xs) = x ∷ compact_after dec x xs

-- the removal of an element in place
unfoldable pub remove {ℓ} : {A : Type ℓ} → Discrete A → A → List A → List A
remove dec x [] = []
remove dec x (y ∷ ys) = let rest = remove dec x ys in if is_yes (dec y x) then rest else y ∷ rest

module _ ⦃P : Platform⦄ where
  open P use {NodeId, node_eq, node_le}

  abbrev pub Edge : Type 0
  Edge = NodeId × NodeId

  abbrev pub node_lt : NodeId → NodeId → Bool
  node_lt a b = not (node_le b a)

  unfoldable pub make_sorted_pair : NodeId → NodeId → Edge
  make_sorted_pair a b = if node_lt a b then (a, b) else (b, a)

  -- `!less(b, a)` for the order of `SortPairs`
  abbrev pub edge_le : Edge → Edge → Bool
  edge_le a b = not (node_lt b.0 a.0 || is_yes (node_eq b.0 a.0) && node_lt b.1 a.1)

  unfoldable pub edge_eq : Discrete Edge
  edge_eq a b = elim (node_eq a.0 b.0) [
    | no n ↦ no (λ e. n (ap (λ (x : Edge). x.0) e))
    | yes p ↦ elim (node_eq a.1 b.1) [
      | no n ↦ no (λ e. n (ap (λ (x : Edge). x.1) e))
      | yes q ↦ yes (λ i. (p i, q i))
    ]
  ]

  unfoldable pub sort_names : List NodeId → List NodeId
  unfolding sort compact
  sort_names l = compact node_eq (sort node_le l)

  unfoldable pub sort_edges : List Edge → List Edge
  unfolding sort compact edge_eq
  sort_edges l = compact edge_eq (sort edge_le l)
