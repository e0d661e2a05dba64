-- ===== src/Config/Names/Members.antt =====
-- Membership in the lists that are sorted, compacted and filtered.
use nylon.Base.{
  true, ap, ◌≡◌, ◌∙◌, refl, Bool, false, not, ◌&&◌, ◌||◌, List, [], Option, none, some, ◌∷◌, ◌++◌,
  arith, is_yes, insert_sorted, sort,
}
use nylon.Config.Names.{
  has, compact, compact_after, remove, Edge, edge_eq, edge_le, sort_names, sort_edges,
}
use nylon.Platform.{Platform}

pub has_self {ℓ} : {A : Type ℓ} (dec : Discrete A) (x : A) → is_yes (dec x x) ≡ true
has_self dec x = elim (dec x x) as (λ d. is_yes d ≡ true) [ yes e ↦ refl | no n ↦ absurd (n refl) ]

module _ {ℓ} {A : Type ℓ} (dec : Discrete A) where
  pub has-append : (x : A) (xs ys : List A) → has dec x (xs ++ ys) ≡ (has dec x xs || has dec x ys)
  has-append x [] ys = refl
  has-append x (y ∷ xs) ys = ground (arith, has-append x xs ys)

  has-insert_sorted :
      (le : A → A → Bool) (x y : A) (ys : List A)
      → has dec x (insert_sorted le y ys) ≡ (is_yes (dec y x) || has dec x ys)
  unfolding insert_sorted
  has-insert_sorted le x y [] = refl
  has-insert_sorted le x y (z ∷ zs) = ground (arith, has-insert_sorted le x y zs)

  pub has-sort : (le : A → A → Bool) (x : A) (xs : List A) → has dec x (sort le xs) ≡ has dec x xs
  unfolding sort
  has-sort le x [] = refl
  has-sort le x (y ∷ xs) = ground (arith, has-insert_sorted le x y (sort le xs), has-sort le x xs)

  has-compact_after :
      (x y : A) (ys : List A) → has dec x (y ∷ compact_after dec y ys) ≡ has dec x (y ∷ ys)
  unfolding compact_after
  has-compact_after x y [] = refl
  has-compact_after x y (z ∷ zs) = ground (arith, has-compact_after x z zs)

  pub has-compact : (x : A) (xs : List A) → has dec x (compact dec xs) ≡ has dec x xs
  unfolding compact
  has-compact x [] = refl
  has-compact x (y ∷ ys) = has-compact_after x y ys

  pub has-remove :
      (x y : A) (ys : List A)
      → has dec x (remove dec y ys) ≡ (not (is_yes (dec y x)) && has dec x ys)
  unfolding remove
  has-remove x y [] = ground arith
  has-remove x y (z ∷ zs) = ground (arith, has-remove x y zs)

  pub has_same : (x y : A) (xs : List A) → is_yes (dec x y) ≡ true → has dec x xs ≡ has dec y xs
  has_same x y xs h = elim (dec x y) [
    | yes e ↦ ap (λ z. has dec z xs) e
    | no n ↦ absurd (ground arith)
  ]

module _ ⦃P : Platform⦄ where
  open P use {NodeId, node_eq, node_le}

  pub has-sort_names :
      (x : NodeId) (l : List NodeId) → has node_eq x (sort_names l) ≡ has node_eq x l
  unfolding sort_names
  has-sort_names x l = has-compact node_eq x (sort node_le l) ∙ has-sort node_eq node_le x l

  pub has-sort_edges : (x : Edge) (l : List Edge) → has edge_eq x (sort_edges l) ≡ has edge_eq x l
  unfolding sort_edges
  has-sort_edges x l = has-compact edge_eq x (sort edge_le l) ∙ has-sort edge_eq edge_le x l

  -- the name is in the list, if there is one
  abbrev pub waits : NodeId → Option (List NodeId) → Bool
  waits g none = false
  waits g (some deps) = has node_eq g deps
