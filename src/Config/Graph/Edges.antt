-- ===== src/Config/Graph/Edges.antt =====
-- The last pass of `ParseGraph` of state/config.go: which edges the expanded pairs give.
use nylon.Base.{
  ◌≡◌, ◌≢◌, ◌⊎◌, sym, ap, subst, ◌∙◌, true, false, List, [], ◌∷◌, ◌++◌, arith, is_yes, Bool-cases,
  inl, inr,
}
use nylon.Base.Maps.{Map}
use nylon.Config.Graph.{expand, links_from, links, rewrite_pairings}
use nylon.Config.Names.{has, Edge, edge_eq, make_sorted_pair, sort_edges}
use nylon.Config.Names.Members.{has_self, has-append, has-sort_edges}
use nylon.Platform.{Platform}

of-is_yes {ℓ} : {A : Type ℓ} (dec : Discrete A) (x y : A) → is_yes (dec x y) ≡ true → x ≡ y
of-is_yes dec x y h = ground arith

module _ ⦃P : Platform⦄ where
  open P use {NodeId, node_eq}

  -- an edge between a name of one list and another name of the other
  pub data Between (xs ys : List NodeId) (e : Edge) : Type 0 where
    between :
        (a b : NodeId)
        → has node_eq a xs ≡ true
        → has node_eq b ys ≡ true
        → a ≢ b
        → make_sorted_pair a b ≡ e
        → Between xs ys e

  has-links_from :
      (x : NodeId) (ys : List NodeId) (e : Edge)
      → has edge_eq e (links_from x ys) ≡ true
      → (b : NodeId) × (has node_eq b ys ≡ true) × (x ≢ b) × (make_sorted_pair x b ≡ e)
  unfolding links_from
  has-links_from x [] e h = absurd (ground arith)
  has-links_from x (y ∷ ys) e h = elim (Bool-cases (has edge_eq e (links_from x ys))) [
    | inl l ↦ let (b, i, n, s) = has-links_from x ys e l in (b, ground arith, n, s)
    | inr f ↦
        let apart : is_yes (node_eq x y) ≡ false = ground arith in
        let same : is_yes (edge_eq (make_sorted_pair x y) e) ≡ true = ground arith in
        (
          y,
          ground (arith, has_self node_eq y),
          λ q. ground arith,
          of-is_yes edge_eq (make_sorted_pair x y) e same,
        )
  ]

  links_from-has :
      (x b : NodeId) (ys : List NodeId) (e : Edge)
      → has node_eq b ys ≡ true
      → x ≢ b
      → make_sorted_pair x b ≡ e
      → has edge_eq e (links_from x ys) ≡ true
  unfolding links_from
  links_from-has x b [] e i n s = absurd (ground arith)
  links_from-has x b (y ∷ ys) e i n s = elim (node_eq y b) [
    | yes q ↦
        let apart : is_yes (node_eq x y) ≡ false = ground arith in
        let same : is_yes (edge_eq (make_sorted_pair x y) e) ≡ true =
          rw (ap (make_sorted_pair x) q ∙ s) (has_self edge_eq e) in
        ground arith
    | no m ↦ let ih = links_from-has x b ys e (ground arith) n s in ground arith
  ]

  has-links :
      (xs ys : List NodeId) (e : Edge) → has edge_eq e (links xs ys) ≡ true → Between xs ys e
  unfolding links
  has-links [] ys e h = absurd (ground arith)
  has-links (x ∷ xs) ys e h = elim (Bool-cases (has edge_eq e (links xs ys))) [
    | inl l ↦ widen x xs ys e (has-links xs ys e l)
    | inr f ↦
        let here = has-append edge_eq e (links_from x ys) (links xs ys) in
        let (b, i, n, s) = has-links_from x ys e (ground arith) in
        Between.between x b (ground (arith, has_self node_eq x)) i n s
  ]
    where
      widen :
          (x : NodeId) (xs ys : List NodeId) (e : Edge) → Between xs ys e → Between (x ∷ xs) ys e
      widen x xs ys e (Between.between a b i j n s) = Between.between a b (ground arith) j n s

  links-has :
      (xs ys : List NodeId) (e : Edge) → Between xs ys e → has edge_eq e (links xs ys) ≡ true
  unfolding links
  links-has [] ys e (Between.between a b i j n s) = absurd (ground arith)
  links-has (x ∷ xs) ys e (Between.between a b i j n s) =
      let both = has-append edge_eq e (links_from x ys) (links xs ys) in
      elim (node_eq x a) [
        | yes q ↦
            let here =
              links_from-has x b ys e j (λ r. n (sym q ∙ r))
                (ap (λ y. make_sorted_pair y b) q ∙ s) in
            ground arith
        | no m ↦
            let ih = links-has xs ys e (Between.between a b (ground arith) j n s) in ground arith
      ]

  -- an edge that one of the pairs gives
  pub data Given (nodes : List NodeId) (expansion : Map NodeId (List NodeId)) (pairs : List Edge)
      (e : Edge) : Type 0 where
    given :
        (v w : NodeId)
        → has edge_eq (v, w) pairs ≡ true
        → Between (expand nodes expansion v) (expand nodes expansion w) e
        → Given nodes expansion pairs e

  pub has-rewrite_pairings :
      (nodes : List NodeId) (expansion : Map NodeId (List NodeId)) (pairs edges : List Edge)
      (e : Edge)
      → has edge_eq e (rewrite_pairings nodes expansion pairs edges) ≡ true
      → (has edge_eq e edges ≡ true) ⊎ Given nodes expansion pairs e
  unfolding rewrite_pairings
  has-rewrite_pairings nodes expansion [] edges e h = inl h
  has-rewrite_pairings nodes expansion ((v, w) ∷ rest) edges e h =
      let new = links (expand nodes expansion v) (expand nodes expansion w) in
      elim (has-rewrite_pairings nodes expansion rest (sort_edges (edges ++ new)) e h) [
        | inl i ↦
            let sorted = has-sort_edges e (edges ++ new) in
            let both = has-append edge_eq e edges new in
            elim (Bool-cases (has edge_eq e edges)) [
              | inl j ↦ inl j
              | inr j ↦ inr (
                  Given.given v w (ground (arith, has_self edge_eq (v, w)))
                    (has-links _ _ e (ground arith)))
            ]
        | inr (Given.given x y i b) ↦ inr (Given.given x y (ground arith) b)
      ]

  pub rewrite_pairings-has :
      (nodes : List NodeId) (expansion : Map NodeId (List NodeId)) (pairs edges : List Edge)
      (e : Edge)
      → (has edge_eq e edges ≡ true) ⊎ Given nodes expansion pairs e
      → has edge_eq e (rewrite_pairings nodes expansion pairs edges) ≡ true
  unfolding rewrite_pairings
  rewrite_pairings-has nodes expansion [] edges e (inl h) = h
  rewrite_pairings-has nodes expansion [] edges e (inr (Given.given v w i b)) =
      absurd (ground arith)
  rewrite_pairings-has nodes expansion ((v, w) ∷ rest) edges e (inl h) =
      let new = links (expand nodes expansion v) (expand nodes expansion w) in
      rewrite_pairings-has nodes expansion rest (sort_edges (edges ++ new)) e
        (inl (ground (arith, has-sort_edges e (edges ++ new), has-append edge_eq e edges new)))
  rewrite_pairings-has nodes expansion ((v, w) ∷ rest) edges e (inr (Given.given x y i b)) =
      let new = links (expand nodes expansion v) (expand nodes expansion w) in
      elim (edge_eq (v, w) (x, y)) [
        | yes q ↦
            let b' : Between (expand nodes expansion v) (expand nodes expansion w) e =
              subst
                (λ (p : Edge). Between (expand nodes expansion p.0) (expand nodes expansion p.1) e)
                (sym q) b in
            let here = links-has _ _ e b' in
            rewrite_pairings-has nodes expansion rest (sort_edges (edges ++ new)) e (
              inl (ground (arith, has-sort_edges e (edges ++ new), has-append edge_eq e edges new)))
        | no n ↦
            rewrite_pairings-has nodes expansion rest (sort_edges (edges ++ new)) e
              (inr (Given.given x y (ground arith) b))
      ]
