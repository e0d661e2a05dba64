-- ===== src/NodeIds/Listing.antt =====
-- `collect` of state/node_id_numeric.go: the list of ids, each once, and its order.
use mathlib.Core.List.{Memᴰ}
use nylon.Base.{
  ◌≡◌, ◌≢◌, refl, sym, subst, inl, inr, Bool, true, List, [], ◌∷◌, ◌++◌, none, arith, is_some, All,
  All-append, insert_sorted, sort, Option-cases, Bool-cases,
}
use nylon.Base.Maps.{Map, find, put, find-put, find-put_self, find-put_ne}
use nylon.NodeIds.{NodeCfg, Collected, collect, collect_all}
use nylon.Platform.{Platform}

module _ {A : Type 0} where
  -- no element occurs twice
  abbrev pub Distinct : List A → Type 0
  Distinct [] = Unit
  Distinct (x ∷ xs) = All (λ y. x ≢ y) xs × Distinct xs

  Distinct-snoc :
      (xs : List A) (x : A) → Distinct xs → All (λ y. y ≢ x) xs → Distinct (xs ++ x ∷ [])
  Distinct-snoc [] x d n = (tt, tt)
  Distinct-snoc (y ∷ ys) x d n =
      (All-append (λ z. y ≢ z) ys (x ∷ []) d.0 (n.0, tt), Distinct-snoc ys x d.1 n.1)

  pub Mem-append_left : (x : A) (xs ys : List A) → Memᴰ x xs → Memᴰ x (xs ++ ys)
  Mem-append_left x [] ys m = elim m [ ]
  Mem-append_left x (y ∷ xs) ys (Memᴰ.head e) = Memᴰ.head e
  Mem-append_left x (y ∷ xs) ys (Memᴰ.tail m) = Memᴰ.tail (Mem-append_left x xs ys m)

  pub Mem-append_last : (x : A) (xs : List A) → Memᴰ x (xs ++ x ∷ [])
  Mem-append_last x [] = Memᴰ.head refl
  Mem-append_last x (y ∷ xs) = Memᴰ.tail (Mem-append_last x xs)

  module _ (le : A → A → Bool) where
    All-insert_sorted {κ} :
        (Q : A → Type κ) (x : A) (xs : List A) → Q x → All Q xs → All Q (insert_sorted le x xs)
    unfolding insert_sorted
    All-insert_sorted Q x [] q all = (q, tt)
    All-insert_sorted Q x (y ∷ ys) q all = elim (Bool-cases (le x y)) [
      | inl e ↦ rw e (q, all)
      | inr e ↦ rw e (all.0, All-insert_sorted Q x ys q all.1)
    ]

    pub All-sort {κ} : (Q : A → Type κ) (xs : List A) → All Q xs → All Q (sort le xs)
    unfolding sort
    All-sort Q [] all = tt
    All-sort Q (x ∷ xs) all = All-insert_sorted Q x (sort le xs) all.0 (All-sort Q xs all.1)

    Distinct-insert_sorted :
        (x : A) (xs : List A) → All (λ y. x ≢ y) xs → Distinct xs → Distinct (insert_sorted le x xs)
    unfolding insert_sorted
    Distinct-insert_sorted x [] n d = (tt, tt)
    Distinct-insert_sorted x (y ∷ ys) n d = elim (Bool-cases (le x y)) [
      | inl e ↦ rw e (n, d)
      | inr e ↦ rw e (
        All-insert_sorted (λ z. y ≢ z) x ys (λ s. n.0 (sym s)) d.0,
        Distinct-insert_sorted x ys n.1 d.1,
      )
    ]

    pub Distinct-sort : (xs : List A) → Distinct xs → Distinct (sort le xs)
    unfolding sort
    Distinct-sort [] d = tt
    Distinct-sort (x ∷ xs) d =
        Distinct-insert_sorted x (sort le xs) (All-sort (λ y. x ≢ y) xs d.0) (Distinct-sort xs d.1)

    Mem-insert_sorted_head : (x : A) (xs : List A) → Memᴰ x (insert_sorted le x xs)
    unfolding insert_sorted
    Mem-insert_sorted_head x [] = Memᴰ.head refl
    Mem-insert_sorted_head x (y ∷ ys) = elim (Bool-cases (le x y)) [
      | inl e ↦ rw e (Memᴰ.head refl)
      | inr e ↦ rw e (Memᴰ.tail (Mem-insert_sorted_head x ys))
    ]

    Mem-insert_sorted : (x z : A) (xs : List A) → Memᴰ z xs → Memᴰ z (insert_sorted le x xs)
    unfolding insert_sorted
    Mem-insert_sorted x z [] m = elim m [ ]
    Mem-insert_sorted x z (y ∷ ys) m = elim (Bool-cases (le x y)) [
      | inl e ↦ rw e (Memᴰ.tail m)
      | inr e ↦ elim m [
        | Memᴰ.head s ↦ rw e (Memᴰ.head s)
        | Memᴰ.tail m' ↦ rw e (Memᴰ.tail (Mem-insert_sorted x z ys m'))
      ]
    ]

    pub Mem-sort : (z : A) (xs : List A) → Memᴰ z xs → Memᴰ z (sort le xs)
    unfolding sort
    Mem-sort z [] m = elim m [ ]
    Mem-sort z (x ∷ xs) (Memᴰ.head s) =
        subst (λ y. Memᴰ y (insert_sorted le x (sort le xs))) (sym s)
          (Mem-insert_sorted_head x (sort le xs))
    Mem-sort z (x ∷ xs) (Memᴰ.tail m) = Mem-insert_sorted x z (sort le xs) (Mem-sort z xs m)

module _ ⦃P : Platform⦄ where
  open P use {NodeId, node_eq, node_le}

  -- `seen` holds the ids of the list, and each is listed once
  pub record Once (c : Collected) : Type 0 where
    pub marked : All (λ id. is_some (find node_eq id c.seen) ≡ true) c.ids
    pub listed : (id : NodeId) → is_some (find node_eq id c.seen) ≡ true → Memᴰ id c.ids
    pub distinct : Distinct c.ids

  All-marked_put :
      (id : NodeId) (seen : Map NodeId Unit) (ids : List NodeId)
      → All (λ x. is_some (find node_eq x seen) ≡ true) ids
      → All (λ x. is_some (find node_eq x (put node_eq id tt seen)) ≡ true) ids
  All-marked_put id seen [] all = tt
  All-marked_put id seen (x ∷ xs) all =
      (rw (find-put node_eq id x tt seen) (ground (arith, all.0)), All-marked_put id seen xs all.1)

  All-marked_ne :
      (id : NodeId) (seen : Map NodeId Unit) (ids : List NodeId)
      → find node_eq id seen ≡ none
      → All (λ x. is_some (find node_eq x seen) ≡ true) ids
      → All (λ x. x ≢ id) ids
  All-marked_ne id seen [] h all = tt
  All-marked_ne id seen (x ∷ xs) h all =
      (λ e. absurd (ground (arith, all.0)), All-marked_ne id seen xs h all.1)

  collect-Once :
      (c : Collected) (n : NodeCfg)
      → Once c
      → Once (collect c n) × (is_some (find node_eq n.id (collect c n).seen) ≡ true)
  unfolding collect
  collect-Once c n once = elim (Option-cases (find node_eq n.id c.seen)) [
    | inr (u, e) ↦ rw (e, collect) (once, rw e refl)
    | inl e ↦
        rw (e, collect)
          (
            record {
              marked =
                  All-append _ c.ids (n.id ∷ []) (All-marked_put n.id c.seen c.ids once.marked)
                    (rw (find-put_self node_eq n.id tt c.seen) refl, tt);
              listed = λ id h. elim (node_eq n.id id) [
                | yes same ↦
                    subst (λ x. Memᴰ x (c.ids ++ n.id ∷ [])) same (Mem-append_last n.id c.ids)
                | no other ↦
                    Mem-append_left id c.ids (n.id ∷ [])
                      (once.listed id (rw (find-put_ne node_eq n.id id tt c.seen other) at h))
              ];
              distinct =
                  Distinct-snoc c.ids n.id once.distinct
                    (All-marked_ne n.id c.seen c.ids e once.marked);
            },
            rw (find-put_self node_eq n.id tt c.seen) refl,
          )
  ]

  collect-keeps :
      (c : Collected) (n : NodeCfg) (id : NodeId)
      → is_some (find node_eq id c.seen) ≡ true
      → is_some (find node_eq id (collect c n).seen) ≡ true
  unfolding collect
  collect-keeps c n id h = ground (arith, find-put node_eq n.id id tt c.seen)

  collect_all-keeps :
      (ns : List NodeCfg) (c : Collected) (id : NodeId)
      → is_some (find node_eq id c.seen) ≡ true
      → is_some (find node_eq id (collect_all c ns).seen) ≡ true
  unfolding collect_all
  collect_all-keeps [] c id h = h
  collect_all-keeps (n ∷ ns) c id h = collect_all-keeps ns (collect c n) id (collect-keeps c n id h)

  -- every id is listed, and none twice
  pub collect_all-Once :
      (ns : List NodeCfg) (c : Collected)
      → Once c
      → Once (collect_all c ns)
        × All (λ n. is_some (find node_eq n.id (collect_all c ns).seen) ≡ true) ns
  unfolding collect_all
  collect_all-Once [] c once = (once, tt)
  collect_all-Once (n ∷ ns) c once =
      let (once', here) = collect-Once c n once in
      let (all, rest) = collect_all-Once ns (collect c n) once' in
      (all, (collect_all-keeps ns (collect c n) n.id here, rest))
