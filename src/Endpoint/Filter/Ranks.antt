-- ===== src/Endpoint/Filter/Ranks.antt =====
-- Order statistics: what stands at an index of a sorted list.
use nylon.Base.{
  ℕ, zero, suc, ◌+◌, ◌≤◌, ◌<◌, ◌≡◌, refl, subst, inl, inr, List, [], ◌∷◌, some, arith,
  if◌then◌else◌, insert_sorted, sort, All, Bool-cases,
}
use nylon.Base.Int.{ℤ, ◌≤ℤ◌, ltb_ℤ}
use nylon.Endpoint.Filter.{leb_ℤ, get_elem?}

-- how many elements are less than `x`, and how many are not greater
abbrev pub below : ℤ → List ℤ → ℕ
below x [] = 0
below x (y ∷ ys) = (if ltb_ℤ y x then 1 else 0) + below x ys

abbrev pub not_above : ℤ → List ℤ → ℕ
not_above x [] = 0
not_above x (y ∷ ys) = (if ltb_ℤ x y then 0 else 1) + not_above x ys

-- `x` is an element of rank `i`, counted from 0: it stands at that index once the list is sorted
abbrev pub IsRank : List ℤ → ℕ → ℤ → Type 0
IsRank xs i x = (below x xs ≤ i) × (i < not_above x xs)

abbrev Sorted : List ℤ → Type 0
Sorted [] = Unit
Sorted (x ∷ xs) = All (λ y. x ≤ℤ y) xs × Sorted xs

All-trans : (x y : ℤ) (zs : List ℤ) → x ≤ℤ y → All (λ z. y ≤ℤ z) zs → All (λ z. x ≤ℤ z) zs
All-trans x y [] h all = tt
All-trans x y (z ∷ zs) h all = (omega (arith, all.0), All-trans x y zs h all.1)

All-insert :
    (x y : ℤ) (zs : List ℤ)
    → x ≤ℤ y
    → All (λ z. x ≤ℤ z) zs
    → All (λ z. x ≤ℤ z) (insert_sorted leb_ℤ y zs)
unfolding insert_sorted
All-insert x y [] h all = (h, tt)
All-insert x y (z ∷ zs) h all = elim (Bool-cases (leb_ℤ y z)) [
  | inl e ↦ rw e (h, all)
  | inr e ↦ rw e (all.0, All-insert x y zs h all.1)
]

insert-Sorted : (x : ℤ) (xs : List ℤ) → Sorted xs → Sorted (insert_sorted leb_ℤ x xs)
unfolding insert_sorted
insert-Sorted x [] s = (tt, tt)
insert-Sorted x (y ∷ ys) s = elim (Bool-cases (leb_ℤ x y)) [
  | inl e ↦ let le : x ≤ℤ y = ground arith in rw e ((le, All-trans x y ys le s.0), s)
  | inr e ↦
      let le : y ≤ℤ x = ground arith in rw e (All-insert y x ys le s.0, insert-Sorted x ys s.1)
]

sort-Sorted : (xs : List ℤ) → Sorted (sort leb_ℤ xs)
unfolding sort
sort-Sorted [] = tt
sort-Sorted (x ∷ xs) = insert-Sorted x (sort leb_ℤ xs) (sort-Sorted xs)

counts-insert :
    (z x : ℤ) (xs : List ℤ)
    → (below z (insert_sorted leb_ℤ x xs) ≡ below z (x ∷ xs))
      × (not_above z (insert_sorted leb_ℤ x xs) ≡ not_above z (x ∷ xs))
unfolding insert_sorted
counts-insert z x [] = (refl, refl)
counts-insert z x (y ∷ ys) = elim (Bool-cases (leb_ℤ x y)) [
  | inl e ↦ rw e (refl, refl)
  | inr e ↦ let (b, n) = counts-insert z x ys in rw e (omega (arith, b), omega (arith, n))
]

counts-sort :
    (z : ℤ) (xs : List ℤ)
    → (below z (sort leb_ℤ xs) ≡ below z xs) × (not_above z (sort leb_ℤ xs) ≡ not_above z xs)
unfolding sort
counts-sort z [] = (refl, refl)
counts-sort z (x ∷ xs) =
    let (b, n) = counts-sort z xs in
    let (b', n') = counts-insert z x (sort leb_ℤ xs) in (omega (arith, b, b'), omega (arith, n, n'))

below-least : (x : ℤ) (ys : List ℤ) → All (λ y. x ≤ℤ y) ys → below x ys ≡ 0
below-least x [] all = refl
below-least x (y ∷ ys) all = ground (arith, below-least x ys all.1, all.0)

All-get : (x y : ℤ) (i : ℕ) (ys : List ℤ) → All (λ z. x ≤ℤ z) ys → get_elem? ys i ≡ some y → x ≤ℤ y
All-get x y i [] all h = absurd (ground arith)
All-get x y zero (z ∷ zs) all h = ground (arith, all.0)
All-get x y (suc i) (z ∷ zs) all h = All-get x y i zs all.1 h

get-IsRank : (x : ℤ) (i : ℕ) (xs : List ℤ) → Sorted xs → get_elem? xs i ≡ some x → IsRank xs i x
get-IsRank x i [] s h = absurd (ground arith)
get-IsRank x zero (y ∷ ys) s h =
    let same : y ≡ x = ground arith in
    subst (IsRank (y ∷ ys) 0) same (ground (arith, below-least y ys s.0), ground arith)
get-IsRank x (suc i) (y ∷ ys) s h =
    let (b, n) = get-IsRank x i ys s.1 h in
    let le = All-get y x i ys s.0 h in (ground arith, ground arith)

-- the element at an index of the sorted list has that rank in the list
pub get-sort : (x : ℤ) (i : ℕ) (xs : List ℤ) → get_elem? (sort leb_ℤ xs) i ≡ some x → IsRank xs i x
get-sort x i xs h =
    let (b, n) = counts-sort x xs in
    let (lo, hi) = get-IsRank x i (sort leb_ℤ xs) (sort-Sorted xs) h in
    (omega (arith, b, lo), omega (arith, n, hi))
