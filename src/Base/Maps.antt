-- ===== src/Base/Maps.antt =====
-- Go maps as association lists over keys with a decidable equality. The order of the list is the
-- order in which `range` visits the map; a theorem about every list holds for every order.
use mathlib.Core.Bool.{Bool, true, false}
use mathlib.Core.List.{List, [], ◌∷◌}
use mathlib.Core.Logic.{◌≢◌, ite, if_pos, if_neg}
use mathlib.Core.Option.{Option, none, some}
use mathlib.Core.Path.{◌≡◌, refl, sym, subst}
use native.Mathlib.Omega.{arith}
use nylon.Base.Lists.{All}
use nylon.Base.Tests.{if◌then◌else◌}

abbrev pub Map {ℓ} : Type ℓ → Type ℓ → Type ℓ
Map K V = List (K × V)

module _ {ℓ} {K V : Type ℓ} where
  -- a map that a loop over another map fills reads as the entries that the loop keeps
  unfoldable pub keep : (K → V → Option V) → Map K V → Map K V
  keep f [] = []
  keep f ((k, v) ∷ m) = elim (f k v) [ none ↦ keep f m | some w ↦ (k, w) ∷ keep f m ]

module _ {ℓ} {K V : Type ℓ} (dec : Discrete K) where
  -- `v, ok := m[k]`
  unfoldable pub find : K → Map K V → Option V
  find k [] = none
  find k ((j, v) ∷ m) = ite (dec j k) (some v) (find k m)

  -- `m[k] = v`
  unfoldable pub put : K → V → Map K V → Map K V
  put k v [] = (k, v) ∷ []
  put k v ((j, w) ∷ m) = ite (dec j k) ((k, v) ∷ m) ((j, w) ∷ put k v m)

  -- `delete(m, k)`
  unfoldable pub delete : K → Map K V → Map K V
  delete k [] = []
  delete k ((j, w) ∷ m) = ite (dec j k) (delete k m) ((j, w) ∷ delete k m)

  pub find-put :
      (k q : K) (v : V) (m : Map K V) → find q (put k v m) ≡ ite (dec k q) (some v) (find q m)
  unfolding find put
  find-put k q v [] = refl
  find-put k q v ((j, w) ∷ m) = ground (arith, find-put k q v m)

  pub find-put_self : (k : K) (v : V) (m : Map K V) → find k (put k v m) ≡ some v
  find-put_self k v m = rw find-put (if_pos (dec k k) refl _ _)

  pub find-put_ne : (k q : K) (v : V) (m : Map K V) → k ≢ q → find q (put k v m) ≡ find q m
  find-put_ne k q v m n = rw find-put (if_neg (dec k q) n _ _)

  pub find-delete : (k q : K) (m : Map K V) → find q (delete k m) ≡ ite (dec k q) none (find q m)
  unfolding find delete
  find-delete k q [] = ground arith
  find-delete k q ((j, w) ∷ m) = ground (arith, find-delete k q m)

  -- a property of every entry
  abbrev pub MapAll {κ} : (K → V → Type κ) → Map K V → Type κ
  MapAll Q = All (λ e. Q e.0 e.1)

  pub MapAll-put {κ} :
      (Q : K → V → Type κ) (k : K) (v : V) (m : Map K V) → Q k v → MapAll Q m → MapAll Q (put k v m)
  unfolding put
  MapAll-put Q k v [] q all = (q, tt)
  MapAll-put Q k v ((j, w) ∷ m) q all = elim (dec j k) [
    | yes e ↦ rw (if_pos (dec j k) e) (q, all.1)
    | no n ↦ rw (if_neg (dec j k) n) (all.0, MapAll-put Q k v m q all.1)
  ]

  -- a conditional write
  pub MapAll-put_if {κ} :
      (Q : K → V → Type κ) (b : Bool) (k : K) (v : V) (m : Map K V)
      → Q k v
      → MapAll Q m
      → MapAll Q (if b then put k v m else m)
  MapAll-put_if Q true k v m q all = MapAll-put Q k v m q all
  MapAll-put_if Q false k v m q all = all

  pub MapAll-find {κ} :
      (Q : K → V → Type κ) (k : K) (v : V) (m : Map K V) → MapAll Q m → find k m ≡ some v → Q k v
  unfolding find
  MapAll-find Q k v [] all h = absurd (ground arith)
  MapAll-find Q k v ((j, w) ∷ m) all h = elim (dec j k) [
    | yes e ↦ let same : w ≡ v = ground arith in subst (λ x. Q x v) e (subst (Q j) same all.0)
    | no n ↦ MapAll-find Q k v m all.1 (rw (if_neg (dec j k) n) at h)
  ]

  -- no key occurs twice, as in every Go map
  abbrev pub UniqueKeys : Map K V → Type ℓ
  UniqueKeys [] = Unit
  UniqueKeys ((k, v) ∷ m) = (find k m ≡ none) × UniqueKeys m

  pub put-UniqueKeys : (k : K) (v : V) (m : Map K V) → UniqueKeys m → UniqueKeys (put k v m)
  unfolding put find
  put-UniqueKeys k v [] u = (refl, tt)
  put-UniqueKeys k v ((j, w) ∷ m) u = elim (dec j k) [
    | yes e ↦ rw (if_pos (dec j k) e) (rw (← e) u.0, u.1)
    | no n ↦
        rw (if_neg (dec j k) n)
          (rw (find-put, if_neg (dec k j) (λ e. n (sym e))) u.0, put-UniqueKeys k v m u.1)
  ]

  -- a map without a key has neither it at the head nor in the rest
  pub find-cons-none :
      (k q : K) (v : V) (m : Map K V) → find q ((k, v) ∷ m) ≡ none → (k ≢ q) × (find q m ≡ none)
  unfolding find
  find-cons-none k q v m h = (λ e. ground arith, ground arith)
