-- ===== src/NodeIds/Slots.antt =====
-- The free numbers of state/node_id_numeric.go: a map with fewer entries than numbers leaves one free.
use nylon.Base.{
  ℕ, zero, suc, ◌+◌, ◌≤◌, ◌<◌, ◌≡◌, refl, ◌⊎◌, inl, inr, true, [], ◌∷◌, none, some, arith, is_some,
  if_pos, if_neg, length, ℕ_discrete, Option-cases,
}
use nylon.Base.Maps.{Map, find, put, delete, find-delete}
use nylon.NodeIds.{NodeIdMap, next_free, max_node_id_numeric}
use nylon.Platform.{Platform}

module _ {K V : Type 0} (dec : Discrete K) where
  pub length-put : (k : K) (v : V) (m : Map K V) → length (put dec k v m) ≤ suc (length m)
  unfolding put
  length-put k v [] = omega arith
  length-put k v ((j, w) ∷ m) = ground (arith, length-put k v m)

  length-delete : (k : K) (m : Map K V) → length (delete dec k m) ≤ length m
  unfolding delete
  length-delete k [] = omega arith
  length-delete k ((j, w) ∷ m) = ground (arith, length-delete k m)

  length-delete_found :
      (k : K) (m : Map K V)
      → is_some (find dec k m) ≡ true
      → suc (length (delete dec k m)) ≤ length m
  unfolding delete find
  length-delete_found k [] h = absurd (ground arith)
  length-delete_found k ((j, w) ∷ m) h = elim (dec j k) [
    | yes e ↦ rw (if_pos (dec j k) e) (omega (arith, length-delete k m))
    | no n ↦
        let found : is_some (find dec k m) ≡ true = rw (if_neg (dec j k) n) at h in
        rw (if_neg (dec j k) n) (omega (arith, length-delete_found k m found))
  ]

-- a map that holds `k` numbers in a row has at least `k` entries
pub pigeonhole :
    {V : Type 0} (k lo : ℕ) (m : Map ℕ V)
    → ((i : ℕ) → lo ≤ i → i < lo + k → is_some (find ℕ_discrete i m) ≡ true)
    → k ≤ length m
pigeonhole zero lo m h = omega arith
pigeonhole (suc k) lo m h =
    let m' = delete ℕ_discrete (lo + k) m in
    let fewer =
      length-delete_found ℕ_discrete (lo + k) m (h (lo + k) (omega arith) (omega arith)) in
    let rest = pigeonhole k lo m' (λ i hl hu.
      rw (find-delete ℕ_discrete (lo + k) i m, if_neg (ℕ_discrete (lo + k) i) (λ e. omega arith))
        (h i hl (omega arith))) in
    omega (arith, fewer, rest)

module _ ⦃P : Platform⦄ where
  -- every number from `lo` below `hi` is taken
  abbrev pub Taken : NodeIdMap → ℕ → ℕ → Type 0
  Taken m lo hi = (i : ℕ) → lo ≤ i → i < hi → is_some (find ℕ_discrete i m.by_numeric) ≡ true

  pub next_free-cases :
      (left next lo : ℕ) (m : NodeIdMap)
      → next + left ≡ max_node_id_numeric + 1
      → Taken m lo next
      → ((next_free left next m ≡ none) × Taken m lo (max_node_id_numeric + 1))
        ⊎ ((free : ℕ) × (next_free left next m ≡ some free)
            × (next ≤ free)
            × (free ≤ max_node_id_numeric)
            × (find ℕ_discrete free m.by_numeric ≡ none)
            × Taken m lo free)
  unfolding next_free
  next_free-cases zero next lo m e taken = inl (refl, λ i hl hu. taken i hl (omega arith))
  next_free-cases (suc left) next lo m e taken =
      elim (Option-cases (find ℕ_discrete next m.by_numeric)) [
        | inl here ↦ inr (next, rw (here, next_free) refl, omega arith, omega arith, here, taken)
        | inr (other, here) ↦
            let more : Taken m lo (next + 1) = λ i hl hu. elim (ℕ_discrete i next) [
              | yes same ↦ rw (same, here) refl
              | no n ↦ taken i hl (omega arith)
            ] in
            elim (next_free-cases left (next + 1) lo m (omega arith) more) [
              | inl (out, all) ↦ inl (rw (here, next_free) out, all)
              | inr (free, e', hl, hu, f, t) ↦
                  inr (free, rw (here, next_free) e', omega arith, hu, f, t)
            ]
      ]
