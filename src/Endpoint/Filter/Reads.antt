-- ===== src/Endpoint/Filter/Reads.antt =====
-- What `delayFilter.stabilized` of state/endpoint.go reads.
use nylon.Base.{
  ℕ, ◌/◌, ◌≡◌, refl, subst, ap, ◌⊎◌, List, true, some, length, sort, length-sort, arith,
}
use nylon.Base.Int.{ℤ, pos, negsuc, ◌≤ℤ◌, ltb_ℤ}
use nylon.Base.Options.{bind-some}
use nylon.Endpoint.Filter.{DelayFilter, leb_ℤ, at, get_elem?, scale_index, settle, stabilized}
use nylon.Endpoint.Filter.Ranks.{IsRank, get-sort}
use nylon.Platform.{Platform}
use nylon.Tunables.{RouterTunables}

at-get :
    (xs : List ℤ) (i x : ℤ) → at xs i ≡ some x → (n : ℕ) × (i ≡ pos n) × (get_elem? xs n ≡ some x)
at-get xs (pos n) x h = (n, refl, h)
at-get xs (negsuc n) x h = absurd (ground arith)

module _ ⦃P : Platform⦄ where
  -- an element of the window whose rank is the share `q` of its length
  abbrev pub IsQuantile : List ℤ → P.Float → ℤ → Type 0
  IsQuantile xs q x =
      (i : ℕ) × (P.trunc (P.mul (P.of_int (pos (length xs))) q) ≡ pos i) × IsRank xs i x

  -- the old value stays within the bounds, and is replaced by the median outside of them
  abbrev pub Held : (prev low high med value : ℤ) → Type 0
  Held prev low high med value =
      ((low ≤ℤ prev) × (prev ≤ℤ high) × (value ≡ prev))
      ⊎ (((ltb_ℤ prev low ≡ true) ⊎ (ltb_ℤ high prev ≡ true)) × (value ≡ med))

  settle-Held :
      (f : DelayFilter) (sorted : List ℤ) (low high med : ℤ)
      → Held f.prev_median low high med (settle f sorted low high med).0
  settle-Held f sorted low high med = ground arith

  settle-again :
      (f : DelayFilter) (sorted : List ℤ) (low high med : ℤ)
      → let (value, g) = settle f sorted low high med in settle g sorted low high med ≡ (value, g)
  settle-again f sorted low high med = ground arith

  at-IsQuantile :
      (xs : List ℤ) (q : P.Float) (x : ℤ)
      → at (sort leb_ℤ xs) (scale_index (length (sort leb_ℤ xs)) q) ≡ some x
      → IsQuantile xs q x
  unfolding scale_index
  at-IsQuantile xs q x h =
      let (i, e, here) = at-get (sort leb_ℤ xs) _ x h in
      (i, rw (← length-sort leb_ℤ xs) e, get-sort x i xs here)

  stabilized-again :
      (f : DelayFilter) (t : RouterTunables) (sorted : List ℤ) (low high med : ℤ)
      → at sorted (scale_index (length sorted) t.outlier_percentage) ≡ some low
      → at sorted (scale_index (length sorted) (P.sub (P.literal 1 0) t.outlier_percentage))
        ≡ some high
      → at sorted (pos (length sorted / 2)) ≡ some med
      → stabilized (settle f sorted low high med).1 t ≡ some (settle f sorted low high med)
  unfolding stabilized
  stabilized-again f t sorted low high med l u m =
      rw (l, u, m, stabilized) (ap some (settle-again f sorted low high med))

  -- After a new sample, if the read does not panic, it gives the value of the last read where that lies
  -- between the samples of the rank of the outlier share and of its complement in the window, and the
  -- median of the window otherwise; and a second read gives the same value and leaves the filter as it
  -- is.
  pub stabilized-Held :
      (f : DelayFilter) (t : RouterTunables) (value : ℤ) (g : DelayFilter)
      → f.dirty ≡ true
      → stabilized f t ≡ some (value, g)
      → ((low : ℤ) × (high : ℤ) × (med : ℤ) × IsQuantile f.history t.outlier_percentage low
          × IsQuantile f.history (P.sub (P.literal 1 0) t.outlier_percentage) high
          × IsRank f.history (length f.history / 2) med
          × Held f.prev_median low high med value)
        × (stabilized g t ≡ some (value, g))
  unfolding stabilized
  stabilized-Held f t value g dirty h =
      let sorted = sort leb_ℤ f.history in
      let (low, l, h1) =
        bind-some (at sorted (scale_index (length sorted) t.outlier_percentage)) _ (value, g)
          (rw dirty at h) in
      let (high, u, h2) =
        bind-some
          (at sorted (scale_index (length sorted) (P.sub (P.literal 1 0) t.outlier_percentage))) _
          (value, g) h1 in
      let (med, m, h3) = bind-some (at sorted (pos (length sorted / 2))) _ (value, g) h2 in
      let same : settle f sorted low high med ≡ (value, g) = ground arith in
      (
        (
          low,
          high,
          med,
          at-IsQuantile f.history t.outlier_percentage low l,
          at-IsQuantile f.history _ high u,
          rw (← length-sort leb_ℤ f.history) (get-sort med (length sorted / 2) f.history m),
          subst (λ r. Held f.prev_median low high med r.0) same (settle-Held f sorted low high med),
        ),
        subst (λ r. stabilized r.1 t ≡ some r) same
            (stabilized-again f t sorted low high med l u m),
      )
