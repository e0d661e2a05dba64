-- ===== src/Endpoint/Cost/Choice.antt =====
-- `BestEndpoint` of state/endpoint.go: the link that it returns.
use mathlib.Core.List.{Memᴰ}
use Prim.Native.Nat.{compare, Ordering}
use nylon.Base.{
  ℕ, ◌≡◌, ◌≢◌, refl, sym, subst, ◌∙◌, true, false, ◌&&◌, List, [], ◌∷◌, Option, none, some, arith,
  ◌⊎◌, inl, inr, All, Bool-cases,
}
use nylon.Base.Int.{ℤ}
use nylon.Endpoint.Cost.{
  Endpoint, active, compare_scores, outbound_score, effective_metric, then_compare,
  compare_endpoints, is_better, best_from, best_endpoint, cmp_bool,
}
use nylon.Platform.{Platform}

module _ ⦃P : Platform⦄ where
  -- the order on scores and metrics
  unfoldable rank : Option ℤ → ℕ → Option ℤ → ℕ → Ordering
  rank s m s' m' = then_compare (compare_scores s s') (compare m m')

  rank_trans :
      (s s' s'' : Option ℤ) (m m' m'' : ℕ)
      → rank s m s' m' ≡ Ordering.lt
      → rank s' m' s'' m'' ≡ Ordering.lt
      → rank s m s'' m'' ≡ Ordering.lt
  unfolding rank compare_scores
  rank_trans none none none m m' m'' h h' = ground arith
  rank_trans none none (some c) m m' m'' h h' = absurd (ground arith)
  rank_trans none (some b) s'' m m' m'' h h' = absurd (ground arith)
  rank_trans (some a) none none m m' m'' h h' = refl
  rank_trans (some a) none (some c) m m' m'' h h' = absurd (ground arith)
  rank_trans (some a) (some b) none m m' m'' h h' = refl
  rank_trans (some a) (some b) (some c) m m' m'' h h' = ground arith

  -- between active links the order is that of `rank`
  compare-rank :
      (now : ℕ) (a b : Endpoint)
      → active now a ≡ true
      → active now b ≡ true
      → compare_endpoints now a b
        ≡ rank
            (outbound_score a)
            (effective_metric now a)
            (outbound_score b)
            (effective_metric now b)
  unfolding compare_endpoints rank cmp_bool
  compare-rank now a b ha hb = rw (ha, hb) refl

  compare_trans :
      (now : ℕ) (a b c : Endpoint)
      → active now a ≡ true
      → active now b ≡ true
      → active now c ≡ true
      → compare_endpoints now a b ≡ Ordering.lt
      → compare_endpoints now b c ≡ Ordering.lt
      → compare_endpoints now a c ≡ Ordering.lt
  compare_trans now a b c ha hb hc h h' =
      compare-rank now a c ha hc
      ∙ rank_trans (outbound_score a) (outbound_score b) (outbound_score c) _ _ _
          (sym (compare-rank now a b ha hb) ∙ h) (sym (compare-rank now b c hb hc) ∙ h')

  rank_irrefl : (s : Option ℤ) (m : ℕ) → rank s m s m ≢ Ordering.lt
  unfolding rank compare_scores
  rank_irrefl none m h = ground arith
  rank_irrefl (some a) m h = ground arith

  compare_irrefl :
      (now : ℕ) (a : Endpoint) → active now a ≡ true → compare_endpoints now a a ≢ Ordering.lt
  compare_irrefl now a ha h =
      rank_irrefl (outbound_score a) (effective_metric now a) (sym (compare-rank now a a ha ha) ∙ h)

  -- a link that is not preferred to `b`
  abbrev pub NotPreferred : ℕ → Endpoint → Endpoint → Type 0
  NotPreferred now b x = (active now x ≡ false) ⊎ (compare_endpoints now x b ≢ Ordering.lt)

  -- an active link of the list, and none is preferred to it
  pub record Best (now : ℕ) (links : List Endpoint) (b : Endpoint) : Type 0 where
    pub listed : Memᴰ b links
    pub is_active : active now b ≡ true
    pub first : All (NotPreferred now b) links

  is_better_sound :
      (now : ℕ) (x b : Endpoint)
      → is_better now x (some b) ≡ true
      → compare_endpoints now x b ≡ Ordering.lt
  unfolding is_better
  is_better_sound now x b h = ground arith

  is_better_complete :
      (now : ℕ) (x b : Endpoint)
      → is_better now x (some b) ≡ false
      → compare_endpoints now x b ≢ Ordering.lt
  unfolding is_better
  is_better_complete now x b h e = ground arith

  -- what the loop ends with, from the link `b`
  record Ahead (now : ℕ) (b : Endpoint) (links : List Endpoint) (r : Endpoint) : Type 0 where
    is_active : active now r ≡ true
    origin : (r ≡ b) ⊎ (Memᴰ r links × (compare_endpoints now r b ≡ Ordering.lt))
    first : All (NotPreferred now r) links

  module _ (now : ℕ) where
    -- a link that the loop passes over in favour of `b`
    passed_over :
        (x b r : Endpoint) (links : List Endpoint)
        → active now b ≡ true
        → NotPreferred now b x
        → Ahead now b links r
        → NotPreferred now r x
    passed_over x b r links hb (inl off) ahead = inl off
    passed_over x b r links hb (inr worse) ahead = elim (Bool-cases (active now x)) [
      | inl on ↦ inr (λ h. elim ahead.origin [
        | inl same ↦ worse (subst (λ e. compare_endpoints now x e ≡ Ordering.lt) same h)
        | inr (_, less) ↦ worse (compare_trans now x r b on ahead.is_active hb h less)
      ])
      | inr off ↦ inl off
    ]

    best_from-Ahead :
        (links : List Endpoint) (b : Endpoint)
        → active now b ≡ true
        → (r : Endpoint) × (best_from now links (some b) ≡ some r) × Ahead now b links r
    unfolding best_from
    best_from-Ahead [] b hb = (b, refl, record { is_active = hb; origin = inl refl; first = tt })
    best_from-Ahead (x ∷ xs) b hb = elim (Bool-cases (active now x && is_better now x (some b))) [
      | inl take ↦
          let on : active now x ≡ true = ground arith in
          let less = is_better_sound now x b (ground arith) in
          let (r, e, ahead) = best_from-Ahead xs x on in
          (
            r,
            rw take e,
            record {
              is_active = ahead.is_active;
              origin = elim ahead.origin [
                | inl same ↦ inr (
                  Memᴰ.head same,
                  subst (λ y. compare_endpoints now y b ≡ Ordering.lt) (sym same) less,
                )
                | inr (m, less') ↦
                    inr (Memᴰ.tail m, compare_trans now r x b ahead.is_active on hb less' less)
              ];
              first = (passed_over x x r xs on (inr (compare_irrefl now x on)) ahead, ahead.first);
            },
          )
      | inr pass ↦
          let (r, e, ahead) = best_from-Ahead xs b hb in
          let behind : NotPreferred now b x = elim (Bool-cases (active now x)) [
            | inl on ↦ inr (is_better_complete now x b (ground arith))
            | inr off ↦ inl off
          ] in
          (
            r,
            rw pass e,
            record {
              is_active = ahead.is_active;
              origin = elim ahead.origin [
                | inl same ↦ inl same
                | inr (m, less) ↦ inr (Memᴰ.tail m, less)
              ];
              first = (passed_over x b r xs hb behind ahead, ahead.first);
            },
          )
    ]

    -- `BestEndpoint` returns nothing only if no link is active; otherwise it returns an active link
    -- of the list to which no active link is preferred by `CompareEndpoints`.
    pub best_endpoint-Best :
        (links : List Endpoint)
        → ((best_endpoint now links ≡ none) × All (λ x. active now x ≡ false) links)
          ⊎ ((b : Endpoint) × (best_endpoint now links ≡ some b) × Best now links b)
    unfolding best_endpoint best_from
    best_endpoint-Best [] = inl (refl, tt)
    best_endpoint-Best (x ∷ xs) = elim (Bool-cases (active now x)) [
      | inl on ↦
          let (r, e, ahead) = best_from-Ahead xs x on in
          inr (
            r,
            unfold is_better in rw on e,
            record {
              listed = elim ahead.origin [ inl same ↦ Memᴰ.head same | inr (m, _) ↦ Memᴰ.tail m ];
              is_active = ahead.is_active;
              first = (passed_over x x r xs on (inr (compare_irrefl now x on)) ahead, ahead.first);
            },
          )
      | inr off ↦ elim (best_endpoint-Best xs) [
        | inl (e, all) ↦ inl (rw off e, (off, all))
        | inr (b, e, best) ↦ inr (
          b,
          rw off e,
          record {
            listed = Memᴰ.tail best.listed;
            is_active = best.is_active;
            first = (inl off, best.first);
          },
        )
      ]
    ]
