-- ===== src/Future/Consumed.antt =====
-- What the calls of `Await` of core/future.go get, in every interleaving.
use nylon.Base.{
  ◌≡◌, refl, sym, subst, ap, ℕ, true, false, List, [], ◌∷◌, ◌++◌, Option, none, some, arith,
  is_some, ℕ_discrete,
}
use nylon.Config.Names.{has, remove}
use nylon.Future.{
  FutureState, complete, begin_await, finish_await, cancel_await, Shared, Step, Reachable,
}

-- removing the only element
remove_only : (x y : ℕ) → has ℕ_discrete x (y ∷ []) ≡ true → remove ℕ_discrete x (y ∷ []) ≡ []
unfolding remove
remove_only x y h = ground arith

module _ {A : Type 0} where
  -- the argument of the first completion
  abbrev pub first : List A → Option A
  first [] = none
  first (r ∷ rs) = some r

  -- a future nobody waits for, one that a call waits for, and one whose result was received
  abbrev idle : List A → FutureState A
  idle calls = record { completed = first calls; awaiting = false; awaited = false }

  abbrev busy : List A → FutureState A
  busy calls = record { completed = first calls; awaiting = true; awaited = false }

  abbrev spent : List A → FutureState A
  spent calls = record { completed = first calls; awaiting = false; awaited = true }

  data Phase : Shared A → Type 0 where
    free :
        (calls : List A)
        → Phase (record { future = idle calls; waiting = []; delivered = []; calls = calls })
    taken :
        (calls : List A) (caller : ℕ)
        → Phase
            (record { future = busy calls; waiting = caller ∷ []; delivered = []; calls = calls })
    consumed :
        (calls : List A) (caller : ℕ) (r : A)
        → first calls ≡ some r
        → Phase (record {
          future = spent calls;
          waiting = [];
          delivered = (caller, r) ∷ [];
          calls = calls;
        })

  some_inj : {a b : FutureState A} → some a ≡ some b → a ≡ b
  some_inj e = ground arith

  step-Phase : {s s' : Shared A} → Phase s → Step s s' → Phase s'
  unfolding complete begin_await finish_await cancel_await
  step-Phase (free []) (Step.completes _ r) = free (r ∷ [])
  step-Phase (free (c ∷ cs)) (Step.completes _ r) = free (c ∷ cs ++ r ∷ [])
  step-Phase (free calls) (Step.begins _ caller f e) =
      subst
        (λ f. Phase (record { future = f; waiting = caller ∷ []; delivered = []; calls = calls }))
        (some_inj e) (taken calls caller)
  step-Phase (free calls) (Step.finishes _ caller r here done) = absurd (ground arith)
  step-Phase (free calls) (Step.cancels _ caller here) = absurd (ground arith)
  step-Phase (taken [] owner) (Step.completes _ r) = taken (r ∷ []) owner
  step-Phase (taken (c ∷ cs) owner) (Step.completes _ r) = taken (c ∷ cs ++ r ∷ []) owner
  step-Phase (taken calls owner) (Step.begins _ caller f e) = absurd (ground arith)
  step-Phase (taken calls owner) (Step.finishes _ caller r here done) =
      subst
        (λ l. Phase (record {
          future = spent calls;
          waiting = l;
          delivered = (caller, r) ∷ [];
          calls = calls;
        }))
        (sym (remove_only caller owner here)) (consumed calls caller r done)
  step-Phase (taken calls owner) (Step.cancels _ caller here) =
      subst
        (λ l. Phase (record { future = idle calls; waiting = l; delivered = []; calls = calls }))
        (sym (remove_only caller owner here)) (free calls)
  step-Phase (consumed [] owner q e) (Step.completes _ r) = absurd (ground arith)
  step-Phase (consumed (c ∷ cs) owner q e) (Step.completes _ r) =
      consumed (c ∷ cs ++ r ∷ []) owner q e
  step-Phase (consumed calls owner q e) (Step.begins _ caller f g) = absurd (ground arith)
  step-Phase (consumed calls owner q e) (Step.finishes _ caller r here done) = absurd (ground arith)
  step-Phase (consumed calls owner q e) (Step.cancels _ caller here) = absurd (ground arith)

  reachable-Phase : {s : Shared A} → Reachable s → Phase s
  reachable-Phase Reachable.start = free []
  reachable-Phase (Reachable.step r move) = step-Phase (reachable-Phase r) move

  Phase-once :
      {s : Shared A} (caller : ℕ) (r : A) (pre post : List (ℕ × A))
      → Phase s
      → s.delivered ≡ pre ++ (caller, r) ∷ post
      → (s.delivered ≡ (caller, r) ∷ [])
        × (first s.calls ≡ some r)
        × (s.waiting ≡ [])
        × (begin_await s.future ≡ none)
  unfolding begin_await
  Phase-once caller r [] post (free calls) h = absurd (ground arith)
  Phase-once caller r (x ∷ pre) post (free calls) h = absurd (ground arith)
  Phase-once caller r [] post (taken calls owner) h = absurd (ground arith)
  Phase-once caller r (x ∷ pre) post (taken calls owner) h = absurd (ground arith)
  Phase-once caller r [] post (consumed calls owner q e) h =
      let same : (owner, q) ≡ (caller, r) = ground arith in
      (
        ap (λ x. x ∷ []) same,
        subst (λ x. first calls ≡ some x) (ap (λ (x : ℕ × A). x.1) same) e,
        refl,
        refl,
      )
  Phase-once caller r (x ∷ []) post (consumed calls owner q e) h = absurd (ground arith)
  Phase-once caller r (x ∷ y ∷ pre) post (consumed calls owner q e) h = absurd (ground arith)

  Phase-awaitable :
      {s : Shared A}
      → Phase s
      → s.waiting ≡ []
      → s.delivered ≡ []
      → is_some (begin_await s.future) ≡ true
  unfolding begin_await
  Phase-awaitable (free calls) w d = refl
  Phase-awaitable (taken calls owner) w d = absurd (ground arith)
  Phase-awaitable (consumed calls owner q e) w d = absurd (ground arith)

  -- In every interleaving of the calls on a new future, if some call of `Await` received `r`, then it
  -- is the only one that received a result, `r` is the argument of the first completion, no other call
  -- waits, and every later call is refused.
  pub reachable-once :
      (s : Shared A) (caller : ℕ) (r : A) (pre post : List (ℕ × A))
      → Reachable s
      → s.delivered ≡ pre ++ (caller, r) ∷ post
      → (s.delivered ≡ (caller, r) ∷ [])
        × (first s.calls ≡ some r)
        × (s.waiting ≡ [])
        × (begin_await s.future ≡ none)
  reachable-once s caller r pre post reached h =
      Phase-once caller r pre post (reachable-Phase reached) h

  -- In every interleaving of the calls on a new future, as long as nobody received its result and no
  -- call waits, whether calls were cancelled or not, a call of `Await` is let in.
  pub reachable-awaitable :
      (s : Shared A)
      → Reachable s
      → s.waiting ≡ []
      → s.delivered ≡ []
      → is_some (begin_await s.future) ≡ true
  reachable-awaitable s reached w d = Phase-awaitable (reachable-Phase reached) w d
