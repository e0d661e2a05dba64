-- ===== src/Future/All.antt =====
-- `AwaitAll` of core/future.go, and which of the errors it returns.
use nylon.Base.{
  ◌≡◌, refl, sym, ap, ◌∙◌, Bool, List, [], ◌∷◌, ◌++◌, Option, none, some, map, if◌then◌else◌,
}
use mathlib.Core.List.{append_assoc, append-nil}

-- one call of `Await` in the loop: what it returned, and `ctx.Err()` after it
pub record Attempt (A E : Type 0) : Type 0 where
  pub value : A
  pub error : Option E
  pub ctx_error : Option E

pub data Gathered (A E : Type 0) : Type 0 where
  stopped : E → Gathered A E
  returned : List A → Option E → Gathered A E

module _ {E : Type 0} where
  abbrev pub or_first : Option E → Option E → Option E
  or_first none e = e
  or_first (some first) _ = some first

  or_first_assoc : (a b c : Option E) → or_first (or_first a b) c ≡ or_first a (or_first b c)
  or_first_assoc none b c = refl
  or_first_assoc (some a) b c = refl

  or_first-none : (a : Option E) → or_first a none ≡ a
  or_first-none none = refl
  or_first-none (some a) = refl

  -- the error of a context that ended a call; `is` is `errors.Is`
  abbrev pub ended_by : (E → E → Bool) → Option E → Option E → Option E
  ended_by is none _ = none
  ended_by is (some e) none = none
  ended_by is (some e) (some c) = if is e c then some c else none

module _ {A E : Type 0} where
  -- the `firstErr` of a loop that runs to its end
  abbrev pub first_error : List (Attempt A E) → Option E
  first_error [] = none
  first_error (x ∷ xs) = or_first x.error (first_error xs)

  module _ (is : E → E → Bool) where
    -- the loop, with the values so far and `firstErr`
    unfoldable pub await_from : List (Attempt A E) → List A → Option E → Gathered A E
    await_from [] values first = returned values first
    await_from (x ∷ xs) values first = elim (ended_by is x.error x.ctx_error) [
      | some c ↦ stopped c
      | none ↦ await_from xs (values ++ x.value ∷ []) (or_first first x.error)
    ]

    unfoldable pub await_all : List (Attempt A E) → Gathered A E
    unfolding await_from
    await_all xs = await_from xs [] none

    -- no call of these was ended by its context
    abbrev pub Uninterrupted : List (Attempt A E) → Type 0
    Uninterrupted [] = Unit
    Uninterrupted (x ∷ xs) = (ended_by is x.error x.ctx_error ≡ none) × Uninterrupted xs

    await_from-append :
        (xs rest : List (Attempt A E)) (values : List A) (first : Option E)
        → Uninterrupted xs
        → await_from (xs ++ rest) values first
          ≡ await_from rest (values ++ map (λ x. x.value) xs) (or_first first (first_error xs))
    unfolding await_from
    await_from-append [] rest values first u = rw (append-nil values, or_first-none first) refl
    await_from-append (x ∷ xs) rest values first u =
        rw (await_from, u.0)
          (await_from-append xs rest (values ++ x.value ∷ []) (or_first first x.error) u.1
            ∙ rw
                (
                  append_assoc values (x.value ∷ []) (map (λ x. x.value) xs),
                  or_first_assoc first x.error (first_error xs),
                )
                refl)

    -- If no call of `Await` was ended by the context, `AwaitAll` returns the values of all futures in
    -- their order and the first of the errors; and if the context ends a call, it returns the error of
    -- the context, whatever the calls before it returned, and does not depend on the futures after it.
    pub await_all-order :
        (xs ys : List (Attempt A E)) (x : Attempt A E) (c : E)
        → Uninterrupted xs
        → ended_by is x.error x.ctx_error ≡ some c
        → (await_all xs ≡ returned (map (λ x. x.value) xs) (first_error xs))
          × (await_all (xs ++ x ∷ ys) ≡ stopped c)
    unfolding await_all await_from
    await_all-order xs ys x c u h = (
      ap (λ l. await_from l [] none) (sym (append-nil xs)) ∙ await_from-append xs [] [] none u,
      await_from-append xs (x ∷ ys) [] none u ∙ rw (await_from, h) refl,
    )
