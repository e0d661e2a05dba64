-- ===== src/Tests/Future.antt =====
-- A future that two calls wait for in turn.
use nylon.Base.{
  Bool, List, ◌++◌, ℕ, ◌≡◌, refl, true, false, [], ◌∷◌, none, some, is_some, is_yes, ℕ_discrete,
}
use nylon.Config.Names.{remove}
use nylon.Future.All.{Attempt, returned, stopped, await_all, await_all-order}
use nylon.Future.Consumed.{first, reachable-once, reachable-awaitable}
use nylon.Future.{complete, begin_await, finish_await, cancel_await, Shared, Step, Reachable, fresh}

-- the first call gave up; nothing is there yet
abbrev given_up : Shared ℕ
given_up = record {
  future = record { completed = none; awaiting = false; awaited = false };
  waiting = [];
  delivered = [];
  calls = [];
}

abbrev given_up-Reachable : Reachable given_up
unfolding begin_await cancel_await remove ℕ_discrete
given_up-Reachable =
    Reachable.step (Reachable.step Reachable.start (Step.begins fresh 1 _ refl))
      (Step.cancels _ 1 refl)

-- the second call received the first of two completions
abbrev received : Shared ℕ
received = record {
  future = record { completed = some 7; awaiting = false; awaited = true };
  waiting = [];
  delivered = (2, 7) ∷ [];
  calls = 7 ∷ 8 ∷ [];
}

abbrev received-Reachable : Reachable received
unfolding begin_await complete finish_await remove ℕ_discrete
received-Reachable =
    Reachable.step
      (Reachable.step
        (Reachable.step (Reachable.step given_up-Reachable (Step.begins given_up 2 _ refl))
          (Step.completes _ 7))
        (Step.completes _ 8))
      (Step.finishes _ 2 7 refl refl)

reachable-once_example :
    (received.delivered ≡ (2, 7) ∷ [])
    × (first received.calls ≡ some 7)
    × (received.waiting ≡ [])
    × (begin_await received.future ≡ none)
reachable-once_example = reachable-once received 2 7 [] [] received-Reachable refl

reachable-awaitable_example : is_some (begin_await given_up.future) ≡ true
reachable-awaitable_example = reachable-awaitable given_up given_up-Reachable refl refl

abbrev same_error : ℕ → ℕ → Bool
same_error a b = is_yes (ℕ_discrete a b)

-- one value, and two failures that are no errors of a context
abbrev attempts : List (Attempt ℕ ℕ)
attempts =
    record { value = 4; error = none; ctx_error = none }
    ∷ record { value = 0; error = some 21; ctx_error = none }
    ∷ record { value = 0; error = some 22; ctx_error = some 99 }
    ∷ []

abbrev ended : Attempt ℕ ℕ
ended = record { value = 0; error = some 99; ctx_error = some 99 }

await_all-order_example :
    (await_all same_error attempts ≡ returned (4 ∷ 0 ∷ 0 ∷ []) (some 21))
    × (await_all same_error (attempts ++ ended ∷ []) ≡ stopped 99)
unfolding ℕ_discrete
await_all-order_example =
    await_all-order same_error attempts [] ended 99 (refl, (refl, (refl, tt))) refl
