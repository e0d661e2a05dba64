-- ===== src/Future.antt =====
-- Results of asynchronous work: core/future.go. A result is what `complete` is given, the value and
-- the error together; the fields of a future are written under its mutex or its `sync.Once`, so each
-- function below is one step, and the calls of `Await` interleave between them.
pub mod All
pub mod Consumed
use nylon.Base.{
  ℕ, Bool, true, false, ◌||◌, List, [], ◌∷◌, ◌++◌, Option, none, some, ◌≡◌, if◌then◌else◌, is_some,
  ℕ_discrete,
}
use nylon.Config.Names.{has, remove}

-- `value` and `err` with the channel `done`: `none` while it is open
pub record FutureState (A : Type 0) : Type 0 where
  pub completed : Option A
  pub awaiting : Bool
  pub awaited : Bool

abbrev pub new_future : {A : Type 0} → FutureState A
new_future = record { completed = none; awaiting = false; awaited = false }

unfoldable pub complete : {A : Type 0} → FutureState A → A → FutureState A
complete f r = if is_some f.completed then f else record f { completed = some r }

-- `none` is `ErrFutureAlreadyAwaited`
unfoldable pub begin_await : {A : Type 0} → FutureState A → Option (FutureState A)
begin_await f = if f.awaited || f.awaiting then none else some (record f { awaiting = true })

unfoldable pub finish_await : {A : Type 0} → FutureState A → FutureState A
finish_await f = record f { awaiting = false; awaited = true }

unfoldable pub cancel_await : {A : Type 0} → FutureState A → FutureState A
cancel_await f = record f { awaiting = false }

-- a future with the calls of `Await` that are past `beginAwait`, what each of the others got, and
-- the arguments of the calls of its completion function, in their order
pub record Shared (A : Type 0) : Type 0 where
  pub future : FutureState A
  pub waiting : List ℕ
  pub delivered : List (ℕ × A)
  pub calls : List A

-- one step of a call of `Await` or of the completion function; a call whose context is done may
-- leave whether or not the result is there, as the second `select` allows
pub data Step {A : Type 0} : Shared A → Shared A → Type 0 where
  completes :
      (s : Shared A) (r : A)
      → Step s (record s { future = complete s.future r; calls = s.calls ++ r ∷ [] })
  begins :
      (s : Shared A) (caller : ℕ) (f : FutureState A)
      → begin_await s.future ≡ some f
      → Step s (record s { future = f; waiting = caller ∷ s.waiting })
  finishes :
      (s : Shared A) (caller : ℕ) (r : A)
      → has ℕ_discrete caller s.waiting ≡ true
      → s.future.completed ≡ some r
      → Step s (record s {
        future = finish_await s.future;
        waiting = remove ℕ_discrete caller s.waiting;
        delivered = s.delivered ++ (caller, r) ∷ [];
      })
  cancels :
      (s : Shared A) (caller : ℕ)
      → has ℕ_discrete caller s.waiting ≡ true
      → Step s (record s {
        future = cancel_await s.future;
        waiting = remove ℕ_discrete caller s.waiting;
      })

abbrev pub fresh : {A : Type 0} → Shared A
fresh = record { future = new_future; waiting = []; delivered = []; calls = [] }

-- what any interleaving of calls leads to
pub data Reachable {A : Type 0} : Shared A → Type 0 where
  start : Reachable fresh
  step : {s s' : Shared A} → Reachable s → Step s s' → Reachable s'
