-- ===== src/Router/Feasibility/Recorded.antt =====
-- What `updateFeasibility` does to later feasibility tests: the argument that keeps routes loop-free.
use nylon.Base.{
  ℕ, ◌+◌, ◌-◌, ◌%◌, ltb, ◌^◌, ◌<◌, ◌≡◌, refl, true, Option, none, some, ite, if_pos, if_neg, arith,
  ◌==◌,
}
use nylon.Base.Maps.{find, find-put}
use nylon.Platform.{Platform}
use nylon.Router.Feasibility.{next_fd, update_feasibility, is_feasible, check_feasibility}
use nylon.Router.Metric.{inf, seqno_lt}
use nylon.Router.State.{Source, Fd, PubRoute, RouterState, source_eq}

-- how far a sequence number is ahead of another, around the circle
abbrev pub ahead : (base x : ℕ) → ℕ
ahead base x = (x + 2 ^ 16 - base) % 2 ^ 16

-- a 16-bit number that is less than half the circle ahead
abbrev pub IsAhead : (base x : ℕ) → Type 0
IsAhead base x = (x < 2 ^ 16) × (ahead base x < 2 ^ 15)

-- such numbers are in the order of how far they are ahead
seqno_lt-offset :
    (base x y : ℕ)
    → base < 2 ^ 16
    → IsAhead base x
    → IsAhead base y
    → (seqno_lt x y ≡ ltb (ahead base x) (ahead base y))
      × ((x == y) ≡ (ahead base x == ahead base y))
unfolding seqno_lt
seqno_lt-offset base x y hb hx hy = (ground arith, ground arith)

module _ ⦃P : Platform⦄ where
  next_fd_recorded :
      (entry : Option Fd) (fd : Fd) → is_feasible (some (next_fd entry fd)) fd ≡ (fd.metric == inf)
  unfolding next_fd is_feasible seqno_lt
  next_fd_recorded none fd = ground arith
  next_fd_recorded (some src) fd = ground arith

  next_fd_shrinks :
      (base : ℕ) (entry : Option Fd) (fd other : Fd)
      → base < 2 ^ 16
      → ((src : Fd) → entry ≡ some src → IsAhead base src.seqno)
      → IsAhead base fd.seqno
      → IsAhead base other.seqno
      → is_feasible (some (next_fd entry fd)) other ≡ true
      → is_feasible entry other ≡ true
  unfolding next_fd is_feasible
  next_fd_shrinks base none fd other hb hs hf ho h = refl
  next_fd_shrinks base (some src) fd other hb hs hf ho h =
      let s = hs src refl in
      ground (
        arith,
        seqno_lt-offset base src.seqno fd.seqno hb s hf,
        seqno_lt-offset base src.seqno other.seqno hb s ho,
        seqno_lt-offset base fd.seqno other.seqno hb hf ho,
      )

  -- the entry of a source after an update
  pub sources-update :
      (s : RouterState) (adv : PubRoute) (src : Source)
      → find source_eq src (update_feasibility s adv).sources
        ≡ ite
            (source_eq adv.source src)
            (some (next_fd (find source_eq adv.source s.sources) adv.fd))
            (find source_eq src s.sources)
  unfolding update_feasibility
  sources-update s adv src = find-put source_eq adv.source src _ s.sources

  -- Once a route is recorded as sent, the same distance coming back is feasible only if it is a
  -- retraction, whatever the source table held before. (The sequence numbers may have any value.)
  pub check-update_self :
      (s : RouterState) (adv : PubRoute)
      → check_feasibility (update_feasibility s adv) adv ≡ (adv.fd.metric == inf)
  unfolding check_feasibility
  check-update_self s adv =
      rw (sources-update s adv adv.source, if_pos (source_eq adv.source adv.source) refl)
        (next_fd_recorded (find source_eq adv.source s.sources) adv.fd)

  -- Recording a sent route makes no other route feasible, if the sequence numbers in play (the recorded
  -- one, the one sent and the other route's) are less than half the circle of 2 ^ 16 ahead of a common
  -- base, whether or not they wrap around, so that they are in order.
  pub check-update_shrinks :
      (base : ℕ) (s : RouterState) (adv other : PubRoute)
      → base < 2 ^ 16
      → ((src : Fd) → find source_eq adv.source s.sources ≡ some src → IsAhead base src.seqno)
      → IsAhead base adv.fd.seqno
      → IsAhead base other.fd.seqno
      → check_feasibility (update_feasibility s adv) other ≡ true
      → check_feasibility s other ≡ true
  unfolding check_feasibility
  check-update_shrinks base s adv other hb hs hf ho h = elim (source_eq adv.source other.source) [
    | yes same ↦ rw (← same) (
        next_fd_shrinks base _ adv.fd other.fd hb hs hf ho (
          rw (sources-update s adv other.source, if_pos (source_eq adv.source other.source) same) at
            h))
    | no differ ↦
        rw (sources-update s adv other.source, if_neg (source_eq adv.source other.source) differ) at
          h
  ]
