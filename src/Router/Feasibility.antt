-- ===== src/Router/Feasibility.antt =====
-- The feasibility condition of core/router_algo.go: `updateFeasibility` and `checkFeasibility`.
pub mod Recorded
use nylon.Base.{Bool, true, ◌&&◌, ◌||◌, Option, none, some, ltb, ◌==◌, if◌then◌else◌}
use nylon.Base.Maps.{find, put}
use nylon.Platform.{Platform}
use nylon.Router.Metric.{inf, seqno_lt}
use nylon.Router.State.{Fd, PubRoute, RouterState, source_eq}

module _ ⦃P : Platform⦄ where
  -- the entry of the source table after an update with finite metric is sent
  unfoldable pub next_fd : Option Fd → Fd → Fd
  next_fd none fd = fd
  next_fd (some src) fd =
      if seqno_lt src.seqno fd.seqno
      then fd
      else if src.seqno == fd.seqno && ltb fd.metric src.metric
      then record src { metric = fd.metric }
      else src

  unfoldable pub update_feasibility : RouterState → PubRoute → RouterState
  unfolding next_fd
  update_feasibility router adv = record router {
    sources =
        put source_eq adv.source (next_fd (find source_eq adv.source router.sources) adv.fd)
          router.sources;
  }

  -- the test against an entry of the source table
  unfoldable pub is_feasible : Option Fd → Fd → Bool
  is_feasible none fd = true
  is_feasible (some src) fd =
      (seqno_lt src.seqno fd.seqno || fd.metric == inf)
      || (src.seqno == fd.seqno && ltb fd.metric src.metric)

  unfoldable pub check_feasibility : RouterState → PubRoute → Bool
  unfolding is_feasible
  check_feasibility router adv = is_feasible (find source_eq adv.source router.sources) adv.fd
