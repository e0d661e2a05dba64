-- ===== src/Tests/Filter.antt =====
-- The delay filter over floating-point numbers of two decimals.
use nylon.Base.{
  ℕ, ◌*◌, ◌/◌, ◌^◌, ◌≡◌, refl, true, false, [], ◌∷◌, none, some, leb, sort, ℕ_discrete,
}
use nylon.Base.Int.{ℤ, pos, pos_part, ltb_ℤ, eqb_ℤ, ◌+ℤ◌, ◌-ℤ◌}
use nylon.Endpoint.Filter.{DelayFilter, stabilized}
use nylon.Endpoint.Filter.Ranks.{IsRank}
use nylon.Endpoint.Filter.Reads.{IsQuantile, Held, stabilized-Held}
use nylon.Platform.{Platform}
use nylon.Tunables.{default_router_tunables}

-- a number is held in hundredths
instance abbrev percents : Platform
percents = record {
  NodeId = ℕ;
  Prefix = ℕ;
  Float = ℤ;
  Peer = ℕ;
  node_eq = ℕ_discrete;
  node_le = leb;
  prefix_eq = ℕ_discrete;
  literal = λ m e. pos (m * 100 / 10 ^ e);
  of_int = λ z. pos (pos_part z * 100);
  trunc = λ z. pos (pos_part z / 100);
  lt = ltb_ℤ;
  eq = eqb_ℤ;
  add = ◌+ℤ◌;
  sub = ◌-ℤ◌;
  mul = λ a b. pos (pos_part a * pos_part b / 100);
  div = λ a b. pos (pos_part a * 100 / pos_part b);
}

-- three samples, out of order, and a last value above all of them
abbrev window : DelayFilter
window = record {
  history = pos 30 ∷ pos 10 ∷ pos 20 ∷ [];
  hist_sort = [];
  dirty = true;
  prev_median = pos 90;
  exp = pos 0;
  init = true;
}

-- the filter after the read
abbrev read : DelayFilter
read = record window {
  hist_sort = pos 10 ∷ pos 20 ∷ pos 30 ∷ [];
  dirty = false;
  prev_median = pos 20;
}

stabilized-Held_example :
    ((low : ℤ) × (high : ℤ) × (med : ℤ) × IsQuantile window.history
        default_router_tunables.outlier_percentage low
      × IsQuantile window.history (pos 100 -ℤ default_router_tunables.outlier_percentage) high
      × IsRank window.history 1 med
      × Held (pos 90) low high med (pos 20))
    × (stabilized read default_router_tunables ≡ some (pos 20, read))
unfolding stabilized default_router_tunables sort ◌-ℤ◌
stabilized-Held_example = stabilized-Held window default_router_tunables (pos 20) read refl refl

-- the read panics on an empty window
panics : stabilized (record window { history = [] }) default_router_tunables ≡ none
unfolding stabilized default_router_tunables sort
panics = refl
