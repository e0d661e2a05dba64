-- ===== src/Endpoint/Cost.antt =====
-- Link metrics and the choice of a link: `DurationToMetric`, `CompareEndpoints`, `BestEndpoint` and
-- `LinkCost` of state/endpoint.go.
pub mod Choice
pub mod Units
use Prim.Native.Nat.{compare, Ordering}
use nylon.Base.{
  ℕ, suc, ◌+◌, ◌-◌, ◌*◌, ◌/◌, ◌%◌, ◌^◌, min, Bool, true, false, ◌&&◌, List, [], ◌∷◌, Option, none,
  some, leb, ◌==◌, if◌then◌else◌,
}
use nylon.Base.Int.{ℤ, pos, negsuc, ◌+ℤ◌, compare_ℤ, ltb_ℤ, eqb_ℤ, max_ℤ}
use nylon.Endpoint.Link.{
  NylonEndpoint, Transport, is_active, rel_delays, min_float, loss_rate, dir_scores,
  stabilized_ping,
}
use nylon.Platform.{Platform}
use nylon.Router.Metric.{inf, infm}
use nylon.Tunables.{RouterTunables, second, microsecond}

abbrev pub min_link_delay : ℕ
min_link_delay = 50 * microsecond

abbrev pub warmup_delay : ℕ
warmup_delay = second

-- `math.MaxInt64`
abbrev pub max_int64 : ℕ
max_int64 = 2 ^ 63 - 1

-- `Microseconds` truncates towards zero, and the conversion to `uint32` wraps a negative number
unfoldable pub duration_to_metric : ℤ → ℕ
duration_to_metric (pos n) = if n == max_int64 then inf else min (n / microsecond) infm
duration_to_metric (negsuc n) = (2 ^ 32 - suc n / microsecond % 2 ^ 32) % 2 ^ 32

unfoldable pub metric_to_duration : ℕ → ℕ
metric_to_duration m = if leb inf m then max_int64 else m * microsecond

unfoldable pub add_metric_cost : ℕ → ℕ → ℕ
add_metric_cost metric cost = if metric == inf then inf else min (metric + cost / microsecond) infm

-- `cmpBool`: true comes first
unfoldable pub cmp_bool : Bool → Bool → Ordering
cmp_bool true true = Ordering.eq
cmp_bool true false = Ordering.lt
cmp_bool false true = Ordering.gt
cmp_bool false false = Ordering.eq

-- the first comparison that decides
abbrev pub then_compare : Ordering → Ordering → Ordering
then_compare Ordering.lt next = Ordering.lt
then_compare Ordering.gt next = Ordering.gt
then_compare Ordering.eq next = next

module _ ⦃P : Platform⦄ where
  unfoldable pub etx_metric : ℤ → P.Float → RouterTunables → ℕ
  unfolding duration_to_metric
  etx_metric base p t =
      let one = P.literal 1 0 in
      let factor = P.div p (P.sub one p) in
      let extra = P.trunc (P.mul (P.of_int (base +ℤ pos t.loss_retx_floor)) factor) in
      if P.lt (P.literal 0 0) p then duration_to_metric (base +ℤ extra) else duration_to_metric base

  -- `NylonEndpoint.Metric`
  unfoldable pub link_metric : NylonEndpoint → ℕ → ℕ
  link_metric u now =
      let ping = stabilized_ping u in
      let base =
        max_ℤ (if eqb_ℤ ping (pos 0) then pos warmup_delay else ping) (pos min_link_delay) in
      if is_active u now then etx_metric base (loss_rate u) u.t else inf

  -- The interface `Endpoint`, with a constructor for each kind of implementation: a link of nylon's
  -- own, and any other, whose `AsNylonEndpoint` is nil, by what its methods answer.
  pub data Endpoint : Type 0 where
    nylon_link : NylonEndpoint → Endpoint
    other : (metric : ℕ) (remote active : Bool) → Endpoint

  unfoldable pub active : ℕ → Endpoint → Bool
  active now (nylon_link u) = is_active u now
  active now (other metric remote act) = act

  unfoldable pub metric : ℕ → Endpoint → ℕ
  metric now (nylon_link u) = link_metric u now
  metric now (other m remote act) = m

  transport_cost : Transport → RouterTunables → ℕ
  transport_cost Transport.fake_tcp t = t.tcp_cost
  transport_cost Transport.udp t = t.udp_cost

  unfoldable pub endpoint_cost : NylonEndpoint → ℕ
  unfolding transport_cost
  endpoint_cost u = transport_cost u.transport u.t

  -- `none` where the source returns `ok = false`
  unfoldable pub outbound_score : Endpoint → Option ℤ
  outbound_score (other m remote act) = none
  outbound_score (nylon_link u) = elim (dir_scores u) [
    | none ↦ none
    | some (out, in_) ↦ some (out +ℤ pos (endpoint_cost u))
  ]

  unfoldable pub effective_metric : ℕ → Endpoint → ℕ
  effective_metric now (other m remote act) = m
  effective_metric now (nylon_link u) = add_metric_cost (link_metric u now) (endpoint_cost u)

  -- `aOk` against `bOk`, then the scores
  unfoldable pub compare_scores : Option ℤ → Option ℤ → Ordering
  compare_scores none none = Ordering.eq
  compare_scores (some a) none = Ordering.lt
  compare_scores none (some b) = Ordering.gt
  compare_scores (some a) (some b) = compare_ℤ a b

  unfoldable pub compare_endpoints : ℕ → Endpoint → Endpoint → Ordering
  compare_endpoints now a b = then_compare (cmp_bool (active now a) (active now b)) (
      then_compare (compare_scores (outbound_score a) (outbound_score b))
        (compare (effective_metric now a) (effective_metric now b)))

  -- `best == nil || CompareEndpoints(link, best) < 0`
  unfoldable pub is_better : ℕ → Endpoint → Option Endpoint → Bool
  is_better now link none = true
  is_better now link (some best) = elim (compare_endpoints now link best) [
    | Ordering.lt ↦ true
    | _ ↦ false
  ]

  unfoldable pub best_from : ℕ → List Endpoint → Option Endpoint → Option Endpoint
  unfolding is_better
  best_from now [] best = best
  best_from now (link ∷ links) best =
      best_from now links (if active now link && is_better now link best then some link else best)

  unfoldable pub best_endpoint : ℕ → List Endpoint → Option Endpoint
  unfolding best_from
  best_endpoint now links = best_from now links none

  -- what the loop of `LinkCost` has found
  pub record Chosen : Type 0 where
    pub have_active : Bool
    pub out_ep : Option (NylonEndpoint × ℤ)
    pub in_ep : Option (NylonEndpoint × ℤ)

  -- `ep == nil || score < best`
  unfoldable pub keep_lower :
      NylonEndpoint → ℤ → Option (NylonEndpoint × ℤ) → Option (NylonEndpoint × ℤ)
  keep_lower u score none = some (u, score)
  keep_lower u score (some (v, best)) = if ltb_ℤ score best then some (u, score) else some (v, best)

  unfoldable pub choose : Endpoint → Chosen → Chosen
  unfolding keep_lower
  choose (other m remote act) c = record c { have_active = true }
  choose (nylon_link u) c = elim (dir_scores u) [
    | none ↦ record c { have_active = true }
    | some (out, in_) ↦ record {
      have_active = true;
      out_ep = keep_lower u (out +ℤ pos (endpoint_cost u)) c.out_ep;
      in_ep = keep_lower u in_ c.in_ep;
    }
  ]

  unfoldable pub choose_links : ℕ → List Endpoint → Chosen → Chosen
  unfolding choose
  choose_links now [] c = c
  choose_links now (link ∷ links) c =
      choose_links now links (if active now link then choose link c else c)

  -- `RelDelays` of a link, zero where it is not ready
  unfoldable pub rel_or_zero : NylonEndpoint → ℤ × ℤ
  rel_or_zero u = elim (rel_delays u) [ none ↦ (pos 0, pos 0) | some d ↦ d ]

  -- the cost of the cycle over the outbound and the inbound link
  unfoldable pub cycle_cost : NylonEndpoint → NylonEndpoint → ℕ
  unfolding rel_or_zero
  cycle_cost out_ep in_ep =
      let t = out_ep.t in
      let one = P.literal 1 0 in
      let base = max_ℤ ((rel_or_zero out_ep).0 +ℤ (rel_or_zero in_ep).1) (pos min_link_delay) in
      let p_out = min_float (loss_rate out_ep) t.loss_cap in
      let p_in = min_float (loss_rate in_ep) t.loss_cap in
      let p = min_float (P.sub one (P.mul (P.sub one p_out) (P.sub one p_in))) t.loss_cap in
      add_metric_cost (etx_metric base p t) (endpoint_cost out_ep)

  -- the metric of the preferred link, for a neighbour whose links are warming up
  unfoldable pub fallback_cost : ℕ → Option Endpoint → ℕ
  fallback_cost now none = inf
  fallback_cost now (some best) = effective_metric now best

  -- the two links, where both were found
  unfoldable pub cost_of : Option (NylonEndpoint × ℤ) → Option (NylonEndpoint × ℤ) → ℕ → ℕ
  cost_of (some (out_ep, _)) (some (in_ep, _)) fallback = cycle_cost out_ep in_ep
  cost_of none _ fallback = fallback
  cost_of (some _) none fallback = fallback

  unfoldable pub link_cost : ℕ → List Endpoint → ℕ
  unfolding cost_of fallback_cost
  link_cost now links =
      let c =
        choose_links now links (record { have_active = false; out_ep = none; in_ep = none }) in
      if c.have_active
      then cost_of c.out_ep c.in_ep (fallback_cost now (best_endpoint now links))
      else inf
