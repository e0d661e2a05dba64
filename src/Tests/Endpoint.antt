-- ===== src/Tests/Endpoint.antt =====
-- The theorems on endpoints at concrete inputs.
use nylon.Base.{
  ◌+◌, ◌-◌, ◌≤◌, ◌≡◌, refl, ◌⊎◌, inl, true, false, List, [], ◌∷◌, none, some, arith, length, min,
  All, if◌then◌else◌,
}
use nylon.Base.Int.{pos, eqb_ℤ, ◌-ℤ◌}
use nylon.Endpoint.Cost.{
  Endpoint, active, best_endpoint, compare_endpoints, cmp_bool, compare_scores, outbound_score,
  effective_metric, duration_to_metric, metric_to_duration,
}
use nylon.Endpoint.Cost.Choice.{Best, best_endpoint-Best}
use nylon.Endpoint.Cost.Units.{duration_to_metric_inverse, duration_to_metric_monotone}
use nylon.Endpoint.Link.{
  NylonEndpoint, new_endpoint, register_probe, observe_echo, sweep_probes, pending_probe_cap,
}
use nylon.Endpoint.Link.Probes.{
  count, in_time, average_after, observe_echo_once, register-observe, sweep_probes_lem,
}
use nylon.Endpoint.Link.Runs.{Op, Bounded, apply_all, new_endpoint-Bounded}
use nylon.Router.Metric.{inf}
use nylon.Tests.Network.{small, tunables}

-- an endpoint with two probes that wait
abbrev link : NylonEndpoint
link = register_probe (register_probe (new_endpoint false tunables 0).0 (pos 10)) (pos 20)

abbrev links : List Endpoint
links =
    Endpoint.other 30 false true ∷ Endpoint.other 10 false false ∷ Endpoint.other 20 false true ∷ []

observe_echo_once_example :
    let (u', accepted) = observe_echo link (pos 10) (pos 15) in
    ((count (pos 10) link.pending ≡ 0) × (accepted ≡ false) × (u' ≡ link))
    ⊎ ((1 ≤ count (pos 10) link.pending)
        × (accepted ≡ true)
        × (count (pos 20) link.pending
            ≡ (if eqb_ℤ (pos 10) (pos 20) then 1 else 0) + count (pos 20) u'.pending))
observe_echo_once_example = observe_echo_once link (pos 10) (pos 15) (pos 20)

register-observe_example :
    ((observe_echo (register_probe link (pos 30)) (pos 30) (pos 35)).1 ≡ true)
    × (length (register_probe link (pos 30)).pending ≤ pending_probe_cap)
register-observe_example = register-observe link (pos 30) (pos 35)

sweep_probes_lem_example :
    let u' = sweep_probes link (pos 5000000015) in
    let lost = length link.pending - length u'.pending in
    (u'.pending ≡ in_time (pos 5000000015) link.pending)
    × (u'.loss_samples ≡ min (link.loss_samples + lost) 2)
    × (u'.loss_ewma
        ≡ average_after tunables.loss_smoothing_alpha lost link.loss_init link.loss_ewma)
unfolding new_endpoint register_probe
sweep_probes_lem_example = sweep_probes_lem link (pos 5000000015) (omega arith)

-- the older probe timed out
one_lost : (sweep_probes link (pos 5000000015)).loss_samples ≡ 1
unfolding sweep_probes new_endpoint register_probe ◌-ℤ◌
one_lost = refl

new_endpoint-Bounded_example : Bounded (
    apply_all
      (new_endpoint true tunables 0).0
      (Op.register (pos 1) ∷ Op.echoed (pos 1) (pos 2) ∷ Op.sweep (pos 9) ∷ []))
new_endpoint-Bounded_example =
    new_endpoint-Bounded true tunables 0
      (Op.register (pos 1) ∷ Op.echoed (pos 1) (pos 2) ∷ Op.sweep (pos 9) ∷ [])

best_endpoint-Best_example :
    ((best_endpoint 0 links ≡ none) × All (λ x. active 0 x ≡ false) links)
    ⊎ ((b : Endpoint) × (best_endpoint 0 links ≡ some b) × Best 0 links b)
best_endpoint-Best_example = best_endpoint-Best 0 links

-- the inactive link is not chosen
chosen : best_endpoint 0 links ≡ some (Endpoint.other 20 false true)
unfolding best_endpoint active compare_endpoints cmp_bool compare_scores outbound_score
    effective_metric
chosen = refl

duration_to_metric_inverse_example : duration_to_metric (pos (metric_to_duration 1500)) ≡ 1500
duration_to_metric_inverse_example = duration_to_metric_inverse 1500 (inl (omega arith))

duration_to_metric_monotone_example :
    (duration_to_metric (pos 1500000) ≤ duration_to_metric (pos 2500000))
    × (duration_to_metric (pos 2500000) ≤ inf)
duration_to_metric_monotone_example =
    duration_to_metric_monotone 1500000 2500000 (omega arith) (omega arith)
