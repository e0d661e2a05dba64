-- ===== src/Endpoint/Link/Runs.antt =====
-- Runs of one endpoint of state/endpoint.go: its probes, echoes, sweeps and renewals in any order.
use nylon.Base.{
  ℕ, ◌+◌, ◌-◌, ◌≤◌, ◌≡◌, Bool, true, false, List, [], ◌∷◌, ◌++◌, some, arith, ltb, if◌then◌else◌,
  length, drop, length-append, length-drop, Option-cases, Bool-cases, inl, inr, ◌&&◌,
}
use nylon.Base.Int.{ℤ, ◌-ℤ◌, eqb_ℤ}
use nylon.Endpoint.Filter.{DelayFilter, jumped, update, reset, fresh}
use nylon.Endpoint.Link.{
  NylonEndpoint, new_endpoint, is_active, is_stale, renew, remove_first, register_probe,
  cancel_probe, observe_inbound, observe_echo, sweep_from, sweep_probes, timed_out, record_loss,
  pending_probe_cap,
}
use nylon.Platform.{Platform}
use nylon.Tunables.{RouterTunables}

-- an operation on an endpoint, with its arguments
pub data Op : Type 0 where
  register cancel sweep : ℤ → Op
  inbound echoed : ℤ → ℤ → Op
  renewed : ℕ → Op

remove_first-shorter :
    (x : ℤ) (xs zs : List ℤ) → remove_first x xs ≡ some zs → length zs ≤ length xs
unfolding remove_first
remove_first-shorter x [] zs h = absurd (ground arith)
remove_first-shorter x (y ∷ ys) zs h = elim (Option-cases (remove_first x ys)) [
  | inl e ↦ ground arith
  | inr (ws, e) ↦
      let shorter = remove_first-shorter x ys ws e in
      elim (Bool-cases (eqb_ℤ y x)) [
        | inl same ↦ let e' : ys ≡ zs = ground arith in rw (← e') (omega arith)
        | inr differs ↦ let e' : y ∷ ws ≡ zs = ground arith in rw (← e') (omega (arith, shorter))
      ]
]

window_bound :
    (w : ℕ) (xs : List ℤ) (x : ℤ)
    → length xs ≤ w
    → length (if ltb w (length (xs ++ x ∷ [])) then drop 1 (xs ++ x ∷ []) else xs ++ x ∷ []) ≤ w
window_bound w xs x h = ground (arith, length-append xs (x ∷ []), length-drop 1 (xs ++ x ∷ []))

module _ ⦃P : Platform⦄ where
  unfoldable pub apply : NylonEndpoint → Op → NylonEndpoint
  apply u (Op.register tx_ts) = register_probe u tx_ts
  apply u (Op.cancel tx_ts) = cancel_probe u tx_ts
  apply u (Op.sweep now_ns) = sweep_probes u now_ns
  apply u (Op.inbound peer_tx rx_ns) = observe_inbound u peer_tx rx_ns
  apply u (Op.echoed origin_tx peer_rx) = (observe_echo u origin_tx peer_rx).0
  apply u (Op.renewed now) = renew u now

  unfoldable pub apply_all : NylonEndpoint → List Op → NylonEndpoint
  unfolding apply
  apply_all u [] = u
  apply_all u (op ∷ ops) = apply_all (apply u op) ops

  -- the memory of an endpoint is bounded by its tunables
  pub record Bounded (u : NylonEndpoint) : Type 0 where
    pub pending : length u.pending ≤ pending_probe_cap
    pub losses : u.loss_samples ≤ u.t.minimum_confidence_window
    pub outward : length u.owd_out.history ≤ u.t.window_samples
    pub inward : length u.owd_in.history ≤ u.t.window_samples

  length-update :
      (f : DelayFilter) (sample : ℤ) (t : RouterTunables)
      → length f.history ≤ t.window_samples
      → length (update f sample t).history ≤ t.window_samples
  unfolding update
  length-update f sample t h = elim (Bool-cases (f.init && jumped f (P.of_int sample))) [
    | inl jump ↦ rw (jump, update, reset) (window_bound t.window_samples [] _ (omega arith))
    | inr stay ↦ rw (stay, update) (window_bound t.window_samples f.history _ h)
  ]

  record_loss-samples :
      (u : NylonEndpoint) (received : Bool)
      → u.loss_samples ≤ u.t.minimum_confidence_window
      → (record_loss u received).loss_samples ≤ u.t.minimum_confidence_window
  unfolding record_loss
  record_loss-samples u received h = ground arith

  sweep_from-Bounded :
      (now_ns : ℤ) (rest kept : List ℤ) (u : NylonEndpoint)
      → length kept + length rest ≤ pending_probe_cap
      → Bounded u
      → Bounded (sweep_from u now_ns rest kept)
  unfolding sweep_from
  sweep_from-Bounded now_ns [] kept u h b = record {
    pending = omega arith;
    losses = b.losses;
    outward = b.outward;
    inward = b.inward;
  }
  sweep_from-Bounded now_ns (tx_ts ∷ rest) kept u h b = elim (Bool-cases (timed_out now_ns tx_ts)) [
    | inl late ↦
        rw (late, sweep_from)
          (sweep_from-Bounded now_ns rest kept (record_loss u false) (omega arith) (
            unfold record_loss in
            record {
              pending = b.pending;
              losses = record_loss-samples u false b.losses;
              outward = b.outward;
              inward = b.inward;
            }))
    | inr ok ↦
        rw (ok, sweep_from)
          (sweep_from-Bounded now_ns rest (kept ++ tx_ts ∷ []) u
            (omega (arith, length-append kept (tx_ts ∷ []))) b)
  ]

  register_probe-Bounded :
      (u : NylonEndpoint) (tx_ts : ℤ) → Bounded u → Bounded (register_probe u tx_ts)
  unfolding register_probe
  register_probe-Bounded u tx_ts b = record {
    pending =
        let all = u.pending ++ tx_ts ∷ [] in
        ground (arith, length-drop (length all - pending_probe_cap) all);
    losses = b.losses;
    outward = b.outward;
    inward = b.inward;
  }

  cancel_probe-Bounded :
      (u : NylonEndpoint) (tx_ts : ℤ) → Bounded u → Bounded (cancel_probe u tx_ts)
  unfolding cancel_probe
  cancel_probe-Bounded u tx_ts b = elim (Option-cases (remove_first tx_ts u.pending)) [
    | inl e ↦ rw (e, cancel_probe) b
    | inr (rest, e) ↦
        let shorter = remove_first-shorter tx_ts u.pending rest e in
        rw (e, cancel_probe)
          (record {
            pending = omega (arith, shorter, b.pending);
            losses = b.losses;
            outward = b.outward;
            inward = b.inward;
          })
  ]

  observe_inbound-Bounded :
      (u : NylonEndpoint) (peer_tx rx_ns : ℤ)
      → Bounded u
      → Bounded (observe_inbound u peer_tx rx_ns)
  unfolding observe_inbound
  observe_inbound-Bounded u peer_tx rx_ns b = elim (Bool-cases (is_stale u.echo peer_tx)) [
    | inl stale ↦ rw (stale, observe_inbound) b
    | inr newer ↦
        rw (newer, observe_inbound)
          (record {
            pending = b.pending;
            losses = b.losses;
            outward = b.outward;
            inward = length-update u.owd_in (rx_ns -ℤ peer_tx) u.t b.inward;
          })
  ]

  observe_echo-Bounded :
      (u : NylonEndpoint) (origin_tx peer_rx : ℤ)
      → Bounded u
      → Bounded (observe_echo u origin_tx peer_rx).0
  unfolding observe_echo record_loss
  observe_echo-Bounded u origin_tx peer_rx b =
      elim (Option-cases (remove_first origin_tx u.pending)) [
        | inl e ↦ rw (e, observe_echo) b
        | inr (rest, e) ↦
            let shorter = remove_first-shorter origin_tx u.pending rest e in
            rw (e, observe_echo)
              (record {
                pending = omega (arith, shorter, b.pending);
                losses = record_loss-samples u true b.losses;
                outward = length-update u.owd_out (peer_rx -ℤ origin_tx) u.t b.outward;
                inward = b.inward;
              })
      ]

  renew-Bounded : (u : NylonEndpoint) (now : ℕ) → Bounded u → Bounded (renew u now)
  unfolding renew reset
  renew-Bounded u now b = elim (Bool-cases (is_active u now)) [
    | inl on ↦
        rw (on, renew)
          (record {
            pending = b.pending;
            losses = b.losses;
            outward = b.outward;
            inward = b.inward;
          })
    | inr off ↦
        rw (off, renew)
          (record {
            pending = omega arith;
            losses = omega arith;
            outward = omega arith;
            inward = omega arith;
          })
  ]

  apply-Bounded : (u : NylonEndpoint) (op : Op) → Bounded u → Bounded (apply u op)
  unfolding apply sweep_probes
  apply-Bounded u (Op.register tx_ts) b = register_probe-Bounded u tx_ts b
  apply-Bounded u (Op.cancel tx_ts) b = cancel_probe-Bounded u tx_ts b
  apply-Bounded u (Op.sweep now_ns) b =
      sweep_from-Bounded now_ns u.pending [] u (omega (arith, b.pending)) b
  apply-Bounded u (Op.inbound peer_tx rx_ns) b = observe_inbound-Bounded u peer_tx rx_ns b
  apply-Bounded u (Op.echoed origin_tx peer_rx) b = observe_echo-Bounded u origin_tx peer_rx b
  apply-Bounded u (Op.renewed now) b = renew-Bounded u now b

  apply_all-Bounded : (ops : List Op) (u : NylonEndpoint) → Bounded u → Bounded (apply_all u ops)
  unfolding apply_all
  apply_all-Bounded [] u b = b
  apply_all-Bounded (op ∷ ops) u b = apply_all-Bounded ops (apply u op) (apply-Bounded u op b)

  -- After any sequence of probes, cancellations, sweeps, receptions, echoes and renewals, a new
  -- endpoint holds at most 128 waiting probes, counts at most a confidence window of loss samples, and holds at most a
  -- window of samples in each direction.
  pub new_endpoint-Bounded :
      (remote_init : Bool) (t : RouterTunables) (counter : ℕ) (ops : List Op)
      → Bounded (apply_all (new_endpoint remote_init t counter).0 ops)
  unfolding new_endpoint fresh
  new_endpoint-Bounded remote_init t counter ops =
      apply_all-Bounded ops (new_endpoint remote_init t counter).0 (record {
        pending = omega arith;
        losses = omega arith;
        outward = omega arith;
        inward = omega arith;
      })
