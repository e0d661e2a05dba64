-- ===== src/Endpoint/Link.antt =====
-- `NylonEndpoint` of state/endpoint.go: probes, echoes, loss, and the delays of one link.
pub mod Probes
pub mod Runs
-- `now` is the reading of the clock that the method makes; `t` is the field `t`, the tunables.
use nylon.Base.{
  ℕ, ◌+◌, ◌-◌, ◌*◌, Bool, true, false, not, ◌&&◌, ◌||◌, List, [], ◌∷◌, ◌++◌, Option, none, some,
  ltb, leb, if◌then◌else◌, length, drop,
}
use nylon.Base.Int.{ℤ, pos, ◌+ℤ◌, ◌-ℤ◌, ltb_ℤ, eqb_ℤ}
use nylon.Endpoint.Filter.{
  clock_jump_reset, DelayFilter, fresh, reset, update, ready, filtered, stabilized,
}
use nylon.Base.Options.{◌>>=◌}
use nylon.Platform.{Platform}
use nylon.Tunables.{RouterTunables, second}

abbrev pub probe_timeout : ℕ
probe_timeout = 5 * second

abbrev pub echo_validity : ℕ
echo_validity = 10 * second

abbrev pub pending_probe_cap : ℕ
pending_probe_cap = 128

pub data Transport : Type 0 where
  udp fake_tcp : Transport

-- `slices.Index` and `slices.Delete` of the one element: the list without its first `x`
unfoldable pub remove_first : ℤ → List ℤ → Option (List ℤ)
remove_first x [] = none
remove_first x (y ∷ ys) =
    let rest : Option (List ℤ) = elim (remove_first x ys) [
      | none ↦ none
      | some zs ↦ some (y ∷ zs)
    ] in
    if eqb_ℤ y x then some ys else rest

module _ ⦃P : Platform⦄ where
  -- `EchoInfo` and its inputs: the newest probe of the peer and when it came
  pub record Echo : Type 0 where
    pub peer_tx : ℤ
    pub peer_tx_rx_at : ℤ

  -- `echo` is `none` while `havePeerTx` is false
  pub record NylonEndpoint : Type 0 where
    pub t : RouterTunables
    pub last_heard_back : ℕ
    pub remote_init : Bool
    pub transport : Transport
    pub link_id : ℕ
    pub owd_out : DelayFilter
    pub owd_in : DelayFilter
    pub echo : Option Echo
    pub pending : List ℤ
    pub loss_ewma : P.Float
    pub loss_init : Bool
    pub loss_samples : ℕ

  -- `linkIdCounter` is passed in and returned
  unfoldable pub new_endpoint : Bool → RouterTunables → ℕ → NylonEndpoint × ℕ
  unfolding fresh
  new_endpoint remote_init t counter = (
    record {
      t = t;
      last_heard_back = 0;
      remote_init = remote_init;
      transport = Transport.udp;
      link_id = counter + 1;
      owd_out = fresh;
      owd_in = fresh;
      echo = none;
      pending = [];
      loss_ewma = P.of_int (pos 0);
      loss_init = false;
      loss_samples = 0;
    },
    counter + 1,
  )

  -- `time.Since(u.lastHeardBack) <= u.t.LinkDeadThreshold`
  unfoldable pub is_active : NylonEndpoint → ℕ → Bool
  is_active u now = leb now (u.last_heard_back + u.t.link_dead_threshold)

  unfoldable pub renew : NylonEndpoint → ℕ → NylonEndpoint
  unfolding is_active
  renew u now = if is_active u now then record u { last_heard_back = now } else record u {
    owd_out = reset u.owd_out;
    owd_in = reset u.owd_in;
    echo = none;
    pending = [];
    loss_ewma = P.of_int (pos 0);
    loss_init = false;
    loss_samples = 0;
    last_heard_back = now;
  }

  unfoldable pub is_alive : NylonEndpoint → ℕ → Bool
  unfolding is_active
  is_alive u now = is_active u now || not u.remote_init

  unfoldable pub register_probe : NylonEndpoint → ℤ → NylonEndpoint
  register_probe u tx_ts =
      let pending = u.pending ++ tx_ts ∷ [] in
      record u {
        pending =
            if ltb pending_probe_cap (length pending)
            then drop (length pending - pending_probe_cap) pending
            else pending;
      }

  unfoldable pub cancel_probe : NylonEndpoint → ℤ → NylonEndpoint
  cancel_probe u tx_ts = elim (remove_first tx_ts u.pending) [
    | none ↦ u
    | some rest ↦ record u { pending = rest }
  ]

  unfoldable pub record_loss : NylonEndpoint → Bool → NylonEndpoint
  record_loss u received =
      let sample = (if received then P.literal 0 0 else P.literal 1 0) in
      let a = u.t.loss_smoothing_alpha in
      let mixed = P.add (P.mul a sample) (P.mul (P.sub (P.literal 1 0) a) u.loss_ewma) in
      record u {
        loss_ewma = if u.loss_init then mixed else sample;
        loss_init = true;
        loss_samples =
            if ltb u.loss_samples u.t.minimum_confidence_window
            then u.loss_samples + 1
            else u.loss_samples;
      }

  -- `nowNs - txTs > int64(ProbeTimeout)`
  unfoldable pub timed_out : ℤ → ℤ → Bool
  timed_out now_ns tx_ts = ltb_ℤ (pos probe_timeout) (now_ns -ℤ tx_ts)

  -- the loop of `SweepProbes`; what it keeps is appended to `kept`
  unfoldable pub sweep_from : NylonEndpoint → ℤ → List ℤ → List ℤ → NylonEndpoint
  unfolding timed_out record_loss
  sweep_from u now_ns [] kept = record u { pending = kept }
  sweep_from u now_ns (tx_ts ∷ rest) kept =
      sweep_from (if timed_out now_ns tx_ts then record_loss u false else u) now_ns rest
        (if timed_out now_ns tx_ts then kept else kept ++ tx_ts ∷ [])

  unfoldable pub sweep_probes : NylonEndpoint → ℤ → NylonEndpoint
  unfolding sweep_from
  sweep_probes u now_ns = sweep_from u now_ns u.pending []

  unfoldable pub echo_info : NylonEndpoint → ℤ → Option Echo
  echo_info u now_ns = elim u.echo [
    | none ↦ none
    | some e ↦ if ltb_ℤ (pos echo_validity) (now_ns -ℤ e.peer_tx_rx_at) then none else some e
  ]

  -- a probe that is not newer, unless the peer's clock went back by a minute or more
  unfoldable pub is_stale : Option Echo → ℤ → Bool
  is_stale none peer_tx = false
  is_stale (some e) peer_tx =
      not (ltb_ℤ e.peer_tx peer_tx) && ltb_ℤ (e.peer_tx -ℤ peer_tx) (pos clock_jump_reset)

  unfoldable pub observe_inbound : NylonEndpoint → ℤ → ℤ → NylonEndpoint
  unfolding is_stale
  observe_inbound u peer_tx rx_ns = if is_stale u.echo peer_tx then u else record u {
    echo = some (record { peer_tx = peer_tx; peer_tx_rx_at = rx_ns });
    owd_in = update u.owd_in (rx_ns -ℤ peer_tx) u.t;
  }

  unfoldable pub observe_echo : NylonEndpoint → ℤ → ℤ → NylonEndpoint × Bool
  unfolding record_loss
  observe_echo u origin_tx peer_rx = elim (remove_first origin_tx u.pending) [
    | none ↦ (u, false)
    | some rest ↦ (
      record_loss
          (record u { pending = rest; owd_out = update u.owd_out (peer_rx -ℤ origin_tx) u.t }) true,
      true,
    )
  ]

  -- The relative delays, out and in. The filters change as `stabilized` says; `RelDelays` reads
  -- the same values again until the next sample. A panic of `stabilized` is `none` too.
  unfoldable pub rel_delays : NylonEndpoint → Option (ℤ × ℤ)
  unfolding ready stabilized
  rel_delays u = if not (ready u.owd_out u.t) || not (ready u.owd_in u.t) then none else do
    (out, _) ← stabilized u.owd_out u.t
    (in_, _) ← stabilized u.owd_in u.t
    some (out, in_)

  unfoldable pub min_float : P.Float → P.Float → P.Float
  min_float a b = if P.lt b a then b else a

  unfoldable pub loss_rate : NylonEndpoint → P.Float
  loss_rate u =
      let zero = P.literal 0 0 in
      let l = (if P.lt u.loss_ewma zero then zero else u.loss_ewma) in
      if ltb u.loss_samples u.t.minimum_confidence_window
      then zero
      else if P.lt u.t.loss_cap l
      then u.t.loss_cap
      else l

  -- the retransmission penalty `(delay + LossRetxFloor) * p / (1 - p)` of a loss rate `p > 0`
  unfoldable pub loss_penalty : ℤ → P.Float → RouterTunables → ℤ
  loss_penalty delay p t =
      if P.lt (P.literal 0 0) p
      then P.trunc
          (P.div (P.mul (P.of_int (delay +ℤ pos t.loss_retx_floor)) p) (P.sub (P.literal 1 0) p))
      else pos 0

  unfoldable pub dir_scores : NylonEndpoint → Option (ℤ × ℤ)
  unfolding rel_delays loss_penalty min_float loss_rate
  dir_scores u = elim (rel_delays u) [
    | none ↦ none
    | some (r_out, r_in) ↦
        let pen = loss_penalty (r_out +ℤ r_in) (min_float (loss_rate u) u.t.loss_cap) u.t in
        some (r_out +ℤ pen, r_in +ℤ pen)
  ]

  unfoldable pub filtered_ping : NylonEndpoint → ℤ
  filtered_ping u =
      if not u.owd_out.init || not u.owd_in.init
      then pos 0
      else filtered u.owd_out +ℤ filtered u.owd_in

  unfoldable pub stabilized_ping : NylonEndpoint → ℤ
  unfolding rel_delays
  stabilized_ping u = elim (rel_delays u) [ none ↦ pos 0 | some (out, in_) ↦ out +ℤ in_ ]
