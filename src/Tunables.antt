-- ===== src/Tunables.antt =====
-- state/tunables.go: the timing and algorithm parameters. A `time.Duration` is its nanoseconds.
use nylon.Base.{ℕ, ◌*◌, ◌/◌, ◌^◌}
use nylon.Platform.{Platform}

abbrev pub microsecond : ℕ
microsecond = 1000

abbrev pub millisecond : ℕ
millisecond = 1000 * microsecond

abbrev pub second : ℕ
second = 1000 * millisecond

module _ ⦃P : Platform⦄ where
  pub record RouterTunables : Type 0 where
    pub hop_cost : ℕ
    pub transit_cost : ℕ
    pub tcp_cost : ℕ
    pub udp_cost : ℕ
    pub large_change_threshold : ℕ
    pub seqno_request_hop_count : ℕ
    pub route_update_delay : ℕ
    pub probe_delay : ℕ
    pub probe_recovery_delay : ℕ
    pub probe_discovery_delay : ℕ
    pub starvation_delay : ℕ
    pub seqno_dedup_ttl : ℕ
    pub neighbour_io_flush_delay : ℕ
    pub ipc_dispatch_timeout : ℕ
    pub safe_mtu : ℕ
    pub window_samples : ℕ
    pub outlier_percentage : P.Float
    pub minimum_confidence_window : ℕ
    pub gc_delay : ℕ
    pub link_dead_threshold : ℕ
    pub route_expiry_time : ℕ
    pub loss_smoothing_alpha : P.Float
    pub loss_retx_floor : ℕ
    pub loss_cap : P.Float
    pub metric_smoothing_alpha : P.Float
    pub client_keepalive_interval : ℕ
    pub client_dead_threshold : ℕ
    pub central_update_delay : ℕ
    pub health_check_delay : ℕ
    pub health_check_max_failures : ℕ
    pub endpoint_resolve_expiry : ℕ
    pub endpoint_resolve_delay : ℕ
    pub max_config_size : ℕ

  unfoldable pub default_router_tunables : RouterTunables
  default_router_tunables =
      let probe_delay = millisecond * 1000 in
      let route_update_delay = second * 5 in
      record {
        hop_cost = 5;
        transit_cost = 0;
        tcp_cost = 0;
        udp_cost = 0;
        large_change_threshold = 100 * 1000;
        seqno_request_hop_count = 64;
        route_update_delay = route_update_delay;
        probe_delay = probe_delay;
        probe_recovery_delay = millisecond * 1500;
        probe_discovery_delay = second * 10;
        starvation_delay = millisecond * 100;
        seqno_dedup_ttl = second * 3;
        neighbour_io_flush_delay = millisecond * 500;
        ipc_dispatch_timeout = second;
        safe_mtu = 1200;
        window_samples = second * 60 / probe_delay;
        outlier_percentage = P.literal 5 2;
        minimum_confidence_window = second * 15 / probe_delay;
        gc_delay = millisecond * 1000;
        link_dead_threshold = 5 * probe_delay;
        route_expiry_time = 5 * route_update_delay;
        loss_smoothing_alpha = P.literal 1 1;
        loss_retx_floor = millisecond * 100;
        loss_cap = P.literal 95 2;
        metric_smoothing_alpha = P.literal 33 2;
        client_keepalive_interval = 3 * probe_delay;
        client_dead_threshold = 6 * probe_delay;
        central_update_delay = second * 10;
        health_check_delay = second * 15;
        health_check_max_failures = 3;
        endpoint_resolve_expiry = 60 * second;
        endpoint_resolve_delay = second * 15;
        max_config_size = 2 ^ 20;
      }
