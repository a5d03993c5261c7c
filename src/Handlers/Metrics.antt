-- ===== src/Handlers/Metrics.antt =====
-- `Metrics` of src/lib.rs. The counters are atomic 64-bit integers that wrap around; each of their
-- operations is one step.
use nano_rpc_gateway.Prelude.{ℕ, ◌+◌, ◌-◌, ◌%◌, ◌^◌}

pub record Metrics : Type 0 where
  pub requests : ℕ
  pub errors : ℕ
  pub active_streams : ℕ
  pub overflow_resets : ℕ
  pub upstream_reconnects : ℕ
  pub request_duration_ms_sum : ℕ
  pub request_duration_ms_count : ℕ

-- `fetch_add` and `fetch_sub`
abbrev pub fetch_add : ℕ → ℕ → ℕ
fetch_add counter n = (counter + n) % 2 ^ 64

abbrev pub fetch_sub : ℕ → ℕ → ℕ
fetch_sub counter n = (counter + 2 ^ 64 - n) % 2 ^ 64

abbrev pub count_request : Metrics → Metrics
count_request m = record m { requests = fetch_add m.requests 1 }

abbrev pub count_error : Metrics → Metrics
count_error m = record m { errors = fetch_add m.errors 1 }

-- The drop of `RequestMetricsGuard`, with the milliseconds that have elapsed, as a `u64`.
unfoldable pub drop_request : ℕ → Metrics → Metrics
drop_request elapsed m = record m {
  request_duration_ms_sum = fetch_add m.request_duration_ms_sum (elapsed % 2 ^ 64);
  request_duration_ms_count = fetch_add m.request_duration_ms_count 1;
}

abbrev pub enter_stream : Metrics → Metrics
enter_stream m = record m { active_streams = fetch_add m.active_streams 1 }

-- The drop of `ActiveStreamGuard`
unfoldable pub drop_stream : Metrics → Metrics
drop_stream m = record m { active_streams = fetch_sub m.active_streams 1 }
