-- ===== src/Metrics.antt =====
-- include/observability/Metrics.hpp and src/observability/Metrics.cpp: the process-wide counters,
-- each an atomic `uint64_t`. A call that updates several counters updates each by itself; here no
-- other thread's call comes between.
use cpp_reactor.Base.{
  ℕ, ◌+◌, ◌-◌, ◌%◌, ◌^◌, ◌<◌, ◌≡◌, ◌&&◌, List, [], ◌∷◌, ltb, leb, ◌==◌, if◌then◌else◌, arith, max,
}

pub record Metrics : Type 0 where
  pub accept_ok : ℕ
  pub accept_fail : ℕ
  pub active_connections : ℕ
  pub requests_total : ℕ
  pub responses_2xx : ℕ
  pub responses_4xx : ℕ
  pub responses_5xx : ℕ
  pub bytes_read : ℕ
  pub bytes_written : ℕ
  pub request_latency_samples : ℕ
  pub request_latency_total_us : ℕ
  pub request_latency_max_us : ℕ

abbrev pub zeros : Metrics
zeros = record {
  accept_ok = 0;
  accept_fail = 0;
  active_connections = 0;
  requests_total = 0;
  responses_2xx = 0;
  responses_4xx = 0;
  responses_5xx = 0;
  bytes_read = 0;
  bytes_written = 0;
  request_latency_samples = 0;
  request_latency_total_us = 0;
  request_latency_max_us = 0;
}

-- `fetch_add` and `fetch_sub`.
abbrev pub add64 : ℕ → ℕ → ℕ
add64 a b = (a + b) % 2 ^ 64

abbrev pub sub64 : ℕ → ℕ → ℕ
sub64 a b = (a + 2 ^ 64 - b) % 2 ^ 64

unfoldable pub on_accept_ok : Metrics → Metrics
on_accept_ok m = record m { accept_ok = add64 m.accept_ok 1 }

unfoldable pub on_accept_fail : Metrics → Metrics
on_accept_fail m = record m { accept_fail = add64 m.accept_fail 1 }

unfoldable pub on_connection_opened : Metrics → Metrics
on_connection_opened m = record m { active_connections = add64 m.active_connections 1 }

unfoldable pub on_connections_closed : ℕ → Metrics → Metrics
on_connections_closed count m =
    if count == 0 then m else record m { active_connections = sub64 m.active_connections count }

unfoldable pub on_request_parsed : Metrics → Metrics
on_request_parsed m = record m { requests_total = add64 m.requests_total 1 }

unfoldable pub on_response_status : ℕ → Metrics → Metrics
on_response_status code m =
    if leb 200 code && ltb code 300
    then record m { responses_2xx = add64 m.responses_2xx 1 }
    else if leb 400 code && ltb code 500
    then record m { responses_4xx = add64 m.responses_4xx 1 }
    else if leb 500 code && ltb code 600
    then record m { responses_5xx = add64 m.responses_5xx 1 }
    else m

unfoldable pub on_bytes_read : ℕ → Metrics → Metrics
on_bytes_read count m = record m { bytes_read = add64 m.bytes_read count }

unfoldable pub on_bytes_written : ℕ → Metrics → Metrics
on_bytes_written count m = record m { bytes_written = add64 m.bytes_written count }

-- The compare-and-swap loop succeeds at once where no other thread writes.
unfoldable pub on_request_latency_us : ℕ → Metrics → Metrics
on_request_latency_us latency m = record m {
  request_latency_samples = add64 m.request_latency_samples 1;
  request_latency_total_us = add64 m.request_latency_total_us latency;
  request_latency_max_us =
      if ltb m.request_latency_max_us latency then latency else m.request_latency_max_us;
}

-- The largest of a list of latencies, and their sum.
abbrev pub largest : List ℕ → ℕ
largest [] = 0
largest (x ∷ xs) = max x (largest xs)

abbrev pub total : List ℕ → ℕ
total [] = 0
total (x ∷ xs) = x + total xs

abbrev pub count : List ℕ → ℕ
count [] = 0
count (x ∷ xs) = count xs + 1

unfoldable pub on_latencies : List ℕ → Metrics → Metrics
on_latencies [] m = m
on_latencies (x ∷ xs) m = on_latencies xs (on_request_latency_us x m)

-- The latency counters are the number, the sum and the largest of the recorded latencies, as long
-- as number and sum stay below 2^64.
pub on_latencies_lem :
    (xs : List ℕ) (m : Metrics)
    → m.request_latency_samples + count xs < 2 ^ 64
    → m.request_latency_total_us + total xs < 2 ^ 64
    → ((on_latencies xs m).request_latency_samples ≡ m.request_latency_samples + count xs)
      × ((on_latencies xs m).request_latency_total_us ≡ m.request_latency_total_us + total xs)
      × ((on_latencies xs m).request_latency_max_us ≡ max m.request_latency_max_us (largest xs))
unfolding on_latencies on_request_latency_us
on_latencies_lem [] m h k = (omega arith, omega arith, omega arith)
on_latencies_lem (x ∷ xs) m h k =
    let m' = on_request_latency_us x m in
    let s : m'.request_latency_samples ≡ m.request_latency_samples + 1 = omega arith in
    let t : m'.request_latency_total_us ≡ m.request_latency_total_us + x = omega arith in
    let u : m'.request_latency_max_us ≡ max m.request_latency_max_us x = ground arith in
    let (a, b, c) = on_latencies_lem xs m' (omega arith) (omega arith) in
    (omega arith, omega arith, omega arith)
