-- ===== src/Metrics.antt =====
-- internal/ads/metrics.go: the counters of the server and its latency histograms. Counters are uint64
-- and wrap. A histogram is its twelve buckets; what `writeHistogram` prints is a list of pairs of a bound
-- and a cumulative count.
pub mod Laws
pub mod Page
use adserver.Common.Word.{inc64}
use adserver.Common.Int.{ℤ, leb_ℤ, pos}
use adserver.Common.{ℕ, [], ◌∷◌, ◌+◌, ◌^◌, if◌then◌else◌, Bool, List, ◌%◌}

pub record Metrics : Type 0 where
  pub auctions : ℕ
  pub filled : ℕ
  pub no_bid : ℕ
  pub bad_requests : ℕ
  pub bid_mutations : ℕ
  pub bid_mutation_errors : ℕ
  pub readiness_checks : ℕ
  pub readiness_failures : ℕ
  pub decision_log_dropped : ℕ
  pub served_stale : ℕ
  pub stale_no_bid : ℕ
  pub dynamic_wins : ℕ
  pub selection_latency : List ℕ
  pub handler_latency : List ℕ

abbrev pub no_buckets : List ℕ
no_buckets = 0 ∷ 0 ∷ 0 ∷ 0 ∷ 0 ∷ 0 ∷ 0 ∷ 0 ∷ 0 ∷ 0 ∷ 0 ∷ 0 ∷ []

-- The zero value.
abbrev pub new_metrics : Metrics
new_metrics = record {
  auctions = 0;
  filled = 0;
  no_bid = 0;
  bad_requests = 0;
  bid_mutations = 0;
  bid_mutation_errors = 0;
  readiness_checks = 0;
  readiness_failures = 0;
  decision_log_dropped = 0;
  served_stale = 0;
  stale_no_bid = 0;
  dynamic_wins = 0;
  selection_latency = no_buckets;
  handler_latency = no_buckets;
}

abbrev pub latency_upper_us : List ℤ
latency_upper_us =
    pos 1
    ∷ pos 2
    ∷ pos 5
    ∷ pos 10
    ∷ pos 25
    ∷ pos 50
    ∷ pos 100
    ∷ pos 250
    ∷ pos 500
    ∷ pos 1000
    ∷ pos 5000
    ∷ pos 10000
    ∷ []

-- The loop of `observeHistogram` over the bounds and the buckets that are left.
unfoldable pub observe_from : List ℤ → List ℕ → ℤ → List ℕ
observe_from [] buckets latency = buckets
observe_from (u ∷ us) [] latency = []
observe_from (u ∷ us) (b ∷ bs) latency =
    if leb_ℤ latency u then inc64 b ∷ bs else b ∷ observe_from us bs latency

unfoldable pub observe_histogram : List ℕ → ℤ → List ℕ
observe_histogram histogram latency = observe_from latency_upper_us histogram latency

unfoldable pub record_auction : Metrics → Bool → ℤ → ℤ → Metrics
record_auction m filled selection_us handler_us = record m {
  auctions = inc64 m.auctions;
  filled = if filled then inc64 m.filled else m.filled;
  no_bid = if filled then m.no_bid else inc64 m.no_bid;
  selection_latency = observe_histogram m.selection_latency selection_us;
  handler_latency = observe_histogram m.handler_latency handler_us;
}

-- The loop of `writeHistogram`.
unfoldable pub cumulate : ℕ → List ℤ → List ℕ → List (ℤ × ℕ)
cumulate sum [] buckets = []
cumulate sum (u ∷ us) [] = []
cumulate sum (u ∷ us) (b ∷ bs) = let sum' = (sum + b) % 2 ^ 64 in (u, sum') ∷ cumulate sum' us bs

-- The lines of `writeHistogram`: the bounded buckets, the unbounded one and the count.
pub record HistogramLines : Type 0 where
  pub buckets : List (ℤ × ℕ)
  pub unbounded : ℕ
  pub count : ℕ

unfoldable pub write_histogram : List ℕ → ℕ → HistogramLines
unfolding cumulate
write_histogram histogram total = record {
  buckets = cumulate 0 latency_upper_us histogram;
  unbounded = total;
  count = total;
}
